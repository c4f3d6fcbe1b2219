-- ===== src/Uuid/Tests.antt =====
-- A run with a file that has one byte more than a UUID.
use libac.Prelude.{
  ℕ, ◌≡◌, ◌≢◌, ◌∙◌, ◌⊎◌, refl, sym, ap, Bool, false, Option, none, some, List, [], ◌∷◌, length,
  length-take, take, replicate, arith,
}
use libac.Prelude.Erase.{erase}
use libac.Str.{Str}
use libac.Uuid.{uuid4_len, uuid_file, Calls, gen_uuid4}
use libac.Uuid.Laws.{IsStdio, Ends, gen_uuid4-Reads}

-- The open streams
abbrev World : Type 0
World = List ℕ

abbrev text : Str
text = replicate 37 b'a'

abbrev calls : Calls World
calls = record {
  fopen = λ path w. (some 5, 5 ∷ w);
  fread = λ fp n w. (take n text, w);
  fclose = λ fp w. erase fp w;
}

result_number : (k n : ℕ) → ◌≡◌ {A = Option ℕ} (some k) (some n) → k ≡ n
result_number k n e = cc

some_none : (n : ℕ) → ◌≢◌ {A = Option ℕ} (some n) none
some_none n e = cc

calls-IsStdio : IsStdio calls (λ w. w)
calls-IsStdio = record {
  opened = λ path w w' fp run.
      sym (ap (λ (r : Option ℕ × World). r.1) run)
      ∙ ap (λ n. n ∷ w) (result_number 5 fp (ap (λ (r : Option ℕ × World). r.0) run));
  not_opened = λ path w w' run. absurd (some_none 5 (ap (λ (r : Option ℕ × World). r.0) run));
  at_most = λ fp n w. omega (arith, length-take n text);
  read_same = λ fp n w. refl;
  closed = λ fp w. refl;
}

gen_uuid4-Reads_example :
    (ok : Bool) × (buf : List ℕ) × (w' : World) × (gen_uuid4 calls (replicate 37 1) []
      ≡ (ok, buf, w'))
    × (w' ≡ [])
    × (length buf ≡ 37)
    × (((ok ≡ false) × (calls.fopen uuid_file [] ≡ (none, w')))
        ⊎ ((fp : ℕ) × (v : World) × (calls.fopen uuid_file [] ≡ (some fp, v))
            × Ends calls (λ w. w) ((calls.fread fp uuid4_len v).0) (ok, buf)))
gen_uuid4-Reads_example = gen_uuid4-Reads calls (λ w. w) (replicate 37 1) [] calls-IsStdio refl
