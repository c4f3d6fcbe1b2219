-- ===== src/JsonLoad/Tests.antt =====
-- A run with a file that is read one byte at a time.
use mathlib.Core.Path.{transport}
use libac.Prelude.{
  ℕ, ◌≡◌, ◌≢◌, ◌∙◌, refl, sym, ap, Option, none, some, List, [], ◌∷◌, ◌++◌, drop, length, arith,
}
use libac.Prelude.Erase.{erase}
use libac.Prelude.Int.{ℤ, pos, negsuc}
use libac.Prelude.Text.{codes}
use libac.Str.{Str, has_byte}
use libac.JsonLoad.{Calls, load_from_file}
use libac.JsonLoad.Laws.{IsFiles, Loaded, load_from_file-Loads}

-- The open descriptors, and what is unread of the only file
abbrev World : Type 0
World = List ℕ × Str

abbrev text : Str
text = codes "x{}"

abbrev open_file : Str → World → Option ℕ × World
open_file path w = (some 3, (3 ∷ w.0, text))

abbrev seek : ℕ → ℤ → World → World
seek fd (pos n) w = (w.0, drop n text)
seek fd (negsuc n) w = w

abbrev read : ℕ → World → Option Str × World
read fd (open_fds, []) = (some [], (open_fds, []))
read fd (open_fds, c ∷ s) = (some (c ∷ []), (open_fds, s))

abbrev calls : Calls World
calls = record {
  open_file = open_file;
  lseek = seek;
  read = read;
  close = λ fd w. (erase fd (w.0), w.1);
}

abbrev text_or : Option Str → Str
text_or none = []
text_or (some s) = s

abbrev Got : Str → Option Str × World → Type 0
Got u x = u ≡ text_or (x.0) ++ x.1.1

read-Got : (fd : ℕ) (w : World) → Got (w.1) (read fd w)
read-Got fd (open_fds, []) = refl
read-Got fd (open_fds, c ∷ s) = refl

read-at_end : (fd : ℕ) (w w' : World) → read fd w ≡ (some [], w') → w.1 ≡ []
read-at_end fd (open_fds, []) w' run = refl
read-at_end fd (open_fds, c ∷ s) w' run =
    absurd (omega (arith, ap (λ (r : Option Str × World). length (text_or (r.0))) run))

read_same : (fd : ℕ) (w : World) → (read fd w).1.0 ≡ w.0
read_same fd (open_fds, []) = refl
read_same fd (open_fds, c ∷ s) = refl

result_number : (k n : ℕ) → ◌≡◌ {A = Option ℕ} (some k) (some n) → k ≡ n
result_number k n e = cc

opens : (path : Str) (w w' : World) → ◌≢◌ {A = Option ℕ × World} (open_file path w) (none, w')
opens path w w' run = some_none 3 (ap (λ (r : Option ℕ × World). r.0) run)
  where
    some_none : (n : ℕ) → ◌≢◌ {A = Option ℕ} (some n) none
    some_none n e = cc

calls-IsFiles : IsFiles calls (λ path w. text) (λ fd w. text) (λ fd w. w.1) (λ w. w.0)
calls-IsFiles = record {
  opened = λ path w w' fd run.
      let number = result_number 3 fd (ap (λ (r : Option ℕ × World). r.0) run) in
      (ap (λ (r : Option ℕ × World). r.1.0) (sym run) ∙ ap (λ n. n ∷ w.0) number, refl);
  not_opened = λ path w w' run. absurd (opens path w w' run);
  sought = λ fd n w. (refl, refl);
  got = λ fd w w' s run. transport (λ i. Got (w.1) (run i)) (read-Got fd w);
  at_end = read-at_end;
  read_same = read_same;
  closed = λ fd w. refl;
}

load_from_file-Loads_example :
    (r : Option Str) × (w' : World) × (load_from_file calls 3 (codes "f") (pos 1) ([], [])
      ≡ some (r, w'))
    × (w'.0 ≡ [])
    × Loaded calls
        (λ path w. text)
        (λ fd w. text)
        (λ fd w. w.1)
        (λ w. w.0)
        (codes "f")
        1
        ([], [])
        (open_file (codes "f") ([], []))
        r
        w'
unfolding has_byte
load_from_file-Loads_example =
    load_from_file-Loads calls (λ path w. text) (λ fd w. text) (λ fd w. w.1) (λ w. w.0) 3 1
      (codes "f") ([], []) calls-IsFiles refl (omega arith)
