-- ===== src/Jsonw/Parse/Scalars.antt =====
-- The tokens of words and numbers.
use mathlib.Core.List.{append-nil}
use libac.Prelude.{
  ℕ, zero, suc, ◌+◌, ◌-◌, ◌*◌, ◌/◌, ◌%◌, ◌^◌, ◌<◌, ◌≡◌, ◌≢◌, refl, sym, ap, ◌∙◌, Bool, true, false,
  ◌&&◌, Bool-cases, inl, inr, Option, some, [], ◌∷◌, ◌++◌, leb, ◌==◌, if◌then◌else◌, arith,
}
use libac.Prelude.Int.{ℤ, pos, negsuc}
use libac.Prelude.Text.{codes}
use libac.Str.{Str, same_str}
use libac.Jsonw.{reversed, digits, decimal}
use libac.Jsonw.Parse.{
  Value, number, truth, nothing, scalar, outside, in_bare, is_bare, digits_value, signed, has_point,
  is_fraction, word, bare_value, add, one, lex,
}
use libac.Jsonw.Parse.Lex.{delimits, Lexes}
use libac.Jsonw.Parse.Strings.{reversed_twice}

-- A number or word ends at a delimiter.
bare_ends :
    (acc s : Str) (c : ℕ)
    → delimits c ≡ true
    → lex (in_bare acc) (c ∷ s) ≡ add (one (bare_value acc)) (lex outside (c ∷ s))
unfolding lex
bare_ends acc s c ends =
    let no_quote : (c == b'"') ≡ false = ground arith in
    let no_bare : is_bare c ≡ false = ground arith in rw (lex, no_quote, no_bare) refl

abbrev pub all_bare : Str → Bool
all_bare [] = true
all_bare (c ∷ t) = is_bare c && all_bare t

bare_run :
    (t acc u : Str)
    → all_bare t ≡ true
    → lex (in_bare acc) (t ++ u) ≡ lex (in_bare (reversed t acc)) u
unfolding lex
bare_run [] acc u b = refl
bare_run (c ∷ t) acc u b =
    let first : is_bare c ≡ true = ground arith in
    let rest : all_bare t ≡ true = ground arith in rw (lex, first) (bare_run t (c ∷ acc) u rest)

bare_starts : (c : ℕ) (s : Str) → is_bare c ≡ true → lex outside (c ∷ s) ≡ lex (in_bare (c ∷ [])) s
unfolding lex
bare_starts c s b =
    let no_quote : (c == b'"') ≡ false = unfold is_bare in ground arith in
    rw (lex, no_quote, b) refl

-- A number or word that is written backwards in `acc`
bare-Lexes :
    (a : ℕ) (t acc : Str) (v : Value)
    → is_bare a ≡ true
    → all_bare t ≡ true
    → reversed t (a ∷ []) ≡ acc
    → bare_value acc ≡ some v
    → Lexes (a ∷ t) (scalar v ∷ [])
bare-Lexes a t acc v first rest back is c s ends =
    bare_starts a (t ++ c ∷ s) first
    ∙ bare_run t (a ∷ []) (c ∷ s) rest
    ∙ ap (λ r. lex (in_bare r) (c ∷ s)) back
    ∙ bare_ends acc s c ends
    ∙ ap (λ o. add (one o) (lex outside (c ∷ s))) is
    ∙ (unfold one in refl)

pub true-Lexes : Lexes (codes "true") (scalar (truth true) ∷ [])
unfolding is_bare bare_value digits_value signed is_fraction has_point word same_str
true-Lexes = bare-Lexes b't' (codes "rue") (codes "eurt") (truth true) refl refl refl refl

pub false-Lexes : Lexes (codes "false") (scalar (truth false) ∷ [])
unfolding is_bare bare_value digits_value signed is_fraction has_point word same_str
false-Lexes = bare-Lexes b'f' (codes "alse") (codes "eslaf") (truth false) refl refl refl refl

pub null-Lexes : Lexes (codes "null") (scalar nothing ∷ [])
unfolding is_bare bare_value digits_value signed is_fraction has_point word same_str
null-Lexes = bare-Lexes b'n' (codes "ull") (codes "llun") nothing refl refl refl refl

digit_step :
    (m d : ℕ) (t : Str) (minus : Bool)
    → d < 10
    → digits_value t ≡ some (m, minus)
    → digits_value ((b'0' + d) ∷ t) ≡ some (m * 10 + d, minus)
unfolding digits_value
digit_step m d t minus small is =
    let digit : leb b'0' (b'0' + d) && leb (b'0' + d) b'9' ≡ true = ground arith in
    let value : b'0' + d - b'0' ≡ d = omega arith in
    rw (digits_value, is, digit, value) (by_sign minus)
  where
    by_sign :
        (b : Bool)
        → ◌≡◌ {A = Option (ℕ × Bool)}
            (if b then some (m * 10 + d, true) else some (m * 10 + d, false))
            (some (m * 10 + d, b))
    by_sign true = refl
    by_sign false = refl

-- The digits of a number have its value, with a sign or without.
digits_value-digits :
    (f n : ℕ) (tail : Str) (minus : Bool)
    → n < 10 ^ f
    → digits_value tail ≡ some (0, minus)
    → digits_value (digits f n ++ tail) ≡ some (n, minus)
unfolding digits
digits_value-digits zero n tail minus small is =
    is ∙ ap (λ k. some (k, minus)) {x = 0} {y = n} (omega arith)
digits_value-digits (suc f) n tail minus small is =
    let ih : digits_value (digits f (n / 10) ++ tail) ≡ some (n / 10, minus) =
      digits_value-digits f (n / 10) tail minus (omega arith) is in
    digit_step (n / 10) (n % 10) _ minus (omega arith) (higher ih)
    ∙ ap (λ k. some (k, minus)) {x = n / 10 * 10 + n % 10} {y = n} (omega arith)
  where
    higher :
        digits_value (digits f (n / 10) ++ tail) ≡ some (n / 10, minus)
        → digits_value ((if n / 10 == 0 then [] else digits f (n / 10)) ++ tail)
          ≡ some (n / 10, minus)
    higher ih = elim (Bool-cases (n / 10 == 0)) [
      | inl none_left ↦
          rw (none_left) (is ∙ ap (λ k. some (k, minus)) {x = 0} {y = n / 10} (ground arith))
      | inr more ↦ rw (more) ih
    ]

all_bare-append : (t u : Str) → all_bare t ≡ true → all_bare u ≡ true → all_bare (t ++ u) ≡ true
all_bare-append [] u ht hu = hu
all_bare-append (c ∷ t) u ht hu =
    let first : is_bare c ≡ true = ground arith in
    let rest = all_bare-append t u (ground arith) hu in rw (first) rest

all_bare-reversed :
    (t acc : Str) → all_bare t ≡ true → all_bare acc ≡ true → all_bare (reversed t acc) ≡ true
all_bare-reversed [] acc ht hacc = hacc
all_bare-reversed (c ∷ t) acc ht hacc = all_bare-reversed t (c ∷ acc) (ground arith) (ground arith)

digit_bare : (n : ℕ) → is_bare (b'0' + n % 10) ≡ true
unfolding is_bare
digit_bare n = ground arith

all_bare-digits : (f n : ℕ) → all_bare (digits f n) ≡ true
unfolding digits
all_bare-digits zero n = refl
all_bare-digits (suc f) n =
    let first = digit_bare n in
    let ih = all_bare-digits f (n / 10) in
    elim (Bool-cases (n / 10 == 0)) [
      | inl none_left ↦ rw (first, none_left) refl
      | inr more ↦ rw (first, more) ih
    ]

-- The first character and the others of a text that is not empty
pub split_first :
    (t : Str) (acc : Str) (v : Value)
    → all_bare t ≡ true
    → reversed t [] ≡ acc
    → bare_value acc ≡ some v
    → ◌≢◌ {A = Str} t []
    → Lexes t (scalar v ∷ [])
split_first [] acc v b back is some_left = absurd (some_left refl)
split_first (a ∷ t) acc v b back is some_left =
    bare-Lexes a t acc v (ground arith) (ground arith) back is

-- The values of an `int64_t`
abbrev pub Int64 : ℤ → Type 0
Int64 (pos n) = n < 2 ^ 63
Int64 (negsuc n) = n < 2 ^ 63

digits_some : (n : ℕ) → ◌≢◌ {A = Str} (digits 19 n) []
unfolding digits
digits_some n e = cc

-- A text that reads its digits, and perhaps a sign
digits-number :
    (n : ℕ) (tail : Str) (minus : Bool) (v : Value)
    → n < 10 ^ 19
    → digits_value tail ≡ some (0, minus)
    → signed (some (n, minus)) ≡ some v
    → bare_value (digits 19 n ++ tail) ≡ some v
unfolding bare_value
digits-number n tail minus v small is number_is =
    let value = ap signed (digits_value-digits 19 n tail minus small is) ∙ number_is in
    rw (bare_value, value) refl

pos-Lexes : (n : ℕ) → n < 2 ^ 63 → Lexes (decimal (pos n)) (scalar (number (pos n)) ∷ [])
unfolding decimal digits_value signed
pos-Lexes n small =
    let ds : Str = digits 19 n in
    let back : reversed (reversed ds []) [] ≡ ds ++ [] = reversed_twice ds [] [] in
    split_first (reversed ds []) (ds ++ []) (number (pos n))
      (all_bare-reversed ds [] (all_bare-digits 19 n) refl) back
      (digits-number n [] false (number (pos n)) (omega arith) refl refl)
      (λ empty. digits_some n (sym (append-nil ds) ∙ sym back ∙ ap (λ t. reversed t []) empty))

negsuc-Lexes : (n : ℕ) → n < 2 ^ 63 → Lexes (decimal (negsuc n)) (scalar (number (negsuc n)) ∷ [])
unfolding decimal digits_value signed same_str is_bare
negsuc-Lexes n small =
    let ds : Str = digits 19 (n + 1) in
    bare-Lexes b'-' (reversed ds []) (ds ++ b'-' ∷ []) (number (negsuc n)) refl
      (all_bare-reversed ds [] (all_bare-digits 19 (n + 1)) refl) (reversed_twice ds [] (b'-' ∷ []))
      (digits-number (n + 1) (b'-' ∷ []) true (number (negsuc n)) (omega arith) refl
        (ap (λ k. signed (some (k, true))) {x = n + 1} {y = suc n} (omega arith)))

-- What the conversion of an `int64_t` writes
pub decimal-Lexes : (n : ℤ) → Int64 n → Lexes (decimal n) (scalar (number n) ∷ [])
decimal-Lexes (pos n) small = pos-Lexes n small
decimal-Lexes (negsuc n) small = negsuc-Lexes n small
