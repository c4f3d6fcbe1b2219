-- ===== src/Jsonw/Parse/Reals.antt =====
-- The tokens of numbers with a decimal point.
use mathlib.Core.List.{append-nil}
use libac.Prelude.{
  ℕ, ◌≡◌, ◌≢◌, refl, ap, ◌∙◌, Bool, true, Bool-cases, inl, inr, Option, none, some, [], ◌∷◌, ◌==◌,
  arith,
}
use libac.Str.{Str}
use libac.Jsonw.{reversed}
use libac.Jsonw.Parse.{
  real, scalar, is_bare, digits_value, signed, all_digits, has_point, is_fraction, bare_value,
}
use libac.Jsonw.Parse.Lex.{Lexes}
use libac.Jsonw.Parse.Strings.{reversed_twice}
use libac.Jsonw.Parse.Scalars.{all_bare, split_first}

all_digits-all_bare : (t : Str) → all_digits t ≡ true → all_bare t ≡ true
unfolding all_digits is_bare
all_digits-all_bare [] h = refl
all_digits-all_bare (c ∷ t) h = let rest = all_digits-all_bare t (ground arith) in ground arith

has_point-all_bare : (t : Str) → has_point t ≡ true → all_bare t ≡ true
unfolding has_point is_bare
has_point-all_bare [] h = refl
has_point-all_bare (c ∷ t) h = elim (Bool-cases (c == b'.')) [
  | inl point ↦ let rest = all_digits-all_bare t (ground arith) in ground arith
  | inr digit ↦ let rest = has_point-all_bare t (ground arith) in ground arith
]

is_fraction-all_bare : (t : Str) → is_fraction t ≡ true → all_bare t ≡ true
unfolding is_fraction is_bare
is_fraction-all_bare [] h = refl
is_fraction-all_bare (c ∷ t) h = elim (Bool-cases (c == b'-')) [
  | inl minus ↦ let rest = has_point-all_bare t (ground arith) in ground arith
  | inr digit ↦ has_point-all_bare (c ∷ t) (ground arith)
]

-- No integer has a character in it that is neither a digit nor its sign.
none_behind : (t acc : Str) → digits_value acc ≡ none → digits_value (reversed t acc) ≡ none
unfolding digits_value
none_behind [] acc h = h
none_behind (c ∷ t) acc h = none_behind t (c ∷ acc) (rw (digits_value, h) refl)

point_none : (acc : Str) → digits_value (b'.' ∷ acc) ≡ none
unfolding digits_value
point_none acc = by_value (digits_value acc) refl
  where
    by_value : (v : Option (ℕ × Bool)) → digits_value acc ≡ v → digits_value (b'.' ∷ acc) ≡ none
    by_value none e = rw (digits_value, e) refl
    by_value (some (n, minus)) e = rw (digits_value, e) refl

has_point-none : (t acc : Str) → has_point t ≡ true → digits_value (reversed t acc) ≡ none
unfolding has_point
has_point-none [] acc h = cc
has_point-none (c ∷ t) acc h = elim (Bool-cases (c == b'.')) [
  | inl point ↦
      let is : c ≡ b'.' = ground arith in
      none_behind t (c ∷ acc) (ap (λ d. digits_value (d ∷ acc)) is ∙ point_none acc)
  | inr digit ↦ has_point-none t (c ∷ acc) (ground arith)
]

is_fraction-none : (t : Str) → is_fraction t ≡ true → digits_value (reversed t []) ≡ none
unfolding is_fraction
is_fraction-none [] h = cc
is_fraction-none (c ∷ t) h = elim (Bool-cases (c == b'-')) [
  | inl minus ↦ has_point-none t (c ∷ []) (ground arith)
  | inr digit ↦ has_point-none (c ∷ t) [] (ground arith)
]

fraction_value : (t : Str) → is_fraction t ≡ true → bare_value (reversed t []) ≡ some (real t)
unfolding bare_value signed
fraction_value t h =
    let whole = reversed_twice t [] [] ∙ append-nil t in
    rw (bare_value, is_fraction-none t h, whole, h) refl

fraction_some : (t : Str) → is_fraction t ≡ true → ◌≢◌ {A = Str} t []
unfolding is_fraction
fraction_some [] h e = cc
fraction_some (c ∷ t) h e = cc

-- What `%f` makes of a finite number
pub real-Lexes : (t : Str) → is_fraction t ≡ true → Lexes t (scalar (real t) ∷ [])
real-Lexes t h =
    split_first t (reversed t []) (real t) (is_fraction-all_bare t h) refl (fraction_value t h)
      (fraction_some t h)
