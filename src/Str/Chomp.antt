-- ===== src/Str/Chomp.antt =====
-- `ac_str_chomp`.
use mathlib.Core.List
use mathlib.Core.List.{reverse-cons, reverse-reverse, reverse-append}
use libac.Prelude.{
  ℕ, ◌≡◌, refl, sym, ap, ◌∙◌, Bool, true, false, ◌&&◌, ◌⊎◌, Bool-cases, inl, inr, Option, none,
  some, [], ◌∷◌, ◌++◌, arith,
}
use libac.Str.{Str, is_white, chomp_back, chomp}

pub all_white : Str → Bool
all_white [] = true
all_white (c ∷ s) = is_white c && all_white s

all_white-append : (s t : Str) → all_white (s ++ t) ≡ (all_white s && all_white t)
unfolding all_white
all_white-append [] t = refl
all_white-append (c ∷ s) t = ground (arith, all_white-append s t)

all_white-reverse : (s : Str) → all_white (List.reverse s) ≡ all_white s
unfolding all_white
all_white-reverse [] = refl
all_white-reverse (c ∷ s) =
    ap all_white (reverse-cons c s)
    ∙ all_white-append (List.reverse s) (c ∷ [])
    ∙ ground (arith, all_white-reverse s)

-- The white bytes that the loop passes, and the byte it stops at.
Stops : Str → Option Str → Type 0
Stops s run =
    ((all_white s ≡ true) × (run ≡ none))
    ⊎ ((w : Str) × (c : ℕ) × (r : Str) × (run ≡ some (c ∷ r))
        × (s ≡ w ++ c ∷ r)
        × (all_white w ≡ true)
        × (is_white c ≡ false))

chomp_back-Stops : (s : Str) → Stops s (chomp_back s)
unfolding Stops chomp_back all_white
chomp_back-Stops [] = inl (refl, refl)
chomp_back-Stops (b ∷ s) = elim (Bool-cases (is_white b)) [
  | inr black ↦ inr ([], b, s, rw black refl, refl, refl, black)
  | inl white ↦ elim (chomp_back-Stops s) [
    | inl (all, off) ↦ inl (ground arith, rw white off)
    | inr (w, c, r, run, cut, ws, stop) ↦
        inr (b ∷ w, c, r, rw white run, ap (◌∷◌ b) cut, ground arith, stop)
  ]
]

chomp-run :
    (s : Str) (o : Option Str)
    → chomp_back (List.reverse s) ≡ o
    → chomp s ≡ elim o [ none ↦ none | some r ↦ some (List.reverse r) ]
unfolding chomp
chomp-run s o e = ap (λ (o : Option Str). elim o [ none ↦ none | some r ↦ some (List.reverse r) ]) e

-- `ac_str_chomp` of a string of white space only, or of none, reads the byte before the string; of
-- any other it leaves what is before the white space at the end, and the last byte left is not white.
pub chomp_lem :
    (s : Str)
    → ((all_white s ≡ true) × (chomp s ≡ none))
      ⊎ ((p : Str) × (c : ℕ) × (w : Str) × (chomp s ≡ some (p ++ c ∷ []))
          × (s ≡ (p ++ c ∷ []) ++ w)
          × (all_white w ≡ true)
          × (is_white c ≡ false))
unfolding Stops
chomp_lem s = elim (chomp_back-Stops (List.reverse s)) [
  | inl (all, off) ↦ inl (sym (all_white-reverse s) ∙ all, chomp-run s none off)
  | inr (w, c, r, run, cut, ws, stop) ↦ inr (
    List.reverse r,
    c,
    List.reverse w,
    chomp-run s (some (c ∷ r)) run ∙ ap some (reverse-cons c r),
    sym (reverse-reverse s)
        ∙ ap List.reverse cut
        ∙ reverse-append w (c ∷ r)
        ∙ ap (λ x. x ++ List.reverse w) (reverse-cons c r),
    all_white-reverse w ∙ ws,
    stop,
  )
]
