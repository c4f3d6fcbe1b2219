-- ===== src/Misc/Units.antt =====
-- `ac_misc_ppb` and its units.
use libac.Prelude.{
  ℕ, ◌+◌, ◌^◌, ◌≤◌, ◌<◌, ◌≡◌, ◌⊎◌, refl, Bool, true, false, Bool-cases, inl, inr, [], ◌∷◌, ◌++◌,
  ltb, if◌then◌else◌, arith,
}
use libac.Str.{Str}
use libac.Misc.{Factor, bytes, kbytes, mbytes, gbytes, tbytes, pbytes, ebytes, Ppb, ppb}

-- The power of the base that a unit stands for, and its letter.
abbrev pub exponent : Factor → ℕ
exponent bytes = 0
exponent kbytes = 1
exponent mbytes = 2
exponent gbytes = 3
exponent tbytes = 4
exponent pbytes = 5
exponent ebytes = 6

abbrev pub base : Bool → ℕ
base si = if si then 1000 else 1024

abbrev pub letter : Factor → Str
letter bytes = []
letter kbytes = 75 ∷ []
letter mbytes = 77 ∷ []
letter gbytes = 71 ∷ []
letter tbytes = 84 ∷ []
letter pbytes = 80 ∷ []
letter ebytes = 69 ∷ []

-- "bytes", or the letter and "B" or "iB"
abbrev pub unit_name : Bool → Factor → Str
unit_name si bytes = 98 ∷ 121 ∷ 116 ∷ 101 ∷ 115 ∷ []
unit_name si f = letter f ++ (if si then 66 ∷ [] else 105 ∷ 66 ∷ [])

-- `b` is shown in a unit: it is at least one of it (or the unit is the byte) and less than one of the
-- next (or the unit is the largest), the value and the divisor give the exact quotient, and the
-- prefix is the unit's name.
pub record Shown (si : Bool) (b : ℕ) (p : Ppb) : Type 0 where
  pub at_least : (p.factor ≡ bytes) ⊎ (base si ^ exponent p.factor ≤ b)
  pub less : (p.factor ≡ ebytes) ⊎ (b < base si ^ (exponent p.factor + 1))
  pub value_is : p.value ≡ b
  pub divisor_is : p.divisor ≡ base si ^ exponent p.factor
  pub prefix_is : p.prefix ≡ unit_name si p.factor

pick :
    (P : Ppb → Type 0) {x y : Ppb} (b k : ℕ)
    → (b < k → P x)
    → (k ≤ b → P y)
    → P (if ltb b k then x else y)
pick P b k below above = elim (Bool-cases (ltb b k)) [
  | inl lt ↦ rw lt (below (ground arith))
  | inr ge ↦ rw ge (above (ground arith))
]

-- `ac_misc_ppb` shows any number of bytes in the largest unit that does not exceed it, with the
-- exact value and the unit's name; the 16 bits for a number of bytes are enough.
pub ppb-Shown : (b : ℕ) (si : Bool) → Shown si b (ppb b si)
unfolding ppb
ppb-Shown b true =
    pick (Shown true b) b 1000
      (λ lt. record {
        at_least = inl refl;
        less = inr lt;
        value_is = omega arith;
        divisor_is = refl;
        prefix_is = refl;
      })
      λ h1.
        pick (Shown true b) b 1000000
          (λ lt. record {
            at_least = inr h1;
            less = inr lt;
            value_is = refl;
            divisor_is = refl;
            prefix_is = refl;
          })
          λ h2.
            pick (Shown true b) b 1000000000
              (λ lt. record {
                at_least = inr h2;
                less = inr lt;
                value_is = refl;
                divisor_is = refl;
                prefix_is = refl;
              })
              λ h3.
                pick (Shown true b) b 1000000000000
                  (λ lt. record {
                    at_least = inr h3;
                    less = inr lt;
                    value_is = refl;
                    divisor_is = refl;
                    prefix_is = refl;
                  })
                  λ h4.
                    pick (Shown true b) b 1000000000000000
                      (λ lt. record {
                        at_least = inr h4;
                        less = inr lt;
                        value_is = refl;
                        divisor_is = refl;
                        prefix_is = refl;
                      })
                      λ h5.
                        pick (Shown true b) b 1000000000000000000
                          (λ lt. record {
                            at_least = inr h5;
                            less = inr lt;
                            value_is = refl;
                            divisor_is = refl;
                            prefix_is = refl;
                          })
                          λ h6. record {
                            at_least = inr h6;
                            less = inl refl;
                            value_is = refl;
                            divisor_is = refl;
                            prefix_is = refl;
                          }
ppb-Shown b false =
    pick (Shown false b) b 1024
      (λ lt. record {
        at_least = inl refl;
        less = inr lt;
        value_is = omega arith;
        divisor_is = refl;
        prefix_is = refl;
      })
      λ h1.
        pick (Shown false b) b 1048576
          (λ lt. record {
            at_least = inr h1;
            less = inr lt;
            value_is = refl;
            divisor_is = refl;
            prefix_is = refl;
          })
          λ h2.
            pick (Shown false b) b 1073741824
              (λ lt. record {
                at_least = inr h2;
                less = inr lt;
                value_is = refl;
                divisor_is = refl;
                prefix_is = refl;
              })
              λ h3.
                pick (Shown false b) b 1099511627776
                  (λ lt. record {
                    at_least = inr h3;
                    less = inr lt;
                    value_is = refl;
                    divisor_is = refl;
                    prefix_is = refl;
                  })
                  λ h4.
                    pick (Shown false b) b 1125899906842624
                      (λ lt. record {
                        at_least = inr h4;
                        less = inr lt;
                        value_is = refl;
                        divisor_is = refl;
                        prefix_is = refl;
                      })
                      λ h5.
                        pick (Shown false b) b 1152921504606846976
                          (λ lt. record {
                            at_least = inr h5;
                            less = inr lt;
                            value_is = refl;
                            divisor_is = refl;
                            prefix_is = refl;
                          })
                          λ h6. record {
                            at_least = inr h6;
                            less = inl refl;
                            value_is = refl;
                            divisor_is = refl;
                            prefix_is = refl;
                          }
