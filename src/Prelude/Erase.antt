-- ===== src/Prelude/Erase.antt =====
-- A list of numbers without one of them.
use Prim.Native.Nat.{ℕ}
use mathlib.Core.Path.{◌≡◌}
use mathlib.Core.List.{List, [], ◌∷◌}
use native.Mathlib.Omega.{arith}
use libac.Prelude.Tests.{◌==◌, if◌then◌else◌}

-- A list without the first place of a number
abbrev pub erase : ℕ → List ℕ → List ℕ
erase n [] = []
erase n (m ∷ ms) = if n == m then ms else m ∷ erase n ms

pub erase-first : (n : ℕ) (ms : List ℕ) → erase n (n ∷ ms) ≡ ms
erase-first n ms = ground arith

pub erase-second :
    (a b : ℕ) (ms : List ℕ) → erase b (a ∷ ms) ≡ a ∷ ms → erase b (erase a (b ∷ a ∷ ms)) ≡ ms
erase-second a b ms apart = ground arith
