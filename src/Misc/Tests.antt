-- ===== src/Misc/Tests.antt =====
-- Runs of the functions of ac_misc.c.
use libac.Prelude.{
  ℕ, ◌≡◌, ◌≢◌, refl, true, false, Option, none, some, List, [], ◌∷◌, ◌++◌, ◌+◌, ◌*◌, ◌%◌, ◌==◌,
  arith, length,
}
use libac.Prelude.Int.{pos, negsuc}
use libac.Prelude.Text.{codes}
use libac.Str.{Str}
use libac.Misc.{luhn_check, shuffle}
use libac.Misc.Luhn.{value, luhn_sum, here, there, luhn_check-luhn_sum, luhn_check-OneWrong}
use libac.Misc.Salt.{md5, sha1, sha256, sha512, passcrypt}
use libac.Misc.Salt.Laws.{Salted, passcrypt-Salted}
use libac.Misc.Shuffle.{occurs, shuffle-occurs}

-- 4539 1488 0343 6467, the last digit first
abbrev card : List ℕ
card = 7 ∷ 6 ∷ 4 ∷ 6 ∷ 3 ∷ 4 ∷ 3 ∷ 0 ∷ 8 ∷ 8 ∷ 4 ∷ 1 ∷ 9 ∷ 3 ∷ 5 ∷ 4 ∷ []

luhn_check-luhn_sum_example : luhn_check (value card) ≡ some (luhn_sum false card % 10 == 0)
luhn_check-luhn_sum_example =
    luhn_check-luhn_sum card
      (
        omega arith,
        (
          omega arith,
          (
            omega arith,
            (
              omega arith,
              (
                omega arith,
                (
                  omega arith,
                  (
                    omega arith,
                    (
                      omega arith,
                      (
                        omega arith,
                        (
                          omega arith,
                          (
                            omega arith,
                            (
                              omega arith,
                              (
                                omega arith,
                                (omega arith, (omega arith, (omega arith, omega arith))),
                              ),
                            ),
                          ),
                        ),
                      ),
                    ),
                  ),
                ),
              ),
            ),
          ),
        ),
      )
      (omega arith) (omega arith)

-- 18 passes, and so 28 does not.
eighteen_passes : luhn_check (value (8 ∷ 1 ∷ [])) ≡ some true
unfolding luhn_check value
eighteen_passes = refl

luhn_check-OneWrong_example : luhn_check (value (8 ∷ 2 ∷ [])) ≢ some true
luhn_check-OneWrong_example =
    luhn_check-OneWrong (there (here (omega arith))) (omega arith, (omega arith, omega arith))
      (omega arith, (omega arith, omega arith)) (omega arith) (omega arith) eighteen_passes

shuffle-occurs_example :
    ((l : List ℕ) × (shuffle (λ n. n + 5) (1 ∷ 2 ∷ 3 ∷ []) 3 0 ≡ (pos 0, l))
      × ((x : ℕ) → occurs x l ≡ occurs x (1 ∷ 2 ∷ 3 ∷ []))
      × (length l ≡ 3))
    × (shuffle (λ n. n + 5) (1 ∷ 2 ∷ 3 ∷ []) 3 1 ≡ (negsuc 0, 1 ∷ 2 ∷ 3 ∷ []))
shuffle-occurs_example = shuffle-occurs (λ n. n + 5) (1 ∷ 2 ∷ 3 ∷ []) 3 0 (omega arith)

abbrev crypt : Str → Str → Option Str
crypt pass salt = some (salt ++ pass)

passcrypt-Salted_example :
    Salted (passcrypt crypt (λ i. i * 7) (codes "pw") md5) (crypt (codes "pw")) (codes "$1$")
    × (passcrypt crypt (λ i. i * 7) (codes "pw") sha1 ≡ some none)
    × Salted (passcrypt crypt (λ i. i * 7) (codes "pw") sha256) (crypt (codes "pw")) (codes "$5$")
    × Salted (passcrypt crypt (λ i. i * 7) (codes "pw") sha512) (crypt (codes "pw")) (codes "$6$")
passcrypt-Salted_example = passcrypt-Salted crypt (λ i. i * 7) (codes "pw")
