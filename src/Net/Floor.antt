-- ===== src/Net/Floor.antt =====
-- Arithmetic of masks of leading ones.
use Prim.Native.Nat.{bit_and, min}
use native.Mathlib.Nat.{mod-lt, mod-eq_of_lt, div-add-mod', div-lt_iff_lt-mul}
use libac.Prelude.{ℕ, zero, suc, ◌+◌, ◌-◌, ◌*◌, ◌/◌, ◌%◌, ◌^◌, ◌≤◌, ◌<◌, ◌≡◌, sym, ap, ◌∙◌, arith}
use libac.Bits.{bit_and-halves, bit_and-mask, double_pow, pow-pos, pow-add}

-- The low bits do not meet the mask.
bit_and-low : (k q r m : ℕ) → r < 2 ^ k → bit_and (q * 2 ^ k + r) (m * 2 ^ k) ≡ bit_and q m * 2 ^ k
bit_and-low zero q r m h =
    let eq : q * 2 ^ 0 + r ≡ q = omega arith in
    let em : m * 2 ^ 0 ≡ m = omega arith in rw (eq, em) (omega arith)
bit_and-low (suc k) q r m h =
    let dq = double_pow q k in
    let dm = double_pow m k in
    let half : (q * 2 ^ suc k + r) / 2 ≡ q * 2 ^ k + r / 2 = omega (arith, dq) in
    let half' : (m * 2 ^ suc k) / 2 ≡ m * 2 ^ k = omega (arith, dm) in
    let even : (m * 2 ^ suc k) % 2 ≡ 0 = omega (arith, dm) in
    let small : r / 2 < 2 ^ k = omega (arith, double_pow 1 k) in
    bit_and-halves (q * 2 ^ suc k + r) (m * 2 ^ suc k)
    ∙ (λ i. bit_and (half i) (half' i) * 2 + min ((q * 2 ^ suc k + r) % 2) (even i))
    ∙ omega (arith, bit_and-low k q (r / 2) m small, double_pow (bit_and q m) k)

product : (a b : ℕ) → 0 < a → (a - 1) * b ≡ a * b - b
product zero b h = absurd (omega arith)
product (suc a) b h = grind arith

-- The bits of a number of `w` bits above the lowest `k`.
pub bit_and-floor : (w k a : ℕ) → k ≤ w → a < 2 ^ w → bit_and a (2 ^ w - 2 ^ k) ≡ a / 2 ^ k * 2 ^ k
bit_and-floor w k a le small =
    (λ i. bit_and (parts i) (mask i))
    ∙ bit_and-low k (a / 2 ^ k) (a % 2 ^ k) (2 ^ (w - k) - 1) (mod-lt a (pow-pos k))
    ∙ ap (λ x. x * 2 ^ k) (bit_and-mask (w - k) (a / 2 ^ k) ∙ mod-eq_of_lt top)
  where
    whole : 2 ^ w ≡ 2 ^ (w - k) * 2 ^ k
    whole = ap (λ x. 2 ^ x) {y = w - k + k} (omega arith) ∙ pow-add (w - k) k

    parts : a ≡ a / 2 ^ k * 2 ^ k + a % 2 ^ k
    parts = sym (div-add-mod' a (2 ^ k))

    mask : 2 ^ w - 2 ^ k ≡ (2 ^ (w - k) - 1) * 2 ^ k
    mask = omega (arith, whole, product (2 ^ (w - k)) (2 ^ k) (pow-pos (w - k)))

    top : a / 2 ^ k < 2 ^ (w - k)
    top =
        ((div-lt_iff_lt-mul {k = 2 ^ k} {x = a} {y = 2 ^ (w - k)} (pow-pos k)).1)
          (omega (arith, whole))
