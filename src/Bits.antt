-- ===== src/Bits.antt =====
-- `&` and `^` of machine words at variables: the law of the lowest digit, and what the masks of
-- ac_circ_buf.c and ac_net.c come to in arithmetic.
use Prim.Native.Nat.{bit_and, digits, min, bit_and-bitwise}
use native.Mathlib.Nat.{
  pow-suc, one-le-pow, mod_self, div-add-mod', mod-lt, mod-eq_of_lt, mul-add-mod_self_right,
}
use libac.Prelude.{
  ℕ, zero, suc, ◌+◌, ◌-◌, ◌*◌, ◌/◌, ◌%◌, ◌^◌, ◌≤◌, ◌<◌, ◌≡◌, refl, sym, ap, ◌∙◌, arith, ℕ_discrete,
}

-- More fuel than the first number gives the same digits.
and_fuel :
    (f a b : ℕ) (g : ℕ) → a ≤ f → a ≤ g → digits (λ _. 0) min f a b ≡ digits (λ _. 0) min g a b
and_fuel zero zero b zero p q = refl
and_fuel zero zero b (suc g) p q = refl
and_fuel (suc f) zero b zero p q = refl
and_fuel (suc f) zero b (suc g) p q = refl
and_fuel zero (suc a) b g p q = absurd (omega arith)
and_fuel (suc f) (suc a) b zero p q = absurd (omega arith)
and_fuel (suc f) (suc a) b (suc g) p q =
    ap (λ d. d * 2 + min (suc a % 2) (b % 2))
      (and_fuel f (suc a / 2) (b / 2) g (omega arith) (omega arith))

pub bit_and-halves : (a b : ℕ) → bit_and a b ≡ bit_and (a / 2) (b / 2) * 2 + min (a % 2) (b % 2)
bit_and-halves zero b = omega (arith, bit_and-bitwise 0 b, bit_and-bitwise 0 (b / 2))
bit_and-halves (suc a) b = omega (
  arith,
  bit_and-bitwise (suc a) b,
  bit_and-bitwise (suc a / 2) (b / 2),
  and_fuel a (suc a / 2) (b / 2) (suc a / 2) (omega arith) (omega arith),
)

bit_and-zero_below : (n a : ℕ) → a < n → bit_and a 0 ≡ 0
bit_and-zero_below zero a h = absurd (omega arith)
bit_and-zero_below (suc n) zero h = refl
bit_and-zero_below (suc n) (suc a) h =
    omega (arith, bit_and-halves (suc a) 0, bit_and-zero_below n (suc a / 2) (omega arith))

pub bit_and-zero : (a : ℕ) → bit_and a 0 ≡ 0
bit_and-zero a = bit_and-zero_below (suc a) a (omega arith)

pub double_pow : (q k : ℕ) → q * 2 ^ suc k ≡ q * 2 ^ k * 2
double_pow q k = omega (arith, ap (λ (t : ℕ). q * t) (pow-suc 2 k))

-- Shifting both sides up by `k` shifts the result up.
pub bit_and-scale : (k a b : ℕ) → bit_and (a * 2 ^ k) (b * 2 ^ k) ≡ bit_and a b * 2 ^ k
bit_and-scale zero a b =
    let ea : a * 2 ^ 0 ≡ a = omega arith in
    let eb : b * 2 ^ 0 ≡ b = omega arith in rw (ea, eb) (omega arith)
bit_and-scale (suc k) a b =
    rw (double_pow a k, double_pow b k, double_pow (bit_and a b) k)
      (omega (
        arith,
        bit_and-halves (a * 2 ^ k * 2) (b * 2 ^ k * 2),
        bit_and-scale k a b,
        ap (λ (t : ℕ). bit_and t (b * 2 ^ k)) (half (a * 2 ^ k)),
        ap (λ (t : ℕ). bit_and (a * 2 ^ k * 2 / 2) t) (half (b * 2 ^ k)),
      ))
  where
    half : (x : ℕ) → x * 2 / 2 ≡ x
    half x = omega arith

pub pow-pos : (k : ℕ) → 0 < 2 ^ k
pow-pos k = one-le-pow k 2 (omega arith)

-- `x & (2 ^ k - 1)` is the remainder by `2 ^ k`.
pub bit_and-mask : (k x : ℕ) → bit_and x (2 ^ k - 1) ≡ x % 2 ^ k
bit_and-mask zero x = rw bit_and-zero (omega arith)
bit_and-mask (suc k) x =
    bit_and-halves x (2 ^ suc k - 1)
    ∙ ap (λ m. bit_and (x / 2) m * 2 + min (x % 2) ((2 ^ suc k - 1) % 2)) lower
    ∙ ap (λ d. d * 2 + min (x % 2) ((2 ^ suc k - 1) % 2)) (bit_and-mask k (x / 2))
    ∙ ap (λ b. x / 2 % 2 ^ k * 2 + min (x % 2) b) odd
    ∙ join
  where
    p : ℕ
    p = 2 ^ k

    q : ℕ
    q = x / 2 / p

    r : ℕ
    r = x / 2 % p * 2 + min (x % 2) 1

    split : q * 2 ^ suc k + r ≡ x
    split = omega (arith, double_pow q k, div-add-mod' (x / 2) p)

    join : r ≡ x % 2 ^ suc k
    join =
        sym (mod-eq_of_lt (omega (arith, mod-lt (x / 2) (pow-pos k), pow-suc 2 k)))
        ∙ sym (mul-add-mod_self_right q (2 ^ suc k) r)
        ∙ ap (λ t. t % 2 ^ suc k) split

    lower : (2 ^ suc k - 1) / 2 ≡ 2 ^ k - 1
    lower = omega (arith, pow-suc 2 k, pow-pos k)

    odd : (2 ^ suc k - 1) % 2 ≡ 1
    odd = omega (arith, pow-suc 2 k, pow-pos k)

-- Sums of exponents.
pub pow-add : (m n : ℕ) → 2 ^ (m + n) ≡ 2 ^ m * 2 ^ n
pow-add zero n = ap (λ t. 2 ^ t) zero_add ∙ omega arith
  where
    zero_add : 0 + n ≡ n
    zero_add = omega arith
pow-add (suc m) n =
    ap (λ t. 2 ^ t) shift
    ∙ pow-suc 2 (m + n)
    ∙ omega (arith, ap (λ (t : ℕ). t * 2 ^ n) (pow-suc 2 m), ap (λ (t : ℕ). t * 2) (pow-add m n))
  where
    shift : suc m + n ≡ suc (m + n)
    shift = omega arith

-- `x & x` is `x`.
bit_and_self_below : (n x : ℕ) → x < n → bit_and x x ≡ x
bit_and_self_below zero x h = absurd (omega arith)
bit_and_self_below (suc n) zero h = refl
bit_and_self_below (suc n) (suc x) h =
    omega (arith, bit_and-halves (suc x) (suc x), bit_and_self_below n (suc x / 2) (omega arith))

pub bit_and_self : (x : ℕ) → bit_and x x ≡ x
bit_and_self x = bit_and_self_below (suc x) x (omega arith)

-- `x & (x - 1)` vanishes at the powers of two, and only there.
pub bit_and-pred_pow : (k : ℕ) → bit_and (2 ^ k) (2 ^ k - 1) ≡ 0
bit_and-pred_pow k = bit_and-mask k (2 ^ k) ∙ mod_self (2 ^ k)

pow_of_bit_and-pred_below :
    (n x : ℕ) → x < n → 0 < x → bit_and x (x - 1) ≡ 0 → (k : ℕ) × (x ≡ 2 ^ k)
pow_of_bit_and-pred_below zero x h pos e = absurd (omega arith)
pow_of_bit_and-pred_below (suc n) x h pos e = elim (ℕ_discrete (x % 2) 0) [
  | yes even ↦
      let lower : (x - 1) / 2 ≡ x / 2 - 1 = omega arith in
      let less : bit_and (x / 2) (x / 2 - 1) ≡ 0 =
        omega (arith, bit_and-halves x (x - 1), ap (λ m. bit_and (x / 2) m) lower) in
      let (k, e') = pow_of_bit_and-pred_below n (x / 2) (omega arith) (omega arith) less in
      (suc k, omega (arith, pow-suc 2 k))
  | no odd ↦
      let lower : (x - 1) / 2 ≡ x / 2 = omega arith in
      (
        0,
        omega (
          arith,
          bit_and-halves x (x - 1),
          ap (λ m. bit_and (x / 2) m) lower,
          bit_and_self (x / 2),
        ),
      )
]

pub pow_of_bit_and-pred : (x : ℕ) → 0 < x → bit_and x (x - 1) ≡ 0 → (k : ℕ) × (x ≡ 2 ^ k)
pow_of_bit_and-pred x = pow_of_bit_and-pred_below (suc x) x (omega arith)
