-- ===== src/Misc/Luhn.antt =====
-- `ac_misc_luhn_check` on the decimal digits of the number.
use libac.Prelude.{
  ℕ, zero, suc, ◌+◌, ◌*◌, ◌/◌, ◌%◌, ◌^◌, ◌≤◌, ◌<◌, ◌≡◌, ◌≢◌, refl, sym, ap, ◌∙◌, Bool, true, false,
  some, List, [], ◌∷◌, ◌==◌, ltb, if◌then◌else◌, length, arith,
}
use libac.Misc.{luhn_digit, luhn_loop, luhn_check}

-- The number with the given decimal digits, the last one first.
unfoldable pub value : List ℕ → ℕ
value [] = 0
value (d ∷ ds) = d + 10 * value ds

-- Decimal digits, of which the first of the number is not 0.
abbrev pub Decimal : List ℕ → Type 0
Decimal [] = Unit
Decimal (d ∷ []) = (d < 10) × (0 < d)
Decimal (d ∷ e ∷ ds) = (d < 10) × Decimal (e ∷ ds)

abbrev other : Bool → Bool
other alt = if alt then false else true

-- The Luhn sum: every second digit is doubled and the digits of the double are added.
unfoldable pub luhn_sum : Bool → List ℕ → ℕ
luhn_sum alt [] = 0
luhn_sum alt (d ∷ ds) =
    (if alt then d * 2 / 10 + d * 2 % 10 else d) + luhn_sum (if alt then false else true) ds

abbrev weight : Bool → ℕ → ℕ
weight alt d = if alt then d * 2 / 10 + d * 2 % 10 else d

luhn_digit-weight : (alt : Bool) (d : ℕ) → d < 10 → luhn_digit alt d ≡ weight alt d
unfolding luhn_digit
luhn_digit-weight true d h = ground arith
luhn_digit-weight false d h = refl

weight-le : (alt : Bool) (d : ℕ) → d < 10 → weight alt d ≤ 9
weight-le true d h = omega arith
weight-le false d h = omega arith

value_pos : (d : ℕ) (ds : List ℕ) → Decimal (d ∷ ds) → 0 < value (d ∷ ds)
unfolding value
value_pos d [] (h, p) = omega arith
value_pos d (e ∷ ds) (h, rest) = omega (arith, value_pos e ds rest)

luhn_loop-sum :
    (f : ℕ) (d : ℕ) (ds : List ℕ) (alt : Bool) (sum : ℕ)
    → Decimal (d ∷ ds)
    → length (d ∷ ds) ≤ f
    → sum + 9 * length (d ∷ ds) < 2 ^ 32
    → luhn_loop f (value (d ∷ ds)) alt sum ≡ some (sum + luhn_sum alt (d ∷ ds))
unfolding luhn_loop value luhn_sum
luhn_loop-sum zero d ds alt sum dec fuel small = absurd (omega arith)
luhn_loop-sum (suc f) d [] alt sum (h, p) fuel small =
    let low : (d + 10 * 0) % 10 ≡ d = omega arith in
    let end : ((d + 10 * 0) / 10 == 0) ≡ true = ground arith in
    rw (low, end) (ap some (omega (arith, luhn_digit-weight alt d h, weight-le alt d h)))
luhn_loop-sum (suc f) d (e ∷ ds) alt sum (h, rest) fuel small =
    let v = value (e ∷ ds) in
    let low : (d + 10 * v) % 10 ≡ d = omega arith in
    let high : (d + 10 * v) / 10 ≡ v = omega arith in
    let more : (v == 0) ≡ false = ground (arith, value_pos e ds rest) in
    let sum' : (sum + luhn_digit alt d) % 2 ^ 32 ≡ sum + weight alt d =
      omega (arith, luhn_digit-weight alt d h, weight-le alt d h) in
    rw (low, high, more, sum')
      (luhn_loop-sum f e ds (other alt) (sum + weight alt d) rest (omega arith)
          (omega (arith, weight-le alt d h))
        ∙ ap some (omega arith))

two_digits : (d e : ℕ) (ds : List ℕ) → Decimal (e ∷ ds) → ltb (value (d ∷ e ∷ ds)) 10 ≡ false
unfolding value
two_digits d e ds rest = ground (arith, value_pos e ds rest)

-- `ac_misc_luhn_check` of a number of 2 to 20 digits passes if the Luhn sum of the digits is a
-- multiple of 10, and never runs on.
pub luhn_check-luhn_sum :
    (ds : List ℕ)
    → Decimal ds
    → 2 ≤ length ds
    → length ds ≤ 20
    → luhn_check (value ds) ≡ some (luhn_sum false ds % 10 == 0)
unfolding luhn_check
luhn_check-luhn_sum [] dec long short = absurd (omega arith)
luhn_check-luhn_sum (d ∷ []) dec long short = absurd (omega arith)
luhn_check-luhn_sum (d ∷ e ∷ ds) (h, rest) long short =
    let big : ltb (value (d ∷ e ∷ ds)) 10 ≡ false = two_digits d e ds rest in
    rw (big, luhn_loop-sum 20 d (e ∷ ds) false 0 (h, rest) short (omega arith))
      (ap (λ x. some (x % 10 == 0)) {y = luhn_sum false (d ∷ e ∷ ds)} (omega arith))

-- Two digit lists that differ in one digit.
pub data OneWrong : List ℕ → List ℕ → Type 0 where
  here : {d e : ℕ} {ds : List ℕ} → d ≢ e → OneWrong (d ∷ ds) (e ∷ ds)
  there : {d : ℕ} {ds es : List ℕ} → OneWrong ds es → OneWrong (d ∷ ds) (d ∷ es)

weight_injective : (alt : Bool) (d e : ℕ) → d < 10 → e < 10 → weight alt d ≡ weight alt e → d ≡ e
weight_injective true d e hd he same = omega arith
weight_injective false d e hd he same = same

first_digit : (d : ℕ) (ds : List ℕ) → Decimal (d ∷ ds) → d < 10
first_digit d [] (h, p) = h
first_digit d (e ∷ ds) (h, rest) = h

other_digits : (d : ℕ) (ds : List ℕ) → Decimal (d ∷ ds) → Decimal ds
other_digits d [] dec = tt
other_digits d (e ∷ ds) (h, rest) = rest

luhn_sum-OneWrong :
    (alt : Bool) {ds es : List ℕ}
    → OneWrong ds es
    → Decimal ds
    → Decimal es
    → luhn_sum alt ds % 10 ≢ luhn_sum alt es % 10
unfolding luhn_sum
luhn_sum-OneWrong alt (here {d} {e} {ds} ne) dec dec' same =
    let hd = first_digit d ds dec in
    let he = first_digit e ds dec' in
    ne (weight_injective alt d e hd he (omega (arith, weight-le alt d hd, weight-le alt e he)))
luhn_sum-OneWrong alt (there {d} {ds} {es} wrong) dec dec' same =
    luhn_sum-OneWrong (other alt) wrong (other_digits d ds dec) (other_digits d es dec')
      (omega arith)

length-OneWrong : {ds es : List ℕ} → OneWrong ds es → length ds ≡ length es
length-OneWrong (here ne) = refl
length-OneWrong (there wrong) = ap suc (length-OneWrong wrong)

-- Of two numbers of the same 2 to 20 digits but one, `ac_misc_luhn_check` does not pass both.
pub luhn_check-OneWrong :
    {ds es : List ℕ}
    → OneWrong ds es
    → Decimal ds
    → Decimal es
    → 2 ≤ length ds
    → length ds ≤ 20
    → luhn_check (value ds) ≡ some true
    → luhn_check (value es) ≢ some true
luhn_check-OneWrong {ds} {es} wrong dec dec' long short pass pass' =
    luhn_sum-OneWrong false wrong dec dec' (
      omega (
        arith,
        multiple ds dec long short pass,
        multiple es dec' (omega (arith, length-OneWrong wrong))
            (omega (arith, length-OneWrong wrong)) pass',
      ))
  where
    multiple :
        (ds : List ℕ)
        → Decimal ds
        → 2 ≤ length ds
        → length ds ≤ 20
        → luhn_check (value ds) ≡ some true
        → luhn_sum false ds % 10 ≡ 0
    multiple ds dec long short pass =
        ground (arith, sym (luhn_check-luhn_sum ds dec long short) ∙ pass)
