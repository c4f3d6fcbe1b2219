-- ===== src/Floats.antt =====
-- The `double`s of C and the functions of math.h, as an interface.
--
-- A literal that is whole is `int n`, another one is `dec m k`, the double nearest to m / 10 ^ k.
use libac.Prelude.{ℕ, ◌≡◌, ◌⊎◌, Bool}
use libac.Prelude.Int.{ℤ, pos}

-- The operations. `atan2 y x` and `pow x y` are as in math.h, `to_int` is the conversion to `int`.
pub record Floats (F : Type 0) : Type 0 where
  pub dec : ℕ → ℕ → F
  pub of_int : ℤ → F
  pub to_int : F → ℤ
  pub neg : F → F
  pub add : F → F → F
  pub sub : F → F → F
  pub mul : F → F → F
  pub div : F → F → F
  pub less : F → F → Bool
  pub at_least : F → F → Bool
  pub fabs : F → F
  pub trunc : F → F
  pub fmod : F → F → F
  pub sqrt : F → F
  pub pow : F → F → F
  pub sin : F → F
  pub cos : F → F
  pub tan : F → F
  pub asin : F → F
  pub atan2 : F → F → F

module _ {F : Type 0} ⦃f : Floats F⦄ where
  infixl 65 ◌+F◌ ◌-F◌
  infixl 70 ◌*F◌ ◌/F◌
  abbrev pub ◌+F◌ : F → F → F
  x +F y = f.add x y

  abbrev pub ◌-F◌ : F → F → F
  x -F y = f.sub x y

  abbrev pub ◌*F◌ : F → F → F
  x *F y = f.mul x y

  abbrev pub ◌/F◌ : F → F → F
  x /F y = f.div x y

  abbrev pub int : ℕ → F
  int n = f.of_int (pos n)

-- What IEEE 754 says of exact changes of sign, all NaNs taken as one, and of `*`; and that the sine is
-- odd. The first law is not stated for equal numbers, whose difference is +0 both ways.
pub record IsIeee {F : Type 0} (f : Floats F) : Type 0 where
  pub sub_swap : (x y : F) → (x ≡ y) ⊎ (f.sub x y ≡ f.neg (f.sub y x))
  pub mul_comm : (x y : F) → f.mul x y ≡ f.mul y x
  pub neg_mul : (x y : F) → f.mul (f.neg x) y ≡ f.neg (f.mul x y)
  pub sin_neg : (x : F) → f.sin (f.neg x) ≡ f.neg (f.sin x)
  pub neg_square : (x : F) → f.mul (f.neg x) (f.neg x) ≡ f.mul x x
