-- ===== src/Geo/Tests.antt =====
-- Runs on the integers, as numbers that are rounded to the next integer.
use libac.Prelude.{ℕ, zero, suc, ◌*◌, ◌+◌, ◌/◌, ◌^◌, ◌≡◌, refl, ◌∙◌, inr, arith}
use libac.Prelude.Int.{ℤ, pos, negsuc, pos_part, neg_part, sub_ℕ, ◌+ℤ◌, ◌-ℤ◌, ◌*ℤ◌, ltb_ℤ}
use native.Mathlib.Nat.{add_comm, mul_comm}
use libac.Floats.{Floats, IsIeee}
use libac.Geo.{Geo, wgs84, haversine}
use libac.Geo.Laws.{haversine_swap}

abbrev neg : ℤ → ℤ
neg (pos zero) = pos 0
neg (pos (suc n)) = negsuc n
neg (negsuc n) = pos (suc n)

neg_pos : (x : ℤ) → pos_part (neg x) ≡ neg_part x
neg_pos x = ground arith

neg_neg : (x : ℤ) → neg_part (neg x) ≡ pos_part x
neg_neg x = ground arith

-- The negated product, by its two parts
neg_sub_ℕ : (a b : ℕ) → sub_ℕ a b ≡ neg (sub_ℕ b a)
neg_sub_ℕ a b = ground arith

sub_swap_lem : (x y : ℤ) → x -ℤ y ≡ neg (y -ℤ x)
unfolding ◌-ℤ◌
sub_swap_lem x y = ground arith

mul_comm_lem : (x y : ℤ) → x *ℤ y ≡ y *ℤ x
unfolding ◌*ℤ◌
mul_comm_lem x y = λ i.
    sub_ℕ (mul_comm (pos_part x) (pos_part y) i + mul_comm (neg_part x) (neg_part y) i) (crossed i)
  where
    crossed :
        pos_part x * neg_part y + neg_part x * pos_part y
        ≡ pos_part y * neg_part x + neg_part y * pos_part x
    crossed = omega (arith, mul_comm (pos_part x) (neg_part y), mul_comm (neg_part x) (pos_part y))

neg_mul_lem : (x y : ℤ) → neg x *ℤ y ≡ neg (x *ℤ y)
unfolding ◌*ℤ◌
neg_mul_lem x y =
    rw (neg_pos x, neg_neg x)
      ((λ i.
          sub_ℕ (add_comm (neg_part x * pos_part y) (pos_part x * neg_part y) i)
            (add_comm (neg_part x * neg_part y) (pos_part x * pos_part y) i))
        ∙ neg_sub_ℕ (pos_part x * neg_part y + neg_part x * pos_part y)
            (pos_part x * pos_part y + neg_part x * neg_part y))

neg_square_lem : (x : ℤ) → neg x *ℤ neg x ≡ x *ℤ x
unfolding ◌*ℤ◌
neg_square_lem x =
    rw (neg_pos x, neg_neg x)
      (λ i.
        sub_ℕ (add_comm (neg_part x * neg_part x) (pos_part x * pos_part x) i)
          (add_comm (neg_part x * pos_part x) (pos_part x * neg_part x) i))

-- Whole numbers; a square root, a sine and the like are what is simple.
instance abbrev rounded : Floats ℤ
rounded = record {
  dec = λ m k. pos (m / 10 ^ k);
  of_int = λ n. n;
  to_int = λ x. x;
  neg = neg;
  add = λ x y. x +ℤ y;
  sub = λ x y. x -ℤ y;
  mul = λ x y. x *ℤ y;
  div = λ x y. x;
  less = ltb_ℤ;
  at_least = λ x y. ltb_ℤ y x;
  fabs = λ x. pos (pos_part x + neg_part x);
  trunc = λ x. x;
  fmod = λ x y. x;
  sqrt = λ x. x;
  pow = λ x y. x *ℤ x;
  sin = λ x. x;
  cos = λ x. x *ℤ x;
  tan = λ x. x;
  asin = λ x. x;
  atan2 = λ y x. y;
}

rounded-IsIeee : IsIeee rounded
rounded-IsIeee = record {
  sub_swap = λ x y. inr (sub_swap_lem x y);
  mul_comm = mul_comm_lem;
  neg_mul = neg_mul_lem;
  sin_neg = λ x. refl;
  neg_square = neg_square_lem;
}

abbrev place : ℤ → ℤ → Geo ℤ
place lat lon = record {
  ref = wgs84;
  lat = lat;
  lon = lon;
  alt = pos 0;
  bearing = pos 1;
  easting = pos 0;
  northing = pos 0;
}

haversine_swap_example :
    haversine (place (pos 3) (pos 1)) (place (negsuc 4) (pos 9))
    ≡ haversine (place (negsuc 4) (pos 9)) (place (pos 3) (pos 1))
haversine_swap_example =
    haversine_swap (place (pos 3) (pos 1)) (place (negsuc 4) (pos 9)) rounded-IsIeee refl
