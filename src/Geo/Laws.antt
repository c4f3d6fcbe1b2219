-- ===== src/Geo/Laws.antt =====
-- Distances: what an exchange of the points does to them.
use libac.Prelude.{◌≡◌, sym, ap, ◌∙◌, inl, inr}
use libac.Floats.{Floats, ◌+F◌, ◌*F◌, int, IsIeee}
use libac.Geo.{Geo, deg_to_rad, half_square, haversine, equatorial}

module _ {F : Type 0} ⦃f : Floats F⦄ where
  half_square_swap : (x y : F) → IsIeee f → half_square x y ≡ half_square y x
  unfolding half_square
  half_square_swap x y laws = elim (laws.sub_swap x y) [
    | inl same ↦ ap (λ z. half_square x z) (sym same) ∙ ap (λ z. half_square z x) same
    | inr swapped ↦
        let arc : F = f.mul (f.sub y x) deg_to_rad in
        let turned : f.sin (f.mul (f.mul (f.sub x y) deg_to_rad) (f.dec 5 1))
            ≡ f.neg (f.sin (f.mul arc (f.dec 5 1))) =
          ap (λ d. f.sin (f.mul (f.mul d deg_to_rad) (f.dec 5 1))) swapped
          ∙ ap (λ d. f.sin (f.mul d (f.dec 5 1))) (laws.neg_mul (f.sub y x) deg_to_rad)
          ∙ ap f.sin (laws.neg_mul arc (f.dec 5 1))
          ∙ laws.sin_neg (f.mul arc (f.dec 5 1)) in
        ap (λ h. f.mul h h) turned ∙ laws.neg_square (f.sin (f.mul arc (f.dec 5 1)))
  ]

  -- `ac_geo_haversine` gives the same distance, to the last bit, from one point to another and back,
  -- if both name the same ellipsoid.
  pub haversine_swap :
      (from to : Geo F) → IsIeee f → from.ref ≡ to.ref → haversine from to ≡ haversine to from
  unfolding haversine
  haversine_swap from to laws same =
      let lats = half_square_swap (from.lat) (to.lat) laws in
      let lons = half_square_swap (from.lon) (to.lon) laws in
      let cosines = laws.mul_comm (f.cos (from.lat *F deg_to_rad)) (f.cos (to.lat *F deg_to_rad)) in
      λ i. int 2 *F f.asin (f.sqrt (lats i +F cosines i *F lons i)) *F equatorial (same i)
