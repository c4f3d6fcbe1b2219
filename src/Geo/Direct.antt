-- ===== src/Geo/Direct.antt =====
-- src/ac_geo.c: `ac_geo_vincenty_direct`.
use libac.Prelude.{ℕ, zero, suc, Option, none, some, if◌then◌else◌}
use libac.Floats.{Floats, ◌+F◌, ◌-F◌, ◌*F◌, ◌/F◌, int}
use libac.Geo.{Geo, deg_to_rad, equatorial, polar, inverse_flattening}

-- What is computed before the loop; `flat` is `F`.
pub record Setup (F : Type 0) : Type 0 where
  pub flat : F
  pub cos_alpha1 : F
  pub sin_alpha1 : F
  pub cos_u1 : F
  pub sin_u1 : F
  pub sigma1 : F
  pub sin_alpha : F
  pub sin2_alpha : F
  pub cos2_alpha : F
  pub b : F
  pub s_over_ba : F

module _ {F : Type 0} ⦃f : Floats F⦄ where
  -- Equation 3, for `u_squared`
  unfoldable pub series_a : F → F
  series_a u_squared =
      int 1
      +F u_squared
        /F int 16384
        *F (int 4096
            +F u_squared *F (f.neg (int 768) +F u_squared *F (int 320 -F int 175 *F u_squared)))

  -- Equation 4
  unfoldable pub series_b : F → F
  series_b u_squared =
      u_squared
      /F int 1024
      *F (int 256 +F u_squared *F (f.neg (int 128) +F u_squared *F (int 74 -F int 47 *F u_squared)))

  -- The function down to `prev_sigma`. `cos2_alpha` is what the source computes: 1 - `sin_alpha`.
  unfoldable pub setup : Geo F → F → Setup F
  unfolding series_a series_b equatorial polar inverse_flattening
  setup from distance =
      let axis_a : F = equatorial (from.ref) in
      let axis_b : F = polar (from.ref) in
      let flat : F = int 1 /F inverse_flattening (from.ref) in
      let a_squared : F = axis_a *F axis_a in
      let b_squared : F = axis_b *F axis_b in
      let phi1 : F = from.lat *F deg_to_rad in
      let alpha1 : F = from.bearing *F deg_to_rad in
      let cos_alpha1 : F = f.cos alpha1 in
      let sin_alpha1 : F = f.sin alpha1 in
      let tan_u1 : F = (int 1 -F flat) *F f.tan phi1 in
      let cos_u1 : F = int 1 /F f.sqrt (int 1 +F tan_u1 *F tan_u1) in
      let sin_alpha : F = cos_u1 *F sin_alpha1 in
      let cos2_alpha : F = int 1 -F sin_alpha in
      let u_squared : F = cos2_alpha *F (a_squared -F b_squared) /F b_squared in
      record {
        flat = flat;
        cos_alpha1 = cos_alpha1;
        sin_alpha1 = sin_alpha1;
        cos_u1 = cos_u1;
        sin_u1 = tan_u1 *F cos_u1;
        sigma1 = f.atan2 tan_u1 cos_alpha1;
        sin_alpha = sin_alpha;
        sin2_alpha = sin_alpha *F sin_alpha;
        cos2_alpha = cos2_alpha;
        b = series_b u_squared;
        s_over_ba = distance /F (axis_b *F series_a u_squared);
      }

  -- Equations 5 and 6: `delta_sigma` in a round
  unfoldable pub delta_sigma : Setup F → F → F
  delta_sigma s sigma =
      let cos_sigma_m2 : F = f.cos (int 2 *F s.sigma1 +F sigma) in
      let cos2_sigma_m2 : F = cos_sigma_m2 *F cos_sigma_m2 in
      let sin_sigma : F = f.sin sigma in
      let cos_sigma : F = f.cos sigma in
      s.b
      *F sin_sigma
      *F (cos_sigma_m2
          +F s.b
            /F int 4
            *F (cos_sigma *F (f.neg (int 1) +F int 2 *F cos2_sigma_m2)
                -F s.b
                  /F int 6
                  *F cos_sigma_m2
                  *F (f.neg (int 3) +F int 4 *F sin_sigma *F sin_sigma)
                  *F (f.neg (int 3) +F int 4 *F cos2_sigma_m2)))

  -- The loop: `sigma` when it is left
  unfoldable pub sigma_loop : ℕ → Setup F → F → F → Option F
  unfolding delta_sigma
  sigma_loop zero s sigma prev_sigma = none
  sigma_loop (suc n) s sigma prev_sigma =
      let next : F = s.s_over_ba +F delta_sigma s sigma in
      let rest = sigma_loop n s next next in
      if f.less (f.fabs (next -F prev_sigma)) (f.dec 1 13) then some next else rest

  -- Equation 8: `phi2`
  unfoldable pub phi2_of : Setup F → F → F
  phi2_of s sigma =
      let cos_sigma : F = f.cos sigma in
      let sin_sigma : F = f.sin sigma in
      f.atan2 (s.sin_u1 *F cos_sigma +F s.cos_u1 *F sin_sigma *F s.cos_alpha1) (
        (int 1 -F s.flat)
        *F f.sqrt (
            s.sin2_alpha
            +F f.pow (s.sin_u1 *F sin_sigma -F s.cos_u1 *F cos_sigma *F s.cos_alpha1) (int 2)))

  -- Equations 9 to 11: `l`
  unfoldable pub l_of : Setup F → F → F
  l_of s sigma =
      let cos_sigma_m2 : F = f.cos (int 2 *F s.sigma1 +F sigma) in
      let cos2_sigma_m2 : F = cos_sigma_m2 *F cos_sigma_m2 in
      let cos_sigma : F = f.cos sigma in
      let sin_sigma : F = f.sin sigma in
      let lambda : F =
        f.atan2 (sin_sigma *F s.sin_alpha1)
          (s.cos_u1 *F cos_sigma -F s.sin_u1 *F sin_sigma *F s.cos_alpha1) in
      let c : F =
        s.flat /F int 16 *F s.cos2_alpha *F (int 4 +F s.flat *F (int 4 -F int 3 *F s.cos2_alpha)) in
      lambda
      -F (int 1 -F c)
        *F s.flat
        *F s.sin_alpha
        *F (sigma
            +F c
              *F sin_sigma
              *F (cos_sigma_m2 +F c *F cos_sigma *F (f.neg (int 1) +F int 2 *F cos2_sigma_m2)))

  -- Equation 12
  unfoldable pub final_bearing : Setup F → F → F
  final_bearing s sigma =
      f.atan2 (s.sin_alpha)
        (f.neg (s.sin_u1) *F f.sin sigma +F s.cos_u1 *F f.cos sigma *F s.cos_alpha1)

  -- What is stored in `to`
  unfoldable pub arrive : Geo F → Geo F → Setup F → F → Geo F
  unfolding phi2_of l_of final_bearing
  arrive from to s sigma = record {
    ref = from.ref;
    lat = phi2_of s sigma /F deg_to_rad;
    lon = from.lon +F l_of s sigma /F deg_to_rad;
    alt = to.alt;
    bearing = final_bearing s sigma;
    easting = to.easting;
    northing = to.northing;
  }

  -- `ac_geo_vincenty_direct`: `to`
  unfoldable pub vincenty_direct : ℕ → Geo F → Geo F → F → Option (Geo F)
  unfolding setup sigma_loop arrive
  vincenty_direct fuel from to distance =
      let s : Setup F = setup from distance in
      elim (sigma_loop fuel s (s.s_over_ba) (s.s_over_ba)) [
        | none ↦ none
        | some sigma ↦ some (arrive from to s sigma)
      ]
