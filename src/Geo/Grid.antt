-- ===== src/Geo/Grid.antt =====
-- src/ac_geo.c: what `ac_geo_bng_to_lat_lon` and `ac_geo_lat_lon_to_bng` compute by the same
-- statements.
use libac.Prelude.{ℕ, zero, suc, Option, none, some, if◌then◌else◌}
use libac.Floats.{Floats, ◌+F◌, ◌-F◌, ◌*F◌, ◌/F◌, int}
use libac.Geo.{Ellipsoid, m_pi, deg_to_rad, equatorial, polar}

-- `x_1`, `y_1` and `z_1`, or `x_2`, `y_2` and `z_2`
pub record Cartesian (F : Type 0) : Type 0 where
  pub x : F
  pub y : F
  pub z : F

-- `phi`, `lam`, the altitude, and `nu` after the last loop
pub record Spherical (F : Type 0) : Type 0 where
  pub phi : F
  pub lam : F
  pub alt : F
  pub nu : F

-- The numbers of a Helmert transformation
pub record Shift (F : Type 0) : Type 0 where
  pub s : F
  pub tx : F
  pub ty : F
  pub tz : F
  pub rxs : F
  pub rys : F
  pub rzs : F

module _ {F : Type 0} ⦃f : Floats F⦄ where
  -- `LAM0`, `PHI0`, `E0`, `N0` and `F0`
  abbrev pub lam0 : F
  lam0 = f.neg (int 2) *F deg_to_rad

  abbrev pub phi0 : F
  phi0 = int 49 *F deg_to_rad

  abbrev pub e0 : F
  e0 = int 400000

  abbrev pub n0 : F
  n0 = f.neg (int 100000)

  abbrev pub f0 : F
  f0 = f.dec 9996012717 10

  -- `e2`, for the two radii
  unfoldable pub e2_of : F → F → F
  e2_of axis_a axis_b = int 1 -F axis_b *F axis_b /F (axis_a *F axis_a)

  -- `n`
  unfoldable pub n_of : F → F → F
  n_of axis_a axis_b = (axis_a -F axis_b) /F (axis_a +F axis_b)

  -- The meridional arc, from `Ma` to `M`
  unfoldable pub meridional_arc : F → F → F → F
  meridional_arc axis_b n phi =
      let m_a : F =
        (int 1 +F n +F int 5 /F int 4 *F f.pow n (int 2) +F int 5 /F int 4 *F f.pow n (int 3))
        *F (phi -F phi0) in
      let m_b : F =
        (int 3 *F n +F int 3 *F f.pow n (int 2) +F int 21 /F int 8 *F f.pow n (int 3))
        *F f.sin (phi -F phi0)
        *F f.cos (phi +F phi0) in
      let m_c : F =
        (int 15 /F int 8 *F f.pow n (int 2) +F int 15 /F int 8 *F f.pow n (int 3))
        *F f.sin (int 2 *F (phi -F phi0))
        *F f.cos (int 2 *F (phi +F phi0)) in
      let m_d : F =
        int 35
        /F int 24
        *F f.pow n (int 3)
        *F f.sin (int 3 *F (phi -F phi0))
        *F f.cos (int 3 *F (phi +F phi0)) in
      axis_b *F f0 *F (m_a -F m_b +F m_c -F m_d)

  -- `rho`
  unfoldable pub rho_of : F → F → F → F
  rho_of axis_a e2 phi =
      axis_a
      *F f0
      *F (int 1 -F e2)
      *F f.pow (int 1 -F e2 *F f.pow (f.sin phi) (int 2)) (f.neg (f.dec 15 1))

  -- The conversion from Cartesian coordinates: the Helmert transformation
  unfoldable pub helmert : Shift F → Cartesian F → Cartesian F
  helmert t q =
      let rx : F = t.rxs *F m_pi /F (int 180 *F int 3600) in
      let ry : F = t.rys *F m_pi /F (int 180 *F int 3600) in
      let rz : F = t.rzs *F m_pi /F (int 180 *F int 3600) in
      record {
        x = t.tx +F (int 1 +F t.s) *F q.x +F f.neg rz *F q.y +F ry *F q.z;
        y = t.ty +F rz *F q.x +F (int 1 +F t.s) *F q.y +F f.neg rx *F q.z;
        z = t.tz +F f.neg ry *F q.x +F rx *F q.y +F (int 1 +F t.s) *F q.z;
      }

  -- The loop for `phi`: `phi` and `nu` when it is left
  unfoldable pub phi_loop : ℕ → F → F → F → F → F → F → F → Option (F × F)
  phi_loop zero axis_a e2 z_2 p nu phi phiold = none
  phi_loop (suc k) axis_a e2 z_2 p nu phi phiold =
      let nu' : F = axis_a /F f.sqrt (int 1 -F e2 *F f.pow (f.sin phi) (int 2)) in
      let phi' : F = f.atan2 (z_2 +F e2 *F nu' *F f.sin phi) p in
      let rest = phi_loop k axis_a e2 z_2 p nu' phi' phi in
      if f.less (f.pow (int 10) (f.neg (int 16))) (f.fabs (phi -F phiold))
      then rest
      else some (phi, nu)

  -- Back to spherical coordinates; `nu` is the one before the loop.
  unfoldable pub spherical : ℕ → Ellipsoid → F → Cartesian F → Option (Spherical F)
  unfolding phi_loop e2_of equatorial polar
  spherical fuel ref nu q =
      let axis_a : F = equatorial ref in
      let e2 : F = e2_of axis_a (polar ref) in
      let p : F = f.sqrt (f.pow (q.x) (int 2) +F f.pow (q.y) (int 2)) in
      let phi : F = f.atan2 (q.z) (p *F (int 1 -F e2)) in
      elim (phi_loop fuel axis_a e2 (q.z) p nu phi (int 2 *F m_pi)) [
        | none ↦ none
        | some (phi', nu') ↦ some (record {
          phi = phi';
          lam = f.atan2 (q.y) (q.x);
          alt = p /F f.cos phi' -F nu';
          nu = nu';
        })
      ]
