-- ===== src/Geo/ToGrid.antt =====
-- src/ac_geo.c: `ac_geo_lat_lon_to_bng`.
use libac.Prelude.{ℕ, Option, none, some}
use libac.Floats.{Floats, ◌+F◌, ◌-F◌, ◌*F◌, ◌/F◌, int}
use libac.Geo.{Geo, airy1830, deg_to_rad, equatorial, polar}
use libac.Geo.Grid.{
  Cartesian, Spherical, Shift, lam0, e0, n0, f0, e2_of, n_of, meridional_arc, rho_of, helmert,
  spherical,
}

module _ {F : Type 0} ⦃f : Floats F⦄ where
  -- `s` to `rzs` in `ac_geo_lat_lon_to_bng`
  unfoldable pub to_airy : Shift F
  to_airy = record {
    s = f.dec 204894 4 *F f.pow (int 10) (f.neg (int 6));
    tx = f.neg (f.dec 446448 3);
    ty = f.dec 125157 3;
    tz = f.neg (f.dec 542060 3);
    rxs = f.neg (f.dec 1502 4);
    rys = f.neg (f.dec 2470 4);
    rzs = f.neg (f.dec 8421 4);
  }

  -- `nu` at the start of `ac_geo_lat_lon_to_bng`
  unfoldable pub nu_of : F → F → F → F
  nu_of axis_a e2 phi = axis_a /F f.sqrt (int 1 -F e2 *F f.pow (f.sin phi) (int 2))

  -- `x_1`, `y_1` and `z_1` there
  unfoldable pub cartesian : F → F → F → F → F → Cartesian F
  cartesian e2 nu h phi lam = record {
    x = (nu +F h) *F f.cos phi *F f.cos lam;
    y = (nu +F h) *F f.cos phi *F f.sin lam;
    z = ((int 1 -F e2) *F nu +F h) *F f.sin phi;
  }

  -- `geo->northing` and `geo->easting` there, of the point on the Airy ellipsoid
  unfoldable pub northing_of : F → F → Spherical F → F
  unfolding meridional_arc rho_of n_of e2_of
  northing_of axis_a axis_b r =
      let rho : F = rho_of axis_a (e2_of axis_a axis_b) (r.phi) in
      let eta2 : F = r.nu *F f0 /F rho -F int 1 in
      let m : F = meridional_arc axis_b (n_of axis_a axis_b) (r.phi) in
      let tp : F = f.tan (r.phi) in
      let tp2 : F = tp *F tp in
      let tp4 : F = tp2 *F tp2 in
      let cp : F = f.cos (r.phi) in
      let cp3 : F = cp *F cp *F cp in
      let cp5 : F = cp3 *F cp *F cp in
      let i : F = m +F n0 in
      let ii : F = r.nu *F f0 *F f.sin (r.phi) *F cp /F int 2 in
      let iii : F =
        r.nu *F f0 *F f.sin (r.phi) *F cp3 *F (int 5 -F tp2 +F int 9 *F eta2) /F int 24 in
      let iiia : F =
        r.nu *F f0 *F f.sin (r.phi) *F cp5 *F (int 61 -F int 58 *F tp2 +F tp4) /F int 720 in
      i
      +F ii *F f.pow (r.lam -F lam0) (int 2)
      +F iii *F f.pow (r.lam -F lam0) (int 4)
      +F iiia *F f.pow (r.lam -F lam0) (int 6)

  unfoldable pub easting_of : F → F → Spherical F → F
  unfolding rho_of e2_of
  easting_of axis_a axis_b r =
      let rho : F = rho_of axis_a (e2_of axis_a axis_b) (r.phi) in
      let eta2 : F = r.nu *F f0 /F rho -F int 1 in
      let tp : F = f.tan (r.phi) in
      let tp2 : F = tp *F tp in
      let tp4 : F = tp2 *F tp2 in
      let cp : F = f.cos (r.phi) in
      let cp3 : F = cp *F cp *F cp in
      let cp5 : F = cp3 *F cp *F cp in
      let iv : F = r.nu *F f0 *F cp in
      let v : F = r.nu *F f0 *F cp3 *F (r.nu /F rho -F tp2) /F int 6 in
      let vi : F =
        r.nu
        *F f0
        *F cp5
        *F (int 5 -F int 18 *F tp2 +F tp4 +F int 14 *F eta2 -F int 58 *F eta2 *F tp2)
        /F int 120 in
      e0
      +F iv *F (r.lam -F lam0)
      +F v *F f.pow (r.lam -F lam0) (int 3)
      +F vi *F f.pow (r.lam -F lam0) (int 5)

  -- `ac_geo_lat_lon_to_bng`, with fuel for its loop
  unfoldable pub lat_lon_to_bng : ℕ → Geo F → Option (Geo F)
  unfolding nu_of cartesian helmert to_airy spherical northing_of easting_of e2_of equatorial polar
  lat_lon_to_bng fuel geo =
      let axis_a : F = equatorial (geo.ref) in
      let e2 : F = e2_of axis_a (polar (geo.ref)) in
      let phi : F = geo.lat *F deg_to_rad in
      let nu : F = nu_of axis_a e2 phi in
      let q = helmert to_airy (cartesian e2 nu (geo.alt) phi (geo.lon *F deg_to_rad)) in
      elim (spherical fuel airy1830 nu q) [
        | none ↦ none
        | some r ↦ some (record {
          ref = geo.ref;
          lat = geo.lat;
          lon = geo.lon;
          alt = r.alt;
          bearing = geo.bearing;
          easting = easting_of (equatorial airy1830) (polar airy1830) r;
          northing = northing_of (equatorial airy1830) (polar airy1830) r;
        })
      ]
