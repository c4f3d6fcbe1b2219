-- ===== src/Geo/ToLatLon.antt =====
-- src/ac_geo.c: `ac_geo_bng_to_lat_lon`.
use libac.Prelude.{ℕ, zero, suc, Option, none, some, if◌then◌else◌}
use libac.Floats.{Floats, ◌+F◌, ◌-F◌, ◌*F◌, ◌/F◌, int}
use libac.Geo.{Geo, airy1830, rad_to_deg, equatorial, polar}
use libac.Geo.Grid.{
  Cartesian, Shift, lam0, phi0, e0, n0, f0, e2_of, n_of, meridional_arc, rho_of, helmert, spherical,
}

module _ {F : Type 0} ⦃f : Floats F⦄ where
  -- The loop over `M` in `ac_geo_bng_to_lat_lon`: `phi` when it is left
  unfoldable pub arc_loop : ℕ → F → F → F → F → F → F → Option F
  unfolding meridional_arc
  arc_loop zero axis_a axis_b n d_n m phi = none
  arc_loop (suc k) axis_a axis_b n d_n m phi =
      let next : F = phi +F (d_n -F m) /F (axis_a *F f0) in
      let rest = arc_loop k axis_a axis_b n d_n (meridional_arc axis_b n next) next in
      if f.at_least (d_n -F m) (f.dec 1 5) then rest else some phi

  -- `nu` on the Airy ellipsoid, in `ac_geo_bng_to_lat_lon`
  unfoldable pub airy_nu : F → F → F → F
  airy_nu axis_a e2 phi = axis_a *F f0 /F f.sqrt (int 1 -F e2 *F f.pow (f.sin phi) (int 2))

  -- `phi` after `XIIA`, of `nu`, `rho`, the `phi` before, and `dE`
  unfoldable pub airy_phi : F → F → F → F → F
  airy_phi nu rho phi d_e =
      let eta2 : F = nu /F rho -F int 1 in
      let tp : F = f.tan phi in
      let tp2 : F = tp *F tp in
      let tp4 : F = tp2 *F tp2 in
      let vii : F = tp /F (int 2 *F rho *F nu) in
      let viii : F =
        tp
        /F (int 24 *F rho *F f.pow nu (int 3))
        *F (int 5 +F int 3 *F tp2 +F eta2 -F int 9 *F tp2 *F eta2) in
      let ix : F =
        tp /F (int 720 *F rho *F f.pow nu (int 5)) *F (int 61 +F int 90 *F tp2 +F int 45 *F tp4) in
      phi -F vii *F f.pow d_e (int 2) +F viii *F f.pow d_e (int 4) -F ix *F f.pow d_e (int 6)

  -- `lam` after `XIIA`
  unfoldable pub airy_lam : F → F → F → F → F
  airy_lam nu rho phi d_e =
      let tp : F = f.tan phi in
      let tp2 : F = tp *F tp in
      let tp4 : F = tp2 *F tp2 in
      let tp6 : F = tp4 *F tp2 in
      let sp : F = int 1 /F f.cos phi in
      let x : F = sp /F nu in
      let xi : F = sp /F (int 6 *F f.pow nu (int 3)) *F (nu /F rho +F int 2 *F tp2) in
      let xii : F =
        sp /F (int 120 *F f.pow nu (int 5)) *F (int 5 +F int 28 *F tp2 +F int 24 *F tp4) in
      let xiia : F =
        sp
        /F (int 5040 *F f.pow nu (int 7))
        *F (int 61 +F int 662 *F tp2 +F int 1320 *F tp4 +F int 720 *F tp6) in
      lam0
      +F x *F d_e
      -F xi *F f.pow d_e (int 3)
      +F xii *F f.pow d_e (int 5)
      -F xiia *F f.pow d_e (int 7)

  -- `s` to `rzs` in `ac_geo_bng_to_lat_lon`
  unfoldable pub from_airy : Shift F
  from_airy = record {
    s = f.neg (f.dec 204894 4) *F f.pow (int 10) (f.neg (int 6));
    tx = f.dec 446448 3;
    ty = f.neg (f.dec 125157 3);
    tz = f.dec 542060 3;
    rxs = f.dec 1502 4;
    rys = f.dec 2470 4;
    rzs = f.dec 8421 4;
  }

  -- `ac_geo_bng_to_lat_lon` behind its first loop: the point on the Airy ellipsoid
  unfoldable pub airy_point : F → F → F → F → F → Cartesian F
  unfolding airy_nu rho_of airy_phi airy_lam
  airy_point axis_a e2 easting h phi =
      let nu : F = airy_nu axis_a e2 phi in
      let rho : F = rho_of axis_a e2 phi in
      let d_e : F = easting -F e0 in
      let phi' : F = airy_phi nu rho phi d_e in
      let lam : F = airy_lam nu rho phi d_e in
      record {
        x = (nu /F f0 +F h) *F f.cos phi' *F f.cos lam;
        y = (nu /F f0 +F h) *F f.cos phi' *F f.sin lam;
        z = ((int 1 -F e2) *F nu /F f0 +F h) *F f.sin phi';
      }

  -- `ac_geo_bng_to_lat_lon`, with fuel for each of its loops
  unfoldable pub bng_to_lat_lon : ℕ → Geo F → Option (Geo F)
  unfolding arc_loop airy_point airy_nu helmert from_airy spherical e2_of n_of equatorial polar
  bng_to_lat_lon fuel geo =
      let axis_a : F = equatorial airy1830 in
      let axis_b : F = polar airy1830 in
      let e2 : F = e2_of axis_a axis_b in
      elim (arc_loop fuel axis_a axis_b (n_of axis_a axis_b) (geo.northing -F n0) (int 0) phi0) [
        | none ↦ none
        | some phi ↦
            let q = helmert from_airy (airy_point axis_a e2 (geo.easting) (geo.alt) phi) in
            elim (spherical fuel (geo.ref) (airy_nu axis_a e2 phi) q) [
              | none ↦ none
              | some r ↦ some (record {
                ref = geo.ref;
                lat = r.phi *F rad_to_deg;
                lon = r.lam *F rad_to_deg;
                alt = r.alt;
                bearing = geo.bearing;
                easting = geo.easting;
                northing = geo.northing;
              })
            ]
      ]
