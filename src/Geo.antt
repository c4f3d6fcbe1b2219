-- ===== src/Geo.antt =====
-- src/ac_geo.c: distances on the earth, and the conversions of coordinates.
--
-- The `double`s are a type `F` with the operations of `Floats`. A loop has fuel; `none` is a loop that
-- has not come to its tolerance within it.
pub mod Direct
pub mod Grid
pub mod ToLatLon
pub mod ToGrid
pub mod Laws
mod Tests
use libac.Prelude.{ℕ}
use libac.Prelude.Int.{ℤ}
use libac.Floats.{Floats, ◌+F◌, ◌-F◌, ◌*F◌, ◌/F◌, int}

-- `ac_geo_ellipsoid_t`
pub data Ellipsoid : Type 0 where
  wgs84 grs80 airy1830 : Ellipsoid

-- `ac_geo_t`
pub record Geo (F : Type 0) : Type 0 where
  pub ref : Ellipsoid
  pub lat : F
  pub lon : F
  pub alt : F
  pub bearing : F
  pub easting : F
  pub northing : F

-- `ac_geo_dms_t`
pub record Dms (F : Type 0) : Type 0 where
  pub degrees : ℤ
  pub minutes : ℤ
  pub seconds : F

module _ {F : Type 0} ⦃f : Floats F⦄ where
  -- `M_PI`
  abbrev pub m_pi : F
  m_pi = f.dec 314159265358979323846 20

  abbrev pub deg_to_rad : F
  deg_to_rad = m_pi /F int 180

  abbrev pub rad_to_deg : F
  rad_to_deg = int 180 /F m_pi

  -- The fields `a`, `b` and `f` of `ellipsoids`
  unfoldable pub equatorial : Ellipsoid → F
  equatorial wgs84 = int 6378137
  equatorial grs80 = int 6378137
  equatorial airy1830 = f.dec 6377563396 3

  unfoldable pub polar : Ellipsoid → F
  polar wgs84 = f.dec 6356752314245 6
  polar grs80 = f.dec 6356752314140 6
  polar airy1830 = f.dec 6356256909 3

  unfoldable pub inverse_flattening : Ellipsoid → F
  inverse_flattening wgs84 = f.dec 298257223563 9
  inverse_flattening grs80 = f.dec 298257222100882711 15
  inverse_flattening airy1830 = f.dec 2993249646 7

  -- `ac_geo_dd_to_dms`
  unfoldable pub dd_to_dms : F → Dms F
  dd_to_dms degrees = record {
    degrees = f.to_int (f.fabs (f.trunc degrees));
    minutes = f.to_int (f.trunc (f.fmod (degrees *F int 60) (int 60)));
    seconds = f.fmod (f.fabs degrees *F int 3600) (int 60);
  }

  -- `ac_geo_dms_to_dd`
  unfoldable pub dms_to_dd : Dms F → F
  dms_to_dd dms =
      f.of_int (dms.degrees) +F f.of_int (dms.minutes) /F int 60 +F dms.seconds /F int 3600

  -- The square of the sine of half a difference, `latitude_h` and `lontitude_h`
  unfoldable pub half_square : F → F → F
  half_square x y =
      let arc : F = (x -F y) *F deg_to_rad in let h : F = f.sin (arc *F f.dec 5 1) in h *F h

  -- `ac_geo_haversine`
  unfoldable pub haversine : Geo F → Geo F → F
  unfolding half_square equatorial
  haversine from to =
      let latitude_h : F = half_square (from.lat) (to.lat) in
      let longitude_h : F = half_square (from.lon) (to.lon) in
      let tmp : F = f.cos (from.lat *F deg_to_rad) *F f.cos (to.lat *F deg_to_rad) in
      int 2 *F f.asin (f.sqrt (latitude_h +F tmp *F longitude_h)) *F equatorial (from.ref)
