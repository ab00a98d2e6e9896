-- ===== src/Matching/Locations.antt =====
-- The snapshot of drivers for the map of a rider (findNearbyDriverLocations of
-- src/matching/matching.service.ts).
use reedri_end.Base.{ℕ, Option, List, String}
use reedri_end.Schema.{Uuid}
use reedri_end.World.{M, raise, prisma, raw_query_failed}
use reedri_end.Matching.{Point}

pub record NearbyDriverLocation : Type 0 where
  pub driver_id : Uuid
  pub user_id : Uuid
  pub at : Point
  pub vehicle_make : String
  pub vehicle_model : String
  pub distance_meters : ℕ

-- `findNearbyDriverLocations`. The query selects `dp.vehicle_make` and `dp.vehicle_model`, and
-- `driver_profiles` has had no such columns since the migration
-- prisma/migrations/20260914154548_dual_profile_driver_application, so the database refuses it
-- whatever the rows are.
unfoldable pub find_nearby_driver_locations : Point → Option ℕ → M (List NearbyDriverLocation)
find_nearby_driver_locations at radius_km = raise (prisma raw_query_failed)
