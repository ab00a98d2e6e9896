-- ===== src/Matching.antt =====
-- The search for drivers near a point (src/matching/matching.service.ts). What PostGIS measures is
-- a parameter, in millimetres: `ST_Distance` and `ST_DWithin` on the spheroid, and `<->`, which
-- orders the rows, on the sphere. A radius is given in thousandths of a kilometre, so that the code's
-- `* 1000` takes it to millimetres.
pub mod Search
pub mod Locations
use reedri_end.Base.{
  ℕ, zero, suc, ◌*◌, Option, none, some, List, [], ◌∷◌, leb, map, or_default, if◌then◌else◌,
}
use reedri_end.Schema.{Uuid, Degrees, DriverProfile}
use reedri_end.World.{World}

pub record Point : Type 0 where
  pub lat : Degrees
  pub lng : Degrees

pub record Geography : Type 0 where
  pub distance : Point → Point → ℕ
  pub nearness : Point → Point → ℕ

pub record NearbyDriver : Type 0 where
  pub driver_id : Uuid
  pub user_id : Uuid
  pub distance_meters : ℕ

-- `dp.location`, which a trigger keeps: a point where both coordinates are there.
abbrev pub location_of : Option Degrees → Option Degrees → Option Point
location_of (some lat) (some lng) = some (record { lat = lat; lng = lng })
location_of _ _ = none

abbrev pub location : DriverProfile → Option Point
location d = location_of d.current_lat d.current_lng

abbrev pub take {ℓ} : {A : Type ℓ} → ℕ → List A → List A
take zero xs = []
take (suc n) [] = []
take (suc n) (x ∷ xs) = x ∷ take n xs

-- What `LIMIT` allows.
abbrev pub match_limit : ℕ
match_limit = 50

-- A row with what `ORDER BY` reads.
pub record Ranked : Type 0 where
  pub row : NearbyDriver
  pub rank : ℕ

-- Insertion by rank, for `ORDER BY`.
unfoldable pub insert_by_rank : Ranked → List Ranked → List Ranked
insert_by_rank d [] = d ∷ []
insert_by_rank d (e ∷ es) =
    let rest = insert_by_rank d es in if leb d.rank e.rank then d ∷ e ∷ es else e ∷ rest

unfoldable pub sort_by_rank : List Ranked → List Ranked
unfolding insert_by_rank
sort_by_rank [] = []
sort_by_rank (d ∷ ds) = insert_by_rank d (sort_by_rank ds)

module _ (geography : Geography) (ride_match_radius_km : ℕ) where
  -- The row of the result for a driver, if the `WHERE` clause accepts the driver.
  abbrev pub nearby_row : Point → ℕ → DriverProfile → Option Ranked
  nearby_row at radius_meters d =
      if d.is_online
      then (elim (location d) [
        | none ↦ none
        | some p ↦
            if leb (geography.distance p at) radius_meters
            then some (record {
              row = record {
                driver_id = d.id;
                user_id = d.user_id;
                distance_meters = geography.distance p at;
              };
              rank = geography.nearness p at;
            })
            else none
      ])
      else none

  unfoldable pub nearby_rows : Point → ℕ → List DriverProfile → List Ranked
  nearby_rows at radius_meters [] = []
  nearby_rows at radius_meters (d ∷ ds) =
      let rest = nearby_rows at radius_meters ds in
      elim (nearby_row at radius_meters d) [ none ↦ rest | some row ↦ row ∷ rest ]

  -- The rows in their order, and no more than the limit.
  unfoldable pub ranked_drivers : Point → Option ℕ → World → List Ranked
  unfolding nearby_rows sort_by_rank
  ranked_drivers at radius_km w = take match_limit (
      sort_by_rank
        (nearby_rows at (or_default radius_km ride_match_radius_km * 1000) w.driver_profiles))

  -- `findNearbyDrivers`
  unfoldable pub find_nearby_drivers : Point → Option ℕ → World → List NearbyDriver
  unfolding ranked_drivers
  find_nearby_drivers at radius_km w = map (λ (d : Ranked). d.row) (ranked_drivers at radius_km w)
