-- ===== src/Ratings.antt =====
-- Ratings of trips (src/ratings/ratings.service.ts).
pub mod Averages
pub mod Once
use reedri_end.Base.{
  ℕ, ◌&&◌, ◌||◌, not, Bool, Option, none, some, List, [], ◌∷◌, String, ◌==◌, if◌then◌else◌,
}
use reedri_end.Table.{find_first, create}
use reedri_end.Schema.{Uuid, Time, is_completed_trip, Trip, Rating}
use reedri_end.World.{
  World, not_found, forbidden, conflict, unique_violation, http, prisma, Failure, Result, ok, err,
  M, ◌>>=◌, ◌>>◌, pure, gets, or_raise, raise_if, write, draw,
}
use reedri_end.Users.{recalculate_rating}

pub record RateTrip : Type 0 where
  pub score : ℕ
  pub comment : Option String

-- The unique keys of a rating: its id, and its trip with its author and the user it is for.
abbrev pub rating_clash : Rating → Rating → Bool
rating_clash a b =
    b.id == a.id
    || (b.trip_id == a.trip_id
        && (b.from_user_id == a.from_user_id && b.to_user_id == a.to_user_id))

-- The other participant of a trip.
abbrev pub counterpart : Uuid → Trip → Option Uuid
counterpart from_user_id trip =
    if from_user_id == trip.rider_id
    then some trip.driver_id
    else if from_user_id == trip.driver_id
    then some trip.rider_id
    else none

abbrev pub rating_of : Uuid → Time → Uuid → Uuid → Uuid → RateTrip → Rating
rating_of id now trip_id from_user_id to_user_id dto = record {
  id = id;
  trip_id = trip_id;
  from_user_id = from_user_id;
  to_user_id = to_user_id;
  score = dto.score;
  comment = dto.comment;
  created_at = now;
}

unfoldable pub insert_rating : Rating → World → Option World
insert_rating r w = elim (create rating_clash r w.ratings) [
  | none ↦ none
  | some rows ↦ some (record w { ratings = rows })
]

-- The failure that the `catch` throws in place of another.
abbrev pub rating_failure : Failure → Failure
rating_failure (prisma unique_violation) = http (conflict "You have already rated this trip")
rating_failure e = e

abbrev pub catch_failure {ℓ} : {A : Type ℓ} → (Failure → Failure) → M A → M A
catch_failure f m w = let (r, w') = m w in elim r [ ok a ↦ (ok a, w') | err e ↦ (err (f e), w') ]

-- The body of the `try`.
unfoldable pub save_rating : Uuid → Uuid → Uuid → RateTrip → M Rating
save_rating trip_id from_user_id to_user_id dto = do
  id ← draw
  now ← gets (λ w. w.now)
  write unique_violation (insert_rating (rating_of id now trip_id from_user_id to_user_id dto))
  recalculate_rating to_user_id
  pure (rating_of id now trip_id from_user_id to_user_id dto)

-- `rateTrip`
unfoldable pub rate_trip : Uuid → Uuid → RateTrip → M Rating
rate_trip trip_id from_user_id dto = do
  trip ←
      or_raise (← gets (λ w. find_first (λ (t : Trip). t.id == trip_id) w.trips))
        (http (not_found "Trip not found"))
  raise_if (not (is_completed_trip trip.status))
      (http (forbidden "Trip must be completed before it can be rated"))
  to_user_id ←
      or_raise (counterpart from_user_id trip)
        (http (forbidden "You were not a participant on this trip"))
  catch_failure rating_failure (save_rating trip_id from_user_id to_user_id dto)
