-- ===== src/Http/Api/Journeys.antt =====
-- The routes of ride requests and trips, over a relation on the tables of rides
-- (src/ride-requests/ride-requests.controller.ts, src/trips/trips.controller.ts and
-- src/matching/matching.controller.ts).
use reedri_end.Base.{ℕ, Option, none, some, arith, String, map}
use reedri_end.Schema.{Uuid, ActiveProfile, RideRequest}
use reedri_end.World.{M, ◌>>=◌, ◌>>◌}
use reedri_end.Access.{AuthenticatedUser}
use reedri_end.Matching.{Geography, Point}
use reedri_end.Matching.Locations.{find_nearby_driver_locations}
use reedri_end.RideRequests.{CreateRideRequest, create_request, cancel, find_one_for_user}
use reedri_end.Trips.{start, complete}
use reedri_end.Ratings.{RateTrip, rate_trip}
use reedri_end.Http.{Claims, answered, validated}
use reedri_end.Http.Forms.{
  accepts_map_query, accepts_ride_request, accepts_cancellation, accepts_rating,
}
use reedri_end.Http.Responses.{RideRequestResponse, ride_request_response, nearby_driver_response}
use reedri_end.Http.Journeys.{
  nearby_drivers, create_ride_request, find_one, cancel_ride_request, start_trip, complete_trip,
  rate, include_accounts,
}
use reedri_end.Http.Api.Effects.{
  Covers, accepted-IsStep, kept, IsStep, calm-IsStep, in_profile-IsStep, validated-IsStep,
  answered-IsStep,
}
use reedri_end.Http.Api.Calm.{rate_trip-IsCalm}
use reedri_end.World.{Rides}

module _ (R : Rides → Rides → Type 0) (covers : Covers R) where
  stay : (x : Rides) → R x x
  stay = covers.stays

  pub create_ride_request-IsStep :
      (geography : Geography) (radius : ℕ) (token : Option Claims) (dto : CreateRideRequest)
      → IsStep R (create_ride_request geography radius token dto)
  unfolding create_ride_request
  create_ride_request-IsStep geography radius token dto =
      let f : RideRequest × ℕ → RideRequestResponse =
        λ r. ride_request_response r.0 (some r.1) none none in
      let m : AuthenticatedUser → M (RideRequest × ℕ) =
        λ user. create_request geography radius user.user_id dto in
      in_profile-IsStep R stay (λ user. validated (accepts_ride_request dto) >> answered f (m user))
        (λ user. accepted-IsStep R stay (accepts_ride_request dto) (answered f (m user)) (λ good.
          answered-IsStep R stay f (m user)
            (covers.creates geography radius user.user_id dto good)))
        token (some ActiveProfile.rider)

  pub start_trip-IsStep : (token : Option Claims) (id : Uuid) → IsStep R (start_trip token id)
  unfolding start_trip
  start_trip-IsStep token id =
      in_profile-IsStep R stay (λ user. start id user.user_id)
        (λ user. covers.starts id user.user_id) token (some ActiveProfile.driver)

  pub complete_trip-IsStep : (token : Option Claims) (id : Uuid) → IsStep R (complete_trip token id)
  unfolding complete_trip
  complete_trip-IsStep token id =
      in_profile-IsStep R stay (λ user. complete id user.user_id)
        (λ user. covers.completes id user.user_id) token (some ActiveProfile.driver)

  pub cancel_ride_request-IsStep :
      (token : Option Claims) (id : Uuid) (reason : Option String)
      → IsStep R (cancel_ride_request token id reason)
  unfolding cancel_ride_request
  cancel_ride_request-IsStep token id reason =
      let f : RideRequest → RideRequestResponse = λ r. ride_request_response r none none none in
      let m : AuthenticatedUser → M RideRequest = λ user. cancel id user.user_id reason in
      in_profile-IsStep R stay
        (λ user. validated (accepts_cancellation reason) >> answered f (m user))
        (λ user.
          validated-IsStep R stay (accepts_cancellation reason) (answered f (m user))
            (answered-IsStep R stay f (m user) (covers.cancels id user.user_id reason)))
        token none

  pub find_one-IsStep : (token : Option Claims) (id : Uuid) → IsStep R (find_one token id)
  unfolding find_one find_one_for_user include_accounts
  find_one-IsStep token id =
      in_profile-IsStep R stay (λ user. find_one_for_user id user.user_id >>= include_accounts)
        (λ user w. kept R stay _ _ (ground arith)) token none

  pub nearby_drivers-IsStep :
      (token : Option Claims) (at : Point) (asked : Option ℕ)
      → IsStep R (nearby_drivers token at asked)
  unfolding nearby_drivers find_nearby_driver_locations
  nearby_drivers-IsStep token at asked =
      in_profile-IsStep R stay
        (λ user.
          validated (accepts_map_query at.lat at.lng asked)
          >> answered (map nearby_driver_response) (find_nearby_driver_locations at asked))
        (λ user w. kept R stay _ _ (ground arith)) token (some ActiveProfile.rider)

  pub rate-IsStep :
      (token : Option Claims) (id : Uuid) (dto : RateTrip) → IsStep R (rate token id dto)
  unfolding rate
  rate-IsStep token id dto =
      in_profile-IsStep R stay
        (λ user. validated (accepts_rating dto) >> rate_trip id user.user_id dto)
        (λ user. validated-IsStep R stay (accepts_rating dto) (rate_trip id user.user_id dto) (
          calm-IsStep R stay (rate_trip id user.user_id dto)
            (rate_trip-IsCalm id user.user_id dto)))
        token none
