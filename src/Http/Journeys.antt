-- ===== src/Http/Journeys.antt =====
-- The controllers of ride requests and trips (src/ride-requests/ride-requests.controller.ts and
-- src/trips/trips.controller.ts), and the map's (src/matching/matching.controller.ts).
use reedri_end.Base.{ℕ, Option, none, some, List, map, String}
use reedri_end.Schema.{Uuid, ActiveProfile, RideRequest, Trip, Rating}
use reedri_end.World.{inconsistent, prisma, M, ◌>>=◌, ◌>>◌, pure, gets, or_raise}
use reedri_end.Matching.{Geography, Point}
use reedri_end.Matching.Locations.{find_nearby_driver_locations}
use reedri_end.RideRequests.{CreateRideRequest, Included, create_request, find_one_for_user, cancel}
use reedri_end.Trips.{start, complete}
use reedri_end.Ratings.{RateTrip, rate_trip}
use reedri_end.Http.{Claims, in_profile, answered, validated}
use reedri_end.Http.Forms.{
  accepts_ride_request, accepts_cancellation, accepts_rating, accepts_map_query,
}
use reedri_end.Http.Responses.{
  NearbyDriverResponse, nearby_driver_response, RideRequestResponse, ride_request_response,
  ride_offer_responses,
}

-- `RideRequestResponseDto.from` of what `RIDE_REQUEST_WITH_OFFERS` includes.
unfoldable pub include_accounts : Included → M RideRequestResponse
include_accounts r = do
  offers ←
      or_raise (← gets (λ w. ride_offer_responses w r.offers r.offer_user_ids))
        (prisma inconsistent)
  pure (ride_request_response r.ride_request none r.trip (some offers))

-- `MatchingController.nearbyDrivers`
unfoldable pub nearby_drivers : Option Claims → Point → Option ℕ → M (List NearbyDriverResponse)
nearby_drivers token at radius_km = in_profile (some ActiveProfile.rider) token (λ user.
    validated (accepts_map_query at.lat at.lng radius_km)
    >> answered (map nearby_driver_response) (find_nearby_driver_locations at radius_km))

module _ (geography : Geography) (ride_match_radius_km : ℕ) where
  -- `RideRequestsController.create`
  unfoldable pub create_ride_request : Option Claims → CreateRideRequest → M RideRequestResponse
  create_ride_request token dto = in_profile (some ActiveProfile.rider) token (λ user.
      validated (accepts_ride_request dto)
      >> answered (λ (r : RideRequest × ℕ). ride_request_response r.0 (some r.1) none none)
          (create_request geography ride_match_radius_km user.user_id dto))

-- `RideRequestsController.findOne`
unfoldable pub find_one : Option Claims → Uuid → M RideRequestResponse
find_one token id =
    in_profile none token (λ user. find_one_for_user id user.user_id >>= include_accounts)

-- `RideRequestsController.cancel`
unfoldable pub cancel_ride_request : Option Claims → Uuid → Option String → M RideRequestResponse
cancel_ride_request token id reason = in_profile none token (λ user.
    validated (accepts_cancellation reason)
    >> answered (λ (r : RideRequest). ride_request_response r none none none)
        (cancel id user.user_id reason))

-- `TripsController.start`
unfoldable pub start_trip : Option Claims → Uuid → M Trip
start_trip token id = in_profile (some ActiveProfile.driver) token (λ user. start id user.user_id)

-- `TripsController.complete`
unfoldable pub complete_trip : Option Claims → Uuid → M Trip
complete_trip token id =
    in_profile (some ActiveProfile.driver) token (λ user. complete id user.user_id)

-- `TripsController.rate`
unfoldable pub rate : Option Claims → Uuid → RateTrip → M Rating
rate token id dto =
    in_profile none token (λ user. validated (accepts_rating dto) >> rate_trip id user.user_id dto)
