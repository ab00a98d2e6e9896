-- ===== src/RideRequests.antt =====
-- Ride requests (src/ride-requests/ride-requests.service.ts). `cancel` is its reads and checks,
-- `check_cancel`, followed by its writes, `commit_cancel`.
use reedri_end.Base.{ℕ, Bool, not, ◌&&◌, ◌||◌, Option, none, some, List, map, String, ◌==◌, length}
use reedri_end.Table.{find_first, find_many, update_many, create, any}
use reedri_end.Schema.{
  Uuid, Time, Fare, Degrees, RideRequestStatus, OfferStatus, TripStatus, is_open_request,
  is_matched_request, is_pending_offer, RideRequest, RideOffer, Trip,
}
use reedri_end.Events.{ride_request_created, ride_request_cancelled}
use reedri_end.World.{
  Rides, bad_request, forbidden, not_found, record_not_found, inconsistent, http, prisma, M, ◌>>=◌,
  ◌>>◌, pure, gets, or_raise, raise_if, modify_rides, write_rides, emit, draw,
}
use reedri_end.Offers.{find_request, driver_user_ids, set_offer_status}
use reedri_end.Matching.{Geography, NearbyDriver, find_nearby_drivers}

pub record CreateRideRequest : Type 0 where
  pub pickup_lat : Degrees
  pub pickup_lng : Degrees
  pub dropoff_lat : Degrees
  pub dropoff_lng : Degrees
  pub suggested_fare : Fare

-- A ride request with what `RIDE_REQUEST_WITH_OFFERS` includes: its offers, the accounts of
-- their drivers, and its trip.
pub record Included : Type 0 where
  pub ride_request : RideRequest
  pub offers : List RideOffer
  pub offer_user_ids : List Uuid
  pub trip : Option Trip

abbrev pub find_trip_of : Uuid → Rides → Option Trip
find_trip_of i s = find_first (λ t. t.ride_request_id == i) s.trips

unfoldable pub load : Uuid → M Included
load id = do
  ride_request ←
      or_raise (← gets (λ w. find_request id w.rides)) (http (not_found "Ride request not found"))
  offers ← gets (λ w. find_many (λ o. o.ride_request_id == id) w.ride_offers)
  users ← or_raise (← gets (λ w. driver_user_ids w.driver_profiles offers)) (prisma inconsistent)
  trip ← gets (λ w. find_trip_of id w.rides)
  pure
      (record { ride_request = ride_request; offers = offers; offer_user_ids = users; trip = trip })

abbrev pub is_matched_driver : Option Trip → Uuid → Bool
is_matched_driver none u = Bool.false
is_matched_driver (some t) u = t.driver_id == u

-- `assertCanView`
abbrev pub can_view : Included → Uuid → Bool
can_view r u =
    r.ride_request.rider_id == u
    || (any (λ d. d == u) r.offer_user_ids || is_matched_driver r.trip u)

-- `assertCanCancel`
abbrev pub can_cancel : Included → Uuid → Bool
can_cancel r u = r.ride_request.rider_id == u || is_matched_driver r.trip u

-- `findOneForUser`
unfoldable pub find_one_for_user : Uuid → Uuid → M Included
unfolding load
find_one_for_user id user_id = do
  r ← load id
  raise_if (not (can_view r user_id)) (http (forbidden "Forbidden"))
  pure r

pub record Cancellation : Type 0 where
  pub trip : Option Trip
  pub affected_driver_user_ids : List Uuid

unfoldable pub check_cancel : Uuid → Uuid → M Cancellation
unfolding load
check_cancel id user_id = do
  r ← load id
  raise_if (not (can_cancel r user_id)) (http (forbidden "Forbidden"))
  raise_if
      (not (is_open_request r.ride_request.status)
        && not (is_matched_request r.ride_request.status))
      (http (bad_request "Ride request can no longer be cancelled"))
  affected ←
      or_raise
        (← gets (λ w.
          driver_user_ids w.driver_profiles (find_many (λ o. is_pending_offer o.status) r.offers)))
        (prisma inconsistent)
  pure (record { trip = r.trip; affected_driver_user_ids = affected })

abbrev pub cancel_trip : Option Trip → Option String → List Trip → List Trip
cancel_trip none reason trips = trips
cancel_trip (some t) reason trips =
    update_many (λ x. x.id == t.id)
      (λ x. record x { status = TripStatus.cancelled; cancel_reason = reason }) trips

-- The writes of `cancel`, in one transaction.
unfoldable pub cancel_transaction : Uuid → Option Trip → Option String → Time → Rides → Rides
cancel_transaction id trip reason now s = record s {
  ride_requests =
      update_many (λ r. r.id == id)
        (λ r. record r {
          status = RideRequestStatus.cancelled;
          cancel_reason = reason;
          cancelled_at = some now;
        })
        s.ride_requests;
  ride_offers =
      update_many (λ o. o.ride_request_id == id && is_pending_offer o.status)
        (set_offer_status OfferStatus.expired) s.ride_offers;
  trips = cancel_trip trip reason s.trips;
}

unfoldable pub commit_cancel : Uuid → Option String → Cancellation → M RideRequest
commit_cancel id reason c = do
  now ← gets (λ w. w.now)
  modify_rides (cancel_transaction id c.trip reason now)
  updated ← or_raise (← gets (λ w. find_request id w.rides)) (prisma record_not_found)
  emit (ride_request_cancelled updated c.affected_driver_user_ids)
  pure updated

unfoldable pub cancel : Uuid → Uuid → Option String → M RideRequest
cancel id user_id reason = do c ← check_cancel id user_id; commit_cancel id reason c

abbrev pub request_clash : RideRequest → RideRequest → Bool
request_clash a b = b.id == a.id

abbrev pub new_request : Uuid → Time → Uuid → CreateRideRequest → RideRequest
new_request id now rider_id dto = record {
  id = id;
  rider_id = rider_id;
  pickup_lat = dto.pickup_lat;
  pickup_lng = dto.pickup_lng;
  dropoff_lat = dto.dropoff_lat;
  dropoff_lng = dto.dropoff_lng;
  suggested_fare = dto.suggested_fare;
  status = RideRequestStatus.pending;
  cancel_reason = none;
  cancelled_at = none;
  created_at = now;
}

unfoldable pub insert_request : RideRequest → Rides → Option Rides
insert_request r s = elim (create request_clash r s.ride_requests) [
  | none ↦ none
  | some rows ↦ some (record s { ride_requests = rows })
]

module _ (geography : Geography) (ride_match_radius_km : ℕ) where
  -- `create`: the request, and how many drivers are near.
  unfoldable pub create_request : Uuid → CreateRideRequest → M (RideRequest × ℕ)
  create_request rider_id dto = do
    id ← draw
    now ← gets (λ w. w.now)
    let ride_request = new_request id now rider_id dto
    write_rides (insert_request ride_request)
    nearby ← gets (
        find_nearby_drivers geography ride_match_radius_km
          (record { lat = dto.pickup_lat; lng = dto.pickup_lng }) none)
    emit (ride_request_created ride_request (map (λ (d : NearbyDriver). d.user_id) nearby))
    pure (ride_request, length nearby)
