-- ===== src/Trips.antt =====
-- Trips (src/trips/trips.service.ts). Each of `start` and `complete` is its reads and checks
-- followed by its writes.
use reedri_end.Base.{not, Option, some, ◌==◌}
use reedri_end.Table.{find_first, update_many}
use reedri_end.Schema.{
  Uuid, Time, RideRequestStatus, TripStatus, is_matched_trip, is_started_trip, Trip,
}
use reedri_end.Events.{trip_started, trip_completed}
use reedri_end.World.{
  Rides, bad_request, forbidden, not_found, record_not_found, http, prisma, M, ◌>>=◌, ◌>>◌, pure,
  gets, or_raise, raise_if, modify_rides, emit,
}
use reedri_end.Offers.{set_request_status}

abbrev pub find_trip : Uuid → Rides → Option Trip
find_trip i s = find_first (λ t. t.id == i) s.trips

unfoldable pub find_owned_by_driver : Uuid → Uuid → M Trip
find_owned_by_driver trip_id driver_user_id = do
  trip ← or_raise (← gets (λ w. find_trip trip_id w.rides)) (http (not_found "Trip not found"))
  raise_if (not (trip.driver_id == driver_user_id)) (http (forbidden "Forbidden"))
  pure trip

-- The two writes of `start` and of `complete`: of the trip, and of its ride request.
unfoldable pub trip_transaction : (Trip → Trip) → RideRequestStatus → Uuid → Uuid → Rides → Rides
trip_transaction f status trip_id ride_request_id s = record s {
  trips = update_many (λ t. t.id == trip_id) f s.trips;
  ride_requests =
      update_many (λ r. r.id == ride_request_id) (set_request_status status) s.ride_requests;
}

abbrev pub started_at_time : Time → Trip → Trip
started_at_time now t = record t { status = TripStatus.started; started_at = some now }

abbrev pub completed_at_time : Time → Trip → Trip
completed_at_time now t = record t { status = TripStatus.completed; ended_at = some now }

unfoldable pub check_start : Uuid → Uuid → M Trip
unfolding find_owned_by_driver
check_start trip_id driver_user_id = do
  trip ← find_owned_by_driver trip_id driver_user_id
  raise_if (not (is_matched_trip trip.status))
      (http (bad_request "Trip cannot be started from its current status"))
  pure trip

unfoldable pub commit_start : Uuid → Trip → M Trip
commit_start trip_id trip = do
  now ← gets (λ w. w.now)
  modify_rides (
      trip_transaction (started_at_time now) RideRequestStatus.in_progress trip_id
        trip.ride_request_id)
  updated ← or_raise (← gets (λ w. find_trip trip_id w.rides)) (prisma record_not_found)
  emit (trip_started updated)
  pure updated

unfoldable pub start : Uuid → Uuid → M Trip
start trip_id driver_user_id = do
  trip ← check_start trip_id driver_user_id
  commit_start trip_id trip

unfoldable pub check_complete : Uuid → Uuid → M Trip
unfolding find_owned_by_driver
check_complete trip_id driver_user_id = do
  trip ← find_owned_by_driver trip_id driver_user_id
  raise_if (not (is_started_trip trip.status))
      (http (bad_request "Trip cannot be completed from its current status"))
  pure trip

unfoldable pub commit_complete : Uuid → Trip → M Trip
commit_complete trip_id trip = do
  now ← gets (λ w. w.now)
  modify_rides (
      trip_transaction (completed_at_time now) RideRequestStatus.completed trip_id
        trip.ride_request_id)
  updated ← or_raise (← gets (λ w. find_trip trip_id w.rides)) (prisma record_not_found)
  emit (trip_completed updated)
  pure updated

unfoldable pub complete : Uuid → Uuid → M Trip
complete trip_id driver_user_id = do
  trip ← check_complete trip_id driver_user_id
  commit_complete trip_id trip
