-- ===== src/Rides/Write.antt =====
-- The writes of the tables of rides: one constructor for each write that a method makes, with the
-- facts that the method has checked, in the state that it writes to.
use reedri_end.Base.{true, ◌||◌, ◌≡◌, ◌⊎◌, Option, some, String}
use reedri_end.Schema.{
  Uuid, Time, Fare, RideRequestStatus, OfferStatus, TripStatus, is_open_request, is_matched_request,
  is_pending_offer, is_matched_trip, is_started_trip, RideRequest, RideOffer, Trip,
}
use reedri_end.World.{Rides}
use reedri_end.Offers.{
  find_offer, find_request, accept_transaction, insert_offer, renew_offer, expire_one,
  expire_of_driver,
}
use reedri_end.RideRequests.{insert_request, find_trip_of, cancel_transaction}
use reedri_end.Trips.{find_trip, trip_transaction, started_at_time, completed_at_time}

-- One write of the tables of rides.
pub data Write (s t : Rides) : Type 0 where
  inserts_request :
      (r : RideRequest)
      → r.status ≡ RideRequestStatus.pending
      → insert_request r s ≡ some t
      → Write s t
  inserts_offer :
      (o : RideOffer) (r : RideRequest)
      → o.status ≡ OfferStatus.pending
      → find_request o.ride_request_id s ≡ some r
      → is_open_request r.status ≡ true
      → insert_offer o s ≡ some t
      → Write s t
  renews :
      (k d : Uuid) (fare : Fare) (r : RideRequest)
      → find_request k s ≡ some r
      → is_open_request r.status ≡ true
      → t ≡ renew_offer k d fare s
      → Write s t
  accepts :
      (o : RideOffer) (r : RideRequest) (trip : Trip)
      → find_offer o.id s ≡ some o
      → find_request o.ride_request_id s ≡ some r
      → is_open_request r.status ≡ true
      → is_pending_offer o.status ≡ true
      → trip.ride_request_id ≡ o.ride_request_id
      → trip.status ≡ TripStatus.matched
      → accept_transaction o trip s ≡ some t
      → Write s t
  expires :
      (o : RideOffer)
      → find_offer o.id s ≡ some o
      → is_pending_offer o.status ≡ true
      → t ≡ expire_one o.id s
      → Write s t
  expires_of_driver : (d : Uuid) → t ≡ expire_of_driver d s → Write s t
  starts :
      (now : Time) (trip : Trip)
      → find_trip trip.id s ≡ some trip
      → is_matched_trip trip.status ≡ true
      → t
        ≡ trip_transaction
            (started_at_time now)
            RideRequestStatus.in_progress
            trip.id
            trip.ride_request_id
            s
      → Write s t
  completes :
      (now : Time) (trip : Trip)
      → find_trip trip.id s ≡ some trip
      → is_started_trip trip.status ≡ true
      → t
        ≡ trip_transaction
            (completed_at_time now)
            RideRequestStatus.completed
            trip.id
            trip.ride_request_id
            s
      → Write s t
  cancels :
      (k : Uuid) (r : RideRequest) (reason : Option String) (now : Time)
      → find_request k s ≡ some r
      → (is_open_request r.status || is_matched_request r.status) ≡ true
      → t ≡ cancel_transaction k (find_trip_of k s) reason now s
      → Write s t

abbrev pub Step : Rides → Rides → Type 0
Step s t = (t ≡ s) ⊎ Write s t
