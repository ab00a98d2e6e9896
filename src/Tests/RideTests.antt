-- ===== src/Tests/RideTests.antt =====
-- Rides: runs, and the properties at concrete inputs.
use reedri_end.Base.{◌≡◌, ◌⊎◌, false, refl, none, some, List, [], ◌∷◌, arith}
use reedri_end.Table.{find_first, find_many, update_many, create, count, delete_many}
use reedri_end.Schema.{RideRequestStatus, OfferStatus, TripStatus, RideRequest, RideOffer, Trip}
use reedri_end.World.{
  World, Rides, after, ok, err, prisma, unique_violation, http, forbidden, queue_failure,
}
use reedri_end.Queue.{JobQueue, list_queue}
use reedri_end.Offers.{
  Acceptance, check_accept, commit_accept, accept_offer, accept_transaction, driver_user_ids,
  cancel_all, cancel_scheduled_expiry, set_request_status, set_offer_status,
}
use reedri_end.RideRequests.{Cancellation, check_cancel, commit_cancel, load}
use reedri_end.Trips.{
  find_trip, start, complete, check_start, check_complete, commit_start, commit_complete,
  trip_transaction,
}
use reedri_end.Rides.{IsConsistent, request_status}
use reedri_end.Rides.Invariant.{
  Call, accepts_offer, starts_trip, completes_trip, perform, perform_all, perform_all-IsConsistent,
}
use reedri_end.Rides.Life.{Follows, perform-trip-Follows}
use reedri_end.Rides.Accepting.{Accepts, accept_offer-returns, drawn_trip}
use reedri_end.Rides.Races.{double_accept, accept_after_cancel}
use reedri_end.Tests.Data.{start_world, open_rides, no_rides, request, offer, second_offer, flat}

no_rides-IsConsistent : IsConsistent no_rides
unfolding find_first count
no_rides-IsConsistent = record {
  request_ids = tt;
  offer_ids = tt;
  trip_ids = tt;
  trip_requests = tt;
  statuses = λ k. refl;
  settled = λ k closed. refl;
  accepted = λ k. refl;
}

pub open_rides-IsConsistent : IsConsistent open_rides
unfolding find_first count
open_rides-IsConsistent = record {
  request_ids = (refl, tt);
  offer_ids = (refl, (refl, tt));
  trip_ids = tt;
  trip_requests = tt;
  statuses = λ k. ground arith;
  settled = λ k closed. ground arith;
  accepted = λ k. ground arith;
}

-- After the rider has accepted the first offer.
abbrev pub trip : Trip
trip = record {
  id = 500;
  ride_request_id = 100;
  driver_id = 2;
  rider_id = 1;
  agreed_fare = 1800;
  status = TripStatus.matched;
  started_at = none;
  ended_at = none;
  cancel_reason = none;
  created_at = 1000;
}

abbrev acceptance : Acceptance
acceptance = record {
  offer = offer;
  ride_request = request;
  driver_user_id = 2;
  other_pending_offers = second_offer ∷ [];
  other_driver_user_ids = 3 ∷ [];
}

abbrev second_acceptance : Acceptance
second_acceptance = record {
  offer = second_offer;
  ride_request = request;
  driver_user_id = 3;
  other_pending_offers = offer ∷ [];
  other_driver_user_ids = 2 ∷ [];
}

abbrev cancellation : Cancellation
cancellation = record { trip = none; affected_driver_user_ids = 2 ∷ 3 ∷ [] }

check_first : (check_accept 1 200 start_world).0 ≡ ok acceptance
unfolding check_accept find_first find_many driver_user_ids
check_first = refl

check_second : (check_accept 1 201 start_world).0 ≡ ok second_acceptance
unfolding check_accept find_first find_many driver_user_ids
check_second = refl

check_cancellation : (check_cancel 100 1 start_world).0 ≡ ok cancellation
unfolding check_cancel load find_first find_many driver_user_ids
check_cancellation = refl

commit_first : (commit_accept list_queue 60 1 acceptance start_world).0 ≡ ok trip
unfolding commit_accept accept_transaction create find_first update_many cancel_all
    cancel_scheduled_expiry delete_many
commit_first = refl

accept_first : (accept_offer list_queue 60 1 200 start_world).0 ≡ ok trip
unfolding accept_offer check_accept find_many driver_user_ids commit_accept accept_transaction
    create find_first update_many cancel_all cancel_scheduled_expiry delete_many
accept_first = refl

-- A user who is not the rider is refused.
accept_stranger :
    (accept_offer list_queue 60 7 200 start_world).0 ≡ err (http (forbidden "Forbidden"))
unfolding accept_offer check_accept find_first
accept_stranger = refl

abbrev pub a_ride : List Call
a_ride = accepts_offer 1 200 ∷ starts_trip 500 2 ∷ completes_trip 500 2 ∷ []

ride_completed :
    request_status 100 (perform_all list_queue 60 flat 5 a_ride start_world).rides
    ≡ some RideRequestStatus.completed
unfolding perform_all perform accept_offer check_accept find_many driver_user_ids commit_accept
    accept_transaction create find_first update_many cancel_all cancel_scheduled_expiry delete_many
    start complete check_start check_complete commit_start commit_complete trip_transaction
ride_completed = refl

perform_all-IsConsistent_example :
    IsConsistent (perform_all list_queue 60 flat 5 a_ride start_world).rides
perform_all-IsConsistent_example =
    perform_all-IsConsistent list_queue 60 flat 5 a_ride start_world open_rides-IsConsistent

abbrev pub matched_rides : Rides
matched_rides = record {
  ride_requests = set_request_status RideRequestStatus.matched request ∷ [];
  ride_offers =
      set_offer_status OfferStatus.accepted offer
      ∷ set_offer_status OfferStatus.expired second_offer
      ∷ [];
  trips = trip ∷ [];
}

matched_rides-IsConsistent : IsConsistent matched_rides
unfolding find_first count
matched_rides-IsConsistent = record {
  request_ids = (refl, tt);
  offer_ids = (refl, (refl, tt));
  trip_ids = (refl, tt);
  trip_requests = (refl, tt);
  statuses = λ k. ground arith;
  settled = λ k closed. ground arith;
  accepted = λ k. ground arith;
}

abbrev pub matched_world : World
matched_world = record start_world { rides = matched_rides }

trip_found : find_trip 500 matched_world.rides ≡ some trip
unfolding find_first
trip_found = refl

pub matched_world-IsConsistent : IsConsistent matched_world.rides
matched_world-IsConsistent = matched_rides-IsConsistent

perform-trip-Follows_example :
    (u : Trip) × (find_trip 500
        (perform list_queue 60 flat 5 (starts_trip 500 2) matched_world).rides
      ≡ some u)
    × Follows trip u
perform-trip-Follows_example =
    perform-trip-Follows list_queue 60 flat 5 (starts_trip 500 2) matched_world 500 trip
      matched_world-IsConsistent trip_found

-- A queue that does not answer.
abbrev broken_queue : JobQueue
broken_queue = record list_queue { answers = λ j q. false }

accept_offer-returns_example :
    (o : RideOffer) × (r : RideRequest) × Accepts 1 200 start_world
      (after (accept_offer list_queue 60 1 200) start_world)
      trip
      o
      r
accept_offer-returns_example =
    accept_offer-returns list_queue 60 1 200 start_world trip accept_first

double_accept_example :
    let v = after (commit_accept list_queue 60 1 acceptance) start_world in
    ((commit_accept list_queue 60 1 second_acceptance v).0 ≡ err (prisma unique_violation))
    × ((after (commit_accept list_queue 60 1 second_acceptance) v).rides ≡ v.rides)
    × ((after (commit_accept list_queue 60 1 second_acceptance) v).jobs ≡ v.jobs)
    × ((after (commit_accept list_queue 60 1 second_acceptance) v).events ≡ v.events)
double_accept_example =
    double_accept list_queue 60 1 200 201 acceptance second_acceptance start_world trip check_first
      check_second refl commit_first

no_trip_500 : find_trip 500 start_world.rides ≡ none
unfolding find_first
no_trip_500 = refl

accept_after_cancel_example :
    let v = after (commit_cancel 100 none cancellation) start_world in
    (request_status 100 v.rides ≡ some RideRequestStatus.cancelled)
    × (((commit_accept list_queue 60 1 acceptance v).0
          ≡ ok (drawn_trip list_queue 60 1 acceptance v))
        ⊎ ((commit_accept list_queue 60 1 acceptance v).0 ≡ err queue_failure))
    × (request_status 100 (after (commit_accept list_queue 60 1 acceptance) v).rides
        ≡ some RideRequestStatus.matched)
accept_after_cancel_example =
    accept_after_cancel list_queue 60 1 1 200 none acceptance cancellation start_world
      open_rides-IsConsistent no_trip_500 check_first check_cancellation
