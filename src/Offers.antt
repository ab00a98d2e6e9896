-- ===== src/Offers.antt =====
-- Offers of drivers on ride requests: src/offers/offers.service.ts and offer-expiry.processor.ts.
-- `submit_offer` and `accept_offer` are their reads and checks followed by their writes, so that
-- what happens between the two can be stated.
pub mod Expiry
pub mod Grace
use reedri_end.Base.{
  ℕ, ◌+◌, ◌*◌, Bool, not, ◌&&◌, ◌||◌, Option, none, some, List, [], ◌∷◌, ◌==◌, if◌then◌else◌,
  or_default,
}
use reedri_end.Table.{find_first, find_many, update_many, create}
use reedri_end.Schema.{
  Uuid, Time, Fare, RideRequestStatus, OfferStatus, TripStatus, is_open_request, is_pending_offer,
  DriverProfile, RideRequest, RideOffer, Trip,
}
use reedri_end.Events.{offer_submitted, offer_accepted, offer_expired}
use reedri_end.World.{
  OfferExpiryJob, expire_offer, expire_driver_pending_offers, unknown_job, Rides, World,
  bad_request, forbidden, not_found, inconsistent, http, prisma, queue_failure, ok, err, M, ◌>>=◌,
  ◌>>◌, pure, gets, or_raise, raise_if, modify, modify_rides, write_rides, emit, draw,
}
use reedri_end.Queue.{JobQueue, get_job}

abbrev pub find_offer : Uuid → Rides → Option RideOffer
find_offer i s = find_first (λ o. o.id == i) s.ride_offers

abbrev pub find_request : Uuid → Rides → Option RideRequest
find_request i s = find_first (λ r. r.id == i) s.ride_requests

abbrev pub find_profile : Uuid → World → Option DriverProfile
find_profile i w = find_first (λ p. p.id == i) w.driver_profiles

abbrev pub find_profile_of_user : Uuid → World → Option DriverProfile
find_profile_of_user u w = find_first (λ p. p.user_id == u) w.driver_profiles

-- The unique keys of a ride offer: its id, and its ride request with its driver.
abbrev pub offer_clash : RideOffer → RideOffer → Bool
offer_clash a b =
    b.id == a.id || (b.ride_request_id == a.ride_request_id && b.driver_id == a.driver_id)

-- The unique keys of a trip: its id, and its ride request.
abbrev pub trip_clash : Trip → Trip → Bool
trip_clash a b = b.id == a.id || b.ride_request_id == a.ride_request_id

abbrev pub set_offer_status : OfferStatus → RideOffer → RideOffer
set_offer_status s o = record o { status = s }

abbrev pub set_request_status : RideRequestStatus → RideRequest → RideRequest
set_request_status s r = record r { status = s }

-- The pending offers of a ride request but one.
abbrev pub is_other_pending : RideOffer → RideOffer → Bool
is_other_pending offer o =
    o.ride_request_id == offer.ride_request_id
    && (is_pending_offer o.status && not (o.id == offer.id))

-- The accounts of the drivers who made the offers; `none` if a driver has no profile row.
unfoldable pub driver_user_ids : List DriverProfile → List RideOffer → Option (List Uuid)
driver_user_ids profiles [] = some []
driver_user_ids profiles (o ∷ os) =
    let rest = driver_user_ids profiles os in
    elim (find_first (λ (p : DriverProfile). p.id == o.driver_id) profiles) [
      | none ↦ none
      | some p ↦ elim rest [ none ↦ none | some us ↦ some (p.user_id ∷ us) ]
    ]

-- What `submitOffer` has read when its checks have passed.
pub record Submission : Type 0 where
  pub profile : DriverProfile
  pub ride_request : RideRequest

unfoldable pub check_submit : Uuid → Uuid → M Submission
check_submit driver_user_id ride_request_id = do
  profile ←
      or_raise (← gets (find_profile_of_user driver_user_id))
        (http (not_found "Driver profile not found"))
  ride_request ←
      or_raise (← gets (λ w. find_request ride_request_id w.rides))
        (http (not_found "Ride request not found"))
  raise_if (not (is_open_request ride_request.status))
      (http (bad_request "Ride request is no longer accepting offers"))
  pure (record { profile = profile; ride_request = ride_request })

-- The one offer of a driver on a ride request is created, or is renewed at the new fare.
abbrev pub new_offer : Uuid → Time → Uuid → Uuid → Fare → RideOffer
new_offer id now ride_request_id driver_id offered_fare = record {
  id = id;
  ride_request_id = ride_request_id;
  driver_id = driver_id;
  offered_fare = offered_fare;
  status = OfferStatus.pending;
  created_at = now;
}

unfoldable pub insert_offer : RideOffer → Rides → Option Rides
insert_offer o s = elim (create offer_clash o s.ride_offers) [
  | none ↦ none
  | some rows ↦ some (record s { ride_offers = rows })
]

unfoldable pub renew_offer : Uuid → Uuid → Fare → Rides → Rides
renew_offer ride_request_id driver_id offered_fare s = record s {
  ride_offers =
      update_many (λ o. o.ride_request_id == ride_request_id && o.driver_id == driver_id)
        (λ o. record o { offered_fare = offered_fare; status = OfferStatus.pending }) s.ride_offers;
}

unfoldable pub expire_one : Uuid → Rides → Rides
expire_one offer_id s = record s {
  ride_offers =
      update_many (λ o. o.id == offer_id) (set_offer_status OfferStatus.expired) s.ride_offers;
}

unfoldable pub expire_of_driver : Uuid → Rides → Rides
expire_of_driver driver_id s = record s {
  ride_offers =
      update_many (λ o. o.driver_id == driver_id && is_pending_offer o.status)
        (set_offer_status OfferStatus.expired) s.ride_offers;
}

unfoldable pub upsert_offer : Uuid → Uuid → Fare → M RideOffer
upsert_offer ride_request_id driver_id offered_fare = do
  old ← gets (λ w.
      find_first
        (λ (o : RideOffer). o.ride_request_id == ride_request_id && o.driver_id == driver_id)
        w.ride_offers)
  elim old [
    | none ↦ do
      id ← draw
      now ← gets (λ w. w.now)
      let offer = new_offer id now ride_request_id driver_id offered_fare
      write_rides (insert_offer offer)
      pure offer
    | some offer ↦ do
      modify_rides (renew_offer ride_request_id driver_id offered_fare)
      pure (record offer { offered_fare = offered_fare; status = OfferStatus.pending })
  ]

-- What `acceptOffer` has read when its checks have passed.
pub record Acceptance : Type 0 where
  pub offer : RideOffer
  pub ride_request : RideRequest
  pub driver_user_id : Uuid
  pub other_pending_offers : List RideOffer
  pub other_driver_user_ids : List Uuid

unfoldable pub check_accept : Uuid → Uuid → M Acceptance
check_accept rider_id offer_id = do
  offer ← or_raise (← gets (λ w. find_offer offer_id w.rides)) (http (not_found "Offer not found"))
  ride_request ←
      or_raise (← gets (λ w. find_request offer.ride_request_id w.rides)) (prisma inconsistent)
  driver ← or_raise (← gets (find_profile offer.driver_id)) (prisma inconsistent)
  raise_if (not (ride_request.rider_id == rider_id)) (http (forbidden "Forbidden"))
  raise_if (not (is_open_request ride_request.status) || not (is_pending_offer offer.status))
      (http (bad_request "Offer can no longer be accepted"))
  others ← gets (λ w. find_many (is_other_pending offer) w.ride_offers)
  users ← or_raise (← gets (λ w. driver_user_ids w.driver_profiles others)) (prisma inconsistent)
  pure (record {
    offer = offer;
    ride_request = ride_request;
    driver_user_id = driver.user_id;
    other_pending_offers = others;
    other_driver_user_ids = users;
  })

-- The four writes of `acceptOffer`, all or none.
unfoldable pub accept_transaction : RideOffer → Trip → Rides → Option Rides
accept_transaction offer trip s = elim (create trip_clash trip s.trips) [
  | none ↦ none
  | some trips ↦ some (record s {
    ride_offers =
        update_many (is_other_pending offer) (set_offer_status OfferStatus.expired) (
          update_many (λ o. o.id == offer.id) (set_offer_status OfferStatus.accepted)
            s.ride_offers);
    ride_requests =
        update_many (λ r. r.id == offer.ride_request_id)
          (set_request_status RideRequestStatus.matched) s.ride_requests;
    trips = trips;
  })
]

abbrev pub accepted_trip : Uuid → Time → Uuid → Acceptance → Trip
accepted_trip id now rider_id a = record {
  id = id;
  ride_request_id = a.offer.ride_request_id;
  driver_id = a.driver_user_id;
  rider_id = rider_id;
  agreed_fare = a.offer.offered_fare;
  status = TripStatus.matched;
  started_at = none;
  ended_at = none;
  cancel_reason = none;
  created_at = now;
}

-- `expireIfStillPending`
unfoldable pub expire_if_still_pending : Uuid → M (Option (Uuid × Uuid))
expire_if_still_pending offer_id = do
  found ← gets (λ w. find_offer offer_id w.rides)
  elim found [
    | none ↦ pure none
    | some offer ↦ do
      driver ← or_raise (← gets (find_profile offer.driver_id)) (prisma inconsistent)
      if is_pending_offer offer.status
          then (do
            modify_rides (expire_one offer_id)
            pure (some (offer.ride_request_id, driver.user_id)))
          else pure none
  ]

-- `expireAllPendingOffersForDriver`
unfoldable pub expire_all_pending_offers_for_driver : Uuid → M (Unit {0})
expire_all_pending_offers_for_driver driver_profile_id = do
  found ← gets (find_profile driver_profile_id)
  elim found [
    | none ↦ pure tt
    | some driver ↦
        if driver.is_online then pure tt else modify_rides (expire_of_driver driver_profile_id)
  ]

-- `OfferExpiryProcessor.process`
unfoldable pub process : OfferExpiryJob → M (Unit {0})
process (expire_offer offer_id) = do
  result ← expire_if_still_pending offer_id
  elim result [
    | none ↦ pure tt
    | some (ride_request_id, driver_user_id) ↦
        emit (offer_expired ride_request_id offer_id driver_user_id)
  ]
process (expire_driver_pending_offers driver_profile_id) =
    expire_all_pending_offers_for_driver driver_profile_id
process unknown_job = pure tt

module _ (queue : JobQueue) (offer_expiry_seconds : ℕ) where
  -- `add`, with the delay of the expiry.
  unfoldable pub add_job : OfferExpiryJob → M (Unit {0})
  add_job job = do
    jobs ←
        or_raise
          (← gets (λ w.
            queue.add (record { job = job; run_at = w.now + offer_expiry_seconds * 1000 }) w.jobs))
          queue_failure
    modify (λ w. record w { jobs = jobs })

  unfoldable pub schedule_driver_offer_expiry : Uuid → M (Unit {0})
  unfolding add_job
  schedule_driver_offer_expiry driver_profile_id =
      add_job (expire_driver_pending_offers driver_profile_id)

  unfoldable pub cancel_scheduled_expiry : Uuid → M (Unit {0})
  cancel_scheduled_expiry offer_id = do
    let job = expire_offer offer_id
    answers ← gets (λ w. queue.answers job w.jobs)
    raise_if (not answers) queue_failure
    found ← gets (λ w. get_job job w.jobs)
    elim found [
      | none ↦ pure tt
      | some _ ↦ modify (λ w. record w { jobs = or_default (queue.remove job w.jobs) w.jobs })
    ]

  unfoldable pub schedule_expiry : Uuid → M (Unit {0})
  unfolding cancel_scheduled_expiry add_job
  schedule_expiry offer_id = do cancel_scheduled_expiry offer_id; add_job (expire_offer offer_id)

  -- `Promise.all`, which lets the other calls go on where one throws.
  unfoldable pub cancel_all : List RideOffer → M (Unit {0})
  cancel_all [] w = (ok tt, w)
  cancel_all (o ∷ os) w =
      let (r, w') = cancel_scheduled_expiry o.id w in
      let (rest, w'') = cancel_all os w' in (elim r [ ok _ ↦ rest | err e ↦ err e ], w'')

  unfoldable pub commit_submit : Uuid → Fare → Submission → M RideOffer
  unfolding schedule_expiry
  commit_submit ride_request_id offered_fare s = do
    offer ← upsert_offer ride_request_id s.profile.id offered_fare
    schedule_expiry offer.id
    emit (offer_submitted offer s.ride_request.rider_id)
    pure offer

  -- `submitOffer`
  unfoldable pub submit_offer : Uuid → Uuid → Fare → M RideOffer
  submit_offer driver_user_id ride_request_id offered_fare = do
    s ← check_submit driver_user_id ride_request_id
    commit_submit ride_request_id offered_fare s

  unfoldable pub commit_accept : Uuid → Acceptance → M Trip
  commit_accept rider_id a = do
    id ← draw
    now ← gets (λ w. w.now)
    let trip = accepted_trip id now rider_id a
    write_rides (accept_transaction a.offer trip)
    cancel_all (a.offer ∷ a.other_pending_offers)
    emit (
        offer_accepted (set_request_status RideRequestStatus.matched a.ride_request) trip
          (set_offer_status OfferStatus.accepted a.offer) a.other_driver_user_ids)
    pure trip

  -- `acceptOffer`
  unfoldable pub accept_offer : Uuid → Uuid → M Trip
  accept_offer rider_id offer_id = do a ← check_accept rider_id offer_id; commit_accept rider_id a
