-- ===== src/Rides/Keep.antt =====
-- The writes of offers' expiry and of trips keep the tables of rides consistent.
use reedri_end.Base.{
  ◌≡◌, refl, Bool, true, false, ◌&&◌, some, ◌==◌, map_option, if◌then◌else◌, arith, All, All-mono,
  All-always, ==→eq, ap, subst, sym, Option-cases, inl, inr, ◌∙◌,
}
use reedri_end.Table.{update_many}
use reedri_end.Table.Laws.{
  find_first-update_many, find_first-accepted, find_first-key, found_eq, IsUnique-update_many,
}
use reedri_end.Table.Counts.{count-kept, count-vanishes, All-of-count, All-unique}
use reedri_end.Schema.{
  Uuid, RideRequestStatus, OfferStatus, is_open_request, is_pending_offer, RideRequest, RideOffer,
  Trip,
}
use reedri_end.World.{Rides}
use reedri_end.Offers.{
  find_offer, find_request, expire_one, expire_of_driver, set_offer_status, set_request_status,
}
use reedri_end.RideRequests.{find_trip_of}
use reedri_end.Trips.{find_trip, trip_transaction}
use reedri_end.Rides.{
  IsConsistent, request_status, trip_status, agree, is_open, is_pending_for, is_accepted_for,
}

module _ (s : Rides) (h : IsConsistent s) where
  -- An update that expires pending offers.
  module _ (q : RideOffer → Bool)
      (only_pending : All (λ o. q o ≡ true → is_pending_offer o.status ≡ true) s.ride_offers) where
    pub expiry-IsConsistent : IsConsistent (record s {
      ride_offers = update_many q (set_offer_status OfferStatus.expired) s.ride_offers;
    })
    expiry-IsConsistent = record {
      request_ids = h.request_ids;
      offer_ids =
          IsUnique-update_many (λ (o : RideOffer). o.id) q (set_offer_status OfferStatus.expired)
            s.ride_offers (λ o. refl) h.offer_ids;
      trip_ids = h.trip_ids;
      trip_requests = h.trip_requests;
      statuses = h.statuses;
      settled = λ k closed.
          count-vanishes (is_pending_for k) q (set_offer_status OfferStatus.expired) s.ride_offers (
            All-mono _ _ (λ o e. ground (arith, e)) s.ride_offers
              (All-of-count (is_pending_for k) s.ride_offers (h.settled k closed)));
      accepted = λ k.
          rw
            (count-kept (is_accepted_for k) q (set_offer_status OfferStatus.expired) s.ride_offers
              (All-mono _ _ (λ o e. ground (arith, e)) s.ride_offers only_pending))
            (h.accepted k);
    }

  pub expire_one-IsConsistent :
      (o : RideOffer)
      → find_offer o.id s ≡ some o
      → is_pending_offer o.status ≡ true
      → IsConsistent (expire_one o.id s)
  unfolding expire_one
  expire_one-IsConsistent o found pending =
      expiry-IsConsistent (λ x. x.id == o.id)
        (All-mono _ _
          (λ x e hit.
            subst (λ (y : RideOffer). is_pending_offer y.status ≡ true) (sym (e hit)) pending)
          s.ride_offers
          (All-unique (λ (x : RideOffer). x.id) o.id s.ride_offers o h.offer_ids found))

  pub expire_of_driver-IsConsistent : (d : Uuid) → IsConsistent (expire_of_driver d s)
  unfolding expire_of_driver
  expire_of_driver-IsConsistent d =
      expiry-IsConsistent (λ x. x.driver_id == d && is_pending_offer x.status)
        (All-always _ (λ x hit. ground arith) s.ride_offers)

  -- A trip and its ride request move on together.
  module _ (trip : Trip) (found : find_trip trip.id s ≡ some trip) (f : Trip → Trip)
      (to : RideRequestStatus) (id_kept : (t : Trip) → (f t).id ≡ t.id)
      (request_kept : (t : Trip) → (f t).ride_request_id ≡ t.ride_request_id)
      (in_step : agree (some to) (some (f trip).status) ≡ true)
      (open_no_more : is_open_request to ≡ false) where
    abbrev pub after_move : Rides
    after_move = trip_transaction f to trip.id trip.ride_request_id s

    pub request_of_moved :
        (k : Uuid)
        → find_request k after_move
          ≡ map_option
              (λ (r : RideRequest).
                if r.id == trip.ride_request_id then set_request_status to r else r)
              (find_request k s)
    unfolding trip_transaction
    request_of_moved k =
        find_first-update_many (λ (r : RideRequest). r.id == k) (λ r. r.id == trip.ride_request_id)
          (set_request_status to) s.ride_requests (λ r. refl)

    pub trip_of_moved :
        (k : Uuid)
        → find_trip_of k after_move
          ≡ map_option (λ (t : Trip). if t.id == trip.id then f t else t) (find_trip_of k s)
    unfolding trip_transaction
    trip_of_moved k =
        find_first-update_many (λ (t : Trip). t.ride_request_id == k) (λ t. t.id == trip.id) f
          s.trips (λ t. ap (λ i. i == k) (request_kept t))

    own_trip : find_trip_of trip.ride_request_id s ≡ some trip
    own_trip =
        find_first-key (λ (t : Trip). t.ride_request_id) (λ (t : Trip). t.id == trip.id) s.trips
          trip h.trip_requests found

    pub same_trip : (k : Uuid) (u : Trip) → find_trip_of k s ≡ some u → u.id ≡ trip.id → u ≡ trip
    same_trip k u e same =
        found_eq (λ (t : Trip). t.id) (λ (t : Trip). t.ride_request_id == k)
          (λ (t : Trip). t.id == trip.id) s.trips u trip h.trip_ids e found same

    pub own_trip_at : (k : Uuid) → (k == trip.ride_request_id) ≡ true → find_trip_of k s ≡ some trip
    own_trip_at k e =
        subst (λ j. find_trip_of j s ≡ some trip) (sym (==→eq k trip.ride_request_id e)) own_trip

    statuses_moved :
        (k : Uuid) → agree (request_status k after_move) (trip_status k after_move) ≡ true
    statuses_moved k =
        rw (request_of_moved k, trip_of_moved k)
          (elim (Option-cases (find_request k s)) [
            | inl no_request ↦ ground (arith, h.statuses k, no_request)
            | inr (r, er) ↦ elim (Option-cases (find_trip_of k s)) [
              | inl no_trip ↦ ground (
                arith,
                h.statuses k,
                er,
                no_trip,
                own_trip_at k,
                find_first-accepted (λ (x : RideRequest). x.id == k) s.ride_requests r,
              )
              | inr (u, eu) ↦ ground (
                arith,
                h.statuses k,
                er,
                eu,
                own_trip_at k,
                same_trip k u,
                find_first-accepted (λ (x : RideRequest). x.id == k) s.ride_requests r,
                find_first-accepted (λ (x : Trip). x.ride_request_id == k) s.trips u,
              )
            ]
          ])

    closed_before :
        (k : Uuid)
        → is_open (request_status k after_move) ≡ false
        → is_open (request_status k s) ≡ false
    closed_before k closed = elim (Option-cases (find_request k s)) [
      | inl e ↦ ground (arith, e)
      | inr (r, er) ↦ ground (
        arith,
        er,
        closed,
        request_of_moved k,
        h.statuses k,
        own_trip_at k,
        find_first-accepted (λ (x : RideRequest). x.id == k) s.ride_requests r,
      )
    ]

    pub move-IsConsistent : IsConsistent (trip_transaction f to trip.id trip.ride_request_id s)
    unfolding trip_transaction
    move-IsConsistent = record {
      request_ids =
          IsUnique-update_many (λ (r : RideRequest). r.id) (λ r. r.id == trip.ride_request_id)
            (set_request_status to) s.ride_requests (λ r. refl) h.request_ids;
      offer_ids = h.offer_ids;
      trip_ids =
          IsUnique-update_many (λ (t : Trip). t.id) (λ t. t.id == trip.id) f s.trips id_kept
            h.trip_ids;
      trip_requests =
          IsUnique-update_many (λ (t : Trip). t.ride_request_id) (λ t. t.id == trip.id) f s.trips
            request_kept h.trip_requests;
      statuses = statuses_moved;
      settled = λ k closed. h.settled k (closed_before k closed);
      accepted = λ k. h.accepted k ∙ ground (arith, trip_of_moved k);
    }
