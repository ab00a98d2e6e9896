-- ===== src/Rides/KeepCancel.antt =====
-- The cancellation of a ride request keeps the tables of rides consistent.
use reedri_end.Base.{
  ℕ, ◌≡◌, refl, true, false, ◌||◌, Option, none, some, List, ◌==◌, map_option, String,
  if◌then◌else◌, arith, All-mono, All-always, ==→eq, ap, Bool-cases, Option-cases, inl, inr, ◌∙◌,
}
use reedri_end.Table.{count, IsUnique}
use reedri_end.Table.Laws.{
  find_first-update_many, find_first-accepted, found_eq, IsUnique-update_many,
}
use reedri_end.Table.Counts.{count-kept, count-vanishes, All-of-count}
use reedri_end.Schema.{
  Uuid, Time, RideRequestStatus, OfferStatus, TripStatus, is_open_request, is_matched_request,
  RideRequest, RideOffer, Trip,
}
use reedri_end.World.{Rides}
use reedri_end.Offers.{find_request, set_offer_status}
use reedri_end.RideRequests.{find_trip_of, cancel_transaction, cancel_trip}
use reedri_end.Rides.{
  IsConsistent, request_status, trip_status, agree, is_open, is_pending_for, is_accepted_for,
}

cancel_trip-IsUnique :
    (key : Trip → ℕ) (o : Option Trip) (reason : Option String) (ts : List Trip)
    → ((x : Trip)
        → key (record x { status = TripStatus.cancelled; cancel_reason = reason }) ≡ key x)
    → IsUnique key ts
    → IsUnique key (cancel_trip o reason ts)
cancel_trip-IsUnique key none reason ts same u = u
cancel_trip-IsUnique key (some t) reason ts same u =
    IsUnique-update_many key (λ x. x.id == t.id) _ ts same u

module _ (s : Rides) (h : IsConsistent s) (k : Uuid) (r : RideRequest) (reason : Option String)
    (now : Time) (found : find_request k s ≡ some r)
    (active : (is_open_request r.status || is_matched_request r.status) ≡ true) where
  abbrev pub cancelled_request : RideRequest → RideRequest
  cancelled_request x = record x {
    status = RideRequestStatus.cancelled;
    cancel_reason = reason;
    cancelled_at = some now;
  }

  abbrev pub cancelled_trip : Trip → Trip
  cancelled_trip x = record x { status = TripStatus.cancelled; cancel_reason = reason }

  abbrev pub after_cancel : Rides
  after_cancel = cancel_transaction k (find_trip_of k s) reason now s

  pub request_of_cancelled :
      (j : Uuid)
      → find_request j after_cancel
        ≡ map_option
            (λ (x : RideRequest). if x.id == k then cancelled_request x else x)
            (find_request j s)
  unfolding cancel_transaction
  request_of_cancelled j =
      find_first-update_many (λ (x : RideRequest). x.id == j) (λ x. x.id == k) cancelled_request
        s.ride_requests (λ x. refl)

  at_k : (j : Uuid) → (j == k) ≡ true → find_trip_of j s ≡ find_trip_of k s
  at_k j e = ap (λ i. find_trip_of i s) (==→eq j k e)

  trip_key : (j : Uuid) (u : Trip) → find_trip_of j s ≡ some u → u.ride_request_id ≡ j
  trip_key j u e =
      ==→eq u.ride_request_id j
        (find_first-accepted (λ (x : Trip). x.ride_request_id == j) s.trips u e)

  same_trip :
      (i j : Uuid) (t u : Trip)
      → find_trip_of i s ≡ some t
      → find_trip_of j s ≡ some u
      → u.id ≡ t.id
      → i ≡ j
  same_trip i j t u et eu same =
      let one : u ≡ t =
        found_eq (λ (x : Trip). x.id) (λ (x : Trip). x.ride_request_id == j)
          (λ (x : Trip). x.ride_request_id == i) s.trips u t h.trip_ids eu et same in
      cc (trip_key i t et, trip_key j u eu)

  -- The trip of the ride request is cancelled, and no other.
  pub trip_of_cancelled :
      (j : Uuid)
      → find_trip_of j after_cancel
        ≡ map_option (λ (x : Trip). if j == k then cancelled_trip x else x) (find_trip_of j s)
  unfolding cancel_transaction
  trip_of_cancelled j = elim (Option-cases (find_trip_of k s)) [
    | inl e ↦
        rw (e, cancel_trip)
          (elim (Option-cases (find_trip_of j s)) [
            | inl no_trip ↦ rw no_trip
            | inr (u, eu) ↦ ground (arith, eu, e, at_k j)
          ])
    | inr (t, e) ↦
        rw (e, cancel_trip)
          (rw
            (find_first-update_many (λ (x : Trip). x.ride_request_id == j)
              (λ (x : Trip). x.id == t.id) cancelled_trip s.trips (λ x. refl))
            (elim (Option-cases (find_trip_of j s)) [
              | inl no_trip ↦ rw no_trip
              | inr (u, eu) ↦ ground (arith, eu, e, at_k j, same_trip k j t u e eu)
            ]))
  ]

  cancelled_statuses :
      (j : Uuid) → agree (request_status j after_cancel) (trip_status j after_cancel) ≡ true
  cancelled_statuses j =
      rw (request_of_cancelled j, trip_of_cancelled j)
        (elim (Option-cases (find_request j s)) [
          | inl no_request ↦ ground (arith, h.statuses j, no_request, at_request j)
          | inr (x, ex) ↦ ground (
            arith,
            h.statuses j,
            ex,
            active,
            at_request j,
            found,
            find_first-accepted (λ (y : RideRequest). y.id == j) s.ride_requests x,
          )
        ])
    where
      at_request : (j : Uuid) → (j == k) ≡ true → find_request j s ≡ find_request k s
      at_request j e = ap (λ i. find_request i s) (==→eq j k e)

  still_closed :
      (j : Uuid)
      → (j == k) ≡ false
      → is_open (request_status j after_cancel) ≡ false
      → is_open (request_status j s) ≡ false
  still_closed j miss closed = elim (Option-cases (find_request j s)) [
    | inl no_request ↦ ground (arith, no_request)
    | inr (x, ex) ↦ ground (
      arith,
      ex,
      miss,
      closed,
      request_of_cancelled j,
      find_first-accepted (λ (y : RideRequest). y.id == j) s.ride_requests x,
    )
  ]

  cancelled_settled :
      (j : Uuid)
      → is_open (request_status j after_cancel) ≡ false
      → count (is_pending_for j) after_cancel.ride_offers ≡ 0
  unfolding cancel_transaction
  cancelled_settled j closed = elim (Bool-cases (j == k)) [
    | inl hit ↦
        count-vanishes (is_pending_for j) _ (set_offer_status OfferStatus.expired) s.ride_offers
          (All-always _ (λ o. ground arith) s.ride_offers)
    | inr miss ↦
        count-vanishes (is_pending_for j) _ (set_offer_status OfferStatus.expired) s.ride_offers (
          All-mono _ _ (λ o e. ground (arith, e)) s.ride_offers
            (All-of-count (is_pending_for j) s.ride_offers
              (h.settled j (still_closed j miss closed))))
  ]

  pub cancel-IsConsistent : IsConsistent (cancel_transaction k (find_trip_of k s) reason now s)
  unfolding cancel_transaction
  cancel-IsConsistent = record {
    request_ids =
        IsUnique-update_many (λ (x : RideRequest). x.id) (λ x. x.id == k) cancelled_request
          s.ride_requests (λ x. refl) h.request_ids;
    offer_ids =
        IsUnique-update_many (λ (o : RideOffer). o.id) _ (set_offer_status OfferStatus.expired)
          s.ride_offers (λ o. refl) h.offer_ids;
    trip_ids =
        cancel_trip-IsUnique (λ (t : Trip). t.id) (find_trip_of k s) reason s.trips (λ x. refl)
          h.trip_ids;
    trip_requests =
        cancel_trip-IsUnique (λ (t : Trip). t.ride_request_id) (find_trip_of k s) reason s.trips
          (λ x. refl) h.trip_requests;
    statuses = cancelled_statuses;
    settled = cancelled_settled;
    accepted = λ j.
        count-kept (is_accepted_for j) _ (set_offer_status OfferStatus.expired) s.ride_offers
          (All-always _ (λ o. ground arith) s.ride_offers)
        ∙ (h.accepted j ∙ ground (arith, trip_of_cancelled j));
  }
