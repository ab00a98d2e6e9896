-- ===== src/Rides/KeepAccept.antt =====
-- The acceptance of an offer keeps the tables of rides consistent.
use reedri_end.Base.{
  ◌≡◌, refl, true, false, none, some, List, [], ◌∷◌, ◌++◌, ◌==◌, map_option, is_some, if◌then◌else◌,
  arith, All, All-mono, All-always, ==→eq, subst, sym, Bool-cases, Option-cases, inl, inr, ◌∙◌,
}
use reedri_end.Table.{find_first, update_many, create, count}
use reedri_end.Table.Laws.{
  find_first-update_many, find_first-accepted, find_first-append, find_first-none_of,
  IsUnique-update_many, IsUnique-append, All-update_many,
}
use reedri_end.Table.Counts.{count-kept, count-vanishes, count-gains, All-unique}
use reedri_end.Schema.{
  Uuid, RideRequestStatus, OfferStatus, TripStatus, is_open_request, is_pending_offer, RideRequest,
  RideOffer, Trip,
}
use reedri_end.World.{Rides}
use reedri_end.Offers.{
  find_offer, find_request, set_offer_status, set_request_status, accept_transaction,
  is_other_pending, trip_clash,
}
use reedri_end.RideRequests.{find_trip_of}
use reedri_end.Rides.{
  IsConsistent, request_status, trip_status, agree, is_open, is_pending_for, is_accepted_for,
}
use reedri_end.Rides.KeepOffers.{open-no-trip}

module _ (s : Rides) (h : IsConsistent s) (o : RideOffer) (r : RideRequest) (trip : Trip)
    (t : Rides) (eo : find_offer o.id s ≡ some o) (er : find_request o.ride_request_id s ≡ some r)
    (open_now : is_open_request r.status ≡ true) (pending : is_pending_offer o.status ≡ true)
    (own : trip.ride_request_id ≡ o.ride_request_id) (fresh : trip.status ≡ TripStatus.matched)
    (done : accept_transaction o trip s ≡ some t) where
  abbrev accepted_offers : List RideOffer
  accepted_offers =
      update_many (λ x. x.id == o.id) (set_offer_status OfferStatus.accepted) s.ride_offers

  abbrev written : Rides
  written = record s {
    ride_offers =
        update_many (is_other_pending o) (set_offer_status OfferStatus.expired) accepted_offers;
    ride_requests =
        update_many (λ x. x.id == o.ride_request_id) (set_request_status RideRequestStatus.matched)
          s.ride_requests;
    trips = s.trips ++ trip ∷ [];
  }

  accept_written : (t ≡ written) × (find_first (trip_clash trip) s.trips ≡ none)
  unfolding accept_transaction create
  accept_written = ground arith

  request_of_written :
      (j : Uuid)
      → find_request j written
        ≡ map_option
            (λ (x : RideRequest).
              if x.id == o.ride_request_id
              then set_request_status RideRequestStatus.matched x
              else x)
            (find_request j s)
  request_of_written j =
      find_first-update_many (λ (x : RideRequest). x.id == j) (λ x. x.id == o.ride_request_id)
        (set_request_status RideRequestStatus.matched) s.ride_requests (λ x. refl)

  trip_of_written :
      (j : Uuid)
      → find_trip_of j written ≡ (
          if is_some (find_trip_of j s)
          then find_trip_of j s
          else (if trip.ride_request_id == j then some trip else none))
  unfolding find_first
  trip_of_written j = find_first-append (λ (x : Trip). x.ride_request_id == j) s.trips (trip ∷ [])

  no_trip_at : (j : Uuid) → (j == o.ride_request_id) ≡ true → find_trip_of j s ≡ none
  no_trip_at j e =
      subst (λ i. find_trip_of i s ≡ none) (sym (==→eq j o.ride_request_id e))
        (open-no-trip s h o.ride_request_id r er open_now)

  request_at : (j : Uuid) → (j == o.ride_request_id) ≡ true → find_request j s ≡ some r
  request_at j e = subst (λ i. find_request i s ≡ some r) (sym (==→eq j o.ride_request_id e)) er

  written_statuses : (j : Uuid) → agree (request_status j written) (trip_status j written) ≡ true
  written_statuses j =
      rw (request_of_written j, trip_of_written j)
        (elim (Option-cases (find_request j s)) [
          | inl e ↦ ground (arith, e, h.statuses j, own, no_trip_at j, request_at j, fresh)
          | inr (x, e) ↦ ground (
            arith,
            e,
            h.statuses j,
            own,
            no_trip_at j,
            request_at j,
            fresh,
            find_first-accepted (λ (y : RideRequest). y.id == j) s.ride_requests x,
          )
        ])

  written_closed :
      (j : Uuid)
      → (j == o.ride_request_id) ≡ false
      → is_open (request_status j written) ≡ false
      → is_open (request_status j s) ≡ false
  written_closed j miss closed = elim (Option-cases (find_request j s)) [
    | inl e ↦ ground (arith, e)
    | inr (x, e) ↦ ground (
      arith,
      e,
      miss,
      closed,
      request_of_written j,
      find_first-accepted (λ (y : RideRequest). y.id == j) s.ride_requests x,
    )
  ]

  -- The row of the offer, wherever an offer has its id.
  own_row : All (λ (x : RideOffer). (x.id == o.id) ≡ true → x ≡ o) s.ride_offers
  own_row = All-unique (λ (x : RideOffer). x.id) o.id s.ride_offers o h.offer_ids eo

  accepted_row :
      All
        (λ (x : RideOffer). (x.id == o.id) ≡ true → is_pending_offer x.status ≡ false)
        accepted_offers
  accepted_row =
      All-update_many (λ _. Unit {0}) _ (λ x. x.id == o.id) (set_offer_status OfferStatus.accepted)
        (λ x _ hit _. refl) (λ x _ miss hit. cc) s.ride_offers
        (All-always _ (λ _. tt) s.ride_offers)

  written_settled :
      (j : Uuid)
      → is_open (request_status j written) ≡ false
      → count (is_pending_for j) written.ride_offers ≡ 0
  written_settled j closed = elim (Bool-cases (j == o.ride_request_id)) [
    | inl hit ↦
        count-vanishes (is_pending_for j) (is_other_pending o)
          (set_offer_status OfferStatus.expired) accepted_offers
          (All-mono _ _ (λ x e. ground (arith, e)) accepted_offers accepted_row)
    | inr miss ↦
        count-kept (is_pending_for j) (is_other_pending o) (set_offer_status OfferStatus.expired)
          accepted_offers (All-always _ (λ x. ground arith) accepted_offers)
        ∙ (count-kept (is_pending_for j) (λ x. x.id == o.id) (set_offer_status OfferStatus.accepted)
              s.ride_offers (All-mono _ _ (λ x e. ground (arith, e)) s.ride_offers own_row)
            ∙ h.settled j (written_closed j miss closed))
  ]

  written_accepted :
      (j : Uuid)
      → count (is_accepted_for j) written.ride_offers
        ≡ (if is_some (find_trip_of j written) then 1 else 0)
  written_accepted j =
      count-kept (is_accepted_for j) (is_other_pending o) (set_offer_status OfferStatus.expired)
        accepted_offers (All-always _ (λ x. ground arith) accepted_offers)
      ∙ (elim (Bool-cases (j == o.ride_request_id)) [
        | inl hit ↦
            count-gains (λ (x : RideOffer). x.id) o.id (is_accepted_for j)
              (set_offer_status OfferStatus.accepted) s.ride_offers o h.offer_ids eo (ground arith)
              (ground arith)
            ∙ ground (arith, h.accepted j, trip_of_written j, no_trip_at j hit, own)
        | inr miss ↦
            count-kept (is_accepted_for j) (λ x. x.id == o.id)
              (set_offer_status OfferStatus.accepted) s.ride_offers
              (All-mono _ _ (λ x e. ground (arith, e)) s.ride_offers own_row)
            ∙ ground (arith, h.accepted j, trip_of_written j, own)
      ])

  written-IsConsistent : IsConsistent written
  written-IsConsistent = record {
    request_ids =
        IsUnique-update_many (λ (x : RideRequest). x.id) _
          (set_request_status RideRequestStatus.matched) s.ride_requests (λ x. refl) h.request_ids;
    offer_ids =
        IsUnique-update_many (λ (x : RideOffer). x.id) _ (set_offer_status OfferStatus.expired)
          accepted_offers (λ x. refl)
          (IsUnique-update_many (λ (x : RideOffer). x.id) _ (set_offer_status OfferStatus.accepted)
            s.ride_offers (λ x. refl) h.offer_ids);
    trip_ids =
        IsUnique-append (λ (x : Trip). x.id) s.trips trip h.trip_ids
          (find_first-none_of (trip_clash trip) (λ (x : Trip). x.id == trip.id) s.trips
            (λ x e. ground (arith, e)) accept_written.1);
    trip_requests =
        IsUnique-append (λ (x : Trip). x.ride_request_id) s.trips trip h.trip_requests
          (find_first-none_of (trip_clash trip)
            (λ (x : Trip). x.ride_request_id == trip.ride_request_id) s.trips
            (λ x e. ground (arith, e)) accept_written.1);
    statuses = written_statuses;
    settled = written_settled;
    accepted = written_accepted;
  }

  pub accept-IsConsistent : IsConsistent t
  accept-IsConsistent = subst IsConsistent (sym accept_written.0) written-IsConsistent
