-- ===== src/Rides/KeepOffers.antt =====
-- New ride requests, and new and renewed offers, keep the tables of rides consistent.
use reedri_end.Base.{
  ◌≡◌, refl, true, none, some, [], ◌∷◌, ◌++◌, ◌==◌, is_some, if◌then◌else◌, arith, All-mono,
  All-always, ==→eq, subst, sym, Option-cases, inl, inr, ◌∙◌,
}
use reedri_end.Table.{find_first, create, count}
use reedri_end.Table.Laws.{
  find_first-append, find_first-none_of, IsUnique-update_many, IsUnique-append,
}
use reedri_end.Table.Counts.{count-kept, count-append, All-of-count}
use reedri_end.Schema.{
  Uuid, Fare, RideRequestStatus, OfferStatus, is_open_request, RideRequest, RideOffer,
}
use reedri_end.World.{Rides}
use reedri_end.Offers.{find_request, insert_offer, offer_clash, renew_offer}
use reedri_end.RideRequests.{find_trip_of, insert_request}
use reedri_end.Rides.{IsConsistent, request_status, is_open, is_pending_for, is_accepted_for}

module _ (s : Rides) (h : IsConsistent s) where
  -- On an open ride request there is no trip, and so no accepted offer.
  pub open-no-trip :
      (k : Uuid) (r : RideRequest)
      → find_request k s ≡ some r
      → is_open_request r.status ≡ true
      → find_trip_of k s ≡ none
  open-no-trip k r er open_now = elim (Option-cases (find_trip_of k s)) [
    | inl e ↦ e
    | inr (t, e) ↦ ground (arith, er, e, open_now, h.statuses k)
  ]

  pub open-none-accepted :
      (k : Uuid) (r : RideRequest)
      → find_request k s ≡ some r
      → is_open_request r.status ≡ true
      → count (is_accepted_for k) s.ride_offers ≡ 0
  open-none-accepted k r er open_now = h.accepted k ∙ ground (arith, open-no-trip k r er open_now)

  module _ (k d : Uuid) (fare : Fare) (r : RideRequest) (er : find_request k s ≡ some r)
      (open_now : is_open_request r.status ≡ true) where
    open_at : (j : Uuid) → (j == k) ≡ true → is_open (request_status j s) ≡ true
    open_at j e =
        subst (λ i. is_open (request_status i s) ≡ true) (sym (==→eq j k e))
          (ground (arith, er, open_now))

    abbrev renewed : RideOffer → RideOffer
    renewed o = record o { offered_fare = fare; status = OfferStatus.pending }

    pub renew-IsConsistent : IsConsistent (renew_offer k d fare s)
    unfolding renew_offer
    renew-IsConsistent = record {
      request_ids = h.request_ids;
      offer_ids =
          IsUnique-update_many (λ (o : RideOffer). o.id) _ renewed s.ride_offers (λ o. refl)
            h.offer_ids;
      trip_ids = h.trip_ids;
      trip_requests = h.trip_requests;
      statuses = h.statuses;
      settled = λ j closed.
          count-kept (is_pending_for j) _ renewed s.ride_offers
            (All-always _ (λ o. ground (arith, open_at j, closed)) s.ride_offers)
          ∙ h.settled j closed;
      accepted = λ j.
          count-kept (is_accepted_for j) _ renewed s.ride_offers (
            All-mono _ _ (λ o e. ground (arith, e)) s.ride_offers
              (All-of-count (is_accepted_for k) s.ride_offers (open-none-accepted k r er open_now)))
          ∙ h.accepted j;
    }

  module _ (o : RideOffer) (r : RideRequest) (t : Rides) (new : o.status ≡ OfferStatus.pending)
      (er : find_request o.ride_request_id s ≡ some r) (open_now : is_open_request r.status ≡ true)
      (done : insert_offer o s ≡ some t) where
    inserted :
        (t ≡ record s { ride_offers = s.ride_offers ++ o ∷ [] })
        × (find_first (offer_clash o) s.ride_offers ≡ none)
    unfolding insert_offer create
    inserted = ground arith

    insert_offer-appended : IsConsistent (record s { ride_offers = s.ride_offers ++ o ∷ [] })
    unfolding count
    insert_offer-appended = record {
      request_ids = h.request_ids;
      offer_ids =
          IsUnique-append (λ (x : RideOffer). x.id) s.ride_offers o h.offer_ids
            (find_first-none_of (offer_clash o) (λ (x : RideOffer). x.id == o.id) s.ride_offers
              (λ x e. ground (arith, e)) inserted.1);
      trip_ids = h.trip_ids;
      trip_requests = h.trip_requests;
      statuses = h.statuses;
      settled = λ j closed. ground (
        arith,
        count-append (is_pending_for j) s.ride_offers (o ∷ []),
        h.settled j closed,
        closed,
        open_at o.ride_request_id o.driver_id 0 r er open_now j,
        ==→eq o.ride_request_id j,
      );
      accepted = λ j.
          ground
            (arith, count-append (is_accepted_for j) s.ride_offers (o ∷ []), h.accepted j, new);
    }

    pub insert_offer-IsConsistent : IsConsistent t
    insert_offer-IsConsistent = subst IsConsistent (sym inserted.0) insert_offer-appended

  module _ (r : RideRequest) (t : Rides) (new : r.status ≡ RideRequestStatus.pending)
      (done : insert_request r s ≡ some t) where
    created :
        (t ≡ record s { ride_requests = s.ride_requests ++ r ∷ [] }) × (find_request r.id s ≡ none)
    unfolding insert_request create
    created = ground arith

    request_of_created :
        (j : Uuid)
        → find_request j (record s { ride_requests = s.ride_requests ++ r ∷ [] }) ≡ (
            if is_some (find_request j s)
            then find_request j s
            else (if r.id == j then some r else none))
    unfolding find_first
    request_of_created j =
        find_first-append (λ (x : RideRequest). x.id == j) s.ride_requests (r ∷ [])

    none_at : (j : Uuid) → (r.id == j) ≡ true → find_request j s ≡ none
    none_at j e = subst (λ i. find_request i s ≡ none) (==→eq r.id j e) created.1

    insert_request-appended : IsConsistent (record s { ride_requests = s.ride_requests ++ r ∷ [] })
    insert_request-appended = record {
      request_ids =
          IsUnique-append (λ (x : RideRequest). x.id) s.ride_requests r h.request_ids created.1;
      offer_ids = h.offer_ids;
      trip_ids = h.trip_ids;
      trip_requests = h.trip_requests;
      statuses = λ j. rw (request_of_created j) (ground (arith, h.statuses j, new, none_at j));
      settled = λ j closed. h.settled j (ground (arith, request_of_created j, closed, new));
      accepted = h.accepted;
    }

    pub insert_request-IsConsistent : IsConsistent t
    insert_request-IsConsistent = subst IsConsistent (sym created.0) insert_request-appended
