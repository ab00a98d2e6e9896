-- ===== src/Rides/Accepting.antt =====
-- The acceptance of an offer (`acceptOffer` of src/offers/offers.service.ts): when it goes through,
-- what it does, and what is left when it throws.
use reedri_end.Base.{
  ℕ, suc, ◌≡◌, refl, true, none, some, List, [], ◌∷◌, ◌++◌, arith, ==→eq, ap, subst, sym, ◌⊎◌,
  Option-cases, inl, inr, ◌∙◌,
}
use reedri_end.Schema.{
  Uuid, RideRequestStatus, OfferStatus, TripStatus, is_open_request, is_pending_offer, RideRequest,
  RideOffer, Trip,
}
use reedri_end.Events.{offer_accepted}
use reedri_end.World.{
  Rides, World, after, ok, err, Result, Result-cases, Failure, prisma, queue_failure,
  unique_violation,
}
use reedri_end.World.Rules.{>>=-split}
use reedri_end.Queue.{JobQueue}
use reedri_end.Offers.{
  Acceptance, find_offer, find_request, accepted_trip, accept_transaction, check_accept,
  commit_accept, accept_offer, cancel_all, cancel_scheduled_expiry, set_request_status,
  set_offer_status,
}
use reedri_end.RideRequests.{find_trip_of}
use reedri_end.Rides.Acceptance.{IsAccepted, accept_transaction-IsAccepted, no_trip_before}
use reedri_end.Rides.Offering.{check_accept-ok, check_accept-after, IsAcceptable, cancel_all-rides}

-- What is so before and after an acceptance that returns a trip.
pub record Accepts (rider_id offer_id : Uuid) (w v : World) (t : Trip) (o : RideOffer)
    (r : RideRequest) : Type 0 where
  pub offer_found : find_offer offer_id w.rides ≡ some o
  pub request_found : find_request o.ride_request_id w.rides ≡ some r
  pub owned : r.rider_id ≡ rider_id
  pub request_open : is_open_request r.status ≡ true
  pub offer_pending : is_pending_offer o.status ≡ true
  pub no_trip : find_trip_of o.ride_request_id w.rides ≡ none
  pub now_accepted : IsAccepted o t v.rides
  pub rider_of_trip : t.rider_id ≡ rider_id
  pub fare_of_trip : t.agreed_fare ≡ o.offered_fare
  pub status_of_trip : t.status ≡ TripStatus.matched

module _ (queue : JobQueue) (seconds : ℕ) where
  cancel_events :
      (i : Uuid) (w : World) → (after (cancel_scheduled_expiry queue seconds i) w).events ≡ w.events
  unfolding cancel_scheduled_expiry
  cancel_events i w = ground arith

  cancel_all_events :
      (os : List RideOffer) (w : World) → (after (cancel_all queue seconds os) w).events ≡ w.events
  unfolding cancel_all
  cancel_all_events [] w = refl
  cancel_all_events (o ∷ os) w =
      cancel_all_events os (after (cancel_scheduled_expiry queue seconds o.id) w)
      ∙ cancel_events o.id w

  cancel_throws :
      (i : Uuid) (w : World) (e : Failure)
      → (cancel_scheduled_expiry queue seconds i w).0 ≡ err e
      → e ≡ queue_failure
  unfolding cancel_scheduled_expiry
  cancel_throws i w e thrown = ground (arith, thrown)

  cancel_all_throws :
      (os : List RideOffer) (w : World) (e : Failure)
      → (cancel_all queue seconds os w).0 ≡ err e
      → e ≡ queue_failure
  unfolding cancel_all
  cancel_all_throws [] w e thrown = absurd (ground (arith, thrown))
  cancel_all_throws (o ∷ os) w e thrown = ground (
    arith,
    thrown,
    cancel_throws o.id w e,
    cancel_all_throws os (after (cancel_scheduled_expiry queue seconds o.id) w) e,
  )

  unfoldable pub drawn_trip : Uuid → Acceptance → World → Trip
  drawn_trip rider_id a w = accepted_trip (w.random 0) w.now rider_id a

  pub commit_accept-refused :
      (rider_id : Uuid) (a : Acceptance) (w : World)
      → accept_transaction a.offer (drawn_trip rider_id a w) w.rides ≡ none
      → ((commit_accept queue seconds rider_id a w).0 ≡ err (prisma unique_violation))
        × ((after (commit_accept queue seconds rider_id a) w).rides ≡ w.rides)
        × ((after (commit_accept queue seconds rider_id a) w).jobs ≡ w.jobs)
        × ((after (commit_accept queue seconds rider_id a) w).events ≡ w.events)
  unfolding commit_accept drawn_trip
  commit_accept-refused rider_id a w e = ground arith

  -- The state that the transaction leaves.
  abbrev pub committed : Uuid → Acceptance → Rides → World → World
  committed rider_id a s w = record w { rides = s; random = λ n. w.random (suc n) }

  -- Once it is written, an acceptance returns and tells, or it throws since the queue does.
  pub commit_accept-done :
      (rider_id : Uuid) (a : Acceptance) (w : World) (s : Rides)
      → accept_transaction a.offer (drawn_trip rider_id a w) w.rides ≡ some s
      → ((after (commit_accept queue seconds rider_id a) w).rides ≡ s)
        × ((((commit_accept queue seconds rider_id a w).0 ≡ ok (drawn_trip rider_id a w))
              × ((cancel_all queue seconds
                    (a.offer ∷ a.other_pending_offers)
                    (committed rider_id a s w)).0
                  ≡ ok tt)
              × ((after (commit_accept queue seconds rider_id a) w).events
                  ≡ w.events
                    ++ offer_accepted
                        (set_request_status RideRequestStatus.matched a.ride_request)
                        (drawn_trip rider_id a w)
                        (set_offer_status OfferStatus.accepted a.offer)
                        a.other_driver_user_ids
                      ∷ []))
            ⊎ (((commit_accept queue seconds rider_id a w).0 ≡ err queue_failure)
                × ((cancel_all queue seconds
                      (a.offer ∷ a.other_pending_offers)
                      (committed rider_id a s w)).0
                    ≡ err queue_failure)
                × ((after (commit_accept queue seconds rider_id a) w).events ≡ w.events)))
  unfolding commit_accept drawn_trip
  commit_accept-done rider_id a w s e =
      let os : List RideOffer = a.offer ∷ a.other_pending_offers in
      let v : World = committed rider_id a s w in
      let kept = cancel_all-rides queue seconds os v in
      let told = cancel_all_events os v in
      elim (Result-cases (cancel_all queue seconds os v).0) [
        | inl (u, done) ↦ (
          ground (arith, e, done, kept),
          inl (ground (arith, e, done), done, ground (arith, e, done, told)),
        )
        | inr (f, thrown) ↦
            let same : f ≡ queue_failure = cancel_all_throws os v f thrown in
            (
              ground (arith, e, thrown, kept),
              inr (
                ground (arith, e, thrown, same),
                ground (arith, thrown, same),
                ground (arith, e, thrown, told),
              ),
            )
      ]

  accept_offer-split :
      (rider_id offer_id : Uuid) (w : World)
      → ((e : Failure) × (accept_offer queue seconds rider_id offer_id w ≡ (err e, w)))
        ⊎ ((a : Acceptance) × ((check_accept rider_id offer_id w).0 ≡ ok a)
            × (accept_offer queue seconds rider_id offer_id w
                ≡ commit_accept queue seconds rider_id a w))
  unfolding accept_offer
  accept_offer-split rider_id offer_id w =
      elim (>>=-split (check_accept rider_id offer_id) (commit_accept queue seconds rider_id) w) [
        | inl (e, thrown, same) ↦
            inl (e, same ∙ ap (λ (v : World). (err e, v)) (check_accept-after rider_id offer_id w))
        | inr (a, passed, rest) ↦ inr (
          a,
          passed,
          rest
              ∙ ap (commit_accept queue seconds rider_id a)
                  (check_accept-after rider_id offer_id w),
        )
      ]

  commit_accept-Accepts :
      (rider_id offer_id : Uuid) (a : Acceptance) (w : World) (t : Trip) (s : Rides)
      → IsAcceptable rider_id offer_id a w
      → accept_transaction a.offer (drawn_trip rider_id a w) w.rides ≡ some s
      → drawn_trip rider_id a w ≡ t
      → Accepts rider_id offer_id w
          (after (commit_accept queue seconds rider_id a) w)
          t
          a.offer
          a.ride_request
  unfolding drawn_trip
  commit_accept-Accepts rider_id offer_id a w t s h done same = record {
    offer_found = h.offer_found;
    request_found = h.request_found;
    owned = ==→eq a.ride_request.rider_id rider_id h.owned;
    request_open = h.request_open;
    offer_pending = h.offer_pending;
    no_trip =
        no_trip_before a.offer a.ride_request (drawn_trip rider_id a w) w.rides s h.offer_refound
          h.request_found refl done;
    now_accepted =
        subst (λ v. IsAccepted a.offer t v) (sym (commit_accept-done rider_id a w s done).0)
          (subst (λ u. IsAccepted a.offer u s) same
            (accept_transaction-IsAccepted a.offer a.ride_request (drawn_trip rider_id a w) w.rides
              s h.offer_refound h.request_found refl done));
    rider_of_trip = ap (λ (u : Trip). u.rider_id) (sym same);
    fare_of_trip = ap (λ (u : Trip). u.agreed_fare) (sym same);
    status_of_trip = ap (λ (u : Trip). u.status) (sym same);
  }

  pub commit_accept-returns :
      (rider_id offer_id : Uuid) (a : Acceptance) (w : World) (t : Trip)
      → IsAcceptable rider_id offer_id a w
      → (commit_accept queue seconds rider_id a w).0 ≡ ok t
      → Accepts rider_id offer_id w
          (after (commit_accept queue seconds rider_id a) w)
          t
          a.offer
          a.ride_request
  commit_accept-returns rider_id offer_id a w t h returned =
      elim (Option-cases (accept_transaction a.offer (drawn_trip rider_id a w) w.rides)) [
        | inl none_written ↦
            absurd (cc (returned, (commit_accept-refused rider_id a w none_written).0))
        | inr (s, written) ↦ elim (commit_accept-done rider_id a w s written).1 [
          | inl (done, _, _) ↦
              commit_accept-Accepts rider_id offer_id a w t s h written (cc (returned, done))
          | inr (thrown, _, _) ↦ absurd (cc (returned, thrown))
        ]
      ]

  -- An acceptance that returns is the rider's own, of a pending offer on a pending ride request
  -- with no trip yet. Afterwards the ride request is matched, the offer accepted, and the trip of
  -- the ride request is the one returned: matched, for the rider, at the fare of the offer.
  pub accept_offer-returns :
      (rider_id offer_id : Uuid) (w : World) (t : Trip)
      → (accept_offer queue seconds rider_id offer_id w).0 ≡ ok t
      → (o : RideOffer) × (r : RideRequest) × Accepts rider_id offer_id w
          (after (accept_offer queue seconds rider_id offer_id) w)
          t
          o
          r
  accept_offer-returns rider_id offer_id w t returned =
      elim (accept_offer-split rider_id offer_id w) [
        | inl (e, same) ↦ absurd (cc (ap (λ (x : Result Trip × World). x.0) same, returned))
        | inr (a, passed, rest) ↦ (
          a.offer,
          a.ride_request,
          rw (rest, after)
              (commit_accept-returns rider_id offer_id a w t
                (check_accept-ok rider_id offer_id w a passed) (rw rest at returned)),
        )
      ]

  -- What an acceptance that throws has changed.
  abbrev pub Throws : (rider_id offer_id : Uuid) → Failure → (w v : World) → Type 0
  Throws rider_id offer_id e w v =
      ((v.rides ≡ w.rides) × (v.jobs ≡ w.jobs))
      ⊎ ((e ≡ queue_failure)
          × ((t : Trip) × (o : RideOffer) × (r : RideRequest) × Accepts rider_id offer_id w v t o
                r))
