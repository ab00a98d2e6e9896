-- ===== src/Rides/Races.antt =====
-- Calls whose reads and writes interleave: the checks of one have passed when another commits.
use reedri_end.Base.{
  ℕ, ◌≡◌, refl, Option, none, some, ◌==◌, map_option, String, arith, ap, subst, sym, Option-cases,
  inl, inr, ◌∙◌, ◌⊎◌,
}
use reedri_end.Table.{find_first}
use reedri_end.Table.Laws.{
  find_first-update_many, find_first-accepted, find_first-none_of, find_first-or, create-new,
}
use reedri_end.Schema.{Uuid, Time, RideRequestStatus, RideRequest, RideOffer, Trip}
use reedri_end.World.{Rides, World, after, ok, err, prisma, unique_violation, queue_failure}
use reedri_end.Queue.{JobQueue}
use reedri_end.Offers.{
  Acceptance, find_request, accept_transaction, check_accept, commit_accept, trip_clash,
}
use reedri_end.RideRequests.{
  find_trip_of, Cancellation, check_cancel, commit_cancel, cancel_transaction,
}
use reedri_end.Rides.{IsConsistent, request_status}
use reedri_end.Rides.Offering.{check_accept-ok, IsAcceptable}
use reedri_end.Trips.{find_trip}
use reedri_end.Rides.KeepOffers.{open-no-trip}
use reedri_end.Rides.Running.{IsCancellable, check_cancel-ok, commit_cancel-rides}
use reedri_end.Rides.Accepting.{
  Accepts, commit_accept-returns, commit_accept-refused, commit_accept-done, drawn_trip,
}
use reedri_end.Rides.Acceptance.{request_matched_now, accept_transaction-written}

abbrev cancelled_row : Option String → Time → RideRequest → RideRequest
cancelled_row reason now r = record r {
  status = RideRequestStatus.cancelled;
  cancel_reason = reason;
  cancelled_at = some now;
}

cancelled_trips :
    (k : Uuid) (reason : Option String) (c : Cancellation) (w : World)
    → c.trip ≡ none
    → (after (commit_cancel k reason c) w).rides.trips ≡ w.rides.trips
unfolding commit_cancel cancel_transaction
cancelled_trips k reason c w e = ground arith

cancelled_random :
    (k : Uuid) (reason : Option String) (c : Cancellation) (w : World)
    → (after (commit_cancel k reason c) w).random 0 ≡ w.random 0
unfolding commit_cancel
cancelled_random k reason c w = ground arith

cancelled_found :
    (k : Uuid) (reason : Option String) (c : Cancellation) (w : World) (r : RideRequest)
    → find_request k w.rides ≡ some r
    → find_request k (after (commit_cancel k reason c) w).rides
      ≡ some (cancelled_row reason w.now r)
unfolding cancel_transaction
cancelled_found k reason c w r e =
    ap (find_request k) (commit_cancel-rides k reason c w)
    ∙ (find_first-update_many (λ (x : RideRequest). x.id == k) (λ x. x.id == k)
          (cancelled_row reason w.now) w.rides.ride_requests (λ x. refl)
        ∙ ground (
          arith,
          e,
          find_first-accepted (λ (x : RideRequest). x.id == k) w.rides.ride_requests r e,
        ))

accept_transaction-new :
    (o : RideOffer) (trip : Trip) (s : Rides)
    → find_trip trip.id s ≡ none
    → find_trip_of trip.ride_request_id s ≡ none
    → (t : Rides) × (accept_transaction o trip s ≡ some t)
unfolding accept_transaction
accept_transaction-new o trip s no_id no_request =
    elim (Option-cases (accept_transaction o trip s)) [
      | inr written ↦ written
      | inl refused ↦ absurd (
          ground (
            arith,
            refused,
            create-new trip_clash trip s.trips (
                find_first-or (λ (x : Trip). x.id == trip.id)
                  (λ (x : Trip). x.ride_request_id == trip.ride_request_id) s.trips no_id
                  no_request),
          ))
    ]

accept_transaction-matched :
    (o : RideOffer) (r : RideRequest) (trip : Trip) (s t : Rides)
    → find_request o.ride_request_id s ≡ some r
    → accept_transaction o trip s ≡ some t
    → request_status o.ride_request_id t ≡ some RideRequestStatus.matched
accept_transaction-matched o r trip s t er done =
    ap (request_status o.ride_request_id) (accept_transaction-written o trip s t done).1
    ∙ request_matched_now o r s er

module _ (queue : JobQueue) (seconds : ℕ) where
  new_id :
      (rider_id : Uuid) (a : Acceptance) (v w : World)
      → v.random 0 ≡ w.random 0
      → find_trip (w.random 0) w.rides ≡ none
      → find_trip (drawn_trip queue seconds rider_id a v).id w.rides ≡ none
  unfolding drawn_trip
  new_id rider_id a v w e fresh = subst (λ j. find_trip j w.rides ≡ none) (sym e) fresh

  new_request_id :
      (rider_id : Uuid) (a : Acceptance) (v w : World)
      → find_trip_of a.offer.ride_request_id w.rides ≡ none
      → find_trip_of (drawn_trip queue seconds rider_id a v).ride_request_id w.rides ≡ none
  unfolding drawn_trip
  new_request_id rider_id a v w e = e

  taken-refused :
      (rider_id : Uuid) (a : Acceptance) (w : World) (t : Trip)
      → find_trip_of a.offer.ride_request_id w.rides ≡ some t
      → accept_transaction a.offer (drawn_trip queue seconds rider_id a w) w.rides ≡ none
  unfolding drawn_trip
  taken-refused rider_id a w t e =
      elim (Option-cases
        (accept_transaction a.offer (drawn_trip queue seconds rider_id a w) w.rides)) [
          | inl refused ↦ refused
          | inr (s, written) ↦ absurd (
              cc (
                e,
                find_first-none_of (trip_clash (drawn_trip queue seconds rider_id a w))
                    (λ (x : Trip). x.ride_request_id == a.offer.ride_request_id) w.trips
                    (λ x hit. ground (arith, hit))
                    (accept_transaction-written a.offer (drawn_trip queue seconds rider_id a w)
                      w.rides s written).0,
              ))
        ]

  -- Two acceptances by a rider of offers on one ride request may both pass their checks before
  -- either commits. Once the first has committed, the second fails with a violation of a unique
  -- constraint, and changes no ride request, offer, trip, job or event.
  pub double_accept :
      (rider_id i j : Uuid) (a b : Acceptance) (w : World) (t : Trip)
      → (check_accept rider_id i w).0 ≡ ok a
      → (check_accept rider_id j w).0 ≡ ok b
      → b.offer.ride_request_id ≡ a.offer.ride_request_id
      → (commit_accept queue seconds rider_id a w).0 ≡ ok t
      → let v = after (commit_accept queue seconds rider_id a) w in
        ((commit_accept queue seconds rider_id b v).0 ≡ err (prisma unique_violation))
        × ((after (commit_accept queue seconds rider_id b) v).rides ≡ v.rides)
        × ((after (commit_accept queue seconds rider_id b) v).jobs ≡ v.jobs)
        × ((after (commit_accept queue seconds rider_id b) v).events ≡ v.events)
  double_accept rider_id i j a b w t pa pb one_request committed =
      let v : World = after (commit_accept queue seconds rider_id a) w in
      let first : Accepts rider_id i w v t a.offer a.ride_request =
        commit_accept-returns queue seconds rider_id i a w t (check_accept-ok rider_id i w a pa)
          committed in
      commit_accept-refused queue seconds rider_id b v (
        taken-refused rider_id b v t (
          subst (λ k. find_trip_of k v.rides ≡ some t) (sym one_request)
            first.now_accepted.trip_there))

  -- An acceptance whose checks passed before the ride request was cancelled still commits after the
  -- cancellation, on consistent tables and with a trip id that is new, and turns the cancelled
  -- ride request into a matched one: it returns the trip, unless the queue fails once it has
  -- committed.
  pub accept_after_cancel :
      (rider_id user_id i : Uuid) (reason : Option String) (a : Acceptance) (c : Cancellation)
      (w : World)
      → IsConsistent w.rides
      → find_trip (w.random 0) w.rides ≡ none
      → (check_accept rider_id i w).0 ≡ ok a
      → (check_cancel a.offer.ride_request_id user_id w).0 ≡ ok c
      → let v = after (commit_cancel a.offer.ride_request_id reason c) w in
        (request_status a.offer.ride_request_id v.rides ≡ some RideRequestStatus.cancelled)
        × (((commit_accept queue seconds rider_id a v).0
              ≡ ok (drawn_trip queue seconds rider_id a v))
            ⊎ ((commit_accept queue seconds rider_id a v).0 ≡ err queue_failure))
        × (request_status a.offer.ride_request_id
              (after (commit_accept queue seconds rider_id a) v).rides
            ≡ some RideRequestStatus.matched)
  accept_after_cancel rider_id user_id i reason a c w h fresh pa pc =
      let ha : IsAcceptable rider_id i a w = check_accept-ok rider_id i w a pa in
      let hc : IsCancellable a.offer.ride_request_id c a.ride_request w =
        check_cancel-ok a.offer.ride_request_id user_id w c a.ride_request ha.request_found pc in
      let v : World = after (commit_cancel a.offer.ride_request_id reason c) w in
      let no_trip : find_trip_of a.offer.ride_request_id w.rides ≡ none =
        open-no-trip w.rides h a.offer.ride_request_id a.ride_request ha.request_found
          ha.request_open in
      let kept : v.rides.trips ≡ w.rides.trips =
        cancelled_trips a.offer.ride_request_id reason c w (hc.trip_found ∙ no_trip) in
      let found : find_request a.offer.ride_request_id v.rides
          ≡ some (cancelled_row reason w.now a.ride_request) =
        cancelled_found a.offer.ride_request_id reason c w a.ride_request ha.request_found in
      let (s, written) =
        accept_transaction-new a.offer (drawn_trip queue seconds rider_id a v) v.rides
          (ap (find_first (λ (x : Trip). x.id == (drawn_trip queue seconds rider_id a v).id)) kept
            ∙ new_id rider_id a v w (cancelled_random a.offer.ride_request_id reason c w) fresh)
          (ap
              (find_first (λ (x : Trip).
                x.ride_request_id == (drawn_trip queue seconds rider_id a v).ride_request_id))
              kept
            ∙ new_request_id rider_id a v w no_trip) in
      let (changed, outcome) = commit_accept-done queue seconds rider_id a v s written in
      (
        ap (map_option (λ (x : RideRequest). x.status)) found,
        elim outcome [ inl (returned, _, _) ↦ inl returned | inr (failed, _, _) ↦ inr failed ],
        ap (request_status a.offer.ride_request_id) changed
            ∙ accept_transaction-matched a.offer (cancelled_row reason w.now a.ride_request)
                (drawn_trip queue seconds rider_id a v) v.rides s found written,
      )
