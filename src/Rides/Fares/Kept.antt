-- ===== src/Rides/Fares/Kept.antt =====
-- The fares in the tables of rides after each method (src/offers/offers.service.ts,
-- src/ride-requests/ride-requests.service.ts and src/trips/trips.service.ts).
use reedri_end.Base.{
  ℕ, ◌≤◌, ◌≡◌, refl, Option, none, some, String, sym, subst, inl, inr, Option-cases, or_default,
  ◌==◌, ◌&&◌,
}
use reedri_end.Table.{find_first}
use reedri_end.Table.Laws.{find_first-All}
use reedri_end.Schema.{Uuid, Fare, RideOffer, RideRequestStatus}
use reedri_end.World.{
  Rides, World, after, M, ok, ◌>>=◌, OfferExpiryJob, expire_offer, expire_driver_pending_offers,
  unknown_job,
}
use reedri_end.World.Rules.{>>=-after}
use reedri_end.Queue.{JobQueue}
use reedri_end.Matching.{Geography}
use reedri_end.Offers.{
  insert_offer, new_offer, accept_transaction, accepted_trip, upsert_offer, check_submit,
  commit_submit, submit_offer, check_accept, commit_accept, accept_offer, process, find_offer,
}
use reedri_end.RideRequests.{
  CreateRideRequest, insert_request, new_request, create_request, check_cancel, commit_cancel,
  cancel,
}
use reedri_end.Trips.{
  check_start, commit_start, start, check_complete, commit_complete, complete, started_at_time,
  completed_at_time,
}
use reedri_end.Rides.Offering.{
  check_accept-after, check_accept-ok, check_submit-after, upsert_found, upsert_missing,
  process_expire_found, process_expire_missing, process_expire_driver, process_unknown,
  commit_accept-rides, commit_submit-rides,
}
use reedri_end.Rides.Running.{
  check_cancel-after, check_start-after, check_complete-after, commit_cancel-rides,
  commit_start-rides, commit_complete-rides, create_request-rides,
}
use reedri_end.Rides.Fares.{
  HasFares, insert_request-HasFares, insert_offer-HasFares, renew-HasFares, expire_one-HasFares,
  expire_of_driver-HasFares, trip-HasFares, cancel-HasFares, accept-HasFares,
}

-- A write that may be refused.
or_default-HasFares :
    (s : Rides) (o : Option Rides)
    → HasFares s
    → ((t : Rides) → o ≡ some t → HasFares t)
    → HasFares (or_default o s)
or_default-HasFares s none h done = h
or_default-HasFares s (some t) h done = done t refl

-- Reads and checks, and then a write.
checked-HasFares {ℓ κ} :
    {A : Type ℓ} {B : Type κ} (m : M A) (k : A → M B) (w : World)
    → after m w ≡ w
    → HasFares w.rides
    → ((a : A) → (m w).0 ≡ ok a → HasFares (after (k a) w).rides)
    → HasFares (after (m >>= k) w).rides
checked-HasFares m k w same h next =
    >>=-after (λ v. HasFares v.rides) m k w (subst (λ (v : World). HasFares v.rides) (sym same) h)
      (λ a e. subst (λ (v : World). HasFares (after (k a) v).rides) (sym same) (next a e))

module _ (w : World) (h : HasFares w.rides) where
  pub create_request-HasFares :
      (geography : Geography) (radius u : ℕ) (dto : CreateRideRequest)
      → 1 ≤ dto.suggested_fare
      → HasFares (after (create_request geography radius u dto) w).rides
  create_request-HasFares geography radius u dto good =
      subst HasFares (sym (create_request-rides geography radius u dto w)) (
        or_default-HasFares w.rides (insert_request (new_request (w.random 0) w.now u dto) w.rides)
          h
          (λ t done.
            insert_request-HasFares w.rides h (new_request (w.random 0) w.now u dto) t good done))

  pub cancel_method-HasFares :
      (k u : Uuid) (reason : Option String) → HasFares (after (cancel k u reason) w).rides
  unfolding cancel
  cancel_method-HasFares k u reason =
      checked-HasFares (check_cancel k u) (commit_cancel k reason) w (check_cancel-after k u w) h
        (λ c e.
          subst HasFares (sym (commit_cancel-rides k reason c w))
            (cancel-HasFares w.rides h k c.trip reason w.now))

  pub start-HasFares : (i u : Uuid) → HasFares (after (start i u) w).rides
  unfolding start
  start-HasFares i u =
      checked-HasFares (check_start i u) (commit_start i) w (check_start-after i u w) h (λ t e.
        subst HasFares (sym (commit_start-rides i t w)) (
          trip-HasFares w.rides h (started_at_time w.now) RideRequestStatus.in_progress i
            t.ride_request_id (λ t good. good)))

  pub complete-HasFares : (i u : Uuid) → HasFares (after (complete i u) w).rides
  unfolding complete
  complete-HasFares i u =
      checked-HasFares (check_complete i u) (commit_complete i) w (check_complete-after i u w) h
        (λ t e. subst HasFares (sym (commit_complete-rides i t w)) (
          trip-HasFares w.rides h (completed_at_time w.now) RideRequestStatus.completed i
            t.ride_request_id (λ t good. good)))

  pub process-HasFares : (j : OfferExpiryJob) → HasFares (after (process j) w).rides
  process-HasFares (expire_offer i) = elim (Option-cases (find_offer i w.rides)) [
    | inl e ↦ subst HasFares (sym (process_expire_missing w i e)) h
    | inr (o, e) ↦ elim (process_expire_found w i o e) [
      | inl same ↦ subst HasFares (sym same) h
      | inr (pending, changed) ↦ subst HasFares (sym changed) (expire_one-HasFares w.rides h i)
    ]
  ]
  process-HasFares (expire_driver_pending_offers d) = elim (process_expire_driver w d) [
    | inl same ↦ subst HasFares (sym same) h
    | inr changed ↦ subst HasFares (sym changed) (expire_of_driver-HasFares w.rides h d)
  ]
  process-HasFares unknown_job = subst HasFares (sym (process_unknown w)) h

  upsert_offer-HasFares :
      (k d : Uuid) (fare : Fare) → 1 ≤ fare → HasFares (after (upsert_offer k d fare) w).rides
  upsert_offer-HasFares k d fare good =
      elim (Option-cases (
        find_first (λ (o : RideOffer). o.ride_request_id == k && o.driver_id == d) w.ride_offers)) [
          | inr (o, e) ↦
              subst HasFares (sym (upsert_found k d fare w o e))
                (renew-HasFares w.rides h k d fare good)
          | inl e ↦ subst HasFares (sym (upsert_missing k d fare w e)) (
              or_default-HasFares w.rides
                (insert_offer (new_offer (w.random 0) w.now k d fare) w.rides) h
                (λ t done.
                  insert_offer-HasFares w.rides h (new_offer (w.random 0) w.now k d fare) t good
                    done))
        ]

  module _ (queue : JobQueue) (seconds : ℕ) where
    pub submit_offer-HasFares :
        (u k : Uuid) (fare : Fare)
        → 1 ≤ fare
        → HasFares (after (submit_offer queue seconds u k fare) w).rides
    unfolding submit_offer
    submit_offer-HasFares u k fare good =
        checked-HasFares (check_submit u k) (commit_submit queue seconds k fare) w
          (check_submit-after u k w) h
          (λ s e.
            subst HasFares (sym (commit_submit-rides queue seconds k fare s w))
              (upsert_offer-HasFares k s.profile.id fare good))

    pub accept_offer-HasFares :
        (u i : Uuid) → HasFares (after (accept_offer queue seconds u i) w).rides
    unfolding accept_offer
    accept_offer-HasFares u i =
        checked-HasFares (check_accept u i) (commit_accept queue seconds u) w
          (check_accept-after u i w) h
          (λ a e.
            let good : 1 ≤ a.offer.offered_fare =
              find_first-All (λ (o : RideOffer). 1 ≤ o.offered_fare) (λ (o : RideOffer). o.id == i)
                w.ride_offers a.offer h.offered (check_accept-ok u i w a e).offer_found in
            let trip = accepted_trip (w.random 0) w.now u a in
            subst HasFares (sym (commit_accept-rides queue seconds u a w)) (
              or_default-HasFares w.rides (accept_transaction a.offer trip w.rides) h
                (λ t done. accept-HasFares w.rides h a.offer trip t good done)))
