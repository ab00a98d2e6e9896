-- ===== src/Rides/Offering.antt =====
-- What the methods of offers do to the tables of rides: nothing, or one write.
use reedri_end.Base.{
  ℕ, suc, true, ◌&&◌, ◌≡◌, refl, ◌⊎◌, inl, inr, Option, none, some, List, [], ◌∷◌, ◌==◌, arith,
  Option-cases, or_default, ap, ==→eq, subst, sym, ◌∙◌,
}
use reedri_end.Table.Laws.{find_first-accepted}
use reedri_end.Table.{find_first, find_many}
use reedri_end.Schema.{Uuid, Fare, is_open_request, is_pending_offer, RideRequest, RideOffer}
use reedri_end.World.{
  Rides, World, after, ok, expire_offer, OfferExpiryJob, expire_driver_pending_offers, unknown_job,
}
use reedri_end.World.Rules.{>>=-after}
use reedri_end.Queue.{JobQueue}
use reedri_end.Offers.{
  submit_offer, check_accept, commit_accept, accept_offer, cancel_all, cancel_scheduled_expiry,
  find_offer, find_request, find_profile_of_user, accept_transaction, accepted_trip, Acceptance,
  is_other_pending, driver_user_ids, Submission, check_submit, commit_submit, new_offer,
  insert_offer, renew_offer, expire_one, expire_of_driver, upsert_offer, expire_if_still_pending,
  expire_all_pending_offers_for_driver, process,
}
use reedri_end.Rides.Write.{Step, inserts_offer, renews, accepts, expires, expires_of_driver}

-- An offer that was found by an id has that id.
find_offer_id : (i : Uuid) (s : Rides) (o : RideOffer) → find_offer i s ≡ some o → o.id ≡ i
find_offer_id i s o e =
    ==→eq o.id i (find_first-accepted (λ (x : RideOffer). x.id == i) s.ride_offers o e)

-- Reads and checks write nothing.
pub check_accept-after :
    (rider_id offer_id : Uuid) (w : World) → after (check_accept rider_id offer_id) w ≡ w
unfolding check_accept
check_accept-after rider_id offer_id w = ground arith

-- What has been read when the checks of an acceptance have passed.
pub record IsAcceptable (rider_id offer_id : Uuid) (a : Acceptance) (w : World) : Type 0 where
  pub offer_found : find_offer offer_id w.rides ≡ some a.offer
  pub offer_refound : find_offer a.offer.id w.rides ≡ some a.offer
  pub request_found : find_request a.offer.ride_request_id w.rides ≡ some a.ride_request
  pub owned : (a.ride_request.rider_id == rider_id) ≡ true
  pub request_open : is_open_request a.ride_request.status ≡ true
  pub offer_pending : is_pending_offer a.offer.status ≡ true
  pub others : a.other_pending_offers ≡ find_many (is_other_pending a.offer) w.ride_offers
  pub other_drivers :
      driver_user_ids w.driver_profiles a.other_pending_offers ≡ some a.other_driver_user_ids

pub check_accept-ok :
    (rider_id offer_id : Uuid) (w : World) (a : Acceptance)
    → (check_accept rider_id offer_id w).0 ≡ ok a
    → IsAcceptable rider_id offer_id a w
unfolding check_accept
check_accept-ok rider_id offer_id w a e = ground (arith, find_offer_id offer_id w.rides a.offer)

pub record IsSubmissible (user_id k : Uuid) (s : Submission) (w : World) : Type 0 where
  pub profile_found : find_profile_of_user user_id w ≡ some s.profile
  pub request_found : find_request k w.rides ≡ some s.ride_request
  pub request_open : is_open_request s.ride_request.status ≡ true

pub check_submit-after : (user_id k : Uuid) (w : World) → after (check_submit user_id k) w ≡ w
unfolding check_submit
check_submit-after user_id k w = ground arith

pub check_submit-ok :
    (user_id k : Uuid) (w : World) (s : Submission)
    → (check_submit user_id k w).0 ≡ ok s
    → IsSubmissible user_id k s w
unfolding check_submit
check_submit-ok user_id k w s e = ground arith

pub upsert_found :
    (k d : Uuid) (fare : Fare) (w : World) (o : RideOffer)
    → find_first (λ (o : RideOffer). o.ride_request_id == k && o.driver_id == d) w.ride_offers
      ≡ some o
    → (after (upsert_offer k d fare) w).rides ≡ renew_offer k d fare w.rides
unfolding upsert_offer
upsert_found k d fare w o e = ground arith

pub upsert_missing :
    (k d : Uuid) (fare : Fare) (w : World)
    → find_first (λ (o : RideOffer). o.ride_request_id == k && o.driver_id == d) w.ride_offers
      ≡ none
    → (after (upsert_offer k d fare) w).rides
      ≡ or_default (insert_offer (new_offer (w.random 0) w.now k d fare) w.rides) w.rides
unfolding upsert_offer
upsert_missing k d fare w e = ground arith

upsert_offer-Step :
    (k d : Uuid) (fare : Fare) (r : RideRequest) (w : World)
    → find_request k w.rides ≡ some r
    → is_open_request r.status ≡ true
    → Step w.rides (after (upsert_offer k d fare) w).rides
upsert_offer-Step k d fare r w er eo =
    elim (Option-cases
      (find_first (λ (o : RideOffer). o.ride_request_id == k && o.driver_id == d) w.ride_offers)) [
        | inr (o, e) ↦ inr (renews k d fare r er eo (upsert_found k d fare w o e))
        | inl e ↦ rw (upsert_missing k d fare w e) (go _ refl)
      ]
  where
    go :
        (t : Option Rides)
        → insert_offer (new_offer (w.random 0) w.now k d fare) w.rides ≡ t
        → Step w.rides (or_default t w.rides)
    go none e = inl refl
    go (some t) e = inr (inserts_offer (new_offer (w.random 0) w.now k d fare) r refl er eo e)

pub process_expire_found :
    (w : World) (i : Uuid) (o : RideOffer)
    → find_offer i w.rides ≡ some o
    → let t = (after (process (expire_offer i)) w).rides in
      (t ≡ w.rides) ⊎ ((is_pending_offer o.status ≡ true) × (t ≡ expire_one i w.rides))
unfolding process expire_if_still_pending
process_expire_found w i o e = ground arith

pub process_expire_missing :
    (w : World) (i : Uuid)
    → find_offer i w.rides ≡ none
    → (after (process (expire_offer i)) w).rides ≡ w.rides
unfolding process expire_if_still_pending
process_expire_missing w i e = ground arith

process_expire : (i : Uuid) (w : World) → Step w.rides (after (process (expire_offer i)) w).rides
process_expire i w = elim (Option-cases (find_offer i w.rides)) [
  | inl e ↦ inl (process_expire_missing w i e)
  | inr (o, e) ↦ elim (process_expire_found w i o e) [
    | inl same ↦ inl same
    | inr (pending, changed) ↦
        let at : o.id ≡ i = find_offer_id i w.rides o e in
        inr (
          expires o (subst (λ j. find_offer j w.rides ≡ some o) (sym at) e) pending (
            subst (λ j. (after (process (expire_offer i)) w).rides ≡ expire_one j w.rides) (sym at)
              changed))
  ]
]

pub process_expire_driver :
    (w : World) (d : Uuid)
    → let t = (after (process (expire_driver_pending_offers d)) w).rides in
      (t ≡ w.rides) ⊎ (t ≡ expire_of_driver d w.rides)
unfolding process expire_all_pending_offers_for_driver
process_expire_driver w d = ground arith

pub process_unknown : (w : World) → (after (process unknown_job) w).rides ≡ w.rides
unfolding process
process_unknown w = refl

module _ (queue : JobQueue) (seconds : ℕ) where
  cancel-rides :
      (i : Uuid) (w : World) → (after (cancel_scheduled_expiry queue seconds i) w).rides ≡ w.rides
  unfolding cancel_scheduled_expiry
  cancel-rides i w = ground arith

  pub cancel_all-rides :
      (os : List RideOffer) (w : World) → (after (cancel_all queue seconds os) w).rides ≡ w.rides
  unfolding cancel_all
  cancel_all-rides [] w = refl
  cancel_all-rides (o ∷ os) w =
      cancel_all-rides os (after (cancel_scheduled_expiry queue seconds o.id) w)
      ∙ cancel-rides o.id w

  pub commit_accept-rides :
      (rider_id : Uuid) (a : Acceptance) (w : World)
      → (after (commit_accept queue seconds rider_id a) w).rides
        ≡ or_default
            (accept_transaction a.offer (accepted_trip (w.random 0) w.now rider_id a) w.rides)
            w.rides
  unfolding commit_accept
  commit_accept-rides rider_id a w =
      elim (Option-cases
        (accept_transaction a.offer (accepted_trip (w.random 0) w.now rider_id a) w.rides)) [
          | inl e ↦ ground (arith, e)
          | inr (s, e) ↦ ground (
            arith,
            e,
            cancel_all-rides (a.offer ∷ a.other_pending_offers)
                (record w { rides = s; random = λ n. w.random (suc n) }),
          )
        ]

  commit_accept-Step :
      (rider_id offer_id : Uuid) (a : Acceptance) (w : World)
      → IsAcceptable rider_id offer_id a w
      → Step w.rides (after (commit_accept queue seconds rider_id a) w).rides
  commit_accept-Step rider_id offer_id a w h = rw (commit_accept-rides rider_id a w) (go _ refl)
    where
      go :
          (o : Option Rides)
          → accept_transaction a.offer (accepted_trip (w.random 0) w.now rider_id a) w.rides ≡ o
          → Step w.rides (or_default o w.rides)
      go none e = inl refl
      go (some s) e = inr (
          accepts a.offer a.ride_request _ h.offer_refound h.request_found h.request_open
            h.offer_pending refl refl e)

  pub accept_offer-Step :
      (rider_id offer_id : Uuid) (w : World)
      → Step w.rides (after (accept_offer queue seconds rider_id offer_id) w).rides
  unfolding accept_offer
  accept_offer-Step rider_id offer_id w =
      >>=-after (λ v. Step w.rides v.rides) (check_accept rider_id offer_id)
        (commit_accept queue seconds rider_id) w
        (inl (ap (λ (v : World). v.rides) (check_accept-after rider_id offer_id w)))
        λ a e.
          rw (check_accept-after rider_id offer_id w)
            (commit_accept-Step rider_id offer_id a w (check_accept-ok rider_id offer_id w a e))

  pub commit_submit-rides :
      (k : Uuid) (fare : Fare) (s : Submission) (w : World)
      → (after (commit_submit queue seconds k fare s) w).rides
        ≡ (after (upsert_offer k s.profile.id fare) w).rides
  unfolding commit_submit
  commit_submit-rides k fare s w = ground arith

  commit_submit-Step :
      (user_id k : Uuid) (fare : Fare) (s : Submission) (w : World)
      → IsSubmissible user_id k s w
      → Step w.rides (after (commit_submit queue seconds k fare s) w).rides
  commit_submit-Step user_id k fare s w h =
      rw (commit_submit-rides k fare s w)
        (upsert_offer-Step k s.profile.id fare s.ride_request w h.request_found h.request_open)

  pub submit_offer-Step :
      (user_id k : Uuid) (fare : Fare) (w : World)
      → Step w.rides (after (submit_offer queue seconds user_id k fare) w).rides
  unfolding submit_offer
  submit_offer-Step user_id k fare w =
      >>=-after (λ v. Step w.rides v.rides) (check_submit user_id k)
        (commit_submit queue seconds k fare) w
        (inl (ap (λ (v : World). v.rides) (check_submit-after user_id k w)))
        λ s e.
          rw (check_submit-after user_id k w)
            (commit_submit-Step user_id k fare s w (check_submit-ok user_id k w s e))

-- Expiry, by job.
pub process-Step : (j : OfferExpiryJob) (w : World) → Step w.rides (after (process j) w).rides
process-Step (expire_offer i) w = process_expire i w
process-Step (expire_driver_pending_offers d) w = elim (process_expire_driver w d) [
  | inl e ↦ inl e
  | inr e ↦ inr (expires_of_driver d e)
]
process-Step unknown_job w = inl (process_unknown w)
