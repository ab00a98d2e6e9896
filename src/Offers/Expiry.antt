-- ===== src/Offers/Expiry.antt =====
-- The delayed jobs that expire offers.
use reedri_end.Base.{
  ℕ, ◌+◌, ◌*◌, ◌≡◌, refl, true, false, some, List, [], ◌∷◌, ◌++◌, arith, ◌==◌, Bool-cases, ◌⊎◌, inl,
  inr, subst, sym, ◌∙◌, ap, ==_refl, none, Option-cases,
}
use reedri_end.Table.{find_first, update_many}
use reedri_end.Table.Laws.{find_first-append, find_first-update_many, find_first-accepted}
use reedri_end.Schema.{Uuid, Time, Fare, OfferStatus, is_pending_offer, DriverProfile, RideOffer}
use reedri_end.Events.{offer_expired, offer_submitted}
use reedri_end.World.{
  expire_offer, ScheduledJob, World, after, ok, Result, Result-cases, M, emit, pure, ◌>>◌,
}
use reedri_end.World.Rules.{>>=-split}
use reedri_end.Queue.{JobQueue, get_job, same_job}
use reedri_end.Offers.{
  find_offer, find_profile, set_offer_status, Submission, upsert_offer, check_submit, commit_submit,
  submit_offer, add_job, schedule_expiry, cancel_scheduled_expiry, expire_one,
  expire_if_still_pending, process,
}

abbrev pub expiry_job : Uuid → Time → ℕ → ScheduledJob
expiry_job offer_id now seconds = record {
  job = expire_offer offer_id;
  run_at = now + seconds * 1000;
}

check_submit-same : (u k : Uuid) (w : World) → after (check_submit u k) w ≡ w
unfolding check_submit
check_submit-same u k w = ground arith

module _ (queue : JobQueue) (seconds : ℕ) where
  -- After a submission: the job is due after the time from now, or the old one could not be removed
  -- and is still there.
  abbrev pub IsScheduled : Uuid → Time → (before later : List ScheduledJob) → Type 0
  IsScheduled i now before later =
      (get_job (expire_offer i) later ≡ some (expiry_job i now seconds))
      ⊎ ((old : ScheduledJob) × (get_job (expire_offer i) before ≡ some old)
          × (queue.remove (expire_offer i) before ≡ none)
          × (get_job (expire_offer i) later ≡ some old))

  added :
      (i : Uuid) (w : World)
      → (add_job queue seconds (expire_offer i) w).0 ≡ ok tt
      → (get_job (expire_offer i) w.jobs ≡ none
          → get_job (expire_offer i) (after (add_job queue seconds (expire_offer i)) w).jobs
            ≡ some (expiry_job i w.now seconds))
        × ((old : ScheduledJob)
            → get_job (expire_offer i) w.jobs ≡ some old
            → (after (add_job queue seconds (expire_offer i)) w).jobs ≡ w.jobs)
  unfolding add_job find_first
  added i w returned = elim (Option-cases (queue.add (expiry_job i w.now seconds) w.jobs)) [
    | inl e ↦ absurd (ground (arith, returned, e))
    | inr (r, e) ↦
        let there : (after (add_job queue seconds (expire_offer i)) w).jobs ≡ r =
          ground (arith, e) in
        (
          λ free.
              ap (get_job (expire_offer i))
                (there ∙ queue.add_new (expiry_job i w.now seconds) w.jobs r free e)
              ∙ find_first-append (λ (s : ScheduledJob). same_job (expire_offer i) s.job) w.jobs
                  (expiry_job i w.now seconds ∷ [])
              ∙ ground (arith, free, ==_refl i),
          λ old taken. there ∙ queue.add_taken (expiry_job i w.now seconds) old w.jobs r taken e,
        )
  ]

  cancelled :
      (i : Uuid) (w : World)
      → let v = after (cancel_scheduled_expiry queue seconds i) w in
        (cancel_scheduled_expiry queue seconds i w).0 ≡ ok tt
        → (v.now ≡ w.now)
          × ((get_job (expire_offer i) v.jobs ≡ none)
              ⊎ ((old : ScheduledJob) × (get_job (expire_offer i) w.jobs ≡ some old)
                  × (queue.remove (expire_offer i) w.jobs ≡ none)
                  × (v.jobs ≡ w.jobs)))
  unfolding cancel_scheduled_expiry
  cancelled i w returned = elim (Option-cases (get_job (expire_offer i) w.jobs)) [
    | inl e ↦ (ground (arith, returned, e), inl (ground (arith, returned, e)))
    | inr (old, e) ↦ elim (Option-cases (queue.remove (expire_offer i) w.jobs)) [
      | inl stuck ↦ (
        ground (arith, returned, e, stuck),
        inr (old, e, stuck, ground (arith, returned, e, stuck)),
      )
      | inr (r, gone) ↦ (
        ground (arith, returned, e, gone),
        inl (ground (arith, returned, e, gone, queue.remove_frees (expire_offer i) w.jobs r gone)),
      )
    ]
  ]

  job-IsScheduled :
      (i : Uuid) (w : World)
      → (schedule_expiry queue seconds i w).0 ≡ ok tt
      → IsScheduled i w.now w.jobs (after (schedule_expiry queue seconds i) w).jobs
  unfolding schedule_expiry
  job-IsScheduled i w returned =
      elim (>>=-split (cancel_scheduled_expiry queue seconds i)
        (λ _. add_job queue seconds (expire_offer i)) w) [
          | inl (f, thrown, whole) ↦
              absurd (ground (arith, ap (λ (x : Result (Unit {0}) × World). x.0) whole, returned))
          | inr (u, passed, whole) ↦
              let v : World = after (cancel_scheduled_expiry queue seconds i) w in
              let (same, cases) = cancelled i w passed in
              let (new, taken) =
                added i v (sym (ap (λ (x : Result (Unit {0}) × World). x.0) whole) ∙ returned) in
              subst (λ (x : Result (Unit {0}) × World). IsScheduled i w.now w.jobs x.1.jobs)
                (sym whole)
                (elim cases [
                  | inl free ↦ inl (new free ∙ ap (λ n. some (expiry_job i n seconds)) same)
                  | inr (old, e, stuck, kept) ↦
                      let there : get_job (expire_offer i) v.jobs ≡ some old =
                        ap (get_job (expire_offer i)) kept ∙ e in
                      inr (old, e, stuck, ap (get_job (expire_offer i)) (taken old there) ∙ there)
                ])
        ]

  upsert-kept :
      (k : Uuid) (d : Uuid) (fare : Fare) (w : World)
      → let v = after (upsert_offer k d fare) w in (v.now ≡ w.now) × (v.jobs ≡ w.jobs)
  unfolding upsert_offer
  upsert-kept k d fare w = (ground arith, ground arith)

  upsert-row :
      (k d : Uuid) (fare : Fare) (w : World) (o : RideOffer)
      → (upsert_offer k d fare w).0 ≡ ok o
      → (o.offered_fare ≡ fare) × (is_pending_offer o.status ≡ true)
  unfolding upsert_offer
  upsert-row k d fare w o e = ground (arith, e)

  -- The rest of a submission, once its row is written.
  abbrev rest_of : Submission → RideOffer → M RideOffer
  rest_of s offer = do
    schedule_expiry queue seconds offer.id
    emit (offer_submitted offer s.ride_request.rider_id)
    pure offer

  rest-returned :
      (s : Submission) (x o : RideOffer) (v : World)
      → (rest_of s x v).0 ≡ ok o
      → (x ≡ o)
        × ((schedule_expiry queue seconds x.id v).0 ≡ ok tt)
        × ((after (rest_of s x) v).jobs ≡ (after (schedule_expiry queue seconds x.id) v).jobs)
  rest-returned s x o v e = elim (Result-cases (schedule_expiry queue seconds x.id v).0) [
    | inr (f, thrown) ↦ absurd (ground (arith, thrown, e))
    | inl (u, done) ↦ (ground (arith, done, e), done, ground (arith, done))
  ]

  -- What a submission that returned has done.
  abbrev pub IsSubmitted : Fare → RideOffer → (w v : World) → Type 0
  IsSubmitted fare o w v =
      IsScheduled o.id w.now w.jobs v.jobs
      × (o.offered_fare ≡ fare)
      × (is_pending_offer o.status ≡ true)

  commit_submit-IsSubmitted :
      (k : Uuid) (fare : Fare) (s : Submission) (w : World) (o : RideOffer)
      → (commit_submit queue seconds k fare s w).0 ≡ ok o
      → IsSubmitted fare o w (after (commit_submit queue seconds k fare s) w)
  unfolding commit_submit
  commit_submit-IsSubmitted k fare s w o e =
      elim (>>=-split (upsert_offer k s.profile.id fare) (rest_of s) w) [
        | inl (f, thrown, whole) ↦
            absurd (ground (arith, ap (λ (x : Result RideOffer × World). x.0) whole, e))
        | inr (x, made, whole) ↦
            let v : World = after (upsert_offer k s.profile.id fare) w in
            let (same, returned, jobs) =
              rest-returned s x o v (sym (ap (λ (y : Result RideOffer × World). y.0) whole) ∙ e) in
            let (priced, pending) = upsert-row k s.profile.id fare w x made in
            let (time, old_jobs) = upsert-kept k s.profile.id fare w in
            let there : IsScheduled x.id v.now v.jobs (after (rest_of s x) v).jobs =
              subst (IsScheduled x.id v.now v.jobs) (sym jobs) (job-IsScheduled x.id v returned) in
            let scheduled : IsScheduled x.id w.now w.jobs (after (rest_of s x) v).jobs =
              subst (λ n. IsScheduled x.id n w.jobs (after (rest_of s x) v).jobs) time
                (subst (λ q. IsScheduled x.id v.now q (after (rest_of s x) v).jobs) old_jobs
                  there) in
            subst (λ (y : Result RideOffer × World). IsSubmitted fare o w y.1) (sym whole)
              (subst (λ (y : RideOffer). IsSubmitted fare y w (after (rest_of s x) v)) same
                (scheduled, priced, pending))
      ]

-- The job of the expiry of an offer, when the offer and the profile of its driver are there: it
-- leaves everything as it is where the offer is no longer pending, and else the offer is expired and
-- one event tells the driver of it.
pub process-expires :
    (i : Uuid) (o : RideOffer) (p : DriverProfile) (w : World)
    → find_offer i w.rides ≡ some o
    → find_profile o.driver_id w ≡ some p
    → ((is_pending_offer o.status ≡ false) × (process (expire_offer i) w ≡ (ok tt, w)))
      ⊎ ((is_pending_offer o.status ≡ true)
          × ((process (expire_offer i) w).0 ≡ ok tt)
          × (find_offer i (after (process (expire_offer i)) w).rides
              ≡ some (set_offer_status OfferStatus.expired o))
          × ((after (process (expire_offer i)) w).events
              ≡ w.events ++ offer_expired o.ride_request_id i p.user_id ∷ []))
unfolding process expire_if_still_pending expire_one
process-expires i o p w found profile = elim (Bool-cases (is_pending_offer o.status)) [
  | inr settled ↦ inl (settled, ground (arith, found, profile, settled))
  | inl pending ↦
      let row : find_first (λ (x : RideOffer). x.id == i)
            (update_many (λ (x : RideOffer). x.id == i) (set_offer_status OfferStatus.expired)
              w.ride_offers)
          ≡ some (set_offer_status OfferStatus.expired o) =
        find_first-update_many (λ (x : RideOffer). x.id == i) (λ (x : RideOffer). x.id == i)
          (set_offer_status OfferStatus.expired) w.ride_offers (λ x. refl)
        ∙ ground (
          arith,
          found,
          find_first-accepted (λ (x : RideOffer). x.id == i) w.ride_offers o found,
        ) in
      inr (
        pending,
        ground (arith, found, profile, pending),
        ground (arith, found, profile, pending, row),
        ground (arith, found, profile, pending),
      )
]

module _ (queue : JobQueue) (seconds : ℕ) where
  -- A submission of an offer that returns, be it a new offer or one that is renewed, returns a pending
  -- offer at the fare, and the queue's job to expire it is due after the configured time from now;
  -- or there was a job for the offer already, which the queue did not remove: then that one is kept,
  -- with its time.
  pub submit_offer-scheduled :
      (u k : Uuid) (fare : Fare) (w : World) (o : RideOffer)
      → (submit_offer queue seconds u k fare w).0 ≡ ok o
      → IsSubmitted queue seconds fare o w (after (submit_offer queue seconds u k fare) w)
  unfolding submit_offer
  submit_offer-scheduled u k fare w o e =
      elim (>>=-split (check_submit u k) (commit_submit queue seconds k fare) w) [
        | inl (f, thrown, whole) ↦
            absurd (ground (arith, ap (λ (x : Result RideOffer × World). x.0) whole, e))
        | inr (s, passed, whole) ↦
            let h : IsSubmitted queue seconds fare o w
                (after (commit_submit queue seconds k fare s) w) =
              commit_submit-IsSubmitted queue seconds k fare s w o (
                ap (λ (v : World). (commit_submit queue seconds k fare s v).0)
                  (sym (check_submit-same u k w))
                ∙ sym (ap (λ (y : Result RideOffer × World). y.0) whole)
                ∙ e) in
            subst (λ (y : Result RideOffer × World). IsSubmitted queue seconds fare o w y.1)
              (sym (whole ∙ ap (commit_submit queue seconds k fare s) (check_submit-same u k w))) h
      ]
