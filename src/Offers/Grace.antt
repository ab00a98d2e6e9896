-- ===== src/Offers/Grace.antt =====
-- The grace period of a driver who has gone offline (scheduleDriverOfferExpiry and
-- expireAllPendingOffersForDriver of src/offers/offers.service.ts).
use reedri_end.Base.{
  ℕ, ◌+◌, ◌*◌, ◌≡◌, refl, false, ◌&&◌, none, some, [], ◌∷◌, arith, ◌==◌, if◌then◌else◌, ap, ◌∙◌,
  Option-cases, inl, inr, ==_refl,
}
use reedri_end.Table.{find_first}
use reedri_end.Table.Laws.{find_first-append, find_first-update_many}
use reedri_end.Schema.{Uuid, OfferStatus, is_pending_offer, DriverProfile, RideOffer}
use reedri_end.World.{World, Rides, ScheduledJob, expire_driver_pending_offers, after, ok}
use reedri_end.Queue.{JobQueue, get_job, same_job}
use reedri_end.Offers.{
  find_offer, find_profile, set_offer_status, add_job, schedule_driver_offer_expiry,
  expire_of_driver, expire_all_pending_offers_for_driver, process,
}

-- What is left of an offer once the pending offers of a driver have expired.
abbrev pub outcome : Uuid → RideOffer → RideOffer
outcome d o =
    if o.driver_id == d && is_pending_offer o.status
    then set_offer_status OfferStatus.expired o
    else o

expired_found :
    (d i : Uuid) (o : RideOffer) (s : Rides)
    → find_offer i s ≡ some o
    → find_offer i (expire_of_driver d s) ≡ some (outcome d o)
unfolding expire_of_driver
expired_found d i o s found =
    find_first-update_many (λ (x : RideOffer). x.id == i)
      (λ (x : RideOffer). x.driver_id == d && is_pending_offer x.status)
      (set_offer_status OfferStatus.expired) s.ride_offers (λ x. refl)
    ∙ ground (arith, found)

module _ (queue : JobQueue) (seconds : ℕ) where
  abbrev pub grace_job : Uuid → World → ScheduledJob
  grace_job d w = record { job = expire_driver_pending_offers d; run_at = w.now + seconds * 1000 }

  scheduled_first :
      (d : Uuid) (w : World)
      → get_job (expire_driver_pending_offers d) w.jobs ≡ none
      → (schedule_driver_offer_expiry queue seconds d w).0 ≡ ok tt
      → get_job
          (expire_driver_pending_offers d)
          (after (schedule_driver_offer_expiry queue seconds d) w).jobs
        ≡ some (grace_job d w)
  unfolding schedule_driver_offer_expiry add_job find_first
  scheduled_first d w free returned = elim (Option-cases (queue.add (grace_job d w) w.jobs)) [
    | inl e ↦ absurd (ground (arith, returned, e))
    | inr (r, e) ↦
        let there : (after (schedule_driver_offer_expiry queue seconds d) w).jobs ≡ r =
          ground (arith, e) in
        ap (get_job (expire_driver_pending_offers d))
          (there ∙ queue.add_new (grace_job d w) w.jobs r free e)
        ∙ find_first-append (λ (x : ScheduledJob). same_job (expire_driver_pending_offers d) x.job)
            w.jobs (grace_job d w ∷ [])
        ∙ ground (arith, free, ==_refl d)
  ]

  scheduled_again :
      (d : Uuid) (earlier : ScheduledJob) (w : World)
      → get_job (expire_driver_pending_offers d) w.jobs ≡ some earlier
      → let v = after (schedule_driver_offer_expiry queue seconds d) w in
        (v.jobs ≡ w.jobs) × (v.rides ≡ w.rides) × (v.driver_profiles ≡ w.driver_profiles)
  unfolding schedule_driver_offer_expiry add_job
  scheduled_again d earlier w taken = elim (Option-cases (queue.add (grace_job d w) w.jobs)) [
    | inl e ↦ (ground (arith, e), ground (arith, e), ground (arith, e))
    | inr (r, e) ↦
        let same : r ≡ w.jobs = queue.add_taken (grace_job d w) earlier w.jobs r taken e in
        (ground (arith, e, same), ground (arith, e), ground (arith, e))
  ]

  -- When the expiry of the offers of a driver is scheduled, and scheduled again while the first job
  -- still waits, be it refused by the queue or not, the job of the driver is still the first one,
  -- due after the configured time from the first call. When it runs, at that time, however close
  -- the second call was, and the driver is offline, each offer of the driver that is pending
  -- expires, and every other offer stays as it is.
  pub schedule_driver-early :
      (d i : Uuid) (p : DriverProfile) (o : RideOffer) (w later : World)
      → get_job (expire_driver_pending_offers d) w.jobs ≡ none
      → (schedule_driver_offer_expiry queue seconds d w).0 ≡ ok tt
      → later.jobs ≡ (after (schedule_driver_offer_expiry queue seconds d) w).jobs
      → find_profile d later ≡ some p
      → p.is_online ≡ false
      → find_offer i later.rides ≡ some o
      → let v = after (schedule_driver_offer_expiry queue seconds d) later in
        let due = w.now + seconds * 1000 in
        (get_job (expire_driver_pending_offers d) v.jobs
          ≡ some (record { job = expire_driver_pending_offers d; run_at = due }))
        × (find_offer i
              (after (process (expire_driver_pending_offers d)) (record v { now = due })).rides
            ≡ some (outcome d o))
  unfolding process expire_all_pending_offers_for_driver
  schedule_driver-early d i p o w later free returned between found offline there =
      let waiting : get_job (expire_driver_pending_offers d) later.jobs ≡ some (grace_job d w) =
        ap (get_job (expire_driver_pending_offers d)) between ∙ scheduled_first d w free returned in
      let v : World = after (schedule_driver_offer_expiry queue seconds d) later in
      let (jobs, rides, profiles) = scheduled_again d (grace_job d w) later waiting in
      let profile : find_profile d v ≡ some p =
        ap (find_first (λ (x : DriverProfile). x.id == d)) profiles ∙ found in
      let offer : find_offer i v.rides ≡ some o = ap (find_offer i) rides ∙ there in
      (
        ap (get_job (expire_driver_pending_offers d)) jobs ∙ waiting,
        (let ran : (after (process (expire_driver_pending_offers d))
                  (record v { now = w.now + seconds * 1000 })).rides
                ≡ expire_of_driver d v.rides =
              ground (arith, profile, offline) in
            ap (find_offer i) ran ∙ expired_found d i o v.rides offer),
      )
