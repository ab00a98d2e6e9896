-- ===== src/Tests/OfferTests.antt =====
-- The expiry of offers and the search for drivers: the properties at concrete inputs.
use reedri_end.Base.{
  ◌≤◌, ◌*◌, ◌≡◌, refl, true, false, none, some, [], ◌∷◌, ◌++◌, ◌⊎◌, All, length, map, List,
}
use reedri_end.Table.{find_first, update_many, delete_many, any}
use reedri_end.Schema.{north_east, OfferStatus, is_pending_offer, DriverProfile, RideOffer}
use reedri_end.Events.{offer_expired}
use reedri_end.World.{World, expire_offer, expire_driver_pending_offers, after, ok}
use reedri_end.Queue.{list_queue, get_job}
use reedri_end.Matching.{Point, Ranked, find_nearby_drivers}
use reedri_end.Matching.Search.{IsSorted, is_match, find_nearby_drivers-IsSorted}
use reedri_end.Offers.{
  find_offer, set_offer_status, check_submit, upsert_offer, renew_offer, commit_submit,
  submit_offer, schedule_expiry, cancel_scheduled_expiry, schedule_driver_offer_expiry, add_job,
  process,
}
use reedri_end.Offers.Expiry.{process-expires, IsSubmitted, submit_offer-scheduled}
use reedri_end.Offers.Grace.{outcome, schedule_driver-early}
use reedri_end.Tests.Data.{start_world, offer, driver, flat}

abbrev renewed : RideOffer
renewed = record offer { offered_fare = 1600 }

submit_offer-scheduled_example :
    IsSubmitted list_queue 60 1600 renewed start_world
      (after (submit_offer list_queue 60 2 100 1600) start_world)
unfolding submit_offer check_submit commit_submit upsert_offer renew_offer schedule_expiry
    cancel_scheduled_expiry add_job find_first update_many delete_many
submit_offer-scheduled_example =
    submit_offer-scheduled list_queue 60 2 100 1600 start_world renewed refl

process-expires_example :
    ((is_pending_offer OfferStatus.pending ≡ false)
      × (process (expire_offer 200) start_world ≡ (ok tt, start_world)))
    ⊎ ((is_pending_offer OfferStatus.pending ≡ true)
        × ((process (expire_offer 200) start_world).0 ≡ ok tt)
        × (find_offer 200 (after (process (expire_offer 200)) start_world).rides
            ≡ some (set_offer_status OfferStatus.expired offer))
        × ((after (process (expire_offer 200)) start_world).events
            ≡ [] ++ offer_expired 100 200 2 ∷ []))
unfolding find_first
process-expires_example = process-expires 200 offer driver start_world refl refl

abbrev pickup : Point
pickup = record { lat = north_east 10; lng = north_east 10 }

find_nearby_drivers-IsSorted_example :
    (ds : List Ranked) × (find_nearby_drivers flat 5 pickup none start_world
      ≡ map (λ (d : Ranked). d.row) ds)
    × IsSorted ds
    × (length ds ≤ 50)
    × All (λ d. any (is_match flat 5 pickup (5 * 1000) d) start_world.driver_profiles ≡ true) ds
find_nearby_drivers-IsSorted_example = find_nearby_drivers-IsSorted flat 5 pickup none start_world

abbrev offline_driver : DriverProfile
offline_driver = record driver { is_online = false }

-- At the first disconnect, and half a second before its job is due.
abbrev first_world : World
first_world = record start_world { jobs = [] }

abbrev second_world : World
second_world = record start_world {
  driver_profiles = offline_driver ∷ [];
  jobs = record { job = expire_driver_pending_offers 20; run_at = 61000 } ∷ [];
  now = 60500;
}

schedule_driver-early_example :
    let v = after (schedule_driver_offer_expiry list_queue 60 20) second_world in
    (get_job (expire_driver_pending_offers 20) v.jobs
      ≡ some (record { job = expire_driver_pending_offers 20; run_at = 61000 }))
    × (find_offer 200
          (after (process (expire_driver_pending_offers 20)) (record v { now = 61000 })).rides
        ≡ some (outcome 20 offer))
unfolding find_first schedule_driver_offer_expiry add_job
schedule_driver-early_example =
    schedule_driver-early list_queue 60 20 200 offline_driver offer first_world second_world refl
      refl refl refl refl refl
