-- ===== src/Rides/Life.antt =====
-- The life of a trip and of a ride request: which changes a call can make to a row.
use reedri_end.Base.{
  ℕ, ◌≡◌, refl, Bool, true, false, ◌||◌, Option, some, [], ◌∷◌, ◌++◌, ◌==◌, map_option, String,
  if◌then◌else◌, arith, ==→eq, ap, sym, Option-cases, Bool-cases, inl, inr, ◌∙◌,
}
use reedri_end.Table.{find_first, update_many, create}
use reedri_end.Table.Laws.{find_first-update_many, find_first-append, found_eq}
use reedri_end.Schema.{
  Uuid, Time, TripStatus, is_open_request, is_matched_request, is_matched_trip, RideRequest,
  RideOffer, Trip,
}
use reedri_end.World.{Rides, World}
use reedri_end.Queue.{JobQueue}
use reedri_end.Matching.{Geography}
use reedri_end.Offers.{
  find_request, accept_transaction, insert_offer, renew_offer, expire_one, expire_of_driver,
}
use reedri_end.RideRequests.{insert_request, find_trip_of, cancel_transaction, cancel_trip}
use reedri_end.Trips.{find_trip, trip_transaction, started_at_time, completed_at_time}
use reedri_end.Rides.{IsConsistent}
use reedri_end.Rides.Write.{
  Write, inserts_request, inserts_offer, renews, accepts, expires, expires_of_driver, starts,
  completes, cancels,
}
use reedri_end.Rides.Invariant.{Call, perform, perform-Step}

-- Which status of a trip may follow which, in one call.
abbrev pub trip_follows : TripStatus → TripStatus → Bool
trip_follows TripStatus.matched TripStatus.matched = true
trip_follows TripStatus.matched TripStatus.started = true
trip_follows TripStatus.matched TripStatus.cancelled = true
trip_follows TripStatus.started TripStatus.started = true
trip_follows TripStatus.started TripStatus.completed = true
trip_follows TripStatus.completed TripStatus.completed = true
trip_follows TripStatus.cancelled TripStatus.cancelled = true
trip_follows _ _ = false

-- A trip and what it may be after a call: with the same parties and fare, and a status that follows.
pub record Follows (t u : Trip) : Type 0 where
  pub same_id : u.id ≡ t.id
  pub same_request : u.ride_request_id ≡ t.ride_request_id
  pub same_driver : u.driver_id ≡ t.driver_id
  pub same_rider : u.rider_id ≡ t.rider_id
  pub same_fare : u.agreed_fare ≡ t.agreed_fare
  pub status_follows : trip_follows t.status u.status ≡ true

Follows-refl : (t : Trip) → Follows t t
Follows-refl t = ground arith

abbrev Kept : Uuid → Trip → Rides → Type 0
Kept i t s = (u : Trip) × (find_trip i s ≡ some u) × Follows t u

module _ (s : Rides) (h : IsConsistent s) (i : Uuid) (t : Trip) (et : find_trip i s ≡ some t) where
  Kept-same : (s' : Rides) → s'.trips ≡ s.trips → Kept i t s'
  Kept-same s' e = (t, ap (find_first (λ (x : Trip). x.id == i)) e ∙ et, Follows-refl t)

  -- An update of the trip with an id.
  Kept-update :
      (f : Trip → Trip) (j : Uuid)
      → ((x : Trip) → (f x).id ≡ x.id)
      → ((t.id == j) ≡ true → Follows t (f t))
      → (s' : Rides) → s'.trips ≡ update_many (λ x. x.id == j) f s.trips
      → Kept i t s'
  Kept-update f j kept follows s' e = elim (Bool-cases (t.id == j)) [
    | inl hit ↦ (f t, found ∙ ground (arith, et, hit), follows hit)
    | inr miss ↦ (t, found ∙ ground (arith, et, miss), Follows-refl t)
  ]
    where
      found :
          find_trip i s' ≡ map_option (λ (x : Trip). if x.id == j then f x else x) (find_trip i s)
      found =
          ap (find_first (λ (x : Trip). x.id == i)) e
          ∙ find_first-update_many (λ (x : Trip). x.id == i) (λ x. x.id == j) f s.trips
              (λ x. ap (λ k. k == i) (kept x))

  Kept-append : (u : Trip) (s' : Rides) → s'.trips ≡ s.trips ++ u ∷ [] → Kept i t s'
  Kept-append u s' e = (
    t,
    ap (find_first (λ (x : Trip). x.id == i)) e
        ∙ (find_first-append (λ (x : Trip). x.id == i) s.trips (u ∷ []) ∙ ground (arith, et)),
    Follows-refl t,
  )

  -- Another trip with the id of this one is this one.
  only_trip :
      (p : Trip → Bool) (u : Trip) → find_first p s.trips ≡ some u → (t.id == u.id) ≡ true → u ≡ t
  only_trip p u e same =
      found_eq (λ (x : Trip). x.id) p (λ (x : Trip). x.id == i) s.trips u t h.trip_ids e et
        (sym (==→eq t.id u.id same))

  -- The trip of an active ride request is matched, unless there is none.
  active_matched :
      (k : Uuid) (r : RideRequest) (u : Trip)
      → find_request k s ≡ some r
      → (is_open_request r.status || is_matched_request r.status) ≡ true
      → find_trip_of k s ≡ some u
      → is_matched_trip u.status ≡ true
  active_matched k r u er active eu = ground (arith, h.statuses k, er, active, eu)

  accept_trips :
      (o : RideOffer) (u : Trip) (s' : Rides)
      → accept_transaction o u s ≡ some s'
      → s'.trips ≡ s.trips ++ u ∷ []
  unfolding accept_transaction create
  accept_trips o u s' e = ground arith

  insert_request_trips :
      (r : RideRequest) (s' : Rides) → insert_request r s ≡ some s' → s'.trips ≡ s.trips
  unfolding insert_request create
  insert_request_trips r s' e = ground arith

  insert_offer_trips :
      (o : RideOffer) (s' : Rides) → insert_offer o s ≡ some s' → s'.trips ≡ s.trips
  unfolding insert_offer create
  insert_offer_trips o s' e = ground arith

  Kept-cancel :
      (k : Uuid) (r : RideRequest) (reason : Option String) (now : Time)
      → find_request k s ≡ some r
      → (is_open_request r.status || is_matched_request r.status) ≡ true
      → (s' : Rides) → s'.trips ≡ cancel_trip (find_trip_of k s) reason s.trips
      → Kept i t s'
  Kept-cancel k r reason now er active s' e = elim (Option-cases (find_trip_of k s)) [
    | inl no_trip ↦ Kept-same s' (e ∙ ap (λ o. cancel_trip o reason s.trips) no_trip)
    | inr (u, eu) ↦
        Kept-update (λ x. record x { status = TripStatus.cancelled; cancel_reason = reason }) u.id
          (λ x. refl)
          (λ hit. ground (
            arith,
            only_trip (λ (x : Trip). x.ride_request_id == k) u eu hit,
            active_matched k r u er active eu,
          ))
          s' (e ∙ ap (λ o. cancel_trip o reason s.trips) eu)
  ]

  Write-Kept : {s' : Rides} → Write s s' → Kept i t s'
  unfolding renew_offer expire_one expire_of_driver trip_transaction cancel_transaction
  Write-Kept {s'} (inserts_request r new done) = Kept-same s' (insert_request_trips r s' done)
  Write-Kept {s'} (inserts_offer o r new er open_now done) =
      Kept-same s' (insert_offer_trips o s' done)
  Write-Kept {s'} (renews k d fare r er open_now e) = Kept-same s' (ap (λ (x : Rides). x.trips) e)
  Write-Kept {s'} (accepts o r trip eo er open_now pending own fresh done) =
      Kept-append trip s' (accept_trips o trip s' done)
  Write-Kept {s'} (expires o found pending e) = Kept-same s' (ap (λ (x : Rides). x.trips) e)
  Write-Kept {s'} (expires_of_driver d e) = Kept-same s' (ap (λ (x : Rides). x.trips) e)
  Write-Kept {s'} (starts now trip found matched e) =
      Kept-update (started_at_time now) trip.id (λ x. refl)
        (λ hit. ground (arith, only_trip (λ (x : Trip). x.id == trip.id) trip found hit, matched))
        s' (ap (λ (x : Rides). x.trips) e)
  Write-Kept {s'} (completes now trip found started e) =
      Kept-update (completed_at_time now) trip.id (λ x. refl)
        (λ hit. ground (arith, only_trip (λ (x : Trip). x.id == trip.id) trip found hit, started))
        s' (ap (λ (x : Rides). x.trips) e)
  Write-Kept {s'} (cancels k r reason now found active e) =
      Kept-cancel k r reason now found active s' (ap (λ (x : Rides). x.trips) e)

module _ (queue : JobQueue) (seconds : ℕ) (geography : Geography) (radius : ℕ) where
  -- On consistent tables, a trip that is there before a call is there after it, with the same
  -- ride request, driver, rider and fare, and its status is the same or the next one: matched is
  -- followed by started or cancelled, started by completed, and nothing follows completed or
  -- cancelled. So a trip that has started cannot be cancelled.
  pub perform-trip-Follows :
      (c : Call) (w : World) (i : Uuid) (t : Trip)
      → IsConsistent w.rides
      → find_trip i w.rides ≡ some t
      → (u : Trip) × (find_trip i (perform queue seconds geography radius c w).rides ≡ some u)
        × Follows t u
  perform-trip-Follows c w i t h et = elim (perform-Step queue seconds geography radius c w) [
    | inl same ↦
        Kept-same w.rides h i t et (perform queue seconds geography radius c w).rides
          (ap (λ (x : Rides). x.trips) same)
    | inr write ↦ Write-Kept w.rides h i t et write
  ]
