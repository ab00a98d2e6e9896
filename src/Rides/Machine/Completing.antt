-- ===== src/Rides/Machine/Completing.antt =====
-- A ride that was agreed on can always be brought to its end by its driver.
use reedri_end.Base.{
  ℕ, ◌≡◌, refl, true, Option, some, [], ◌∷◌, ◌==◌, arith, ap, ==_refl, Option-cases, inl, inr, ◌∙◌,
}
use reedri_end.Table.Laws.{find_first-update_many, find_first-key}
use reedri_end.Schema.{Uuid, RideRequestStatus, TripStatus, is_matched_trip, is_started_trip, Trip}
use reedri_end.World.{World, Rides, after}
use reedri_end.Queue.{JobQueue}
use reedri_end.Matching.{Geography}
use reedri_end.RideRequests.{find_trip_of}
use reedri_end.Trips.{
  find_trip, start, complete, check_start, check_complete, commit_start, commit_complete,
  trip_transaction, started_at_time, completed_at_time,
}
use reedri_end.Rides.{IsConsistent, request_status, agree}
use reedri_end.Rides.Invariant.{
  starts_trip, completes_trip, perform, perform_all, perform_all-IsConsistent,
}
use reedri_end.Rides.Machine.{deal_of, ride, in_phase}
use reedri_end.Rides.Machine.Moving.{ride_is}

-- The trip of a ride request after the two writes of `start` or of `complete`.
trip_after :
    (f : Trip → Trip) (to : RideRequestStatus) (k : Uuid) (t : Trip) (s : Rides)
    → ((x : Trip) → (f x).ride_request_id ≡ x.ride_request_id)
    → find_trip_of k s ≡ some t
    → find_trip_of k (trip_transaction f to t.id t.ride_request_id s) ≡ some (f t)
unfolding trip_transaction
trip_after f to k t s kept e =
    find_first-update_many (λ (x : Trip). x.ride_request_id == k) (λ (x : Trip). x.id == t.id) f
      s.trips (λ x. ap (λ i. i == k) (kept x))
    ∙ ground (arith, e, ==_refl t.id)

trip_by_id :
    (k : Uuid) (t : Trip) (s : Rides)
    → IsConsistent s
    → find_trip_of k s ≡ some t
    → find_trip t.id s ≡ some t
trip_by_id k t s h e =
    find_first-key (λ (x : Trip). x.id) (λ (x : Trip). x.ride_request_id == k) s.trips t h.trip_ids
      e

start-rides :
    (t : Trip) (w : World)
    → find_trip t.id w.rides ≡ some t
    → is_matched_trip t.status ≡ true
    → (after (start t.id t.driver_id) w).rides
      ≡ trip_transaction
          (started_at_time w.now)
          RideRequestStatus.in_progress
          t.id
          t.ride_request_id
          w.rides
unfolding start check_start commit_start
start-rides t w e matched =
    let v : Rides =
      trip_transaction (started_at_time w.now) RideRequestStatus.in_progress t.id t.ride_request_id
        w.rides in
    elim (Option-cases (find_trip t.id v)) [
      | inl none_now ↦ ground (arith, e, matched, ==_refl t.driver_id, none_now)
      | inr (u, there) ↦ ground (arith, e, matched, ==_refl t.driver_id, there)
    ]

complete-rides :
    (t : Trip) (w : World)
    → find_trip t.id w.rides ≡ some t
    → is_started_trip t.status ≡ true
    → (after (complete t.id t.driver_id) w).rides
      ≡ trip_transaction
          (completed_at_time w.now)
          RideRequestStatus.completed
          t.id
          t.ride_request_id
          w.rides
unfolding complete check_complete commit_complete
complete-rides t w e started =
    let v : Rides =
      trip_transaction (completed_at_time w.now) RideRequestStatus.completed t.id t.ride_request_id
        w.rides in
    elim (Option-cases (find_trip t.id v)) [
      | inl none_now ↦ ground (arith, e, started, ==_refl t.driver_id, none_now)
      | inr (u, there) ↦ ground (arith, e, started, ==_refl t.driver_id, there)
    ]

-- With consistent tables, the trip says how far the ride request is.
completed_ride :
    (k : Uuid) (t : Trip) (s : Rides)
    → IsConsistent s
    → find_trip_of k s ≡ some t
    → t.status ≡ TripStatus.completed
    → ride k s ≡ in_phase RideRequestStatus.completed (some (deal_of t))
completed_ride k t s h e done =
    ride_is k s (some RideRequestStatus.completed) (some (deal_of t))
      (with_completed (request_status k s) (ground (arith, h.statuses k, e, done)))
      (ground (arith, e))
  where
    with_completed :
        (x : Option RideRequestStatus)
        → agree x (some TripStatus.completed) ≡ true
        → x ≡ some RideRequestStatus.completed
    with_completed x h = ground (arith, h)

module _ (queue : JobQueue) (seconds : ℕ) (geography : Geography) (radius : ℕ) where
  started_completes :
      (k : Uuid) (t : Trip) (w : World)
      → IsConsistent w.rides
      → find_trip_of k w.rides ≡ some t
      → is_started_trip t.status ≡ true
      → ride k (after (complete t.id t.driver_id) w).rides
        ≡ in_phase RideRequestStatus.completed (some (deal_of t))
  unfolding perform_all perform
  started_completes k t w h e started =
      let v : Rides = (after (complete t.id t.driver_id) w).rides in
      let shape : v
          ≡ trip_transaction (completed_at_time w.now) RideRequestStatus.completed t.id
              t.ride_request_id w.rides =
        complete-rides t w (trip_by_id k t w.rides h e) started in
      completed_ride k (completed_at_time w.now t) v
        (perform_all-IsConsistent queue seconds geography radius
          (completes_trip t.id t.driver_id ∷ []) w h)
        (ap (find_trip_of k) shape
          ∙ trip_after (completed_at_time w.now) RideRequestStatus.completed k t w.rides (λ x. refl)
              e)
        refl

  -- Whatever else the tables have, as long as they are consistent, a ride whose trip is matched is
  -- completed when its driver starts the trip and then completes it, and the driver, the rider and
  -- the fare are the ones that were agreed on.
  pub matched-completes :
      (k : Uuid) (t : Trip) (w : World)
      → IsConsistent w.rides
      → find_trip_of k w.rides ≡ some t
      → is_matched_trip t.status ≡ true
      → ride k
          (perform_all queue seconds geography radius
            (starts_trip t.id t.driver_id ∷ completes_trip t.id t.driver_id ∷ [])
            w).rides
        ≡ in_phase RideRequestStatus.completed (some (deal_of t))
  unfolding perform_all perform
  matched-completes k t w h e matched =
      let v : World = after (start t.id t.driver_id) w in
      let u : Trip = started_at_time w.now t in
      let there : find_trip_of k v.rides ≡ some u =
        ap (find_trip_of k) (start-rides t w (trip_by_id k t w.rides h e) matched)
        ∙ trip_after (started_at_time w.now) RideRequestStatus.in_progress k t w.rides (λ x. refl)
            e in
      started_completes k u v
        (perform_all-IsConsistent queue seconds geography radius (starts_trip t.id t.driver_id ∷ [])
          w h)
        there refl
