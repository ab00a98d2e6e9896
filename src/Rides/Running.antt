-- ===== src/Rides/Running.antt =====
-- What the methods of ride requests and trips do to the tables of rides: nothing, or one write.
use reedri_end.Base.{
  ℕ, true, ◌||◌, ◌≡◌, refl, inl, inr, Option, none, some, ◌==◌, arith, Option-cases, String,
  or_default, ap, ◌≢◌, ==→eq, subst, sym,
}
use reedri_end.Table.Laws.{find_first-accepted}
use reedri_end.Schema.{
  Uuid, RideRequestStatus, is_open_request, is_matched_request, is_matched_trip, is_started_trip,
  RideRequest, Trip,
}
use reedri_end.World.{Rides, World, after, ok}
use reedri_end.World.Rules.{>>=-after}
use reedri_end.Offers.{find_request}
use reedri_end.RideRequests.{
  Cancellation, new_request, CreateRideRequest, insert_request, create_request, find_trip_of,
  check_cancel, commit_cancel, cancel, cancel_transaction,
}
use reedri_end.Trips.{
  find_trip, trip_transaction, started_at_time, completed_at_time, check_start, commit_start, start,
  check_complete, commit_complete, complete,
}
use reedri_end.Matching.{Geography}
use reedri_end.Rides.Write.{Step, inserts_request, starts, completes, cancels}

-- Reads and checks write nothing.
pub check_cancel-after : (k user_id : Uuid) (w : World) → after (check_cancel k user_id) w ≡ w
unfolding check_cancel
check_cancel-after k user_id w = ground arith

pub check_start-after : (i user_id : Uuid) (w : World) → after (check_start i user_id) w ≡ w
unfolding check_start
check_start-after i user_id w = ground arith

pub check_complete-after : (i user_id : Uuid) (w : World) → after (check_complete i user_id) w ≡ w
unfolding check_complete
check_complete-after i user_id w = ground arith

pub record IsCancellable (k : Uuid) (c : Cancellation) (r : RideRequest) (w : World) : Type 0 where
  pub request_found : find_request k w.rides ≡ some r
  pub active : (is_open_request r.status || is_matched_request r.status) ≡ true
  pub trip_found : c.trip ≡ find_trip_of k w.rides

pub check_cancel-ok :
    (k user_id : Uuid) (w : World) (c : Cancellation) (r : RideRequest)
    → find_request k w.rides ≡ some r
    → (check_cancel k user_id w).0 ≡ ok c
    → IsCancellable k c r w
unfolding check_cancel
check_cancel-ok k user_id w c r found e = ground arith

check_cancel-missing :
    (k user_id : Uuid) (w : World) (c : Cancellation)
    → find_request k w.rides ≡ none
    → (check_cancel k user_id w).0 ≢ ok c
unfolding check_cancel
check_cancel-missing k user_id w c missing = ground arith

pub check_start-ok :
    (i user_id : Uuid) (w : World) (t : Trip)
    → (check_start i user_id w).0 ≡ ok t
    → (find_trip i w.rides ≡ some t)
      × ((t.driver_id == user_id) ≡ true)
      × (is_matched_trip t.status ≡ true)
unfolding check_start
check_start-ok i user_id w t e = ground arith

pub check_complete-ok :
    (i user_id : Uuid) (w : World) (t : Trip)
    → (check_complete i user_id w).0 ≡ ok t
    → (find_trip i w.rides ≡ some t)
      × ((t.driver_id == user_id) ≡ true)
      × (is_started_trip t.status ≡ true)
unfolding check_complete
check_complete-ok i user_id w t e = ground arith

pub commit_cancel-rides :
    (k : Uuid) (reason : Option String) (c : Cancellation) (w : World)
    → (after (commit_cancel k reason c) w).rides ≡ cancel_transaction k c.trip reason w.now w.rides
unfolding commit_cancel
commit_cancel-rides k reason c w = ground arith

pub commit_start-rides :
    (i : Uuid) (t : Trip) (w : World)
    → (after (commit_start i t) w).rides
      ≡ trip_transaction
          (started_at_time w.now)
          RideRequestStatus.in_progress
          i
          t.ride_request_id
          w.rides
unfolding commit_start
commit_start-rides i t w = ground arith

pub commit_complete-rides :
    (i : Uuid) (t : Trip) (w : World)
    → (after (commit_complete i t) w).rides
      ≡ trip_transaction
          (completed_at_time w.now)
          RideRequestStatus.completed
          i
          t.ride_request_id
          w.rides
unfolding commit_complete
commit_complete-rides i t w = ground arith

pub create_request-rides :
    (geography : Geography) (radius rider_id : ℕ) (dto : CreateRideRequest) (w : World)
    → (after (create_request geography radius rider_id dto) w).rides
      ≡ or_default (insert_request (new_request (w.random 0) w.now rider_id dto) w.rides) w.rides
unfolding create_request
create_request-rides geography radius rider_id dto w = ground arith

find_trip_id : (i : Uuid) (s : Rides) (t : Trip) → find_trip i s ≡ some t → t.id ≡ i
find_trip_id i s t e = ==→eq t.id i (find_first-accepted (λ (x : Trip). x.id == i) s.trips t e)

pub create_request-Step :
    (geography : Geography) (radius rider_id : ℕ) (dto : CreateRideRequest) (w : World)
    → Step w.rides (after (create_request geography radius rider_id dto) w).rides
create_request-Step geography radius rider_id dto w =
    rw (create_request-rides geography radius rider_id dto w) (go _ refl)
  where
    go :
        (t : Option Rides)
        → insert_request (new_request (w.random 0) w.now rider_id dto) w.rides ≡ t
        → Step w.rides (or_default t w.rides)
    go none e = inl refl
    go (some t) e = inr (inserts_request _ refl e)

pub cancel-Step :
    (k user_id : Uuid) (reason : Option String) (w : World)
    → Step w.rides (after (cancel k user_id reason) w).rides
unfolding cancel
cancel-Step k user_id reason w =
    >>=-after (λ v. Step w.rides v.rides) (check_cancel k user_id) (commit_cancel k reason) w
      (inl (ap (λ (v : World). v.rides) (check_cancel-after k user_id w)))
      λ c e.
        rw (check_cancel-after k user_id w, commit_cancel-rides k reason c w)
          (elim (Option-cases (find_request k w.rides)) [
            | inl missing ↦ absurd (check_cancel-missing k user_id w c missing e)
            | inr (r, found) ↦
                let ok_facts = check_cancel-ok k user_id w c r found e in
                inr (cancels k r reason w.now found ok_facts.active (rw ok_facts.trip_found))
          ])

pub start-Step : (i user_id : Uuid) (w : World) → Step w.rides (after (start i user_id) w).rides
unfolding start
start-Step i user_id w =
    >>=-after (λ v. Step w.rides v.rides) (check_start i user_id) (commit_start i) w
      (inl (ap (λ (v : World). v.rides) (check_start-after i user_id w)))
      λ t e.
        rw (check_start-after i user_id w, commit_start-rides i t w)
          (let (found, _, matched) = check_start-ok i user_id w t e in
            let at : t.id ≡ i = find_trip_id i w.rides t found in
            inr (
              starts w.now t (subst (λ j. find_trip j w.rides ≡ some t) (sym at) found) matched (
                ap
                  (λ j.
                    trip_transaction (started_at_time w.now) RideRequestStatus.in_progress j
                      t.ride_request_id w.rides)
                  (sym at))))

pub complete-Step :
    (i user_id : Uuid) (w : World) → Step w.rides (after (complete i user_id) w).rides
unfolding complete
complete-Step i user_id w =
    >>=-after (λ v. Step w.rides v.rides) (check_complete i user_id) (commit_complete i) w
      (inl (ap (λ (v : World). v.rides) (check_complete-after i user_id w)))
      λ t e.
        rw (check_complete-after i user_id w, commit_complete-rides i t w)
          (let (found, _, started) = check_complete-ok i user_id w t e in
            let at : t.id ≡ i = find_trip_id i w.rides t found in
            inr (
              completes w.now t (subst (λ j. find_trip j w.rides ≡ some t) (sym at) found) started (
                ap
                  (λ j.
                    trip_transaction (completed_at_time w.now) RideRequestStatus.completed j
                      t.ride_request_id w.rides)
                  (sym at))))
