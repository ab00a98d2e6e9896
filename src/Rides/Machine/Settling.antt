-- ===== src/Rides/Machine/Settling.antt =====
-- No ride changes for ever.
use reedri_end.Base.{
  ℕ, ◌+◌, ◌≤◌, ◌≡◌, refl, Bool, true, false, ◌&&◌, Option, none, some, List, [], ◌∷◌, ◌==◌,
  if◌then◌else◌, arith, ==_refl,
}
use reedri_end.Schema.{Uuid, RideRequestStatus}
use reedri_end.World.{World}
use reedri_end.Queue.{JobQueue}
use reedri_end.Matching.{Geography}
use reedri_end.Rides.{IsConsistent}
use reedri_end.Rides.Invariant.{Call, perform, perform_all, perform_all-IsConsistent}
use reedri_end.Rides.Machine.{
  Deal, Ride, ride, Moves, stays, appears, agrees, sets_off, arrives, gives_up, calls_off,
}
use reedri_end.Rides.Machine.Carried.{perform-Moves}

-- How many moves a ride in a phase may have before it.
abbrev pub moves_left : Option RideRequestStatus → ℕ
moves_left none = 4
moves_left (some RideRequestStatus.pending) = 3
moves_left (some RideRequestStatus.matched) = 2
moves_left (some RideRequestStatus.in_progress) = 1
moves_left (some RideRequestStatus.completed) = 0
moves_left (some RideRequestStatus.cancelled) = 0

abbrev pub status_number : Option RideRequestStatus → ℕ
status_number none = 0
status_number (some RideRequestStatus.pending) = 1
status_number (some RideRequestStatus.matched) = 2
status_number (some RideRequestStatus.in_progress) = 3
status_number (some RideRequestStatus.completed) = 4
status_number (some RideRequestStatus.cancelled) = 5

abbrev pub same_deal : Option Deal → Option Deal → Bool
same_deal none none = true
same_deal (some a) (some b) =
    a.driver_id == b.driver_id && (a.rider_id == b.rider_id && a.agreed_fare == b.agreed_fare)
same_deal _ _ = false

abbrev pub same_ride : Ride → Ride → Bool
same_ride a b = status_number a.status == status_number b.status && same_deal a.deal b.deal

same_deal_refl : (d : Option Deal) → same_deal d d ≡ true
same_deal_refl none = refl
same_deal_refl (some d) =
    ground (arith, ==_refl d.driver_id, ==_refl d.rider_id, ==_refl d.agreed_fare)

-- A move that changes a ride leaves fewer moves.
Moves-left :
    {a b : Ride}
    → Moves a b
    → (moves_left b.status + (if same_ride a b then 0 else 1)) ≤ moves_left a.status
Moves-left (stays a) = ground (arith, ==_refl (status_number a.status), same_deal_refl a.deal)
Moves-left appears = omega arith
Moves-left (agrees d) = omega arith
Moves-left (sets_off d) = omega arith
Moves-left (arrives d) = omega arith
Moves-left gives_up = omega arith
Moves-left (calls_off d) = omega arith

moves_left-bounded : (x : Option RideRequestStatus) → moves_left x ≤ 4
moves_left-bounded none = omega arith
moves_left-bounded (some RideRequestStatus.pending) = omega arith
moves_left-bounded (some RideRequestStatus.matched) = omega arith
moves_left-bounded (some RideRequestStatus.in_progress) = omega arith
moves_left-bounded (some RideRequestStatus.completed) = omega arith
moves_left-bounded (some RideRequestStatus.cancelled) = omega arith

module _ (queue : JobQueue) (seconds : ℕ) (geography : Geography) (radius : ℕ) where
  -- How many of a sequence of calls change a ride.
  unfoldable pub changes : Uuid → List Call → World → ℕ
  changes k [] w = 0
  changes k (c ∷ cs) w =
      let v = perform queue seconds geography radius c w in
      (if same_ride (ride k w.rides) (ride k v.rides) then 0 else 1) + changes k cs v

  -- Of however many calls, on consistent tables, at most four change a ride, and no more than are
  -- left in its phase: a completed or a cancelled ride is never changed again, nor are its driver,
  -- its rider and its fare.
  pub changes-moves_left :
      (cs : List Call) (w : World) (k : Uuid)
      → IsConsistent w.rides
      → (changes k cs w ≤ moves_left (ride k w.rides).status)
        × (moves_left (ride k w.rides).status ≤ 4)
  unfolding changes perform_all
  changes-moves_left [] w k h = (ground arith, moves_left-bounded (ride k w.rides).status)
  changes-moves_left (c ∷ cs) w k h =
      let v : World = perform queue seconds geography radius c w in
      let later =
        changes-moves_left cs v k
          (perform_all-IsConsistent queue seconds geography radius (c ∷ []) w h) in
      let step = Moves-left (perform-Moves queue seconds geography radius c w k h) in
      (omega (arith, later.0, step), moves_left-bounded (ride k w.rides).status)
