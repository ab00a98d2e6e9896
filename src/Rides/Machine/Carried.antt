-- ===== src/Rides/Machine/Carried.antt =====
-- Every call of the methods of rides is a move of the machine, for every ride.
use reedri_end.Base.{ℕ, ◌≡◌, refl, true, Option, some, arith, ap, sym, subst, inl, inr}
use reedri_end.Table.{create}
use reedri_end.Schema.{Uuid, RideRequestStatus, TripStatus, is_matched_trip, is_started_trip}
use reedri_end.World.{Rides, World}
use reedri_end.Queue.{JobQueue}
use reedri_end.Matching.{Geography}
use reedri_end.Offers.{insert_offer, renew_offer, expire_one, expire_of_driver}
use reedri_end.Trips.{started_at_time, completed_at_time}
use reedri_end.Rides.{IsConsistent, agree}
use reedri_end.Rides.Write.{
  Step, Write, inserts_request, inserts_offer, renews, accepts, expires, expires_of_driver, starts,
  completes, cancels,
}
use reedri_end.Rides.Invariant.{Call, perform, perform-Step}
use reedri_end.Rides.Machine.{ride, Moves, sets_off, arrives}
use reedri_end.Rides.Machine.Moving.{stays_at, untouched, inserted, moved}
use reedri_end.Rides.Machine.Closing.{accepted, cancelled}

matched_with :
    (x : Option RideRequestStatus) (t : TripStatus)
    → is_matched_trip t ≡ true
    → agree x (some t) ≡ true
    → x ≡ some RideRequestStatus.matched
matched_with x t matched e = ground (arith, matched, e)

started_with :
    (x : Option RideRequestStatus) (t : TripStatus)
    → is_started_trip t ≡ true
    → agree x (some t) ≡ true
    → x ≡ some RideRequestStatus.in_progress
started_with x t started e = ground (arith, started, e)

Write-Moves : {s t : Rides} → Write s t → IsConsistent s → (k : Uuid) → Moves (ride k s) (ride k t)
unfolding insert_offer create renew_offer expire_one expire_of_driver
Write-Moves {s} {t} (inserts_request r new done) h k = inserted s h k r t new done
Write-Moves {s} {t} (inserts_offer o r new er open_now done) h k =
    untouched s h k t (ground (arith, done)) (ground (arith, done))
Write-Moves {s} {t} (renews i d fare r er open_now e) h k =
    untouched s h k t (ap (λ (x : Rides). x.ride_requests) e) (ap (λ (x : Rides). x.trips) e)
Write-Moves {s} {t} (accepts o r trip eo er open_now pending own fresh done) h k =
    accepted s h k o r trip t er open_now own done
Write-Moves {s} {t} (expires o found pending e) h k =
    untouched s h k t (ap (λ (x : Rides). x.ride_requests) e) (ap (λ (x : Rides). x.trips) e)
Write-Moves {s} {t} (expires_of_driver d e) h k =
    untouched s h k t (ap (λ (x : Rides). x.ride_requests) e) (ap (λ (x : Rides). x.trips) e)
Write-Moves {s} {t} (starts now trip found matched e) h k =
    subst (λ (x : Rides). Moves (ride k s) (ride k x)) (sym e)
      (moved s h k trip found (started_at_time now) RideRequestStatus.matched
        RideRequestStatus.in_progress (λ t. refl) (λ t. refl) refl refl
        (λ x. matched_with x trip.status matched) refl sets_off)
Write-Moves {s} {t} (completes now trip found started e) h k =
    subst (λ (x : Rides). Moves (ride k s) (ride k x)) (sym e)
      (moved s h k trip found (completed_at_time now) RideRequestStatus.in_progress
        RideRequestStatus.completed (λ t. refl) (λ t. refl) refl refl
        (λ x. started_with x trip.status started) refl arrives)
Write-Moves {s} {t} (cancels i r reason now found active e) h k =
    subst (λ (x : Rides). Moves (ride k s) (ride k x)) (sym e)
      (cancelled s h k i r reason now found active)

pub Step-Moves :
    {s t : Rides} → Step s t → IsConsistent s → (k : Uuid) → Moves (ride k s) (ride k t)
Step-Moves (inl same) h k = stays_at (ap (ride k) same)
Step-Moves (inr write) h k = Write-Moves write h k

module _ (queue : JobQueue) (seconds : ℕ) (geography : Geography) (radius : ℕ) where
  -- On consistent tables, every call of a method of rides, whether it returns or throws, is for
  -- every ride a move of the abstract machine: the ride stays what it is, or it appears, is agreed
  -- on, sets off or arrives in this order, or is given up or called off before it has set off; and
  -- who drives whom, and for how much, is settled when it is agreed on and never changes.
  pub perform-Moves :
      (c : Call) (w : World) (k : Uuid)
      → IsConsistent w.rides
      → Moves (ride k w.rides) (ride k (perform queue seconds geography radius c w).rides)
  perform-Moves c w k h = Step-Moves (perform-Step queue seconds geography radius c w) h k
