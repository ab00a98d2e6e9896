-- ===== src/Rides/Invariant.antt =====
-- Every call of the methods of rides keeps the tables of rides consistent.
use reedri_end.Base.{ℕ, Option, List, [], ◌∷◌, inl, inr, sym, subst, refl, String}
use reedri_end.Schema.{Uuid, Fare, RideRequestStatus}
use reedri_end.World.{Rides, World, OfferExpiryJob, after}
use reedri_end.Queue.{JobQueue}
use reedri_end.Offers.{submit_offer, accept_offer, process}
use reedri_end.RideRequests.{CreateRideRequest, create_request, cancel}
use reedri_end.Trips.{start, complete, started_at_time, completed_at_time}
use reedri_end.Matching.{Geography}
use reedri_end.Rides.{IsConsistent}
use reedri_end.Rides.Write.{
  Step, Write, inserts_request, inserts_offer, renews, accepts, expires, expires_of_driver, starts,
  completes, cancels,
}
use reedri_end.Rides.Offering.{accept_offer-Step, submit_offer-Step, process-Step}
use reedri_end.Rides.Running.{create_request-Step, cancel-Step, start-Step, complete-Step}
use reedri_end.Rides.Keep.{
  expire_one-IsConsistent, expire_of_driver-IsConsistent, move-IsConsistent,
}
use reedri_end.Rides.KeepCancel.{cancel-IsConsistent}
use reedri_end.Rides.KeepOffers.{
  renew-IsConsistent, insert_offer-IsConsistent, insert_request-IsConsistent,
}
use reedri_end.Rides.KeepAccept.{accept-IsConsistent}

-- Each write keeps the tables of rides consistent.
pub Write-IsConsistent : {s t : Rides} → Write s t → IsConsistent s → IsConsistent t
Write-IsConsistent {s} {t} (inserts_request r new done) h =
    insert_request-IsConsistent s h r t new done
Write-IsConsistent {s} {t} (inserts_offer o r new er open_now done) h =
    insert_offer-IsConsistent s h o r t new er open_now done
Write-IsConsistent {s} {t} (renews k d fare r er open_now e) h =
    subst IsConsistent (sym e) (renew-IsConsistent s h k d fare r er open_now)
Write-IsConsistent {s} {t} (accepts o r trip eo er open_now pending own fresh done) h =
    accept-IsConsistent s h o r trip t eo er open_now pending own fresh done
Write-IsConsistent {s} {t} (expires o found pending e) h =
    subst IsConsistent (sym e) (expire_one-IsConsistent s h o found pending)
Write-IsConsistent {s} {t} (expires_of_driver d e) h =
    subst IsConsistent (sym e) (expire_of_driver-IsConsistent s h d)
Write-IsConsistent {s} {t} (starts now trip found matched e) h = subst IsConsistent (sym e) (
    move-IsConsistent s h trip found (started_at_time now) RideRequestStatus.in_progress (λ t. refl)
      (λ t. refl) refl refl)
Write-IsConsistent {s} {t} (completes now trip found started e) h = subst IsConsistent (sym e) (
    move-IsConsistent s h trip found (completed_at_time now) RideRequestStatus.completed (λ t. refl)
      (λ t. refl) refl refl)
Write-IsConsistent {s} {t} (cancels k r reason now found active e) h =
    subst IsConsistent (sym e) (cancel-IsConsistent s h k r reason now found active)

pub Step-IsConsistent : {s t : Rides} → Step s t → IsConsistent s → IsConsistent t
Step-IsConsistent (inl same) h = subst IsConsistent (sym same) h
Step-IsConsistent (inr w) h = Write-IsConsistent w h

-- A call of a method of rides, by whoever makes it.
pub data Call : Type 0 where
  creates : (rider_id : Uuid) → CreateRideRequest → Call
  submits : (driver_user_id ride_request_id : Uuid) → Fare → Call
  accepts_offer : (rider_id offer_id : Uuid) → Call
  runs_job : OfferExpiryJob → Call
  starts_trip completes_trip : (trip_id driver_user_id : Uuid) → Call
  cancels_request : (ride_request_id user_id : Uuid) → Option String → Call

module _ (queue : JobQueue) (seconds : ℕ) (geography : Geography) (radius : ℕ) where
  -- The state after a call, whether it returned or threw.
  unfoldable pub perform : Call → World → World
  perform (creates u dto) = after (create_request geography radius u dto)
  perform (submits u k fare) = after (submit_offer queue seconds u k fare)
  perform (accepts_offer u i) = after (accept_offer queue seconds u i)
  perform (runs_job j) = after (process j)
  perform (starts_trip i u) = after (start i u)
  perform (completes_trip i u) = after (complete i u)
  perform (cancels_request k u reason) = after (cancel k u reason)

  unfoldable pub perform_all : List Call → World → World
  perform_all [] w = w
  perform_all (c ∷ cs) w = perform_all cs (perform c w)

  pub perform-Step : (c : Call) (w : World) → Step w.rides (perform c w).rides
  unfolding perform
  perform-Step (creates u dto) w = create_request-Step geography radius u dto w
  perform-Step (submits u k fare) w = submit_offer-Step queue seconds u k fare w
  perform-Step (accepts_offer u i) w = accept_offer-Step queue seconds u i w
  perform-Step (runs_job j) w = process-Step j w
  perform-Step (starts_trip i u) w = start-Step i u w
  perform-Step (completes_trip i u) w = complete-Step i u w
  perform-Step (cancels_request k u reason) w = cancel-Step k u reason w

  -- Whatever calls are made, in whatever order and with whatever arguments, on consistent tables,
  -- the tables of rides stay consistent: ride requests, offers and trips have unique ids, and a
  -- ride request has at most one trip; each ride request and its trip are in step (no trip while
  -- it is pending, a matched, started or completed trip as it is matched, in progress or
  -- completed, and no trip or a cancelled one once it is cancelled); no offer is pending on a
  -- ride request that is closed; and there is one accepted offer where there is a trip, and none
  -- elsewhere.
  pub perform_all-IsConsistent :
      (cs : List Call) (w : World) → IsConsistent w.rides → IsConsistent (perform_all cs w).rides
  unfolding perform_all
  perform_all-IsConsistent [] w h = h
  perform_all-IsConsistent (c ∷ cs) w h =
      perform_all-IsConsistent cs (perform c w) (Step-IsConsistent (perform-Step c w) h)
