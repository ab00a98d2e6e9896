-- ===== src/Rides/Machine.antt =====
-- The life of one ride as an abstract machine, and that the methods of rides carry it out: what a
-- ride is to its rider and driver, without the tables, the offers and the times.
pub mod Moving
pub mod Closing
pub mod Carried
pub mod Settling
pub mod Completing
use reedri_end.Base.{ℕ, Option, none, some, map_option}
use reedri_end.Table.{find_first}
use reedri_end.Schema.{Uuid, Fare, RideRequestStatus, RideRequest, Trip}
use reedri_end.World.{Rides}
use reedri_end.RideRequests.{find_trip_of}
use reedri_end.Rides.{request_status}

-- Who drives whom, and for how much.
pub record Deal : Type 0 where
  pub driver_id : Uuid
  pub rider_id : Uuid
  pub agreed_fare : Fare

pub record Ride : Type 0 where
  pub status : Option RideRequestStatus
  pub deal : Option Deal

abbrev pub deal_of : Trip → Deal
deal_of t = record { driver_id = t.driver_id; rider_id = t.rider_id; agreed_fare = t.agreed_fare }

-- The ride that the tables have under an id.
abbrev pub ride : Uuid → Rides → Ride
ride k s = record { status = request_status k s; deal = map_option deal_of (find_trip_of k s) }

abbrev pub in_phase : RideRequestStatus → Option Deal → Ride
in_phase status deal = record { status = some status; deal = deal }

abbrev pub unknown_ride : Ride
unknown_ride = record { status = none; deal = none }

-- The moves of the machine.
pub data Moves : Ride → Ride → Type 0 where
  stays : (a : Ride) → Moves a a
  appears : Moves unknown_ride (in_phase RideRequestStatus.pending none)
  agrees :
      (d : Deal)
      → Moves
          (in_phase RideRequestStatus.pending none)
          (in_phase RideRequestStatus.matched (some d))
  sets_off :
      (d : Deal)
      → Moves
          (in_phase RideRequestStatus.matched (some d))
          (in_phase RideRequestStatus.in_progress (some d))
  arrives :
      (d : Deal)
      → Moves
          (in_phase RideRequestStatus.in_progress (some d))
          (in_phase RideRequestStatus.completed (some d))
  gives_up :
      Moves (in_phase RideRequestStatus.pending none) (in_phase RideRequestStatus.cancelled none)
  calls_off :
      (d : Deal)
      → Moves
          (in_phase RideRequestStatus.matched (some d))
          (in_phase RideRequestStatus.cancelled (some d))
