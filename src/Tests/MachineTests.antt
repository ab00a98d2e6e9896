-- ===== src/Tests/MachineTests.antt =====
-- The abstract machine of rides: the properties at concrete inputs.
use reedri_end.Base.{arith, ◌≤◌, ◌≡◌, refl, none, some, List, [], ◌∷◌, false}
use reedri_end.Table.{find_first}
use reedri_end.Schema.{Uuid, RideRequestStatus}
use reedri_end.Queue.{list_queue}
use reedri_end.RideRequests.{find_trip_of}
use reedri_end.Rides.Invariant.{starts_trip, completes_trip, perform_all}
use reedri_end.Rides.Machine.{deal_of, ride, in_phase}
use reedri_end.Rides.Machine.Settling.{changes, moves_left, changes-moves_left}
use reedri_end.Rides.Machine.Completing.{matched-completes}
use reedri_end.Rides.{IsConsistent}
use reedri_end.Http.Api.{asks_start, asks_cancellation}
use reedri_end.Gateway.Messages.{ride_offer_accept, driver_location_update}
use reedri_end.Http.Api.Happening.{Happening, requests, sends, disconnects, passes, happen_all}
use reedri_end.Rides.Fares.{HasFares}
use reedri_end.Http.Api.Whole.{Runs, happen_all-Runs, happen_all-HasFares}
use reedri_end.Tests.HttpTests.{server, rider_token}
use reedri_end.Tests.Data.{start_world, flat, quiet_gateway, centre}
use reedri_end.Tests.RideTests.{
  trip, matched_world, open_rides-IsConsistent, matched_world-IsConsistent, a_ride,
}

changes-moves_left_example :
    (changes list_queue 60 flat 5 100 a_ride start_world
      ≤ moves_left (ride 100 start_world.rides).status)
    × (moves_left (ride 100 start_world.rides).status ≤ 4)
changes-moves_left_example =
    changes-moves_left list_queue 60 flat 5 a_ride start_world 100 open_rides-IsConsistent

trip_of_request : find_trip_of 100 matched_world.rides ≡ some trip
unfolding find_first
trip_of_request = refl

matched-completes_example :
    ride 100
      (perform_all list_queue 60 flat 5
        (starts_trip 500 2 ∷ completes_trip 500 2 ∷ [])
        matched_world).rides
    ≡ in_phase RideRequestStatus.completed (some (deal_of trip))
matched-completes_example =
    matched-completes list_queue 60 flat 5 100 trip matched_world matched_world-IsConsistent
      trip_of_request refl

-- An acceptance, an attempt of the rider to start the trip, and a cancellation.
abbrev an_evening : List Happening
an_evening =
    sends 1 (ride_offer_accept 200)
    ∷ passes 5000
    ∷ requests rider_token (asks_start 500)
    ∷ sends 2 (driver_location_update centre)
    ∷ requests none (asks_start 500)
    ∷ requests rider_token (asks_cancellation 100 (some "late"))
    ∷ disconnects 2 false
    ∷ []

happen_all-Runs_example :
    let v = (happen_all server an_evening (quiet_gateway, start_world)).1 in
    IsConsistent v.rides × ((k : Uuid) → Runs (ride k start_world.rides) (ride k v.rides))
happen_all-Runs_example =
    happen_all-Runs server an_evening quiet_gateway start_world open_rides-IsConsistent

open_rides-HasFares : HasFares start_world.rides
open_rides-HasFares = record {
  suggested = (omega arith, tt);
  offered = (omega arith, (omega arith, tt));
  agreed = tt;
}

happen_all-HasFares_example :
    HasFares (happen_all server an_evening (quiet_gateway, start_world)).1.rides
happen_all-HasFares_example =
    happen_all-HasFares server an_evening quiet_gateway start_world open_rides-HasFares
