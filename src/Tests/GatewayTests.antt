-- ===== src/Tests/GatewayTests.antt =====
-- The gateway: the properties at concrete inputs.
use text.Mathlib.Text.{◌==◌ as str_eq}
use reedri_end.Base.{
  ◌⊎◌, true, if◌then◌else◌, ◌≡◌, refl, false, Option, none, some, List, [], ◌∷◌, ◌++◌, String, All,
  ◌==◌,
}
use reedri_end.Table.{find_first, any}
use reedri_end.Schema.{Uuid, north_east}
use reedri_end.Queue.{list_queue}
use reedri_end.Cache.{get, set, get_or_set}
use reedri_end.Drivers.{find_identity_by_user_id, update_profile, update_location}
use reedri_end.Events.{
  DomainEvent, offer_accepted, trip_completed, ride_request_cancelled, driver_location_updated,
  driver_online_status_changed,
}
use reedri_end.Gateway.{
  Sent, message, trip_driver_location, share_location, handle_disconnect, handle, handle_all,
}
use reedri_end.Gateway.Tracking.{place, share_location-follows, handle_disconnect-silences}
use reedri_end.Gateway.Sockets.{
  Handshake, Hub, SocketEvent, opens, closes, same_socket, WasLetIn, run_sockets,
  run_sockets-WasLetIn,
}
use reedri_end.Tests.Data.{
  start_world, far_apart, request, offer, driver, centre, done_trip, quiet_gateway,
}

abbrev accepted_event : DomainEvent
accepted_event = offer_accepted request done_trip offer []

abbrev cancelled_event : DomainEvent
cancelled_event = ride_request_cancelled request []

share_location-follows_example :
    let riding =
      handle_all far_apart (cancelled_event ∷ []) (handle far_apart accepted_event quiet_gateway) in
    let arrived = handle_all far_apart [] (handle far_apart (trip_completed done_trip) riding) in
    ((share_location 2 centre riding start_world).0.sent
      ≡ riding.sent ++ message (trip_driver_location 2 centre) 1 ∷ [])
    × ((share_location 2 centre arrived start_world).0.sent ≡ arrived.sent)
unfolding update_location update_profile find_identity_by_user_id get_or_set get set find_first
share_location-follows_example =
    share_location-follows far_apart request done_trip done_trip offer [] (cancelled_event ∷ []) []
      centre (record driver { location_updated_at = some 1000 }) quiet_gateway start_world
      (refl, tt) tt refl refl

handle_disconnect-silences_example :
    let h = (handle_disconnect list_queue 60 1 false quiet_gateway start_world).0 in
    ((ms : List Sent) × ((handle far_apart
          (driver_location_updated 2 (north_east 10) (north_east 10))
          h).sent
        ≡ [] ++ ms)
      × All (λ (m : Sent). (m.user_id == 1) ≡ false) ms)
    × ((ms : List Sent) × ((handle far_apart
            (driver_online_status_changed 2 false (some (north_east 10)) (some (north_east 10)))
            h).sent
          ≡ [] ++ ms)
        × All (λ (m : Sent). (m.user_id == 1) ≡ false) ms)
    × ((share_location 2 (place (north_east 10) (north_east 10)) h start_world).0.sent
        ≡ (share_location 2
            (place (north_east 10) (north_east 10))
            quiet_gateway
            start_world).0.sent)
handle_disconnect-silences_example =
    handle_disconnect-silences far_apart list_queue 60 1 2 false false (north_east 10)
      (north_east 10) quiet_gateway start_world start_world

-- A verification that knows two tokens.
abbrev verify : String → Option Uuid
verify t = if str_eq t "good" then some 2 else if str_eq t "fine" then some 1 else none

abbrev hello : String → Handshake
hello token = record { auth_token = some token; authorization = none }

abbrev arrivals : List SocketEvent
arrivals = opens 1 (hello "good") ∷ opens 2 (hello "bad") ∷ opens 3 (hello "fine") ∷ closes 1 ∷ []

abbrev empty_hub : Hub
empty_hub = record { sockets = []; gateway = quiet_gateway; world = start_world }

run_sockets-WasLetIn_example :
    All
      (λ s. WasLetIn verify arrivals s ⊎ (any (same_socket s) [] ≡ true))
      (run_sockets verify list_queue 60 arrivals empty_hub).sockets
run_sockets-WasLetIn_example = run_sockets-WasLetIn verify list_queue 60 arrivals empty_hub
