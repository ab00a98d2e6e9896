-- ===== src/Gateway.antt =====
-- The WebSocket gateway (src/realtime/realtime.gateway.ts): its own state, its handlers of messages
-- and of domain events, and what it sends. Whether a user still has a socket open elsewhere is an
-- argument. The handshake of a connection is in Sockets, and which messages are accepted in
-- Messages.
pub mod Tracking
pub mod Sockets
pub mod Messages
use reedri_end.Base.{
  ℕ, ◌*◌, Bool, true, false, Option, none, some, List, [], ◌∷◌, ◌++◌, map, String, ◌==◌, leb,
  if◌then◌else◌, or_default, not,
}
use reedri_end.Table.{update_many, delete_many, any}
use reedri_end.Schema.{Uuid, Time, Fare, Degrees, RideRequest, RideOffer, Trip}
use reedri_end.Events.{
  DomainEvent, ride_request_created, offer_submitted, offer_accepted, trip_started, trip_completed,
  ride_request_cancelled, offer_expired, driver_location_updated, driver_online_status_changed,
}
use reedri_end.World.{World, Failure, Result, ok, err, M, after}
use reedri_end.Queue.{JobQueue}
use reedri_end.Matching.{Point}
use reedri_end.Offers.{submit_offer, accept_offer}
use reedri_end.Drivers.{update_location, go_offline}
use reedri_end.RateLimiter.{Hits, consume, clear}

-- A rider's viewport.
pub record Subscription : Type 0 where
  pub rider_id : Uuid
  pub at : Point
  pub radius_meters : ℕ

-- A message to a client.
pub data ClientEvent : Type 0 where
  error_text : String → ClientEvent
  error_of : Failure → ClientEvent
  ride_request_new : (id : Uuid) → (pickup dropoff : Point) → (suggested_fare : Fare) → ClientEvent
  ride_offer_new : RideOffer → ClientEvent
  ride_matched : RideRequest → Trip → ClientEvent
  ride_offer_expired : (ride_request_id offer_id : Uuid) → ClientEvent
  trip_started_now trip_completed_now : Trip → ClientEvent
  request_cancelled : (ride_request_id : Uuid) → ClientEvent
  trip_driver_location : (driver_id : Uuid) → Point → ClientEvent
  driver_location : (driver_id : Uuid) → Point → ClientEvent
  driver_offline : (driver_id : Uuid) → ClientEvent

-- A message with the user whose room, or whose socket, it goes to.
pub record Sent : Type 0 where
  pub user_id : Uuid
  pub event : ClientEvent

pub record Gateway : Type 0 where
  pub active_trip_rider_by_driver : Uuid → Option Uuid
  pub rider_track_subscriptions : List Subscription
  pub offer_submit_limiter : Hits
  pub offer_accept_limiter : Hits
  pub location_update_limiter : Hits
  pub track_subscribe_limiter : Hits
  pub sent : List Sent

abbrev pub message : ClientEvent → Uuid → Sent
message e user_id = record { user_id = user_id; event = e }

-- To some users, in order.
abbrev pub send : List Uuid → ClientEvent → Gateway → Gateway
send users e g = record g { sent = g.sent ++ map (message e) users }

abbrev pub set_rider : Uuid → Option Uuid → Gateway → Gateway
set_rider driver_id rider g = record g {
  active_trip_rider_by_driver =
      λ d. if d == driver_id then rider else g.active_trip_rider_by_driver d;
}

-- `Map.set`, which keeps the place of a key that is there.
unfoldable pub subscribe : Subscription → List Subscription → List Subscription
subscribe s subs =
    if any (λ (x : Subscription). x.rider_id == s.rider_id) subs
    then update_many (λ (x : Subscription). x.rider_id == s.rider_id) (λ x. s) subs
    else subs ++ s ∷ []

abbrev pub unsubscribe : Uuid → List Subscription → List Subscription
unsubscribe user_id subs = delete_many (λ (x : Subscription). x.rider_id == user_id) subs

-- `onTrackUnsubscribe`
abbrev pub on_track_unsubscribe : Uuid → Gateway → Gateway
on_track_unsubscribe user_id g = record g {
  rider_track_subscriptions = unsubscribe user_id g.rider_track_subscriptions;
}

-- The service's answer to a message, or its failure told to the sender.
abbrev pub answer {ℓ} :
    {A : Type ℓ} → Uuid → Result A × World → Gateway → Option A × Gateway × World
answer user_id (ok a, w) g = (some a, g, w)
answer user_id (err e, w) g = (none, send (user_id ∷ []) (error_of e) g, w)

-- `onLocationUpdate`, once the message has passed the limiter.
unfoldable pub share_location : Uuid → Point → Gateway → World → Gateway × World
share_location user_id at g w =
    let (r, w') = update_location user_id at.lat at.lng w in
    elim r [
      | err e ↦ (send (user_id ∷ []) (error_of e) g, w')
      | ok profile ↦ elim (g.active_trip_rider_by_driver user_id) [
        | none ↦ (g, w')
        | some rider_id ↦ (send (rider_id ∷ []) (trip_driver_location user_id at) g, w')
      ]
    ]

unfoldable pub on_location_update : Uuid → Point → Time → Gateway → World → Gateway × World
on_location_update user_id at now g w =
    let (passed, hits) = consume 3 1000 user_id now g.location_update_limiter in
    let g' : Gateway = record g { location_update_limiter = hits } in
    if passed then share_location user_id at g' w else (g', w)

-- `onTrackSubscribe`
unfoldable pub on_track_subscribe : ℕ → Uuid → Point → Option ℕ → Time → Gateway → Gateway
on_track_subscribe ride_match_radius_km user_id at radius_km now g =
    let (passed, hits) = consume 5 5000 user_id now g.track_subscribe_limiter in
    let g' : Gateway = record g { track_subscribe_limiter = hits } in
    if passed
    then record g' {
      rider_track_subscriptions =
          subscribe
            (record {
              rider_id = user_id;
              at = at;
              radius_meters = or_default radius_km ride_match_radius_km * 1000;
            })
            g.rider_track_subscriptions;
    }
    else send (user_id ∷ []) (error_text "Too many requests — slow down") g'

module _ (queue : JobQueue) (offer_expiry_seconds : ℕ) where
  -- `onOfferSubmit`
  unfoldable pub on_offer_submit :
      Uuid → Uuid → Fare → Time → Gateway → World → Option RideOffer × Gateway × World
  on_offer_submit user_id ride_request_id offered_fare now g w =
      let (passed, hits) = consume 5 5000 user_id now g.offer_submit_limiter in
      let g' : Gateway = record g { offer_submit_limiter = hits } in
      if passed
      then answer user_id
          (submit_offer queue offer_expiry_seconds user_id ride_request_id offered_fare w) g'
      else (none, send (user_id ∷ []) (error_text "Too many offers submitted — slow down") g', w)

  -- `onOfferAccept`
  unfoldable pub on_offer_accept :
      Uuid → Uuid → Time → Gateway → World → Option Trip × Gateway × World
  on_offer_accept user_id offer_id now g w =
      let (passed, hits) = consume 5 5000 user_id now g.offer_accept_limiter in
      let g' : Gateway = record g { offer_accept_limiter = hits } in
      if passed
      then answer user_id (accept_offer queue offer_expiry_seconds user_id offer_id w) g'
      else (none, send (user_id ∷ []) (error_text "Too many requests — slow down") g', w)

  -- `handleDisconnect` of a socket that was authenticated.
  unfoldable pub handle_disconnect :
      Uuid → (still_connected_elsewhere : Bool) → Gateway → World → Gateway × World
  handle_disconnect user_id still_connected_elsewhere g w = (
    record g {
      offer_submit_limiter = clear user_id g.offer_submit_limiter;
      offer_accept_limiter = clear user_id g.offer_accept_limiter;
      location_update_limiter = clear user_id g.location_update_limiter;
      track_subscribe_limiter = clear user_id g.track_subscribe_limiter;
      rider_track_subscriptions = unsubscribe user_id g.rider_track_subscriptions;
    },
    if still_connected_elsewhere
        then w
        else after (go_offline queue offer_expiry_seconds user_id) w,
  )

module _ (distance : Point → Point → ℕ) where
  -- The riders whose viewport has a point.
  unfoldable pub watchers : Point → List Subscription → List Uuid
  watchers at [] = []
  watchers at (s ∷ subs) =
      let rest = watchers at subs in
      if leb (distance s.at at) s.radius_meters then s.rider_id ∷ rest else rest

  -- `handleDriverOnlineStatusChanged`
  abbrev pub told_offline : Uuid → Bool → Option Degrees → Option Degrees → Gateway → Gateway
  told_offline driver_user_id false (some lat) (some lng) g =
      send (watchers (record { lat = lat; lng = lng }) g.rider_track_subscriptions)
        (driver_offline driver_user_id) g
  told_offline driver_user_id _ _ _ g = g

  -- The handlers of the domain events.
  unfoldable pub handle : DomainEvent → Gateway → Gateway
  handle (driver_location_updated driver_user_id lat lng) g =
      let at : Point = record { lat = lat; lng = lng } in
      send (watchers at g.rider_track_subscriptions) (driver_location driver_user_id at) g
  handle (driver_online_status_changed driver_user_id is_online lat lng) g =
      told_offline driver_user_id is_online lat lng g
  handle (ride_request_created r nearby_driver_user_ids) g =
      send nearby_driver_user_ids
        (ride_request_new r.id (record { lat = r.pickup_lat; lng = r.pickup_lng })
          (record { lat = r.dropoff_lat; lng = r.dropoff_lng }) r.suggested_fare)
        g
  handle (offer_submitted offer rider_id) g = send (rider_id ∷ []) (ride_offer_new offer) g
  handle (offer_accepted r trip accepted rejected) g =
      send (trip.rider_id ∷ trip.driver_id ∷ []) (ride_matched r trip)
        (set_rider trip.driver_id (some trip.rider_id) g)
  handle (offer_expired ride_request_id offer_id driver_user_id) g =
      send (driver_user_id ∷ []) (ride_offer_expired ride_request_id offer_id) g
  handle (trip_started trip) g =
      send (trip.rider_id ∷ trip.driver_id ∷ []) (trip_started_now trip) g
  handle (trip_completed trip) g =
      send (trip.rider_id ∷ trip.driver_id ∷ []) (trip_completed_now trip)
        (set_rider trip.driver_id none g)
  handle (ride_request_cancelled r affected_driver_user_ids) g =
      send (r.rider_id ∷ affected_driver_user_ids) (request_cancelled r.id) g

  unfoldable pub handle_all : List DomainEvent → Gateway → Gateway
  handle_all [] g = g
  handle_all (e ∷ es) g = handle_all es (handle e g)
