-- ===== src/Gateway/Messages.antt =====
-- The messages of clients and what their decorators accept (src/realtime/dto/ws-payloads.ts and the
-- `@SubscribeMessage` handlers of src/realtime/realtime.gateway.ts). The `ValidationPipe` sees a
-- message before its handler does, so before the limiter; what is told of a refused one is left to
-- the library. A radius is in whole kilometres.
use reedri_end.Base.{ℕ, ◌*◌, Bool, true, Option, map_option, if◌then◌else◌}
use reedri_end.Schema.{Uuid, Fare}
use reedri_end.World.{World}
use reedri_end.Queue.{JobQueue}
use reedri_end.Matching.{Point}
use reedri_end.Gateway.{
  Gateway, on_offer_submit, on_offer_accept, on_location_update, on_track_subscribe,
  on_track_unsubscribe,
}
use reedri_end.Http.Forms.{is_positive, accepts_location, accepts_map_query}

pub data Message : Type 0 where
  ride_offer_submit : (ride_request_id : Uuid) → (offered_fare : Fare) → Message
  ride_offer_accept : (offer_id : Uuid) → Message
  driver_location_update : Point → Message
  rider_track_subscribe : Point → (radius_km : Option ℕ) → Message
  rider_track_unsubscribe : Message

-- A message without a body has no decorators.
unfoldable pub accepts_message : Message → Bool
accepts_message (ride_offer_submit ride_request_id offered_fare) = is_positive offered_fare
accepts_message (ride_offer_accept offer_id) = true
accepts_message (driver_location_update at) = accepts_location at.lat at.lng
accepts_message (rider_track_subscribe at radius_km) =
    accepts_map_query at.lat at.lng (map_option (λ r. r * 1000) radius_km)
accepts_message rider_track_unsubscribe = true

module _ (queue : JobQueue) (offer_expiry_seconds ride_match_radius_km : ℕ) where
  -- The handler of a message that was accepted.
  unfoldable pub dispatch : Uuid → Message → Gateway → World → Gateway × World
  dispatch user_id (ride_offer_submit k fare) g w =
      let (offer, g', w') = on_offer_submit queue offer_expiry_seconds user_id k fare w.now g w in
      (g', w')
  dispatch user_id (ride_offer_accept i) g w =
      let (trip, g', w') = on_offer_accept queue offer_expiry_seconds user_id i w.now g w in
      (g', w')
  dispatch user_id (driver_location_update at) g w = on_location_update user_id at w.now g w
  dispatch user_id (rider_track_subscribe at radius_km) g w =
      (on_track_subscribe ride_match_radius_km user_id at radius_km w.now g, w)
  dispatch user_id rider_track_unsubscribe g w = (on_track_unsubscribe user_id g, w)

  unfoldable pub on_message : Uuid → Message → Gateway → World → Gateway × World
  on_message user_id m g w =
      let handled = dispatch user_id m g w in if accepts_message m then handled else (g, w)
