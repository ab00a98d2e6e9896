-- ===== src/Http/Api/Happening.antt =====
-- Everything that happens to the program: requests (the controllers under src/), messages over
-- sockets (src/realtime/realtime.gateway.ts), the jobs of the queue
-- (src/offers/offer-expiry.processor.ts) and the nightly clean-up
-- (src/maintenance/token-cleanup.service.ts).
use reedri_end.Base.{
  true, Bool-cases, Bool, List, [], ◌∷◌, Option, arith, inl, inr, ◌⊎◌, ◌≡◌, sym, subst,
}
use reedri_end.Schema.{Uuid, Time}
use reedri_end.World.{Rides, World, OfferExpiryJob, after}
use reedri_end.Offers.{submit_offer, accept_offer, process}
use reedri_end.Maintenance.{remove_expired_refresh_tokens}
use reedri_end.Gateway.{
  Gateway, on_offer_submit, on_offer_accept, on_location_update, share_location, handle_disconnect,
}
use reedri_end.Http.{Claims}
use reedri_end.Gateway.Messages.{
  Message, ride_offer_submit, ride_offer_accept, driver_location_update, rider_track_subscribe,
  rider_track_unsubscribe, accepts_message, dispatch, on_message,
}
use reedri_end.Http.Api.{Server, Request, serve}
use reedri_end.Http.Api.Calm.{update_location-IsCalm, go_offline-IsCalm}
use reedri_end.Http.Api.Effects.{Covers, kept}
use reedri_end.Http.Api.Served.{serve-IsStep}

-- Something that happens to the program. The time of the world is the clock's.
pub data Happening : Type 0 where
  requests : Option Claims → Request → Happening
  sends : (user_id : Uuid) → Message → Happening
  disconnects : (user_id : Uuid) → (still_connected_elsewhere : Bool) → Happening
  runs_job : OfferExpiryJob → Happening
  cleans_up : Happening
  passes : Time → Happening

module _ (s : Server) where
  -- The gateway and the state after it.
  unfoldable pub happen : Happening → Gateway × World → Gateway × World
  happen (requests token r) (g, w) = (g, after (serve s token r) w)
  happen (sends u m) (g, w) =
      on_message s.queue s.offer_expiry_seconds s.ride_match_radius_km u m g w
  happen (disconnects u elsewhere) (g, w) =
      handle_disconnect s.queue s.offer_expiry_seconds u elsewhere g w
  happen (runs_job j) (g, w) = (g, after (process j) w)
  happen cleans_up (g, w) = (g, after remove_expired_refresh_tokens w)
  happen (passes t) (g, w) = (g, record w { now = t })

  unfoldable pub happen_all : List Happening → Gateway × World → Gateway × World
  happen_all [] state = state
  happen_all (h ∷ hs) state = happen_all hs (happen h state)

  module _ (R : Rides → Rides → Type 0) (covers : Covers R) where
    -- A message that the limiter lets through or not.
    limited : (x y z : Rides) → R x z → (y ≡ x) ⊎ (y ≡ z) → R x y
    limited x y z h (inl same) = kept R covers.stays x y same
    limited x y z h (inr done) = subst (R x) (sym done) h

    dispatched :
        (u : Uuid) (m : Message) (g : Gateway) (w : World)
        → accepts_message m ≡ true
        → R w.rides (dispatch s.queue s.offer_expiry_seconds s.ride_match_radius_km u m g w).1.rides
    unfolding dispatch on_offer_submit on_offer_accept on_location_update share_location
        accepts_message
    dispatched u (ride_offer_submit k fare) g w good =
        limited w.rides
          (dispatch s.queue s.offer_expiry_seconds s.ride_match_radius_km u
            (ride_offer_submit k fare) g w).1.rides
          (after (submit_offer s.queue s.offer_expiry_seconds u k fare) w).rides
          (covers.submits s.queue s.offer_expiry_seconds u k fare good w) (ground arith)
    dispatched u (ride_offer_accept i) g w good =
        limited w.rides
          (dispatch s.queue s.offer_expiry_seconds s.ride_match_radius_km u (ride_offer_accept i) g
            w).1.rides
          (after (accept_offer s.queue s.offer_expiry_seconds u i) w).rides
          (covers.accepts s.queue s.offer_expiry_seconds u i w) (ground arith)
    dispatched u (driver_location_update at) g w good =
        kept R covers.stays w.rides
          (dispatch s.queue s.offer_expiry_seconds s.ride_match_radius_km u
            (driver_location_update at) g w).1.rides
          (ground (arith, update_location-IsCalm u at.lat at.lng w))
    dispatched u (rider_track_subscribe at radius_km) g w good = covers.stays w.rides
    dispatched u rider_track_unsubscribe g w good = covers.stays w.rides

    pub covered : (h : Happening) (g : Gateway) (w : World) → R w.rides (happen h (g, w)).1.rides
    unfolding happen on_message handle_disconnect remove_expired_refresh_tokens
    covered (requests token r) g w = serve-IsStep R covers s token r w
    covered (sends u m) g w = elim (Bool-cases (accepts_message m)) [
      | inl good ↦
          limited w.rides (happen (sends u m) (g, w)).1.rides
            (dispatch s.queue s.offer_expiry_seconds s.ride_match_radius_km u m g w).1.rides
            (dispatched u m g w good) (inr (ground (arith, good)))
      | inr bad ↦
          kept R covers.stays w.rides (happen (sends u m) (g, w)).1.rides (ground (arith, bad))
    ]
    covered (disconnects u elsewhere) g w =
        kept R covers.stays w.rides (happen (disconnects u elsewhere) (g, w)).1.rides
          (ground (arith, go_offline-IsCalm s.queue s.offer_expiry_seconds u w))
    covered (runs_job j) g w = covers.expires j w
    covered cleans_up g w = covers.stays w.rides
    covered (passes t) g w = covers.stays w.rides
