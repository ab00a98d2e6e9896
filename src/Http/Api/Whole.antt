-- ===== src/Http/Api/Whole.antt =====
-- What holds of the whole program, whatever happens to it (the controllers under src/,
-- src/realtime/realtime.gateway.ts, src/offers/offer-expiry.processor.ts and
-- src/maintenance/token-cleanup.service.ts).
use reedri_end.Base.{◌≤◌, ◌≡◌, refl, List, [], ◌∷◌, inl, arith, true}
use reedri_end.Schema.{Uuid}
use reedri_end.World.{Rides, World}
use reedri_end.Gateway.{Gateway}
use reedri_end.Http.Forms.{accepts_ride_request}
use reedri_end.Http.Api.{Server}
use reedri_end.Http.Api.Effects.{Covers}
use reedri_end.Http.Api.Happening.{Happening, happen, happen_all, covered}
use reedri_end.Rides.{IsConsistent}
use reedri_end.Rides.Write.{Step}
use reedri_end.Rides.Offering.{accept_offer-Step, submit_offer-Step, process-Step}
use reedri_end.Rides.Running.{create_request-Step, cancel-Step, start-Step, complete-Step}
use reedri_end.Rides.Invariant.{Step-IsConsistent}
use reedri_end.Rides.Machine.{Ride, ride, Moves}
use reedri_end.Rides.Machine.Carried.{Step-Moves}
use reedri_end.Rides.Fares.{HasFares}
use reedri_end.Rides.Fares.Kept.{
  create_request-HasFares, cancel_method-HasFares, start-HasFares, complete-HasFares,
  process-HasFares, submit_offer-HasFares, accept_offer-HasFares,
}
use reedri_end.RideRequests.{CreateRideRequest}

-- The moves of a ride, one after the other.
pub data Runs : Ride → Ride → Type 0 where
  over : (a : Ride) → Runs a a
  then : {a b c : Ride} → Moves a b → Runs b c → Runs a c

Step-Covers : Covers Step
Step-Covers = record {
  stays = λ x. inl refl;
  creates = λ geography radius u dto good w. create_request-Step geography radius u dto w;
  cancels = cancel-Step;
  starts = start-Step;
  completes = complete-Step;
  submits = λ queue seconds u k fare good w. submit_offer-Step queue seconds u k fare w;
  accepts = accept_offer-Step;
  expires = process-Step;
}

accepts_ride_request-suggested_fare :
    (dto : CreateRideRequest) → accepts_ride_request dto ≡ true → 1 ≤ dto.suggested_fare
unfolding accepts_ride_request
accepts_ride_request-suggested_fare dto e = ground (arith, e)

abbrev KeepsFares : Rides → Rides → Type 0
KeepsFares s t = HasFares s → HasFares t

fares-Covers : Covers KeepsFares
fares-Covers = record {
  stays = λ x h. h;
  creates = λ geography radius u dto good w h.
      create_request-HasFares w h geography radius u dto
        (accepts_ride_request-suggested_fare dto good);
  cancels = λ k u reason w h. cancel_method-HasFares w h k u reason;
  starts = λ i u w h. start-HasFares w h i u;
  completes = λ i u w h. complete-HasFares w h i u;
  submits = λ queue seconds u k fare good w h.
      submit_offer-HasFares w h queue seconds u k fare (ground (arith, good));
  accepts = λ queue seconds u i w h. accept_offer-HasFares w h queue seconds u i;
  expires = λ j w h. process-HasFares w h j;
}

module _ (s : Server) where
  -- Whatever happens, in whatever order, on consistent tables, the tables of rides stay consistent
  -- and every ride has gone through moves of the abstract machine only: requests of any route, with
  -- a token or without one, let through or refused, messages of sockets, disconnections, jobs,
  -- clean-ups, and time that passes.
  pub happen_all-Runs :
      (hs : List Happening) (g : Gateway) (w : World)
      → IsConsistent w.rides
      → let v = (happen_all s hs (g, w)).1 in
        IsConsistent v.rides × ((k : Uuid) → Runs (ride k w.rides) (ride k v.rides))
  unfolding happen_all
  happen_all-Runs [] g w c = (c, λ k. over (ride k w.rides))
  happen_all-Runs (h ∷ hs) g w c =
      let step : Step w.rides (happen s h (g, w)).1.rides = covered s Step Step-Covers h g w in
      let (consistent, runs) =
        happen_all-Runs hs (happen s h (g, w)).0 (happen s h (g, w)).1 (Step-IsConsistent step c) in
      (consistent, λ k. then (Step-Moves step c k) (runs k))

  -- Whatever happens, in whatever order, every fare in the tables of rides stays positive, be it
  -- suggested, offered or agreed on.
  pub happen_all-HasFares :
      (hs : List Happening) (g : Gateway) (w : World)
      → HasFares w.rides
      → HasFares (happen_all s hs (g, w)).1.rides
  unfolding happen_all
  happen_all-HasFares [] g w f = f
  happen_all-HasFares (h ∷ hs) g w f =
      happen_all-HasFares hs (happen s h (g, w)).0 (happen s h (g, w)).1
        (covered s KeepsFares fares-Covers h g w f)
