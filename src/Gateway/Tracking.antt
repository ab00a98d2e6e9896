-- ===== src/Gateway/Tracking.antt =====
-- Who is told where a driver is.
use reedri_end.Base.{
  ℕ, ◌≡◌, refl, Bool, true, false, none, some, List, [], ◌∷◌, ◌++◌, map, arith, ◌==◌, leb,
  Bool-cases, inl, inr, ==_refl, All, ◌∙◌, subst, ap, sym,
}
use reedri_end.Table.{delete_many}
use reedri_end.Schema.{Uuid, Degrees, DriverProfile, RideRequest, RideOffer, Trip}
use reedri_end.Events.{
  DomainEvent, ride_request_created, offer_submitted, offer_accepted, trip_started, trip_completed,
  ride_request_cancelled, offer_expired, driver_location_updated, driver_online_status_changed,
}
use reedri_end.World.{World, ok}
use reedri_end.Queue.{JobQueue}
use reedri_end.Matching.{Point}
use reedri_end.Drivers.{update_location}
use reedri_end.Gateway.{
  Gateway, Subscription, Sent, ClientEvent, driver_offline, message, trip_driver_location,
  driver_location, unsubscribe, share_location, handle_disconnect, watchers, handle, handle_all,
}

-- An acceptance of an offer of a driver, or the completion of a trip of the driver.
abbrev pub turns : Uuid → DomainEvent → Bool
turns d (offer_accepted r trip accepted rejected) = d == trip.driver_id
turns d (trip_completed trip) = d == trip.driver_id
turns d _ = false

abbrev pub IsQuiet : Uuid → List DomainEvent → Type 0
IsQuiet d es = All (λ e. turns d e ≡ false) es

abbrev pub place : Degrees → Degrees → Point
place lat lng = record { lat = lat; lng = lng }

append_nil : (ms : List Sent) → ms ++ [] ≡ ms
append_nil [] = refl
append_nil (m ∷ ms) = ap (λ ns. m ∷ ns) (append_nil ms)

module _ (distance : Point → Point → ℕ) where
  rider_kept :
      (d : Uuid) (e : DomainEvent) (g : Gateway)
      → turns d e ≡ false
      → (handle distance e g).active_trip_rider_by_driver d ≡ g.active_trip_rider_by_driver d
  unfolding handle
  rider_kept d (driver_location_updated u lat lng) g h = refl
  rider_kept d (driver_online_status_changed u true lat lng) g h = refl
  rider_kept d (driver_online_status_changed u false none lng) g h = refl
  rider_kept d (driver_online_status_changed u false (some lat) none) g h = refl
  rider_kept d (driver_online_status_changed u false (some lat) (some lng)) g h = refl
  rider_kept d (ride_request_created r us) g h = refl
  rider_kept d (offer_submitted o u) g h = refl
  rider_kept d (offer_accepted r trip o us) g h = rw h refl
  rider_kept d (offer_expired i j k) g h = refl
  rider_kept d (trip_started trip) g h = refl
  rider_kept d (trip_completed trip) g h = rw h refl
  rider_kept d (ride_request_cancelled r us) g h = refl

  rider_kept_all :
      (d : Uuid) (es : List DomainEvent) (g : Gateway)
      → IsQuiet d es
      → (handle_all distance es g).active_trip_rider_by_driver d ≡ g.active_trip_rider_by_driver d
  unfolding handle_all
  rider_kept_all d [] g h = refl
  rider_kept_all d (e ∷ es) g h =
      rider_kept_all d es (handle distance e g) h.1 ∙ rider_kept d e g h.0

  accepted_rider :
      (r : RideRequest) (trip : Trip) (o : RideOffer) (us : List Uuid) (g : Gateway)
      → (handle distance (offer_accepted r trip o us) g).active_trip_rider_by_driver trip.driver_id
        ≡ some trip.rider_id
  unfolding handle
  accepted_rider r trip o us g = ground (arith, ==_refl trip.driver_id)

  completed_rider :
      (trip : Trip) (g : Gateway)
      → (handle distance (trip_completed trip) g).active_trip_rider_by_driver trip.driver_id ≡ none
  unfolding handle
  completed_rider trip g = ground (arith, ==_refl trip.driver_id)

  -- From the acceptance of an offer on, whatever other events come in between, cancellations of ride
  -- requests among them, the handler of a location that the driver shares sends one message, to the
  -- rider of the trip; from the completion of a trip of the driver on, it sends none, until the next
  -- acceptance.
  pub share_location-follows :
      (r : RideRequest) (trip done : Trip) (o : RideOffer) (us : List Uuid)
      (es fs : List DomainEvent) (at : Point) (p : DriverProfile) (g : Gateway) (w : World)
      → IsQuiet trip.driver_id es
      → IsQuiet trip.driver_id fs
      → done.driver_id ≡ trip.driver_id
      → (update_location trip.driver_id at.lat at.lng w).0 ≡ ok p
      → let riding = handle_all distance es (handle distance (offer_accepted r trip o us) g) in
        let arrived = handle_all distance fs (handle distance (trip_completed done) riding) in
        ((share_location trip.driver_id at riding w).0.sent
          ≡ riding.sent ++ message (trip_driver_location trip.driver_id at) trip.rider_id ∷ [])
        × ((share_location trip.driver_id at arrived w).0.sent ≡ arrived.sent)
  unfolding share_location
  share_location-follows r trip done o us es fs at p g w quiet quiet_after own shared =
      let riding : Gateway =
        handle_all distance es (handle distance (offer_accepted r trip o us) g) in
      let arrived : Gateway =
        handle_all distance fs (handle distance (trip_completed done) riding) in
      let rider : riding.active_trip_rider_by_driver trip.driver_id ≡ some trip.rider_id =
        rider_kept_all trip.driver_id es (handle distance (offer_accepted r trip o us) g) quiet
        ∙ accepted_rider r trip o us g in
      let nobody : arrived.active_trip_rider_by_driver trip.driver_id ≡ none =
        rider_kept_all trip.driver_id fs (handle distance (trip_completed done) riding) quiet_after
        ∙ subst
            (λ d.
              (handle distance (trip_completed done) riding).active_trip_rider_by_driver d ≡ none)
            own (completed_rider done riding) in
      (ground (arith, shared, rider), ground (arith, shared, nobody))

  watchers-unsubscribed :
      (u : Uuid) (at : Point) (subs : List Subscription)
      → All (λ (x : Uuid). (x == u) ≡ false) (watchers distance at (unsubscribe u subs))
  unfolding watchers delete_many
  watchers-unsubscribed u at [] = tt
  watchers-unsubscribed u at (s ∷ subs) = elim (Bool-cases (s.rider_id == u)) [
    | inl own ↦ rw own (watchers-unsubscribed u at subs)
    | inr other ↦ elim (Bool-cases (leb (distance s.at at) s.radius_meters)) [
      | inl near ↦ rw (other, near) (other, watchers-unsubscribed u at subs)
      | inr far ↦ rw (other, far) (watchers-unsubscribed u at subs)
    ]
  ]

  messages_to :
      (u : Uuid) (e : ClientEvent) (us : List Uuid)
      → All (λ (x : Uuid). (x == u) ≡ false) us
      → All (λ (m : Sent). (m.user_id == u) ≡ false) (map (message e) us)
  messages_to u e [] h = tt
  messages_to u e (x ∷ us) h = (h.0, messages_to u e us h.1)

  location_silenced :
      (queue : JobQueue) (seconds : ℕ) (u d : Uuid) (elsewhere : Bool) (lat lng : Degrees)
      (g : Gateway) (w : World)
      → let h = (handle_disconnect queue seconds u elsewhere g w).0 in
        (ms : List Sent) × ((handle distance (driver_location_updated d lat lng) h).sent
          ≡ g.sent ++ ms)
        × All (λ (m : Sent). (m.user_id == u) ≡ false) ms
  unfolding handle_disconnect handle
  location_silenced queue seconds u d elsewhere lat lng g w =
      let at : Point = record { lat = lat; lng = lng } in
      let us : List Uuid = watchers distance at (unsubscribe u g.rider_track_subscriptions) in
      (
        map (message (driver_location d at)) us,
        refl,
        messages_to u (driver_location d at) us
            (watchers-unsubscribed u at g.rider_track_subscriptions),
      )

  status_silenced :
      (queue : JobQueue) (seconds : ℕ) (u d : Uuid) (elsewhere online : Bool) (lat lng : Degrees)
      (g : Gateway) (w : World)
      → let h = (handle_disconnect queue seconds u elsewhere g w).0 in
        (ms : List Sent) × ((handle distance
            (driver_online_status_changed d online (some lat) (some lng))
            h).sent
          ≡ g.sent ++ ms)
        × All (λ (m : Sent). (m.user_id == u) ≡ false) ms
  unfolding handle_disconnect handle
  status_silenced queue seconds u d elsewhere true lat lng g w = ([], sym (append_nil g.sent), tt)
  status_silenced queue seconds u d elsewhere false lat lng g w =
      let at : Point = record { lat = lat; lng = lng } in
      let us : List Uuid = watchers distance at (unsubscribe u g.rider_track_subscriptions) in
      (
        map (message (driver_offline d)) us,
        refl,
        messages_to u (driver_offline d) us
            (watchers-unsubscribed u at g.rider_track_subscriptions),
      )

  relay_kept :
      (queue : JobQueue) (seconds : ℕ) (u d : Uuid) (elsewhere : Bool) (at : Point) (g : Gateway)
      (w v : World)
      → (share_location d at (handle_disconnect queue seconds u elsewhere g w).0 v).0.sent
        ≡ (share_location d at g v).0.sent
  unfolding share_location handle_disconnect
  relay_kept queue seconds u d elsewhere at g w v = ground arith

  -- After a socket of a user has disconnected, no event of the map, be it the location of a driver or
  -- a driver who has gone offline, wherever the driver is, adds a message to a room of the user. The
  -- relay of a driver's location to the rider of a trip is another one, and goes on as before, also
  -- to the user.
  pub handle_disconnect-silences :
      (queue : JobQueue) (seconds : ℕ) (u driver_id : Uuid) (elsewhere online : Bool)
      (lat lng : Degrees) (g : Gateway) (w v : World)
      → let h = (handle_disconnect queue seconds u elsewhere g w).0 in
        ((ms : List Sent) × ((handle distance (driver_location_updated driver_id lat lng) h).sent
            ≡ g.sent ++ ms)
          × All (λ (m : Sent). (m.user_id == u) ≡ false) ms)
        × ((ms : List Sent) × ((handle distance
                (driver_online_status_changed driver_id online (some lat) (some lng))
                h).sent
              ≡ g.sent ++ ms)
            × All (λ (m : Sent). (m.user_id == u) ≡ false) ms)
        × ((share_location driver_id (place lat lng) h v).0.sent
            ≡ (share_location driver_id (place lat lng) g v).0.sent)
  handle_disconnect-silences queue seconds u driver_id elsewhere online lat lng g w v = (
    location_silenced queue seconds u driver_id elsewhere lat lng g w,
    status_silenced queue seconds u driver_id elsewhere online lat lng g w,
    relay_kept queue seconds u driver_id elsewhere (place lat lng) g w v,
  )
