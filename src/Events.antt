-- ===== src/Events.antt =====
-- The domain events that the services emit (src/common/events/domain-events.ts).
use reedri_end.Base.{Bool, Option, List}
use reedri_end.Schema.{Uuid, Degrees, RideRequest, RideOffer, Trip}

pub data DomainEvent : Type 0 where
  ride_request_created : RideRequest → (nearby_driver_user_ids : List Uuid) → DomainEvent
  offer_submitted : RideOffer → (rider_id : Uuid) → DomainEvent
  offer_accepted :
      RideRequest
      → Trip
      → (accepted : RideOffer) → (rejected_driver_user_ids : List Uuid) → DomainEvent
  trip_started : Trip → DomainEvent
  trip_completed : Trip → DomainEvent
  ride_request_cancelled : RideRequest → (affected_driver_user_ids : List Uuid) → DomainEvent
  offer_expired : (ride_request_id offer_id driver_user_id : Uuid) → DomainEvent
  driver_location_updated : (driver_user_id : Uuid) → (lat lng : Degrees) → DomainEvent
  driver_online_status_changed :
      (driver_user_id : Uuid) → (is_online : Bool) → (lat lng : Option Degrees) → DomainEvent
