-- ===== src/Schema/Ride.antt =====
-- The tables of rides (prisma/schema.prisma).
use reedri_end.Base.{ℕ, Option, String}
use reedri_end.Schema.Status.{Uuid, Time, Fare, Degrees, RideRequestStatus, OfferStatus, TripStatus}

pub record RideRequest : Type 0 where
  pub id : Uuid
  pub rider_id : Uuid
  pub pickup_lat : Degrees
  pub pickup_lng : Degrees
  pub dropoff_lat : Degrees
  pub dropoff_lng : Degrees
  pub suggested_fare : Fare
  pub status : RideRequestStatus
  pub cancel_reason : Option String
  pub cancelled_at : Option Time
  pub created_at : Time

pub record RideOffer : Type 0 where
  pub id : Uuid
  pub ride_request_id : Uuid
  pub driver_id : Uuid
  pub offered_fare : Fare
  pub status : OfferStatus
  pub created_at : Time

pub record Trip : Type 0 where
  pub id : Uuid
  pub ride_request_id : Uuid
  pub driver_id : Uuid
  pub rider_id : Uuid
  pub agreed_fare : Fare
  pub status : TripStatus
  pub started_at : Option Time
  pub ended_at : Option Time
  pub cancel_reason : Option String
  pub created_at : Time

pub record Rating : Type 0 where
  pub id : Uuid
  pub trip_id : Uuid
  pub from_user_id : Uuid
  pub to_user_id : Uuid
  pub score : ℕ
  pub comment : Option String
  pub created_at : Time
