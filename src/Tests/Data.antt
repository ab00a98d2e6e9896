-- ===== src/Tests/Data.antt =====
-- A small state: a rider with an open ride request and two drivers who have made offers on it.
use text.Mathlib.Text.{◌==◌ as str_eq}
use text.Mathlib.TextPositions.{eq_refl}
use reedri_end.Base.{ℕ, ◌+◌, true, none, some, [], ◌∷◌}
use reedri_end.Schema.{
  north_east, Role, ActiveProfile, RideRequestStatus, OfferStatus, TripStatus, User, DriverProfile,
  RideRequest, RideOffer, Trip,
}
use reedri_end.World.{World, Rides}
use reedri_end.Matching.{Geography, Point}
use reedri_end.Ratings.{RateTrip}
use reedri_end.Auth.{Crypto}
use reedri_end.Gateway.{Gateway}

abbrev pub rider_account : User
rider_account = record {
  id = 1;
  name = "Ada";
  phone = "+2348000000001";
  password = "hash-1";
  role = Role.user;
  active_profile = ActiveProfile.rider;
  rating = record { sum = 5; number = 1 };
}

abbrev pub driver_account : User
driver_account = record rider_account {
  id = 2;
  name = "Bola";
  phone = "+2348000000002";
  active_profile = ActiveProfile.driver;
}

abbrev pub driver : DriverProfile
driver = record {
  id = 20;
  user_id = 2;
  driver_application_id = 60;
  is_online = true;
  current_lat = some (north_east 10);
  current_lng = some (north_east 10);
  location_updated_at = none;
}

abbrev pub second_driver : DriverProfile
second_driver = record driver { id = 21; user_id = 3; driver_application_id = 61 }

abbrev pub request : RideRequest
request = record {
  id = 100;
  rider_id = 1;
  pickup_lat = north_east 10;
  pickup_lng = north_east 10;
  dropoff_lat = north_east 12;
  dropoff_lng = north_east 12;
  suggested_fare = 1500;
  status = RideRequestStatus.pending;
  cancel_reason = none;
  cancelled_at = none;
  created_at = 0;
}

abbrev pub offer : RideOffer
offer = record {
  id = 200;
  ride_request_id = 100;
  driver_id = 20;
  offered_fare = 1800;
  status = OfferStatus.pending;
  created_at = 0;
}

abbrev pub second_offer : RideOffer
second_offer = record offer { id = 201; driver_id = 21; offered_fare = 1700 }

abbrev pub open_rides : Rides
open_rides = record {
  ride_requests = request ∷ [];
  ride_offers = offer ∷ second_offer ∷ [];
  trips = [];
}

abbrev pub no_rides : Rides
no_rides = record { ride_requests = []; ride_offers = []; trips = [] }

abbrev pub start_world : World
start_world = record {
  users = rider_account ∷ driver_account ∷ [];
  refresh_tokens = [];
  password_reset_tokens = [];
  driver_applications = [];
  driver_profiles = driver ∷ second_driver ∷ [];
  driver_documents = [];
  rides = open_rides;
  ratings = [];
  jobs = [];
  cache = [];
  files = [];
  outbox = [];
  events = [];
  now = 1000;
  random = λ n. n + 500;
}

abbrev pub far_apart : Point → Point → ℕ
far_apart a b = 0

abbrev pub flat : Geography
flat = record { distance = far_apart; nearness = far_apart }

-- Cryptography that hides nothing.
abbrev pub plain_crypto : Crypto
plain_crypto = record {
  bcrypt_hash = λ p salt. p;
  bcrypt_compare = λ p q. str_eq p q;
  sha256_hex = λ t. t;
  sign = λ i r n ttl. "access";
  hex_of_bytes = λ n. "fresh";
  random_int = λ low high n. low;
  to_text = λ n. "100000";
  compare_hash = λ p salt. eq_refl p;
}

abbrev pub centre : Point
centre = record { lat = north_east 10; lng = north_east 10 }

abbrev pub done_trip : Trip
done_trip = record {
  id = 500;
  ride_request_id = 100;
  driver_id = 2;
  rider_id = 1;
  agreed_fare = 1800;
  status = TripStatus.completed;
  started_at = some 10;
  ended_at = some 20;
  cancel_reason = none;
  created_at = 5;
}

abbrev pub after_trip : World
after_trip = record start_world { rides = record no_rides { trips = done_trip ∷ [] } }

abbrev pub four : RateTrip
four = record { score = 4; comment = none }

abbrev pub quiet_gateway : Gateway
quiet_gateway = record {
  active_trip_rider_by_driver = λ d. none;
  rider_track_subscriptions = record { rider_id = 1; at = centre; radius_meters = 5 } ∷ [];
  offer_submit_limiter = λ k. none;
  offer_accept_limiter = λ k. none;
  location_update_limiter = λ k. none;
  track_subscribe_limiter = λ k. none;
  sent = [];
}
