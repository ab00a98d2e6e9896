-- ===== src/Http/Responses.antt =====
-- The response classes that leave columns of their rows out or add to them (src/auth/dto,
-- src/users/dto, src/drivers/dto, src/matching/dto and src/ride-requests/dto). The classes of trips,
-- ratings, applications and token pairs have every column of what they are made from.
use reedri_end.Base.{ℕ, Bool, Option, none, some, List, [], ◌∷◌, String, map_option}
use reedri_end.Schema.{
  Uuid, Time, Fare, Degrees, Role, ActiveProfile, OfferStatus, DriverDocumentType, Average, User,
  DriverProfile, DriverDocument, RideRequest, RideOffer, Trip,
}
use reedri_end.World.{World}
use reedri_end.Users.{find_by_id}
use reedri_end.Matching.{Point}
use reedri_end.Matching.Locations.{NearbyDriverLocation}

pub record UserResponse : Type 0 where
  pub id : Uuid
  pub name : String
  pub phone : String
  pub role : Role
  pub active_profile : ActiveProfile
  pub rating : Average

unfoldable pub user_response : User → UserResponse
user_response u = record {
  id = u.id;
  name = u.name;
  phone = u.phone;
  role = u.role;
  active_profile = u.active_profile;
  rating = u.rating;
}

pub record ActiveProfileResponse : Type 0 where
  pub id : Uuid
  pub active_profile : ActiveProfile

unfoldable pub active_profile_response : User → ActiveProfileResponse
active_profile_response u = record { id = u.id; active_profile = u.active_profile }

pub record DriverStatusResponse : Type 0 where
  pub id : Uuid
  pub is_online : Bool

unfoldable pub driver_status_response : DriverProfile → DriverStatusResponse
driver_status_response p = record { id = p.id; is_online = p.is_online }

pub record DriverLocationResponse : Type 0 where
  pub id : Uuid
  pub current_lat : Option Degrees
  pub current_lng : Option Degrees
  pub location_updated_at : Option Time

unfoldable pub driver_location_response : DriverProfile → DriverLocationResponse
driver_location_response p = record {
  id = p.id;
  current_lat = p.current_lat;
  current_lng = p.current_lng;
  location_updated_at = p.location_updated_at;
}

pub record DriverDocumentResponse : Type 0 where
  pub id : Uuid
  pub document_type : DriverDocumentType
  pub original_filename : String
  pub mime_type : String
  pub size_bytes : ℕ
  pub uploaded_at : Time

unfoldable pub driver_document_response : DriverDocument → DriverDocumentResponse
driver_document_response d = record {
  id = d.id;
  document_type = d.document_type;
  original_filename = d.original_filename;
  mime_type = d.mime_type;
  size_bytes = d.size_bytes;
  uploaded_at = d.uploaded_at;
}

pub record RideOfferDriverResponse : Type 0 where
  pub id : Uuid
  pub name : String
  pub rating : Average

pub record RideOfferResponse : Type 0 where
  pub id : Uuid
  pub offered_fare : Fare
  pub status : OfferStatus
  pub created_at : Time
  pub driver : RideOfferDriverResponse

-- `RideOfferResponseDto.from`, of an offer and the account of its driver.
unfoldable pub ride_offer_response : RideOffer → User → RideOfferResponse
ride_offer_response o u = record {
  id = o.id;
  offered_fare = o.offered_fare;
  status = o.status;
  created_at = o.created_at;
  driver = record { id = u.id; name = u.name; rating = u.rating };
}

-- The offers with the accounts that the query includes; `none` where one is not there.
unfoldable pub ride_offer_responses :
    World → List RideOffer → List Uuid → Option (List RideOfferResponse)
ride_offer_responses w (o ∷ offers) (user_id ∷ user_ids) =
    let rest = ride_offer_responses w offers user_ids in
    elim (find_by_id user_id w) [
      | none ↦ none
      | some u ↦ map_option (λ (rs : List RideOfferResponse). ride_offer_response o u ∷ rs) rest
    ]
ride_offer_responses w _ _ = some []

pub record RideRequestResponse : Type 0 where
  pub ride_request : RideRequest
  pub nearby_driver_count : Option ℕ
  pub trip : Option Trip
  pub offers : Option (List RideOfferResponse)

-- `RideRequestResponseDto.from`, of a row and what the caller adds to it.
abbrev pub ride_request_response :
    RideRequest → Option ℕ → Option Trip → Option (List RideOfferResponse) → RideRequestResponse
ride_request_response r count trip offers = record {
  ride_request = r;
  nearby_driver_count = count;
  trip = trip;
  offers = offers;
}

pub record NearbyDriverResponse : Type 0 where
  pub driver_id : Uuid
  pub at : Point
  pub vehicle_make : String
  pub vehicle_model : String
  pub distance_meters : ℕ

-- `NearbyDriverResponseDto.from`: the id is the one of the driver's account.
abbrev pub nearby_driver_response : NearbyDriverLocation → NearbyDriverResponse
nearby_driver_response d = record {
  driver_id = d.user_id;
  at = d.at;
  vehicle_make = d.vehicle_make;
  vehicle_model = d.vehicle_model;
  distance_meters = d.distance_meters;
}
