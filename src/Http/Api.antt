-- ===== src/Http/Api.antt =====
-- The routes of the HTTP interface in one place: a request is one of the handlers of the
-- controllers under src/ with its arguments. The limits on how often a route may be called and
-- the health check are left out.
pub mod Refusals
pub mod Scores
pub mod Secrets
pub mod Uploading
pub mod Told
pub mod Calm
pub mod Effects
pub mod Accounts
pub mod Onboarding
pub mod Journeys
pub mod Served
pub mod Whole
pub mod Happening
use reedri_end.Base.{ℕ, Bool, Option, List, String}
use reedri_end.Schema.{
  Uuid, Time, Degrees, ActiveProfile, DriverApplicationStatus, DriverDocumentType,
  DriverApplication, DriverProfile, Trip, Rating,
}
use reedri_end.World.{M, ◌>>=◌}
use reedri_end.Queue.{JobQueue}
use reedri_end.Storage.{Storage}
use reedri_end.Matching.{Geography, Point}
use reedri_end.Documents.{UploadableFile, FileContent}
use reedri_end.RideRequests.{CreateRideRequest}
use reedri_end.Ratings.{RateTrip}
use reedri_end.Applications.{
  SubmitPersonalInfo, SubmitLicense, SubmitVehicle, Review, ApplicationStatus,
}
use reedri_end.Auth.{Crypto, TokenPair}
use reedri_end.Http.{Claims, answered}
use reedri_end.Http.Responses.{
  UserResponse, ActiveProfileResponse, DriverStatusResponse, DriverLocationResponse,
  DriverDocumentResponse, RideRequestResponse, NearbyDriverResponse,
}
use reedri_end.Http.Journeys.{
  nearby_drivers, create_ride_request, find_one, cancel_ride_request, start_trip, complete_trip,
  rate,
}
use reedri_end.Http.Onboarding.{
  Files, start_application, get_application_status, post_personal_info, post_license, post_vehicle,
  post_optional_document, get_own_documents, list_applications, review_application, list_documents,
  download_document,
}
use reedri_end.Http.Accounts.{
  get_me, patch_active_profile, update_status, patch_location, post_register, post_login,
  post_refresh, post_logout, post_forgot_password, post_reset_password,
}

-- What the controllers are constructed with, and the configuration.
pub record Server : Type 0 where
  pub queue : JobQueue
  pub storage : Storage
  pub crypto : Crypto
  pub geography : Geography
  pub is_phone_number : String → Bool
  pub eighteen_years_before : Time → Time
  pub start_year : ℕ
  pub offer_expiry_seconds : ℕ
  pub ride_match_radius_km : ℕ
  pub access_ttl : ℕ
  pub refresh_ttl : ℕ
  pub reset_ttl : ℕ

pub data Request : Type 0 where
  asks_registration : (name phone password : String) → Request
  asks_login : (phone password : String) → Request
  asks_refresh asks_logout : (refresh_token : String) → Request
  asks_code : (phone : String) → Request
  asks_reset : (phone code new_password : String) → Request
  asks_me : Request
  asks_mode : ActiveProfile → Request
  asks_status : (is_online : Bool) → Request
  asks_location : (lat lng : Degrees) → Request
  asks_ride : CreateRideRequest → Request
  asks_map : Point → (radius_km : Option ℕ) → Request
  asks_ride_request : Uuid → Request
  asks_cancellation : Uuid → (reason : Option String) → Request
  asks_start asks_completion : (trip_id : Uuid) → Request
  asks_rating : (trip_id : Uuid) → RateTrip → Request
  asks_application asks_application_status asks_own_documents : Request
  asks_personal_info : SubmitPersonalInfo → Request
  asks_license : SubmitLicense → Option UploadableFile → Request
  asks_vehicle : SubmitVehicle → Files → Request
  asks_optional_document : DriverDocumentType → Option UploadableFile → Request
  asks_applications : Option DriverApplicationStatus → Request
  asks_review : Uuid → Review → Request
  asks_documents asks_file : Uuid → Request

pub data Answer : Type 0 where
  nothing : Answer
  tokens : TokenPair → Answer
  account : UserResponse → Answer
  mode : ActiveProfileResponse → Answer
  driver_status : DriverStatusResponse → Answer
  driver_location : DriverLocationResponse → Answer
  ride_request : RideRequestResponse → Answer
  drivers_on_map : List NearbyDriverResponse → Answer
  trip : Trip → Answer
  rating : Rating → Answer
  application : DriverApplication → Answer
  applications : List DriverApplication → Answer
  application_status : ApplicationStatus → Answer
  document : DriverDocumentResponse → Answer
  documents : List DriverDocumentResponse → Answer
  file : FileContent → Answer

module _ (s : Server) where
  unfoldable pub serve : Option Claims → Request → M Answer
  serve token (asks_registration name phone password) = answered tokens (
      post_register s.crypto s.access_ttl s.refresh_ttl s.reset_ttl s.is_phone_number name phone
        password)
  serve token (asks_login phone password) =
      answered tokens (
        post_login s.crypto s.access_ttl s.refresh_ttl s.reset_ttl s.is_phone_number phone password)
  serve token (asks_refresh t) =
      answered tokens
        (post_refresh s.crypto s.access_ttl s.refresh_ttl s.reset_ttl s.is_phone_number t)
  serve token (asks_logout t) =
      answered (λ u. nothing)
        (post_logout s.crypto s.access_ttl s.refresh_ttl s.reset_ttl s.is_phone_number t)
  serve token (asks_code phone) =
      answered (λ u. nothing)
        (post_forgot_password s.crypto s.access_ttl s.refresh_ttl s.reset_ttl s.is_phone_number
          phone)
  serve token (asks_reset phone code new_password) =
      answered (λ u. nothing)
        (post_reset_password s.crypto s.access_ttl s.refresh_ttl s.reset_ttl s.is_phone_number phone
          code new_password)
  serve token asks_me = answered account (get_me token)
  serve token (asks_mode p) =
      answered mode (patch_active_profile s.queue s.offer_expiry_seconds token p)
  serve token (asks_status b) = answered driver_status (update_status token b)
  serve token (asks_location lat lng) = answered driver_location (patch_location token lat lng)
  serve token (asks_ride dto) =
      answered ride_request (create_ride_request s.geography s.ride_match_radius_km token dto)
  serve token (asks_map at radius_km) = answered drivers_on_map (nearby_drivers token at radius_km)
  serve token (asks_ride_request id) = answered ride_request (find_one token id)
  serve token (asks_cancellation id reason) =
      answered ride_request (cancel_ride_request token id reason)
  serve token (asks_start id) = answered trip (start_trip token id)
  serve token (asks_completion id) = answered trip (complete_trip token id)
  serve token (asks_rating id dto) = answered rating (rate token id dto)
  serve token asks_application = answered application (start_application token)
  serve token asks_application_status = answered application_status (get_application_status token)
  serve token asks_own_documents = answered documents (get_own_documents token)
  serve token (asks_personal_info dto) =
      answered application (post_personal_info s.eighteen_years_before token dto)
  serve token (asks_license dto image) =
      answered application (post_license s.storage token dto image)
  serve token (asks_vehicle dto files) =
      answered application (post_vehicle s.storage s.start_year token dto files)
  serve token (asks_optional_document t upload) =
      answered document (post_optional_document s.storage token t upload)
  serve token (asks_applications status) = answered applications (list_applications token status)
  serve token (asks_review id dto) = answered application (review_application token id dto)
  serve token (asks_documents id) = answered documents (list_documents token id)
  serve token (asks_file id) = answered file (download_document s.storage token id)
