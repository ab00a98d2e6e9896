-- ===== src/Http/Api/Served.antt =====
-- Every route of the HTTP interface (the controllers under src/), over a relation on the tables of
-- rides.
use reedri_end.Base.{Option}
use reedri_end.Http.{Claims}
use reedri_end.Http.Journeys.{
  nearby_drivers, create_ride_request, find_one, cancel_ride_request, start_trip, complete_trip,
  rate,
}
use reedri_end.Http.Onboarding.{
  start_application, get_application_status, post_personal_info, post_license, post_vehicle,
  post_optional_document, get_own_documents, list_applications, review_application, list_documents,
  download_document,
}
use reedri_end.Http.Accounts.{
  get_me, patch_active_profile, patch_location, post_forgot_password, post_login, post_logout,
  post_refresh, post_register, post_reset_password, update_status,
}
use reedri_end.Http.Api.{
  Server, Request, serve, account, application, application_status, applications, document,
  documents, driver_location, driver_status, drivers_on_map, file, mode, nothing, rating,
  ride_request, tokens, trip, asks_application, asks_application_status, asks_applications,
  asks_cancellation, asks_code, asks_completion, asks_documents, asks_file, asks_license,
  asks_location, asks_login, asks_logout, asks_map, asks_me, asks_mode, asks_optional_document,
  asks_own_documents, asks_personal_info, asks_rating, asks_refresh, asks_registration, asks_reset,
  asks_review, asks_ride, asks_ride_request, asks_start, asks_status, asks_vehicle,
}
use reedri_end.Http.Api.Effects.{Covers, IsStep, answered-IsStep}
use reedri_end.Http.Api.Accounts.{
  get_me-IsStep, patch_active_profile-IsStep, patch_location-IsStep, post_forgot_password-IsStep,
  post_login-IsStep, post_logout-IsStep, post_refresh-IsStep, post_register-IsStep,
  post_reset_password-IsStep, update_status-IsStep,
}
use reedri_end.Http.Api.Onboarding.{
  start_application-IsStep, get_application_status-IsStep, post_personal_info-IsStep,
  post_license-IsStep, post_vehicle-IsStep, post_optional_document-IsStep, get_own_documents-IsStep,
  list_applications-IsStep, review_application-IsStep, list_documents-IsStep,
  download_document-IsStep,
}
use reedri_end.Http.Api.Journeys.{
  nearby_drivers-IsStep, create_ride_request-IsStep, find_one-IsStep, cancel_ride_request-IsStep,
  start_trip-IsStep, complete_trip-IsStep, rate-IsStep,
}
use reedri_end.World.{Rides}

module _ (R : Rides → Rides → Type 0) (covers : Covers R) where
  stay : (x : Rides) → R x x
  stay = covers.stays

  pub serve-IsStep : (s : Server) (token : Option Claims) (r : Request) → IsStep R (serve s token r)
  unfolding serve
  serve-IsStep s token (asks_registration name phone password) =
      answered-IsStep R stay tokens
        (post_register s.crypto s.access_ttl s.refresh_ttl s.reset_ttl s.is_phone_number name phone
          password)
        (post_register-IsStep R stay s.crypto s.access_ttl s.refresh_ttl s.reset_ttl
          s.is_phone_number name phone password)
  serve-IsStep s token (asks_login phone password) =
      answered-IsStep R stay tokens
        (post_login s.crypto s.access_ttl s.refresh_ttl s.reset_ttl s.is_phone_number phone
          password)
        (post_login-IsStep R stay s.crypto s.access_ttl s.refresh_ttl s.reset_ttl s.is_phone_number
          phone password)
  serve-IsStep s token (asks_refresh t) =
      answered-IsStep R stay tokens
        (post_refresh s.crypto s.access_ttl s.refresh_ttl s.reset_ttl s.is_phone_number t)
        (post_refresh-IsStep R stay s.crypto s.access_ttl s.refresh_ttl s.reset_ttl
          s.is_phone_number t)
  serve-IsStep s token (asks_logout t) =
      answered-IsStep R stay (λ _. nothing)
        (post_logout s.crypto s.access_ttl s.refresh_ttl s.reset_ttl s.is_phone_number t)
        (post_logout-IsStep R stay s.crypto s.access_ttl s.refresh_ttl s.reset_ttl s.is_phone_number
          t)
  serve-IsStep s token (asks_code phone) =
      answered-IsStep R stay (λ _. nothing)
        (post_forgot_password s.crypto s.access_ttl s.refresh_ttl s.reset_ttl s.is_phone_number
          phone)
        (post_forgot_password-IsStep R stay s.crypto s.access_ttl s.refresh_ttl s.reset_ttl
          s.is_phone_number phone)
  serve-IsStep s token (asks_reset phone code new_password) =
      answered-IsStep R stay (λ _. nothing)
        (post_reset_password s.crypto s.access_ttl s.refresh_ttl s.reset_ttl s.is_phone_number phone
          code new_password)
        (post_reset_password-IsStep R stay s.crypto s.access_ttl s.refresh_ttl s.reset_ttl
          s.is_phone_number phone code new_password)
  serve-IsStep s token asks_me =
      answered-IsStep R stay account (get_me token) (get_me-IsStep R stay token)
  serve-IsStep s token (asks_mode p) =
      answered-IsStep R stay mode (patch_active_profile s.queue s.offer_expiry_seconds token p)
        (patch_active_profile-IsStep R stay token s.queue s.offer_expiry_seconds p)
  serve-IsStep s token (asks_status b) =
      answered-IsStep R stay driver_status (update_status token b)
        (update_status-IsStep R stay token b)
  serve-IsStep s token (asks_location lat lng) =
      answered-IsStep R stay driver_location (patch_location token lat lng)
        (patch_location-IsStep R stay token lat lng)
  serve-IsStep s token (asks_ride dto) =
      answered-IsStep R stay ride_request
        (create_ride_request s.geography s.ride_match_radius_km token dto)
        (create_ride_request-IsStep R covers s.geography s.ride_match_radius_km token dto)
  serve-IsStep s token (asks_map at radius_km) =
      answered-IsStep R stay drivers_on_map (nearby_drivers token at radius_km)
        (nearby_drivers-IsStep R covers token at radius_km)
  serve-IsStep s token (asks_ride_request id) =
      answered-IsStep R stay ride_request (find_one token id) (find_one-IsStep R covers token id)
  serve-IsStep s token (asks_cancellation id reason) =
      answered-IsStep R stay ride_request (cancel_ride_request token id reason)
        (cancel_ride_request-IsStep R covers token id reason)
  serve-IsStep s token (asks_start id) =
      answered-IsStep R stay trip (start_trip token id) (start_trip-IsStep R covers token id)
  serve-IsStep s token (asks_completion id) =
      answered-IsStep R stay trip (complete_trip token id) (complete_trip-IsStep R covers token id)
  serve-IsStep s token (asks_rating id dto) =
      answered-IsStep R stay rating (rate token id dto) (rate-IsStep R covers token id dto)
  serve-IsStep s token asks_application =
      answered-IsStep R stay application (start_application token)
        (start_application-IsStep R stay token)
  serve-IsStep s token asks_application_status =
      answered-IsStep R stay application_status (get_application_status token)
        (get_application_status-IsStep R stay token)
  serve-IsStep s token asks_own_documents =
      answered-IsStep R stay documents (get_own_documents token)
        (get_own_documents-IsStep R stay token)
  serve-IsStep s token (asks_personal_info dto) =
      answered-IsStep R stay application (post_personal_info s.eighteen_years_before token dto)
        (post_personal_info-IsStep R stay token s.eighteen_years_before dto)
  serve-IsStep s token (asks_license dto image) =
      answered-IsStep R stay application (post_license s.storage token dto image)
        (post_license-IsStep R stay s.storage token dto image)
  serve-IsStep s token (asks_vehicle dto files) =
      answered-IsStep R stay application (post_vehicle s.storage s.start_year token dto files)
        (post_vehicle-IsStep R stay s.storage token s.start_year dto files)
  serve-IsStep s token (asks_optional_document t upload) =
      answered-IsStep R stay document (post_optional_document s.storage token t upload)
        (post_optional_document-IsStep R stay s.storage token t upload)
  serve-IsStep s token (asks_applications status) =
      answered-IsStep R stay applications (list_applications token status)
        (list_applications-IsStep R stay token status)
  serve-IsStep s token (asks_review id dto) =
      answered-IsStep R stay application (review_application token id dto)
        (review_application-IsStep R stay token id dto)
  serve-IsStep s token (asks_documents id) =
      answered-IsStep R stay documents (list_documents token id)
        (list_documents-IsStep R stay token id)
  serve-IsStep s token (asks_file id) =
      answered-IsStep R stay file (download_document s.storage token id)
        (download_document-IsStep R stay s.storage token id)
