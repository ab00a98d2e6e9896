-- ===== src/Http/Accounts.antt =====
-- The controllers of accounts, modes and drivers (src/auth/auth.controller.ts,
-- src/users/users.controller.ts and src/drivers/drivers.controller.ts).
use reedri_end.Base.{ℕ, Bool, Option, some, String}
use reedri_end.Schema.{Degrees, ActiveProfile}
use reedri_end.World.{M, ◌>>◌}
use reedri_end.Queue.{JobQueue}
use reedri_end.Drivers.{set_online_status, update_location}
use reedri_end.Users.{set_active_profile}
use reedri_end.Auth.{
  Crypto, TokenPair, me, register, login, refresh, logout, forgot_password, reset_password,
}
use reedri_end.Http.{Claims, signed_in, in_profile, answered, validated}
use reedri_end.Http.Forms.{
  is_not_empty, accepts_location, accepts_registration, accepts_login, accepts_reset,
}
use reedri_end.Http.Responses.{
  UserResponse, user_response, ActiveProfileResponse, active_profile_response, DriverStatusResponse,
  driver_status_response, DriverLocationResponse, driver_location_response,
}

-- `AuthController.me`
unfoldable pub get_me : Option Claims → M UserResponse
get_me token = signed_in token (λ user. answered user_response (me user.user_id))

-- `UsersController.setActiveProfile`
unfoldable pub patch_active_profile :
    JobQueue → ℕ → Option Claims → ActiveProfile → M ActiveProfileResponse
patch_active_profile queue offer_expiry_seconds token profile = signed_in token (λ user.
    answered active_profile_response
      (set_active_profile queue offer_expiry_seconds user.user_id profile))

-- `DriversController.updateStatus`
unfoldable pub update_status : Option Claims → Bool → M DriverStatusResponse
update_status token is_online =
    in_profile (some ActiveProfile.driver) token
      (λ user. answered driver_status_response (set_online_status user.user_id is_online))

-- `DriversController.updateLocation`
unfoldable pub patch_location : Option Claims → Degrees → Degrees → M DriverLocationResponse
patch_location token lat lng = in_profile (some ActiveProfile.driver) token (λ user.
    validated (accepts_location lat lng)
    >> answered driver_location_response (update_location user.user_id lat lng))

module _ (crypto : Crypto) (access_ttl refresh_ttl reset_ttl : ℕ)
    (is_phone_number : String → Bool) where
  -- `AuthController.register`
  unfoldable pub post_register : (name phone password : String) → M TokenPair
  post_register name phone password =
      validated (accepts_registration is_phone_number name phone password)
      >> register crypto access_ttl refresh_ttl reset_ttl name phone password

  -- `AuthController.login`
  unfoldable pub post_login : (phone password : String) → M TokenPair
  post_login phone password =
      validated (accepts_login is_phone_number phone password)
      >> login crypto access_ttl refresh_ttl reset_ttl phone password

  -- `AuthController.refresh`
  unfoldable pub post_refresh : String → M TokenPair
  post_refresh refresh_token =
      validated (is_not_empty refresh_token)
      >> refresh crypto access_ttl refresh_ttl reset_ttl refresh_token

  -- `AuthController.logout`
  unfoldable pub post_logout : String → M (Unit {0})
  post_logout refresh_token =
      validated (is_not_empty refresh_token)
      >> logout crypto access_ttl refresh_ttl reset_ttl refresh_token

  -- `AuthController.forgotPassword`
  unfoldable pub post_forgot_password : String → M (Unit {0})
  post_forgot_password phone =
      validated (is_phone_number phone)
      >> forgot_password crypto access_ttl refresh_ttl reset_ttl phone

  -- `AuthController.resetPassword`
  unfoldable pub post_reset_password : (phone code new_password : String) → M (Unit {0})
  post_reset_password phone code new_password =
      validated (accepts_reset is_phone_number phone code new_password)
      >> reset_password crypto access_ttl refresh_ttl reset_ttl phone code new_password
