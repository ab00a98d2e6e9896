-- ===== src/Http/Api/Accounts.antt =====
-- The routes of accounts and drivers, over a relation on the tables of rides
-- (src/auth/auth.controller.ts, src/users/users.controller.ts and
-- src/drivers/drivers.controller.ts).
use reedri_end.Base.{ℕ, Bool, Option, some, arith, String}
use reedri_end.Schema.{Degrees, ActiveProfile}
use reedri_end.World.{◌>>◌}
use reedri_end.Queue.{JobQueue}
use reedri_end.Auth.{Crypto, me, register, login, refresh, logout, forgot_password, reset_password}
use reedri_end.Users.{set_active_profile}
use reedri_end.Drivers.{set_online_status, update_location}
use reedri_end.Http.{Claims, answered, validated}
use reedri_end.Http.Forms.{
  accepts_registration, accepts_login, accepts_reset, accepts_location, is_not_empty,
}
use reedri_end.Http.Responses.{
  user_response, active_profile_response, driver_status_response, driver_location_response,
}
use reedri_end.Http.Accounts.{
  get_me, patch_active_profile, update_status, patch_location, post_register, post_login,
  post_refresh, post_logout, post_forgot_password, post_reset_password,
}
use reedri_end.Http.Api.Calm.{
  register-IsCalm, login-IsCalm, refresh-IsCalm, forgot-IsCalm, reset-IsCalm, logout-IsCalm,
  set_active_profile-IsCalm, set_online_status-IsCalm, update_location-IsCalm,
}
use reedri_end.Http.Api.Effects.{
  kept, IsStep, calm-IsStep, signed_in-IsStep, in_profile-IsStep, validated-IsStep, answered-IsStep,
}
use reedri_end.World.{Rides}

module _ (R : Rides → Rides → Type 0) (stay : (x : Rides) → R x x) where
  module _ (c : Crypto) (a r t : ℕ) (p : String → Bool) where
    pub post_register-IsStep : (n x q : String) → IsStep R (post_register c a r t p n x q)
    unfolding post_register
    post_register-IsStep n x q =
        validated-IsStep R stay (accepts_registration p n x q) (register c a r t n x q)
          (calm-IsStep R stay (register c a r t n x q) (register-IsCalm c a r t n x q))

    pub post_login-IsStep : (x q : String) → IsStep R (post_login c a r t p x q)
    unfolding post_login
    post_login-IsStep x q =
        validated-IsStep R stay (accepts_login p x q) (login c a r t x q)
          (calm-IsStep R stay (login c a r t x q) (login-IsCalm c a r t x q))

    pub post_refresh-IsStep : (x : String) → IsStep R (post_refresh c a r t p x)
    unfolding post_refresh
    post_refresh-IsStep x =
        validated-IsStep R stay (is_not_empty x) (refresh c a r t x)
          (calm-IsStep R stay (refresh c a r t x) (refresh-IsCalm c a r t x))

    pub post_logout-IsStep : (x : String) → IsStep R (post_logout c a r t p x)
    unfolding post_logout
    post_logout-IsStep x =
        validated-IsStep R stay (is_not_empty x) (logout c a r t x)
          (calm-IsStep R stay (logout c a r t x) (logout-IsCalm c a r t x))

    pub post_forgot_password-IsStep : (x : String) → IsStep R (post_forgot_password c a r t p x)
    unfolding post_forgot_password
    post_forgot_password-IsStep x =
        validated-IsStep R stay (p x) (forgot_password c a r t x)
          (calm-IsStep R stay (forgot_password c a r t x) (forgot-IsCalm c a r t x))

    pub post_reset_password-IsStep :
        (x code q : String) → IsStep R (post_reset_password c a r t p x code q)
    unfolding post_reset_password
    post_reset_password-IsStep x code q =
        validated-IsStep R stay (accepts_reset p x code q) (reset_password c a r t x code q)
          (calm-IsStep R stay (reset_password c a r t x code q) (reset-IsCalm c a r t x code q))

  module _ (token : Option Claims) where
    pub get_me-IsStep : IsStep R (get_me token)
    unfolding get_me me
    get_me-IsStep =
        signed_in-IsStep R stay (λ user. answered user_response (me user.user_id))
          (λ user w. kept R stay _ _ (ground arith)) token

    pub patch_active_profile-IsStep :
        (queue : JobQueue) (seconds : ℕ) (p : ActiveProfile)
        → IsStep R (patch_active_profile queue seconds token p)
    unfolding patch_active_profile
    patch_active_profile-IsStep queue seconds p =
        signed_in-IsStep R stay
          (λ user.
            answered active_profile_response (set_active_profile queue seconds user.user_id p))
          (λ user.
            answered-IsStep R stay active_profile_response
              (set_active_profile queue seconds user.user_id p)
              (calm-IsStep R stay (set_active_profile queue seconds user.user_id p)
                (set_active_profile-IsCalm queue seconds user.user_id p)))
          token

    pub update_status-IsStep : (b : Bool) → IsStep R (update_status token b)
    unfolding update_status
    update_status-IsStep b =
        in_profile-IsStep R stay
          (λ user. answered driver_status_response (set_online_status user.user_id b))
          (λ user.
            answered-IsStep R stay driver_status_response (set_online_status user.user_id b) (
              calm-IsStep R stay (set_online_status user.user_id b)
                (set_online_status-IsCalm user.user_id b)))
          token (some ActiveProfile.driver)

    pub patch_location-IsStep : (lat lng : Degrees) → IsStep R (patch_location token lat lng)
    unfolding patch_location
    patch_location-IsStep lat lng =
        in_profile-IsStep R stay
          (λ user.
            validated (accepts_location lat lng)
            >> answered driver_location_response (update_location user.user_id lat lng))
          (λ user w.
            kept R stay _ _ (ground (arith, update_location-IsCalm user.user_id lat lng w)))
          token (some ActiveProfile.driver)
