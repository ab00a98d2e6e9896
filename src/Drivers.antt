-- ===== src/Drivers.antt =====
-- Drivers' profiles (src/drivers/drivers.service.ts).
pub mod Identity
use reedri_end.Base.{ℕ, Bool, false, Option, none, some, List, [], ◌∷◌, ◌++◌, ◌==◌, map_option}
use reedri_end.Table.{find_first, update_many}
use reedri_end.Schema.{Uuid, Time, Degrees, DriverProfile}
use reedri_end.Events.{driver_location_updated, driver_online_status_changed}
use reedri_end.World.{
  World, DriverIdentity, not_found, record_not_found, http, prisma, Result, ok, err, M, ◌>>=◌, ◌>>◌,
  pure, gets, or_raise, emit,
}
use reedri_end.Cache.{get_or_set}
use reedri_end.Queue.{JobQueue}
use reedri_end.Offers.{find_profile_of_user, schedule_driver_offer_expiry}

-- `DRIVER_IDENTITY_CACHE_TTL_SECONDS`
abbrev pub driver_identity_cache_ttl_seconds : ℕ
driver_identity_cache_ttl_seconds = 300

-- `findByUserId`
abbrev pub find_by_user_id : Uuid → World → Option DriverProfile
find_by_user_id user_id = find_profile_of_user user_id

abbrev pub identity_of : DriverProfile → DriverIdentity
identity_of p = record { id = p.id; user_id = p.user_id }

-- `findIdentityByUserId`
unfoldable pub find_identity_by_user_id : Uuid → M (Option DriverIdentity)
find_identity_by_user_id user_id =
    get_or_set user_id driver_identity_cache_ttl_seconds
      (gets λ w. map_option identity_of (find_profile_of_user user_id w))

-- `driverProfile.update` by the user
unfoldable pub update_profile : Uuid → (DriverProfile → DriverProfile) → M DriverProfile
update_profile user_id f w = elim (find_profile_of_user user_id w) [
  | none ↦ (err (prisma record_not_found), w)
  | some p ↦ (
    ok (f p),
    record w {
      driver_profiles =
          update_many (λ (x : DriverProfile). x.user_id == user_id) f w.driver_profiles;
    },
  )
]

abbrev pub with_online : Bool → DriverProfile → DriverProfile
with_online is_online p = record p { is_online = is_online }

abbrev pub with_location : Degrees → Degrees → Time → DriverProfile → DriverProfile
with_location lat lng now p = record p {
  current_lat = some lat;
  current_lng = some lng;
  location_updated_at = some now;
}

-- `setOnlineStatus`
unfoldable pub set_online_status : Uuid → Bool → M DriverProfile
set_online_status user_id is_online = do
  identity ← find_identity_by_user_id user_id
  profile ← or_raise identity (http (not_found "Driver profile not found"))
  updated ← update_profile user_id (with_online is_online)
  emit (driver_online_status_changed user_id is_online updated.current_lat updated.current_lng)
  pure updated

-- `updateLocation`
unfoldable pub update_location : Uuid → Degrees → Degrees → M DriverProfile
update_location user_id lat lng = do
  identity ← find_identity_by_user_id user_id
  profile ← or_raise identity (http (not_found "Driver profile not found"))
  now ← gets (λ w. w.now)
  updated ← update_profile user_id (with_location lat lng now)
  emit (driver_location_updated user_id lat lng)
  pure updated

module _ (queue : JobQueue) (offer_expiry_seconds : ℕ) where
  -- `goOffline`, with the identity that was found.
  unfoldable pub take_offline : Uuid → Option DriverIdentity → M (Unit {0})
  take_offline user_id none = pure tt
  take_offline user_id (some profile) = do
    updated ← update_profile user_id (with_online false)
    emit (driver_online_status_changed user_id false updated.current_lat updated.current_lng)
    schedule_driver_offer_expiry queue offer_expiry_seconds profile.id

  unfoldable pub go_offline : Uuid → M (Unit {0})
  go_offline user_id = do identity ← find_identity_by_user_id user_id; take_offline user_id identity
