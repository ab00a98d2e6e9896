-- ===== src/Users.antt =====
-- Users (src/users/users.service.ts). A rating is the sum and the number of the scores averaged.
pub mod Modes
use text.Mathlib.Text.{◌==◌ as str_eq}
use reedri_end.Base.{ℕ, ◌+◌, Option, none, some, List, [], ◌∷◌, String, ◌==◌, length}
use reedri_end.Table.{find_first, find_many, update_many}
use reedri_end.Schema.{Uuid, ActiveProfile, Average, User, DriverProfile, Rating}
use reedri_end.World.{
  World, forbidden, record_not_found, http, prisma, Result, ok, err, M, ◌>>=◌, ◌>>◌, pure, gets,
  or_raise,
}
use reedri_end.Queue.{JobQueue}
use reedri_end.Offers.{find_profile_of_user}
use reedri_end.Drivers.{go_offline}

-- `findByPhone`
abbrev pub find_by_phone : String → World → Option User
find_by_phone phone w = find_first (λ (u : User). str_eq u.phone phone) w.users

-- `findById`
abbrev pub find_by_id : Uuid → World → Option User
find_by_id id w = find_first (λ (u : User). u.id == id) w.users

-- `user.update` by id
unfoldable pub update_user : Uuid → (User → User) → M User
update_user id f w = elim (find_by_id id w) [
  | none ↦ (err (prisma record_not_found), w)
  | some u ↦ (ok (f u), record w { users = update_many (λ (x : User). x.id == id) f w.users })
]

unfoldable pub total : List Rating → ℕ
total [] = 0
total (r ∷ rs) = r.score + total rs

-- `_avg.score ?? 5.0`
abbrev pub average : List Rating → Average
average [] = record { sum = 5; number = 1 }
average (r ∷ rs) = record { sum = total (r ∷ rs); number = length (r ∷ rs) }

abbrev pub received : Uuid → List Rating → List Rating
received user_id ratings = find_many (λ (r : Rating). r.to_user_id == user_id) ratings

abbrev pub with_rating : Average → User → User
with_rating a u = record u { rating = a }

-- `recalculateRating`
unfoldable pub recalculate_rating : Uuid → M (Unit {0})
recalculate_rating user_id = do
  avg ← gets (λ w. average (received user_id w.ratings))
  user ← update_user user_id (with_rating avg)
  pure tt

abbrev pub with_profile : ActiveProfile → User → User
with_profile profile u = record u { active_profile = profile }

module _ (queue : JobQueue) (offer_expiry_seconds : ℕ) where
  -- `setActiveProfile`
  unfoldable pub set_active_profile : Uuid → ActiveProfile → M User
  set_active_profile user_id ActiveProfile.driver = do
    driver_profile ←
        or_raise (← gets (find_profile_of_user user_id))
          (http (forbidden "Complete driver verification before switching to driver mode"))
    update_user user_id (with_profile ActiveProfile.driver)
  set_active_profile user_id ActiveProfile.rider = do
    user ← update_user user_id (with_profile ActiveProfile.rider)
    go_offline queue offer_expiry_seconds user_id
    pure user
