-- ===== src/Access.antt =====
-- Who may call what: src/common/guards/active-profile.guard.ts and roles.guard.ts, and what
-- src/auth/strategies/jwt.strategy.ts takes of a token. What the decorators and the request give
-- are arguments.
pub mod Modes
use reedri_end.Base.{
  ℕ, ◌&&◌, ◌||◌, Bool, true, false, not, Option, none, some, List, [], ◌∷◌, String, ◌==◌, is_some,
  if◌then◌else◌,
}
use reedri_end.Table.{find_first, any}
use reedri_end.Schema.{Uuid, Role, ActiveProfile, same_role, same_profile, User}
use reedri_end.World.{
  World, forbidden, unauthorized, http, Result, ok, err, M, ◌>>=◌, ◌>>◌, pure, raise, gets,
  or_raise, raise_if,
}
use reedri_end.Users.{find_by_id}
use reedri_end.Offers.{find_profile_of_user}

abbrev pub switch_message : ActiveProfile → String
switch_message ActiveProfile.driver = "Switch to driver mode to perform this action"
switch_message ActiveProfile.rider = "Switch to rider mode to perform this action"

-- `ActiveProfileGuard.canActivate`, of the profile that is required and the user of the request.
unfoldable pub can_activate : Option ActiveProfile → Option Uuid → M Bool
can_activate none user = pure true
can_activate (some required) user = do
  user_id ← or_raise user (http (forbidden "Forbidden"))
  row ← or_raise (← gets (find_by_id user_id)) (http (forbidden (switch_message required)))
  raise_if (not (same_profile row.active_profile required))
      (http (forbidden (switch_message required)))
  profile ← gets (find_profile_of_user user_id)
  raise_if (same_profile required ActiveProfile.driver && not (is_some profile))
      (http (forbidden "Complete driver verification first"))
  pure true

-- `RolesGuard.canActivate`, of the roles that are required and the role of the request's user.
unfoldable pub has_role : Option (List Role) → Option Role → Bool
has_role none user = true
has_role (some []) user = true
has_role (some (r ∷ rs)) none = false
has_role (some (r ∷ rs)) (some role) = any (λ x. same_role x role) (r ∷ rs)

pub record AuthenticatedUser : Type 0 where
  pub user_id : Uuid
  pub role : Role

-- `JwtStrategy.validate`, of the claims `sub` and `role`.
unfoldable pub validate : Option Uuid → Option Role → M AuthenticatedUser
validate (some sub) (some role) = pure (record { user_id = sub; role = role })
validate _ _ = raise (http (unauthorized "Unauthorized"))
