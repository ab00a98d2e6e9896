-- ===== src/Http.antt =====
-- How a request to the HTTP interface is served: the guards before the handlers
-- (src/common/guards), the validation of the body, and the answers (src/common/interceptors and
-- src/common/filters). What the strategy of the tokens hands on is `none` where a token is
-- missing, forged or expired. The handlers are in the modules below.
pub mod Envelope
pub mod Forms
pub mod Responses
pub mod Journeys
pub mod Onboarding
pub mod Accounts
pub mod Api
use reedri_end.Base.{Bool, not, Option, none, some, List}
use reedri_end.Schema.{Uuid, Role, ActiveProfile}
use reedri_end.World.{
  World, bad_request, unauthorized, forbidden, http, Result, ok, err, M, ◌>>=◌, ◌>>◌, pure, raise,
  raise_if,
}
use reedri_end.Access.{AuthenticatedUser, can_activate, has_role, validate}

-- The claims of an access token that was verified.
pub record Claims : Type 0 where
  pub sub : Option Uuid
  pub role : Option Role

-- `JwtAuthGuard`
unfoldable pub authenticate : Option Claims → M AuthenticatedUser
unfolding validate
authenticate none = raise (http (unauthorized "Unauthorized"))
authenticate (some c) = validate c.sub c.role

-- What the `ValidationPipe` throws; class-validator writes the list of its messages.
abbrev pub validated : Bool → M (Unit {0})
validated accepted = raise_if (not accepted) (http (bad_request "Bad Request Exception"))

-- A result that is turned into its response class.
abbrev pub answered {ℓ κ} : {A : Type ℓ} {B : Type κ} → (A → B) → M A → M B
answered f m = m >>= λ a. pure (f a)

-- `ActiveProfileGuard` after `JwtAuthGuard`.
unfoldable pub enter_mode : Option ActiveProfile → Option Claims → M AuthenticatedUser
enter_mode required token = do
  user ← authenticate token
  opened ← can_activate required (some user.user_id)
  pure user

-- `RolesGuard` after `JwtAuthGuard`.
unfoldable pub enter_role : List Role → Option Claims → M AuthenticatedUser
enter_role roles token = do
  user ← authenticate token
  raise_if (not (has_role (some roles) (some user.role))) (http (forbidden "Forbidden resource"))
  pure user

module _ {ℓ} {A : Type ℓ} where
  -- `@UseGuards(JwtAuthGuard)`
  abbrev pub signed_in : Option Claims → (AuthenticatedUser → M A) → M A
  signed_in token handler = authenticate token >>= handler

  -- `@UseGuards(JwtAuthGuard, ActiveProfileGuard)`, of what `@RequireProfile` says.
  abbrev pub in_profile : Option ActiveProfile → Option Claims → (AuthenticatedUser → M A) → M A
  in_profile required token handler = enter_mode required token >>= handler

  -- `@UseGuards(JwtAuthGuard, RolesGuard)`, of what `@Roles` says.
  abbrev pub for_roles : List Role → Option Claims → (AuthenticatedUser → M A) → M A
  for_roles roles token handler = enter_role roles token >>= handler
