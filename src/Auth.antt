-- ===== src/Auth.antt =====
-- Accounts and sessions (src/auth/auth.service.ts). bcrypt, SHA-256, the signing of access tokens
-- and the rendering of random values are one interface; the times to live are parameters, in
-- milliseconds.
pub mod Tokens
pub mod Reset
use text.Mathlib.Text.{◌==◌ as str_eq}
use reedri_end.Base.{
  ℕ, ◌+◌, ◌-◌, ◌≡◌, ◌&&◌, ◌||◌, Bool, true, false, not, Option, none, some, List, [], ◌∷◌, ◌++◌,
  String, ◌==◌, ltb, is_some, if◌then◌else◌,
}
use reedri_end.Table.{find_first, update_many, create}
use reedri_end.Schema.{Uuid, Time, Role, ActiveProfile, User, RefreshToken, PasswordResetToken}
use reedri_end.World.{
  World, Sms, conflict, unauthorized, not_found, unique_violation, http, prisma, Result, ok, err, M,
  ◌>>=◌, ◌>>◌, pure, raise, gets, or_raise, raise_if, modify, write, draw,
}
use reedri_end.Users.{find_by_phone, find_by_id}

pub record Crypto : Type 0 where
  pub bcrypt_hash : String → (salt : ℕ) → String
  pub bcrypt_compare : String → String → Bool
  pub sha256_hex : String → String
  pub sign : Uuid → Role → Time → (expires_in : ℕ) → String
  pub hex_of_bytes : ℕ → String
  pub random_int : (low high random : ℕ) → ℕ
  pub to_text : ℕ → String
  pub compare_hash : (p : String) (salt : ℕ) → bcrypt_compare p (bcrypt_hash p salt) ≡ true

pub record TokenPair : Type 0 where
  pub access_token : String
  pub refresh_token : String

abbrev pub user_clash : User → User → Bool
user_clash a b = b.id == a.id || str_eq b.phone a.phone

abbrev pub refresh_token_clash : RefreshToken → RefreshToken → Bool
refresh_token_clash a b = b.id == a.id || str_eq b.token_hash a.token_hash

abbrev pub has_hash : String → RefreshToken → Bool
has_hash hash t = str_eq t.token_hash hash

abbrev pub find_refresh_token : String → World → Option RefreshToken
find_refresh_token hash w = find_first (has_hash hash) w.refresh_tokens

abbrev pub revoke : Time → RefreshToken → RefreshToken
revoke now t = record t { revoked_at = some now }

abbrev pub use_code : Time → PasswordResetToken → PasswordResetToken
use_code now t = record t { used_at = some now }

abbrev pub is_outstanding : Uuid → PasswordResetToken → Bool
is_outstanding user_id t = t.user_id == user_id && not (is_some t.used_at)

-- What makes `refresh` refuse a stored token.
abbrev pub is_refused : Time → RefreshToken → Bool
is_refused now t = is_some t.revoked_at || ltb t.expires_at now

unfoldable pub insert_user : User → World → Option World
insert_user u w = elim (create user_clash u w.users) [
  | none ↦ none
  | some rows ↦ some (record w { users = rows })
]

unfoldable pub insert_refresh_token : RefreshToken → World → Option World
insert_refresh_token t w = elim (create refresh_token_clash t w.refresh_tokens) [
  | none ↦ none
  | some rows ↦ some (record w { refresh_tokens = rows })
]

-- The transaction of `forgotPassword`.
unfoldable pub replace_code : Uuid → Time → PasswordResetToken → World → Option World
replace_code user_id now t w =
    elim (create (λ (a b : PasswordResetToken). b.id == a.id) t
      (update_many (is_outstanding user_id) (use_code now) w.password_reset_tokens)) [
        | none ↦ none
        | some rows ↦ some (record w { password_reset_tokens = rows })
      ]

-- The sessions of a user that are not revoked.
abbrev pub is_session : Uuid → RefreshToken → Bool
is_session user_id t = t.user_id == user_id && not (is_some t.revoked_at)

abbrev pub with_password : String → User → User
with_password password u = record u { password = password }

-- The transaction of `resetPassword`.
unfoldable pub reset_transaction : User → PasswordResetToken → String → World → World
reset_transaction user stored password_hash w = record w {
  password_reset_tokens =
      update_many (λ (t : PasswordResetToken). t.id == stored.id) (use_code w.now)
        w.password_reset_tokens;
  users = update_many (λ (u : User). u.id == user.id) (with_password password_hash) w.users;
  refresh_tokens = update_many (is_session user.id) (revoke w.now) w.refresh_tokens;
}

abbrev pub new_user : Uuid → String → String → String → User
new_user id name phone password_hash = record {
  id = id;
  name = name;
  phone = phone;
  password = password_hash;
  role = Role.user;
  active_profile = ActiveProfile.rider;
  rating = record { sum = 5; number = 1 };
}

-- `me`
unfoldable pub me : Uuid → M User
me user_id = do
  user ← or_raise (← gets (find_by_id user_id)) (http (not_found "User not found"))
  pure user

module _ (crypto : Crypto) (access_ttl refresh_ttl reset_ttl : ℕ) where
  -- `issueTokenPair`
  unfoldable pub issue_token_pair : Uuid → Role → M TokenPair
  issue_token_pair user_id role = do
    now ← gets (λ w. w.now)
    bytes ← draw
    id ← draw
    write unique_violation (
        insert_refresh_token (record {
          id = id;
          user_id = user_id;
          token_hash = crypto.sha256_hex (crypto.hex_of_bytes bytes);
          expires_at = now + refresh_ttl;
          revoked_at = none;
        }))
    pure (record {
      access_token = crypto.sign user_id role now access_ttl;
      refresh_token = crypto.hex_of_bytes bytes;
    })

  -- `register`
  unfoldable pub register : (name phone password : String) → M TokenPair
  register name phone password = do
    existing ← gets (find_by_phone phone)
    raise_if (is_some existing) (http (conflict "Phone number already registered"))
    salt ← draw
    id ← draw
    let user = new_user id name phone (crypto.bcrypt_hash password salt)
    write unique_violation (insert_user user)
    issue_token_pair user.id user.role

  -- `login`
  unfoldable pub login : (phone password : String) → M TokenPair
  login phone password = do
    user ← or_raise (← gets (find_by_phone phone)) (http (unauthorized "Invalid credentials"))
    raise_if (not (crypto.bcrypt_compare password user.password))
        (http (unauthorized "Invalid credentials"))
    issue_token_pair user.id user.role

  -- `refresh`, with the token that is stored.
  unfoldable pub rotate : RefreshToken → M TokenPair
  rotate stored = do
    now ← gets (λ w. w.now)
    modify (λ w. record w {
      refresh_tokens =
          update_many (λ (t : RefreshToken). t.id == stored.id) (revoke now) w.refresh_tokens;
    })
    user ← or_raise (← gets (find_by_id stored.user_id)) (http (unauthorized "Unauthorized"))
    issue_token_pair user.id user.role

  unfoldable pub refresh : String → M TokenPair
  refresh refresh_token = do
    found ← gets (find_refresh_token (crypto.sha256_hex refresh_token))
    stored ← or_raise found (http (unauthorized "Invalid or expired refresh token"))
    refused ← gets (λ w. is_refused w.now stored)
    raise_if refused (http (unauthorized "Invalid or expired refresh token"))
    rotate stored

  -- `forgotPassword`
  unfoldable pub send_code : User → M (Unit {0})
  send_code user = do
    random ← draw
    let code = crypto.random_int 100000 1000000 random
    id ← draw
    now ← gets (λ w. w.now)
    write unique_violation (
        replace_code user.id now (record {
          id = id;
          user_id = user.id;
          code_hash = crypto.sha256_hex (crypto.to_text code);
          expires_at = now + reset_ttl;
          used_at = none;
        }))
    modify (λ w. record w { outbox = w.outbox ++ record { phone = user.phone; code = code } ∷ [] })

  unfoldable pub forgot_password : String → M (Unit {0})
  forgot_password phone = do
    found ← gets (find_by_phone phone)
    elim found [ none ↦ pure tt | some user ↦ send_code user ]

  -- The reset code that `resetPassword` accepts.
  abbrev pub accepts_code : User → String → Time → PasswordResetToken → Bool
  accepts_code user code now t =
      t.user_id == user.id
      && (str_eq t.code_hash (crypto.sha256_hex code)
          && (not (is_some t.used_at) && ltb now t.expires_at))

  -- `resetPassword`
  unfoldable pub reset_password : (phone code new_password : String) → M (Unit {0})
  reset_password phone code new_password = do
    user ←
        or_raise (← gets (find_by_phone phone))
          (http (unauthorized "Invalid or expired reset code"))
    found ← gets (λ w. find_first (accepts_code user code w.now) w.password_reset_tokens)
    stored ← or_raise found (http (unauthorized "Invalid or expired reset code"))
    salt ← draw
    modify (reset_transaction user stored (crypto.bcrypt_hash new_password salt))

  -- `logout`
  unfoldable pub logout : String → M (Unit {0})
  logout refresh_token = modify λ w. record w {
    refresh_tokens =
        update_many
          (λ t. has_hash (crypto.sha256_hex refresh_token) t && not (is_some t.revoked_at))
          (revoke w.now) w.refresh_tokens;
  }
