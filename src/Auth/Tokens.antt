-- ===== src/Auth/Tokens.antt =====
-- Sessions and reset codes end when they should.
use reedri_end.Base.{
  ℕ, ◌+◌, ◌≡◌, refl, Bool, true, ◌&&◌, not, none, some, [], ◌∷◌, ◌++◌, String, arith, ◌==◌,
  if◌then◌else◌, Option-cases, Bool-cases, inl, inr, subst, sym, ◌∙◌, ==_refl, ap, map_option,
  is_some,
}
use reedri_end.Table.{find_first, update_many, create}
use reedri_end.Table.Laws.{find_first-accepted, find_first-update_many, find_first-append}
use reedri_end.Schema.{Uuid, Time, Role, RefreshToken}
use reedri_end.World.{World, after, ok, err, Failure, http, unauthorized}
use reedri_end.Users.{find_by_id}
use reedri_end.Auth.{
  Crypto, TokenPair, has_hash, find_refresh_token, revoke, is_refused, insert_refresh_token,
  issue_token_pair, rotate, refresh, logout,
}

abbrev pub refused_token : Failure
refused_token = http (unauthorized "Invalid or expired refresh token")

module _ (crypto : Crypto) (access_ttl refresh_ttl reset_ttl : ℕ) where
  -- A token that is stored revoked or expired is refused, and nothing changes.
  pub refresh-refused :
      (token : String) (t : RefreshToken) (w : World)
      → find_refresh_token (crypto.sha256_hex token) w ≡ some t
      → is_refused w.now t ≡ true
      → refresh crypto access_ttl refresh_ttl reset_ttl token w ≡ (err refused_token, w)
  unfolding refresh
  refresh-refused token t w e r = ground (arith, e, r)

  issue-appended :
      (user_id : Uuid) (role : Role) (pair : TokenPair) (w : World)
      → (issue_token_pair crypto access_ttl refresh_ttl reset_ttl user_id role w).0 ≡ ok pair
      → (t : RefreshToken) × ((after
            (issue_token_pair crypto access_ttl refresh_ttl reset_ttl user_id role)
            w).refresh_tokens
          ≡ w.refresh_tokens ++ t ∷ [])
  unfolding issue_token_pair insert_refresh_token create
  issue-appended user_id role pair w e = (
    record {
      id = w.random 1;
      user_id = user_id;
      token_hash = crypto.sha256_hex (crypto.hex_of_bytes (w.random 0));
      expires_at = w.now + refresh_ttl;
      revoked_at = none;
    },
    ground (arith, e),
  )

  rotate-revokes :
      (stored : RefreshToken) (hash : String) (pair : TokenPair) (w : World)
      → find_refresh_token hash w ≡ some stored
      → (rotate crypto access_ttl refresh_ttl reset_ttl stored w).0 ≡ ok pair
      → find_refresh_token hash (after (rotate crypto access_ttl refresh_ttl reset_ttl stored) w)
        ≡ some (revoke w.now stored)
  unfolding rotate
  rotate-revokes stored hash pair w found returned =
      let v : World = record w {
        refresh_tokens =
            update_many (λ (t : RefreshToken). t.id == stored.id) (revoke w.now) w.refresh_tokens;
      } in
      let revoked : find_refresh_token hash v ≡ some (revoke w.now stored) =
        find_first-update_many (has_hash hash) (λ (t : RefreshToken). t.id == stored.id)
          (revoke w.now) w.refresh_tokens (λ t. refl)
        ∙ ground (arith, found, ==_refl stored.id) in
      elim (Option-cases (find_by_id stored.user_id w)) [
        | inl missing ↦ absurd (ground (arith, missing, returned))
        | inr (user, there) ↦
            let issued : (issue_token_pair crypto access_ttl refresh_ttl reset_ttl user.id user.role
                  v).0
                ≡ ok pair =
              ground (arith, there, returned) in
            let same : after (rotate crypto access_ttl refresh_ttl reset_ttl stored) w
                ≡ after (issue_token_pair crypto access_ttl refresh_ttl reset_ttl user.id user.role)
                    v =
              ground (arith, there) in
            let (t, appended) = issue-appended user.id user.role pair v issued in
            subst (λ (x : World). find_refresh_token hash x ≡ some (revoke w.now stored)) (sym same)
              (ap (find_first (has_hash hash)) appended
                ∙ find_first-append (has_hash hash) v.refresh_tokens (t ∷ [])
                ∙ ground (arith, revoked))
      ]

  -- A refresh token that was used once is refused ever after, at whatever time, and that second use
  -- changes nothing.
  pub refresh-once :
      (token : String) (pair : TokenPair) (later : Time) (w : World)
      → (refresh crypto access_ttl refresh_ttl reset_ttl token w).0 ≡ ok pair
      → let v = record (after (refresh crypto access_ttl refresh_ttl reset_ttl token) w) {
        now = later;
      } in
        refresh crypto access_ttl refresh_ttl reset_ttl token v ≡ (err refused_token, v)
  unfolding refresh
  refresh-once token pair later w returned =
      let hash : String = crypto.sha256_hex token in
      elim (Option-cases (find_refresh_token hash w)) [
        | inl missing ↦ absurd (ground (arith, missing, returned))
        | inr (stored, found) ↦ elim (Bool-cases (is_refused w.now stored)) [
          | inl bad ↦ absurd (ground (arith, found, bad, returned))
          | inr good ↦
              let rotated : (rotate crypto access_ttl refresh_ttl reset_ttl stored w).0 ≡ ok pair =
                ground (arith, found, good, returned) in
              let same : after (refresh crypto access_ttl refresh_ttl reset_ttl token) w
                  ≡ after (rotate crypto access_ttl refresh_ttl reset_ttl stored) w =
                ground (arith, found, good) in
              refresh-refused token (revoke w.now stored)
                (record (after (refresh crypto access_ttl refresh_ttl reset_ttl token) w) {
                  now = later;
                })
                (subst (λ (x : World). find_refresh_token hash x ≡ some (revoke w.now stored))
                  (sym same) (rotate-revokes stored hash pair w found rotated))
                refl
        ]
      ]

  -- After a logout with a refresh token, the token is refused, at whatever time, be it known or not.
  pub logout-ends :
      (token : String) (later : Time) (w : World)
      → let v = record (after (logout crypto access_ttl refresh_ttl reset_ttl token) w) {
        now = later;
      } in
        refresh crypto access_ttl refresh_ttl reset_ttl token v ≡ (err refused_token, v)
  unfolding logout refresh
  logout-ends token later w =
      let hash : String = crypto.sha256_hex token in
      let q : RefreshToken → Bool = λ t. has_hash hash t && not (is_some t.revoked_at) in
      let shape : find_first (has_hash hash) (update_many q (revoke w.now) w.refresh_tokens)
          ≡ map_option (λ t. if q t then revoke w.now t else t) (find_refresh_token hash w) =
        find_first-update_many (has_hash hash) q (revoke w.now) w.refresh_tokens (λ t. refl) in
      elim (Option-cases (find_refresh_token hash w)) [
        | inl missing ↦ ground (arith, shape, missing)
        | inr (t, found) ↦ elim (Option-cases t.revoked_at) [
          | inl fresh ↦ ground (
            arith,
            shape,
            found,
            fresh,
            find_first-accepted (has_hash hash) w.refresh_tokens t found,
          )
          | inr (at, dead) ↦ ground (arith, shape, found, dead)
        ]
      ]
