-- ===== src/Auth/Reset.antt =====
-- The reset of a password: the code that is sent is the one that is accepted, and a reset ends the
-- sessions of the user.
use text.Mathlib.Text.{◌==◌ as str_eq}
use text.Mathlib.TextPositions.{eq_refl}
use reedri_end.Base.{
  ℕ, suc, ◌+◌, ◌≡◌, refl, true, false, none, some, List, [], ◌∷◌, ◌++◌, String, arith, ◌==◌, ltb,
  if◌then◌else◌, Option-cases, Bool-cases, inl, inr, subst, sym, ◌∙◌, ==_refl, ap, map_option,
  is_some, All-always,
}
use reedri_end.Table.{find_first, update_many, create, count}
use reedri_end.Table.Laws.{find_first-update_many}
use reedri_end.Table.Any.{find_first-last}
use reedri_end.Table.Counts.{count-append, count-vanishes}
use reedri_end.Schema.{Time, User, RefreshToken, PasswordResetToken}
use reedri_end.World.{World, after, ok, err}
use reedri_end.Users.{find_by_phone}
use reedri_end.Auth.{
  Crypto, has_hash, find_refresh_token, revoke, use_code, is_outstanding, replace_code, is_session,
  with_password, reset_transaction, issue_token_pair, login, refresh, send_code, forgot_password,
  accepts_code, reset_password,
}
use reedri_end.Auth.Tokens.{refused_token, refresh-refused}

module _ (crypto : Crypto) (access_ttl refresh_ttl reset_ttl : ℕ) where
  -- What a reset that returns has written.
  record IsReset (phone code password : String) (w v : World) (user : User)
      (stored : PasswordResetToken) : Type 0 where
    pub known : find_by_phone phone w ≡ some user
    pub code_found :
        find_first
          (accepts_code crypto access_ttl refresh_ttl reset_ttl user code w.now)
          w.password_reset_tokens
        ≡ some stored
    pub written :
        v
        ≡ reset_transaction user stored
            (crypto.bcrypt_hash password (w.random 0))
            (record w { random = λ n. w.random (suc n) })

  reset_password-IsReset :
      (phone code password : String) (w : World)
      → (reset_password crypto access_ttl refresh_ttl reset_ttl phone code password w).0 ≡ ok tt
      → (user : User) × (stored : PasswordResetToken) × IsReset phone code password w
          (after (reset_password crypto access_ttl refresh_ttl reset_ttl phone code password) w)
          user
          stored
  unfolding reset_password
  reset_password-IsReset phone code password w returned =
      elim (Option-cases (find_by_phone phone w)) [
        | inl unknown ↦ absurd (ground (arith, unknown, returned))
        | inr (user, known) ↦
            elim (Option-cases (
              find_first (accepts_code crypto access_ttl refresh_ttl reset_ttl user code w.now)
                w.password_reset_tokens)) [
                  | inl wrong ↦ absurd (ground (arith, known, wrong, returned))
                  | inr (stored, found) ↦ (
                    user,
                    stored,
                    record {
                      known = known;
                      code_found = found;
                      written = ground (arith, known, found);
                    },
                  )
                ]
      ]

  session-ended :
      (user : User) (now : Time) (hash : String) (t : RefreshToken) (rows : List RefreshToken)
      → find_first (has_hash hash) (update_many (is_session user.id) (revoke now) rows) ≡ some t
      → t.user_id ≡ user.id
      → is_some t.revoked_at ≡ true
  session-ended user now hash t rows found own =
      let shape : find_first (has_hash hash) (update_many (is_session user.id) (revoke now) rows)
          ≡ map_option (λ x. if is_session user.id x then revoke now x else x)
              (find_first (has_hash hash) rows) =
        find_first-update_many (has_hash hash) (is_session user.id) (revoke now) rows (λ x. refl) in
      elim (Option-cases (find_first (has_hash hash) rows)) [
        | inl missing ↦ absurd (ground (arith, shape, missing, found))
        | inr (x, there) ↦ elim (Bool-cases (is_session user.id x)) [
          | inl live ↦ ground (arith, shape, there, live, found)
          | inr dead ↦
              let same : x ≡ t = ground (arith, shape, there, dead, found) in
              ground (
                arith,
                dead,
                own,
                same,
                subst (λ (y : RefreshToken). is_session user.id y ≡ false) same dead,
                ==_refl user.id,
              )
        ]
      ]

  password_set :
      (user : User) (phone password_hash : String) (users : List User)
      → find_first (λ (u : User). str_eq u.phone phone) users ≡ some user
      → find_first
          (λ (u : User). str_eq u.phone phone)
          (update_many (λ (u : User). u.id == user.id) (with_password password_hash) users)
        ≡ some (with_password password_hash user)
  password_set user phone password_hash users e =
      find_first-update_many (λ (u : User). str_eq u.phone phone) (λ (u : User). u.id == user.id)
        (with_password password_hash) users (λ u. refl)
      ∙ ground (arith, e, ==_refl user.id)

  -- After a reset of a password that returns, every refresh token of the user that is stored is
  -- refused, at whatever time, and a login with the new password passes and issues a pair of tokens
  -- for the user.
  pub reset_password-resets :
      (phone code password : String) (w : World)
      → (reset_password crypto access_ttl refresh_ttl reset_ttl phone code password w).0 ≡ ok tt
      → let v =
          after (reset_password crypto access_ttl refresh_ttl reset_ttl phone code password) w in
        (user : User) × (find_by_phone phone w ≡ some user)
        × ((token : String) (t : RefreshToken) (later : Time)
            → find_refresh_token (crypto.sha256_hex token) v ≡ some t
            → t.user_id ≡ user.id
            → refresh crypto access_ttl refresh_ttl reset_ttl token (record v { now = later })
              ≡ (err refused_token, record v { now = later }))
        × (login crypto access_ttl refresh_ttl reset_ttl phone password v
            ≡ issue_token_pair crypto access_ttl refresh_ttl reset_ttl user.id user.role v)
  unfolding login reset_transaction
  reset_password-resets phone code password w returned =
      let v : World =
        after (reset_password crypto access_ttl refresh_ttl reset_ttl phone code password) w in
      let (user, stored, h) = reset_password-IsReset phone code password w returned in
      let hash : String = crypto.bcrypt_hash password (w.random 0) in
      let set : find_by_phone phone v ≡ some (with_password hash user) =
        subst (λ (x : World). find_by_phone phone x ≡ some (with_password hash user))
          (sym h.written) (password_set user phone hash w.users h.known) in
      (
        user,
        h.known,
        λ token t later found own.
            refresh-refused crypto access_ttl refresh_ttl reset_ttl token t
              (record v { now = later }) found
              (ground (
                arith,
                session-ended user w.now (crypto.sha256_hex token) t w.refresh_tokens
                    (subst (λ (x : World). find_refresh_token (crypto.sha256_hex token) x ≡ some t)
                      h.written found)
                    own,
              )),
        ground (arith, set, crypto.compare_hash password (w.random 0)),
      )

  -- The row of the code that `forgotPassword` draws.
  abbrev drawn_code : User → World → PasswordResetToken
  drawn_code user w = record {
    id = w.random 1;
    user_id = user.id;
    code_hash = crypto.sha256_hex (crypto.to_text (crypto.random_int 100000 1000000 (w.random 0)));
    expires_at = w.now + reset_ttl;
    used_at = none;
  }

  send_code-written :
      (user : User) (w : World)
      → (send_code crypto access_ttl refresh_ttl reset_ttl user w).0 ≡ ok tt
      → let v = after (send_code crypto access_ttl refresh_ttl reset_ttl user) w in
        (v.password_reset_tokens
          ≡ update_many (is_outstanding user.id) (use_code w.now) w.password_reset_tokens
            ++ drawn_code user w ∷ [])
        × (v.outbox
            ≡ w.outbox
              ++ record { phone = user.phone; code = crypto.random_int 100000 1000000 (w.random 0) }
                ∷ [])
        × (v.users ≡ w.users)
  unfolding send_code replace_code create
  send_code-written user w returned =
      (ground (arith, returned), ground (arith, returned), ground (arith, returned))

  one_outstanding :
      (user : User) (w : World)
      → count (is_outstanding user.id) (
          update_many (is_outstanding user.id) (use_code w.now) w.password_reset_tokens
          ++ drawn_code user w ∷ [])
        ≡ 1
  unfolding count
  one_outstanding user w =
      count-append (is_outstanding user.id)
        (update_many (is_outstanding user.id) (use_code w.now) w.password_reset_tokens)
        (drawn_code user w ∷ [])
      ∙ ground (
        arith,
        ==_refl user.id,
        count-vanishes (is_outstanding user.id) (is_outstanding user.id) (use_code w.now)
            w.password_reset_tokens
            (All-always
              (λ (t : PasswordResetToken).
                is_outstanding user.id (if is_outstanding user.id t then use_code w.now t else t)
                ≡ false)
              (λ t. elim (Bool-cases (is_outstanding user.id t)) [
                | inl live ↦ ground (arith, live)
                | inr dead ↦ rw dead dead
              ])
              w.password_reset_tokens),
      )

  -- When a code was sent to a known phone number, it is the one outstanding code of the user, it went
  -- to the number in the last message, and a reset with it and any new password goes through at any
  -- time before it expires.
  pub forgot_password-reset :
      (phone password : String) (user : User) (later : Time) (w : World)
      → find_by_phone phone w ≡ some user
      → (forgot_password crypto access_ttl refresh_ttl reset_ttl phone w).0 ≡ ok tt
      → ltb later (w.now + reset_ttl) ≡ true
      → let v = after (forgot_password crypto access_ttl refresh_ttl reset_ttl phone) w in
        (code : ℕ) × (v.outbox ≡ w.outbox ++ record { phone = user.phone; code = code } ∷ [])
        × (count (is_outstanding user.id) v.password_reset_tokens ≡ 1)
        × ((reset_password crypto access_ttl refresh_ttl reset_ttl phone
              (crypto.to_text code)
              password
              (record v { now = later })).0
            ≡ ok tt)
  unfolding forgot_password reset_password
  forgot_password-reset phone password user later w known returned early =
      let code : ℕ = crypto.random_int 100000 1000000 (w.random 0) in
      let v : World = after (forgot_password crypto access_ttl refresh_ttl reset_ttl phone) w in
      let same : v ≡ after (send_code crypto access_ttl refresh_ttl reset_ttl user) w =
        ground (arith, known) in
      let sent : (send_code crypto access_ttl refresh_ttl reset_ttl user w).0 ≡ ok tt =
        ground (arith, known, returned) in
      let (rows, outbox, users) = send_code-written user w sent in
      let (y, found) =
        find_first-last
          (accepts_code crypto access_ttl refresh_ttl reset_ttl user (crypto.to_text code) later)
          (update_many (is_outstanding user.id) (use_code w.now) w.password_reset_tokens)
          (drawn_code user w)
          (ground
            (arith, early, ==_refl user.id, eq_refl (crypto.sha256_hex (crypto.to_text code)))) in
      let row : v.password_reset_tokens
          ≡ update_many (is_outstanding user.id) (use_code w.now) w.password_reset_tokens
            ++ drawn_code user w ∷ [] =
        ap (λ (x : World). x.password_reset_tokens) same ∙ rows in
      let still : find_by_phone phone v ≡ some user =
        ap (λ (x : World). find_by_phone phone x) same
        ∙ ap (find_first (λ (u : User). str_eq u.phone phone)) users
        ∙ known in
      (
        code,
        ap (λ (x : World). x.outbox) same ∙ outbox,
        ap (count (is_outstanding user.id)) row ∙ one_outstanding user w,
        ground (
          arith,
          still,
          ap
                (find_first (
                  accepts_code crypto access_ttl refresh_ttl reset_ttl user (crypto.to_text code)
                    later))
                row
              ∙ found,
        ),
      )
