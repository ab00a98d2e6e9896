-- ===== src/Access/Modes.antt =====
-- The guard on modes and the change of modes agree.
use reedri_end.Base.{
  ℕ, ◌≡◌, refl, true, false, ◌&&◌, not, Option, none, some, arith, ◌==◌, Option-cases, inl, inr,
  ◌∙◌, ap, is_some,
}
use reedri_end.Table.{find_first}
use reedri_end.Table.Laws.{find_first-update_many, find_first-accepted}
use reedri_end.Schema.{Uuid, ActiveProfile, same_profile, User, DriverProfile}
use reedri_end.World.{World, DriverIdentity, after, ok, err, Result, http, forbidden, M, ◌>>◌, pure}
use reedri_end.World.Rules.{>>=-split, >>=-after}
use reedri_end.Queue.{JobQueue}
use reedri_end.Cache.{get_or_set, set}
use reedri_end.Offers.{find_profile_of_user, schedule_driver_offer_expiry}
use reedri_end.Drivers.{find_identity_by_user_id, update_profile, take_offline, go_offline}
use reedri_end.Users.{update_user, set_active_profile, with_profile, find_by_id}
use reedri_end.Access.{can_activate, switch_message}

module _ (queue : JobQueue) (seconds : ℕ) where
  take_offline-users :
      (u : Uuid) (o : Option DriverIdentity) (w : World)
      → (after (take_offline queue seconds u o) w).users ≡ w.users
  unfolding take_offline update_profile schedule_driver_offer_expiry
  take_offline-users u none w = refl
  take_offline-users u (some i) w = elim (Option-cases (find_profile_of_user u w)) [
    | inl e ↦ ground (arith, e)
    | inr (p, e) ↦ ground (arith, e)
  ]

  find_identity-users :
      (u : Uuid) (w : World) → (after (find_identity_by_user_id u) w).users ≡ w.users
  unfolding find_identity_by_user_id get_or_set set
  find_identity-users u w = ground arith

  go_offline-users : (u : Uuid) (w : World) → (after (go_offline queue seconds u) w).users ≡ w.users
  unfolding go_offline
  go_offline-users u w =
      >>=-after (λ (v : World). v.users ≡ w.users) (find_identity_by_user_id u)
        (take_offline queue seconds u) w (find_identity-users u w)
        (λ o e.
          take_offline-users u o (after (find_identity_by_user_id u) w) ∙ find_identity-users u w)

  updated_mode :
      (u : Uuid) (p : ActiveProfile) (user : User) (w : World)
      → (update_user u (with_profile p) w).0 ≡ ok user
      → (row : User) × (find_by_id u (after (update_user u (with_profile p)) w) ≡ some row)
        × (row.active_profile ≡ p)
  unfolding update_user
  updated_mode u p user w e = elim (Option-cases (find_by_id u w)) [
    | inl missing ↦ absurd (ground (arith, missing, e))
    | inr (x, there) ↦ (
      with_profile p x,
      ground (
        arith,
        there,
        find_first-accepted (λ (y : User). y.id == u) w.users x there,
        find_first-update_many (λ (y : User). y.id == u) (λ (y : User). y.id == u) (with_profile p)
            w.users (λ y. refl),
      ),
      refl,
    )
  ]

  profile_kept :
      (u : Uuid) (f : User → User) (w : World)
      → find_profile_of_user u (after (update_user u f) w) ≡ find_profile_of_user u w
  unfolding update_user
  profile_kept u f w = elim (Option-cases (find_by_id u w)) [
    | inl e ↦ ground (arith, e)
    | inr (x, e) ↦ ground (arith, e)
  ]

  driver_mode-ok :
      (u : Uuid) (user : User) (w : World)
      → (set_active_profile queue seconds u ActiveProfile.driver w).0 ≡ ok user
      → (row : User) × (profile : DriverProfile) × (find_by_id u
            (after (set_active_profile queue seconds u ActiveProfile.driver) w)
          ≡ some row)
        × (row.active_profile ≡ ActiveProfile.driver)
        × (find_profile_of_user u
              (after (set_active_profile queue seconds u ActiveProfile.driver) w)
            ≡ some profile)
  unfolding set_active_profile
  driver_mode-ok u user w e = elim (Option-cases (find_profile_of_user u w)) [
    | inl missing ↦ absurd (ground (arith, missing, e))
    | inr (profile, there) ↦
        let done : (update_user u (with_profile ActiveProfile.driver) w).0 ≡ ok user =
          ground (arith, there, e) in
        let same : after (set_active_profile queue seconds u ActiveProfile.driver) w
            ≡ after (update_user u (with_profile ActiveProfile.driver)) w =
          ground (arith, there) in
        let (row, found, mode) = updated_mode u ActiveProfile.driver user w done in
        (
          row,
          profile,
          ap (find_by_id u) same ∙ found,
          mode,
          ap (find_profile_of_user u) same
              ∙ profile_kept u (with_profile ActiveProfile.driver) w
              ∙ there,
        )
  ]

  rider_mode-ok :
      (u : Uuid) (user : User) (w : World)
      → (set_active_profile queue seconds u ActiveProfile.rider w).0 ≡ ok user
      → (row : User) × (find_by_id u
            (after (set_active_profile queue seconds u ActiveProfile.rider) w)
          ≡ some row)
        × (row.active_profile ≡ ActiveProfile.rider)
  unfolding set_active_profile
  rider_mode-ok u user w e =
      let m : M User = update_user u (with_profile ActiveProfile.rider) in
      let k : User → M User = λ x. go_offline queue seconds u >> pure x in
      elim (>>=-split m k w) [
        | inl (f, thrown, whole) ↦
            absurd (ground (arith, ap (λ (x : Result User × World). x.0) whole, e))
        | inr (x, updated, whole) ↦
            let v : World = after m w in
            let (row, found, mode) = updated_mode u ActiveProfile.rider x w updated in
            let same : (after (set_active_profile queue seconds u ActiveProfile.rider) w).users
                ≡ v.users =
              ap (λ (y : Result User × World). y.1.users) whole
              ∙ >>=-after (λ (y : World). y.users ≡ v.users) (go_offline queue seconds u)
                  (λ _. pure x) v (go_offline-users u v) (λ _ returned. go_offline-users u v) in
            (row, ap (find_first (λ (y : User). y.id == u)) same ∙ found, mode)
      ]

guard_opens :
    (p : ActiveProfile) (u : Uuid) (row : User) (v : World)
    → find_by_id u v ≡ some row
    → row.active_profile ≡ p
    → (same_profile p ActiveProfile.driver && not (is_some (find_profile_of_user u v))) ≡ false
    → can_activate (some p) (some u) v ≡ (ok true, v)
unfolding can_activate
guard_opens ActiveProfile.driver u row v found mode verified = ground (arith, found, mode, verified)
guard_opens ActiveProfile.rider u row v found mode verified = ground (arith, found, mode, verified)

guard_shuts :
    (p other : ActiveProfile) (u : Uuid) (row : User) (v : World)
    → find_by_id u v ≡ some row
    → row.active_profile ≡ p
    → same_profile p other ≡ false
    → can_activate (some other) (some u) v ≡ (err (http (forbidden (switch_message other))), v)
unfolding can_activate
guard_shuts p other u row v found mode apart = ground (arith, found, mode, apart)

-- Once a change of mode has returned, the guard lets the user into what is for the new mode and
-- refuses what is for the other one; for the driver's mode this says that the user has a profile.
pub set_active_profile-gates :
    (queue : JobQueue) (seconds : ℕ) (p other : ActiveProfile) (u : Uuid) (user : User) (w : World)
    → (set_active_profile queue seconds u p w).0 ≡ ok user
    → same_profile p other ≡ false
    → let v = after (set_active_profile queue seconds u p) w in
      (can_activate (some p) (some u) v ≡ (ok true, v))
      × (can_activate (some other) (some u) v ≡ (err (http (forbidden (switch_message other))), v))
set_active_profile-gates queue seconds ActiveProfile.driver other u user w e apart =
    let (row, profile, found, mode, there) = driver_mode-ok queue seconds u user w e in
    (
      guard_opens ActiveProfile.driver u row _ found mode (ground (arith, there)),
      guard_shuts ActiveProfile.driver other u row _ found mode apart,
    )
set_active_profile-gates queue seconds ActiveProfile.rider other u user w e apart =
    let (row, found, mode) = rider_mode-ok queue seconds u user w e in
    (
      guard_opens ActiveProfile.rider u row _ found mode refl,
      guard_shuts ActiveProfile.rider other u row _ found mode apart,
    )
