-- ===== src/Users/Modes.antt =====
-- What a change of mode does for the search for drivers.
use reedri_end.Base.{
  ℕ, ◌*◌, map, or_default, ◌≡◌, refl, true, false, Option, some, List, [], ◌∷◌, arith, ◌==◌,
  Option-cases, Bool-cases, inl, inr, subst, sym, ap, All, All-mono, All-always,
}
use reedri_end.Table.{update_many}
use reedri_end.Table.Laws.{All-update_many}
use reedri_end.Table.Counts.{none-All}
use reedri_end.Schema.{Uuid, ActiveProfile, User, DriverProfile}
use reedri_end.World.{World, after, ok, Result, ◌>>◌, pure}
use reedri_end.World.Rules.{>>=-split, >>=-after}
use reedri_end.Queue.{JobQueue}
use reedri_end.Offers.{find_profile_of_user, schedule_driver_offer_expiry}
use reedri_end.Matching.{
  Geography, Point, NearbyDriver, location, take, Ranked, sort_by_rank, nearby_row, nearby_rows,
  ranked_drivers, find_nearby_drivers, match_limit,
}
use reedri_end.Matching.Search.{sort-All, take-All}
use reedri_end.Drivers.{update_profile, with_online, take_offline, go_offline}
use reedri_end.Drivers.Identity.{IsCoherent, Agrees, stored_identity, identity_then, looked_up}
use reedri_end.Users.{update_user, set_active_profile, with_profile, find_by_id}

-- The profiles of a user are offline.
abbrev pub IsOffline : Uuid → List DriverProfile → Type 0
IsOffline u ps = All (λ (p : DriverProfile). (p.user_id == u) ≡ true → p.is_online ≡ false) ps

-- A search result has no row of the user.
abbrev pub IsAbsent : Uuid → List NearbyDriver → Type 0
IsAbsent u ds = All (λ (d : NearbyDriver). (d.user_id == u) ≡ false) ds

-- The same, of ranked rows.
abbrev IsOther : Uuid → Ranked → Type 0
IsOther u d = (d.row.user_id == u) ≡ false

rows_of :
    (u : Uuid) (ds : List Ranked) → All (IsOther u) ds → IsAbsent u (map (λ (d : Ranked). d.row) ds)
rows_of u [] h = tt
rows_of u (d ∷ ds) h = (h.0, rows_of u ds h.1)

module _ (geography : Geography) (radius_km : ℕ) where
  row_of :
      (u : Uuid) (at : Point) (radius : ℕ) (p : DriverProfile) (row : Ranked)
      → nearby_row geography radius_km at radius p ≡ some row
      → ((p.user_id == u) ≡ true → p.is_online ≡ false)
      → (row.row.user_id == u) ≡ false
  row_of u at radius p row e h =
      ground (
        arith,
        e,
        h,
        Bool-cases p.is_online,
        Option-cases (location p),
        Bool-cases (p.user_id == u),
      )

  rows-IsOther :
      (u : Uuid) (at : Point) (radius : ℕ) (ps : List DriverProfile)
      → IsOffline u ps
      → All (IsOther u) (nearby_rows geography radius_km at radius ps)
  unfolding nearby_rows
  rows-IsOther u at radius [] h = tt
  rows-IsOther u at radius (p ∷ ps) h =
      elim (Option-cases (nearby_row geography radius_km at radius p)) [
        | inl out ↦
            let same : nearby_rows geography radius_km at radius (p ∷ ps)
                ≡ nearby_rows geography radius_km at radius ps =
              ground (arith, out) in
            subst (All (IsOther u)) (sym same) (rows-IsOther u at radius ps h.1)
        | inr (row, present) ↦
            let same : nearby_rows geography radius_km at radius (p ∷ ps)
                ≡ row ∷ nearby_rows geography radius_km at radius ps =
              ground (arith, present) in
            subst (All (IsOther u)) (sym same)
              (row_of u at radius p row present h.0, rows-IsOther u at radius ps h.1)
      ]

  find_nearby-IsAbsent :
      (u : Uuid) (at : Point) (radius : Option ℕ) (w : World)
      → IsOffline u w.driver_profiles
      → IsAbsent u (find_nearby_drivers geography radius_km at radius w)
  unfolding find_nearby_drivers ranked_drivers
  find_nearby-IsAbsent u at radius w h =
      let rows : List Ranked =
        nearby_rows geography radius_km at (or_default radius radius_km * 1000) w.driver_profiles in
      rows_of u (take match_limit (sort_by_rank rows)) (
        take-All (IsOther u) match_limit (sort_by_rank rows) (
          sort-All (IsOther u) rows
            (rows-IsOther u at (or_default radius radius_km * 1000) w.driver_profiles h)))

updated-IsOffline :
    (u : Uuid) (ps : List DriverProfile)
    → IsOffline u (update_many (λ (x : DriverProfile). x.user_id == u) (with_online false) ps)
updated-IsOffline u ps =
    All-update_many (λ (p : DriverProfile). Unit {0})
      (λ (p : DriverProfile). (p.user_id == u) ≡ true → p.is_online ≡ false)
      (λ (x : DriverProfile). x.user_id == u) (with_online false) (λ p _ hit own. refl)
      (λ p _ miss own. ground (arith, miss, own)) ps
      (All-always (λ (p : DriverProfile). Unit {0}) (λ p. tt) ps)

as_agreed :
    (w v : World)
    → v.driver_profiles ≡ w.driver_profiles
    → v.cache ≡ w.cache
    → IsCoherent w
    → IsCoherent v
as_agreed w v profiles cache h =
    subst (λ ps. All (Agrees ps) v.cache) (sym profiles)
      (subst (All (Agrees w.driver_profiles)) (sym cache) h)

module _ (queue : JobQueue) (seconds : ℕ) where
  go_offline-IsOffline :
      (u : Uuid) (w : World)
      → IsCoherent w
      → IsOffline u (after (go_offline queue seconds u) w).driver_profiles
  unfolding go_offline take_offline update_profile schedule_driver_offer_expiry
  go_offline-IsOffline u w h =
      subst (λ (x : Result (Unit {0}) × World). IsOffline u x.1.driver_profiles)
        (sym (identity_then u (take_offline queue seconds u) w h))
        (elim (Option-cases (find_profile_of_user u w)) [
          | inl e ↦
              let same : (after (take_offline queue seconds u (stored_identity u w.driver_profiles))
                    (looked_up u w)).driver_profiles
                  ≡ w.driver_profiles =
                ground (arith, e) in
              subst (IsOffline u) (sym same) (
                All-mono (λ (p : DriverProfile). (p.user_id == u) ≡ false)
                  (λ (p : DriverProfile). (p.user_id == u) ≡ true → p.is_online ≡ false)
                  (λ p other own. ground (arith, other, own)) w.driver_profiles
                  (none-All (λ (p : DriverProfile). p.user_id == u) w.driver_profiles e))
          | inr (p, e) ↦
              let same : (after (take_offline queue seconds u (stored_identity u w.driver_profiles))
                    (looked_up u w)).driver_profiles
                  ≡ update_many (λ (x : DriverProfile). x.user_id == u) (with_online false)
                      w.driver_profiles =
                ground (arith, e) in
              subst (IsOffline u) (sym same) (updated-IsOffline u w.driver_profiles)
        ])

  update_user-kept :
      (i : Uuid) (f : User → User) (w : World)
      → ((after (update_user i f) w).driver_profiles ≡ w.driver_profiles)
        × ((after (update_user i f) w).cache ≡ w.cache)
  unfolding update_user
  update_user-kept i f w = elim (Option-cases (find_by_id i w)) [
    | inl e ↦ ground (arith, e)
    | inr (u, e) ↦ ground (arith, e)
  ]

  -- A user who has switched to the rider's mode is in the result of no search for drivers, at
  -- whatever point and radius, if the cached identities agreed with the table of profiles.
  pub set_active_profile-IsAbsent :
      (geography : Geography) (radius_km : ℕ) (u : Uuid) (w : World) (user : User) (at : Point)
      (radius : Option ℕ)
      → IsCoherent w
      → (set_active_profile queue seconds u ActiveProfile.rider w).0 ≡ ok user
      → IsAbsent u (
          find_nearby_drivers geography radius_km at radius
            (after (set_active_profile queue seconds u ActiveProfile.rider) w))
  unfolding set_active_profile
  set_active_profile-IsAbsent geography radius_km u w user at radius h returned =
      elim (>>=-split (update_user u (with_profile ActiveProfile.rider))
        (λ x. go_offline queue seconds u >> pure x) w) [
          | inl (e, thrown, whole) ↦
              absurd (ground (arith, ap (λ (x : Result User × World). x.0) whole, returned))
          | inr (x, updated, whole) ↦
              let v : World = after (update_user u (with_profile ActiveProfile.rider)) w in
              let (profiles, cache) = update_user-kept u (with_profile ActiveProfile.rider) w in
              let h' : IsCoherent v = as_agreed w v profiles cache h in
              find_nearby-IsAbsent geography radius_km u at radius
                (after (set_active_profile queue seconds u ActiveProfile.rider) w)
                (subst (λ (y : Result User × World). IsOffline u y.1.driver_profiles) (sym whole)
                  (>>=-after (λ (y : World). IsOffline u y.driver_profiles)
                    (go_offline queue seconds u) (λ _. pure x) v (go_offline-IsOffline u v h')
                    (λ _ e. go_offline-IsOffline u v h')))
        ]
