-- ===== src/Drivers/Identity.antt =====
-- The cached identity of a driver is the one in the database, and calls keep it so.
use reedri_end.Base.{
  ℕ, ◌≡◌, refl, Bool, true, false, ◌&&◌, Option, some, List, [], ◌∷◌, ◌++◌, arith, ◌==◌, ltb,
  Option-cases, Bool-cases, inl, inr, subst, sym, ◌∙◌, ==→eq, ap, All, All-append, All-mono,
  map_option, is_some,
}
use reedri_end.Table.{find_first, update_many, delete_many}
use reedri_end.Table.Laws.{find_first-accepted, find_first-All, find_first-update_many}
use reedri_end.Table.Any.{All-delete_many}
use reedri_end.Schema.{Uuid, Degrees, DriverProfile}
use reedri_end.Events.{DomainEvent, driver_location_updated, driver_online_status_changed}
use reedri_end.World.{
  World, DriverIdentity, CacheEntry, after, ok, err, Result, http, not_found, M, ◌>>=◌, ◌>>◌,
  or_raise, gets, emit, pure,
}
use reedri_end.World.Rules.{or_raise-after, >>=-after}
use reedri_end.Queue.{JobQueue}
use reedri_end.Cache.{get, set, new_entry, get_or_set}
use reedri_end.Offers.{find_profile_of_user, add_job, schedule_driver_offer_expiry}
use reedri_end.Drivers.{
  driver_identity_cache_ttl_seconds, identity_of, find_identity_by_user_id, update_profile,
  with_online, with_location, set_online_status, update_location, take_offline, go_offline,
}

abbrev pub stored_identity : Uuid → List DriverProfile → Option DriverIdentity
stored_identity u ps =
    map_option identity_of (find_first (λ (p : DriverProfile). p.user_id == u) ps)

-- An entry holds the identity that the table holds.
abbrev pub Agrees : List DriverProfile → CacheEntry → Type 0
Agrees ps e = is_some e.value ≡ true → stored_identity e.key ps ≡ e.value

abbrev pub IsCoherent : World → Type 0
IsCoherent w = All (Agrees w.driver_profiles) w.cache

get-agrees :
    (u : Uuid) (d : DriverIdentity) (w : World)
    → IsCoherent w
    → get u w ≡ some d
    → stored_identity u w.driver_profiles ≡ some d
unfolding get
get-agrees u d w h e =
    let p : CacheEntry → Bool = λ x. x.key == u && ltb w.now x.expires_at in
    elim (Option-cases (find_first p w.cache)) [
      | inl none_there ↦ absurd (ground (arith, e, none_there))
      | inr (x, there) ↦
          let own : x.key ≡ u =
            ==→eq x.key u (ground (arith, find_first-accepted p w.cache x there)) in
          let value : x.value ≡ some d = ground (arith, e, there) in
          subst (λ k. stored_identity k w.driver_profiles ≡ some d) own
            (find_first-All (Agrees w.driver_profiles) p w.cache x h there (rw value refl) ∙ value)
    ]

-- What the lookup of an identity leaves in the cache.
abbrev identity_cache : Uuid → World → List CacheEntry
identity_cache u w = (after (find_identity_by_user_id u) w).cache

identity_cache-IsCoherent :
    (u : Uuid) (w : World) → IsCoherent w → All (Agrees w.driver_profiles) (identity_cache u w)
unfolding find_identity_by_user_id get_or_set set
identity_cache-IsCoherent u w h = elim (Option-cases (get u w)) [
  | inl miss ↦
      let shape : identity_cache u w
          ≡ delete_many (λ (e : CacheEntry). e.key == u) w.cache
            ++ new_entry u (stored_identity u w.driver_profiles) driver_identity_cache_ttl_seconds w
              ∷ [] =
        ground (arith, miss) in
      subst (All (Agrees w.driver_profiles)) (sym shape) (
        All-append (Agrees w.driver_profiles) (delete_many (λ (e : CacheEntry). e.key == u) w.cache)
          (new_entry u (stored_identity u w.driver_profiles) driver_identity_cache_ttl_seconds w
            ∷ [])
          (All-delete_many (λ (e : CacheEntry). e.key == u) (Agrees w.driver_profiles) w.cache h)
          ((λ s. refl), tt))
  | inr (d, hit) ↦
      let shape : identity_cache u w ≡ w.cache = ground (arith, hit) in
      subst (All (Agrees w.driver_profiles)) (sym shape) h
]

-- The lookup of an identity, through the cache or past it, gives what the table holds and changes
-- only the cache.
pub find_identity-returns :
    (u : Uuid) (w : World)
    → IsCoherent w
    → find_identity_by_user_id u w
      ≡ (ok (stored_identity u w.driver_profiles), record w { cache = identity_cache u w })
unfolding find_identity_by_user_id get_or_set set
find_identity-returns u w h = elim (Option-cases (get u w)) [
  | inl miss ↦ ground (arith, miss)
  | inr (d, hit) ↦ ground (arith, hit, get-agrees u d w h hit)
]

identity_kept :
    (u : Uuid) (q : DriverProfile → Bool) (f : DriverProfile → DriverProfile)
    → ((p : DriverProfile) → identity_of (f p) ≡ identity_of p)
    → (ps : List DriverProfile) → stored_identity u (update_many q f ps) ≡ stored_identity u ps
identity_kept u q f kept ps =
    let p : DriverProfile → Bool = λ x. x.user_id == u in
    ap (map_option identity_of)
      (find_first-update_many p q f ps (λ x. ap (λ (d : DriverIdentity). d.user_id == u) (kept x)))
    ∙ elim (Option-cases (find_first p ps)) [
      | inl e ↦ rw e refl
      | inr (x, e) ↦ elim (Bool-cases (q x)) [
        | inl hit ↦ rw (e, hit) (ap some (kept x))
        | inr miss ↦ rw (e, miss) refl
      ]
    ]

pub update_profile-IsCoherent :
    (u : Uuid) (f : DriverProfile → DriverProfile)
    → ((p : DriverProfile) → identity_of (f p) ≡ identity_of p)
    → (w : World) → IsCoherent w
    → IsCoherent (after (update_profile u f) w)
unfolding update_profile
update_profile-IsCoherent u f kept w h = elim (Option-cases (find_profile_of_user u w)) [
  | inl e ↦ rw (e, after) h
  | inr (p, e) ↦
      rw (e, after)
        (All-mono (Agrees w.driver_profiles)
          (Agrees (update_many (λ (x : DriverProfile). x.user_id == u) f w.driver_profiles))
          (λ entry a s.
            identity_kept entry.key (λ (x : DriverProfile). x.user_id == u) f kept w.driver_profiles
            ∙ a s)
          w.cache h)
]

-- The state after the lookup of an identity.
abbrev pub looked_up : Uuid → World → World
looked_up u w = record w { cache = identity_cache u w }

pub identity_then {ℓ} :
    {A : Type ℓ} (u : Uuid) (k : Option DriverIdentity → M A) (w : World)
    → IsCoherent w
    → (find_identity_by_user_id u >>= k) w ≡ k (stored_identity u w.driver_profiles) (looked_up u w)
identity_then {A = A} u k w h =
    ap
      (λ (x : Result (Option DriverIdentity) × World).
        let (r, v) = x in elim r as (λ y. Result A × World) [ ok a ↦ k a v | err e ↦ (err e, v) ])
      (find_identity-returns u w h)

update_and_emit-IsCoherent :
    (u : Uuid) (f : DriverProfile → DriverProfile) (event : DriverProfile → DomainEvent)
    → ((p : DriverProfile) → identity_of (f p) ≡ identity_of p)
    → (w : World) → IsCoherent w
    → IsCoherent (after (update_profile u f >>= λ p. emit (event p) >> pure p) w)
update_and_emit-IsCoherent u f event kept w h =
    >>=-after IsCoherent (update_profile u f) (λ p. emit (event p) >> pure p) w
      (update_profile-IsCoherent u f kept w h) (λ p e. update_profile-IsCoherent u f kept w h)

set_online_status-IsCoherent :
    (u : Uuid) (b : Bool) (w : World) → IsCoherent w → IsCoherent (after (set_online_status u b) w)
unfolding set_online_status
set_online_status-IsCoherent u b w h =
    let k : DriverIdentity → M DriverProfile = λ i. (do
      updated ← update_profile u (with_online b)
      emit (driver_online_status_changed u b updated.current_lat updated.current_lng)
      pure updated) in
    subst (λ (x : Result DriverProfile × World). IsCoherent x.1)
      (sym
        (identity_then u (λ o. or_raise o (http (not_found "Driver profile not found")) >>= k) w h))
      (or_raise-after IsCoherent (stored_identity u w.driver_profiles)
        (http (not_found "Driver profile not found")) k (looked_up u w)
        (identity_cache-IsCoherent u w h)
        (λ i e.
          update_and_emit-IsCoherent u (with_online b)
            (λ p. driver_online_status_changed u b p.current_lat p.current_lng) (λ p. refl)
            (looked_up u w) (identity_cache-IsCoherent u w h)))

update_location-IsCoherent :
    (u : Uuid) (lat lng : Degrees) (w : World)
    → IsCoherent w
    → IsCoherent (after (update_location u lat lng) w)
unfolding update_location
update_location-IsCoherent u lat lng w h =
    let k : DriverIdentity → M DriverProfile = λ i. (do
      now ← gets (λ v. v.now)
      updated ← update_profile u (with_location lat lng now)
      emit (driver_location_updated u lat lng)
      pure updated) in
    subst (λ (x : Result DriverProfile × World). IsCoherent x.1)
      (sym
        (identity_then u (λ o. or_raise o (http (not_found "Driver profile not found")) >>= k) w h))
      (or_raise-after IsCoherent (stored_identity u w.driver_profiles)
        (http (not_found "Driver profile not found")) k (looked_up u w)
        (identity_cache-IsCoherent u w h)
        (λ i e.
          update_and_emit-IsCoherent u (with_location lat lng w.now)
            (λ p. driver_location_updated u lat lng) (λ p. refl) (looked_up u w)
            (identity_cache-IsCoherent u w h)))

-- A call of the service.
pub data Call : Type 0 where
  looked_up_identity : Uuid → Call
  online_status : Uuid → Bool → Call
  location : Uuid → (lat lng : Degrees) → Call
  went_offline : Uuid → Call

module _ (queue : JobQueue) (seconds : ℕ) where
  schedule-IsCoherent :
      (d : Uuid) (w : World)
      → IsCoherent w
      → IsCoherent (after (schedule_driver_offer_expiry queue seconds d) w)
  unfolding schedule_driver_offer_expiry add_job
  schedule-IsCoherent d w h =
      let v : World = after (schedule_driver_offer_expiry queue seconds d) w in
      let profiles : v.driver_profiles ≡ w.driver_profiles = ground arith in
      let cache : v.cache ≡ w.cache = ground arith in
      subst (λ ps. All (Agrees ps) v.cache) (sym profiles)
        (subst (All (Agrees w.driver_profiles)) (sym cache) h)

  go_offline-IsCoherent :
      (u : Uuid) (w : World) → IsCoherent w → IsCoherent (after (go_offline queue seconds u) w)
  unfolding go_offline take_offline
  go_offline-IsCoherent u w h =
      subst (λ (x : Result (Unit {0}) × World). IsCoherent x.1)
        (sym (identity_then u (take_offline queue seconds u) w h))
        (elim (Option-cases (stored_identity u w.driver_profiles)) [
          | inl e ↦ rw (e, after) (identity_cache-IsCoherent u w h)
          | inr (i, e) ↦
              let kept : IsCoherent (after (update_profile u (with_online false)) (looked_up u w)) =
                update_profile-IsCoherent u (with_online false) (λ p. refl) (looked_up u w)
                  (identity_cache-IsCoherent u w h) in
              subst (λ o. IsCoherent (after (take_offline queue seconds u o) (looked_up u w)))
                (sym e)
                (>>=-after IsCoherent (update_profile u (with_online false))
                  (λ p.
                    emit (driver_online_status_changed u false p.current_lat p.current_lng)
                    >> schedule_driver_offer_expiry queue seconds i.id)
                  (looked_up u w) kept (λ p returned. schedule-IsCoherent i.id _ kept))
        ])

  unfoldable pub perform : Call → World → World
  perform (Call.looked_up_identity u) w = after (find_identity_by_user_id u) w
  perform (Call.online_status u b) w = after (set_online_status u b) w
  perform (Call.location u lat lng) w = after (update_location u lat lng) w
  perform (Call.went_offline u) w = after (go_offline queue seconds u) w

  unfoldable pub perform_all : List Call → World → World
  perform_all [] w = w
  perform_all (c ∷ cs) w = perform_all cs (perform c w)

  perform-IsCoherent : (c : Call) (w : World) → IsCoherent w → IsCoherent (perform c w)
  unfolding perform
  perform-IsCoherent (Call.looked_up_identity u) w h =
      subst (λ (x : Result (Option DriverIdentity) × World). IsCoherent x.1)
        (sym (find_identity-returns u w h)) (identity_cache-IsCoherent u w h)
  perform-IsCoherent (Call.online_status u b) w h = set_online_status-IsCoherent u b w h
  perform-IsCoherent (Call.location u lat lng) w h = update_location-IsCoherent u lat lng w h
  perform-IsCoherent (Call.went_offline u) w h = go_offline-IsCoherent u w h

  -- Whatever calls on drivers are made from a state whose cache agrees with the table of profiles,
  -- the cache still agrees afterwards, and a lookup of an identity, through the cache or past it,
  -- returns what the table holds for the user.
  pub perform_all-IsCoherent :
      (cs : List Call) (u : Uuid) (w : World)
      → IsCoherent w
      → IsCoherent (perform_all cs w)
        × ((find_identity_by_user_id u (perform_all cs w)).0
            ≡ ok (stored_identity u (perform_all cs w).driver_profiles))
  unfolding perform_all
  perform_all-IsCoherent [] u w h =
      (h, ap (λ (x : Result (Option DriverIdentity) × World). x.0) (find_identity-returns u w h))
  perform_all-IsCoherent (c ∷ cs) u w h =
      perform_all-IsCoherent cs u (perform c w) (perform-IsCoherent c w h)
