-- ===== src/Cache.antt =====
-- The cache over Redis (src/common/cache/cache.service.ts), with the one kind of value that the
-- services keep in it, the identity of a driver. An entry is gone once its time to live is over,
-- and a cached `null` reads as no entry.
use reedri_end.Base.{ℕ, ◌+◌, ◌*◌, ◌&&◌, Option, none, some, [], ◌∷◌, ◌++◌, ◌==◌, ltb}
use reedri_end.Table.{find_first, delete_many}
use reedri_end.Schema.{Uuid}
use reedri_end.World.{World, DriverIdentity, CacheEntry, M, ◌>>=◌, ◌>>◌, pure, gets, modify}

-- `get`
unfoldable pub get : Uuid → World → Option DriverIdentity
get key w = elim (find_first (λ (e : CacheEntry). e.key == key && ltb w.now e.expires_at) w.cache) [
  | none ↦ none
  | some e ↦ e.value
]

abbrev pub new_entry : Uuid → Option DriverIdentity → ℕ → World → CacheEntry
new_entry key value ttl_seconds w = record {
  key = key;
  value = value;
  expires_at = w.now + ttl_seconds * 1000;
}

-- `set`
unfoldable pub set : Uuid → Option DriverIdentity → ℕ → World → World
set key value ttl_seconds w = record w {
  cache =
      delete_many (λ (e : CacheEntry). e.key == key) w.cache
      ++ new_entry key value ttl_seconds w ∷ [];
}

-- `del`
unfoldable pub del : Uuid → M (Unit {0})
del key = modify λ w. record w { cache = delete_many (λ (e : CacheEntry). e.key == key) w.cache }

-- `getOrSet`
unfoldable pub get_or_set : Uuid → ℕ → M (Option DriverIdentity) → M (Option DriverIdentity)
get_or_set key ttl_seconds factory = do
  cached ← gets (get key)
  elim cached [
    | some value ↦ pure (some value)
    | none ↦ do value ← factory; modify (set key value ttl_seconds); pure value
  ]
