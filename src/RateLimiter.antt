-- ===== src/RateLimiter.antt =====
-- The limiter of WebSocket messages (src/realtime/ws-rate-limiter.ts). The `Map` is a function,
-- and a key, which the code only compares, a number. `now - windowMs < t` is written as
-- `now < t + windowMs`, since subtraction stops at 0 here.
pub mod Window
use reedri_end.Base.{
  ℕ, suc, ◌+◌, Bool, true, false, Option, none, some, List, [], ◌∷◌, ◌++◌, ◌==◌, ltb, leb,
  if◌then◌else◌, length, or_default,
}
use reedri_end.Table.{find_many}
use reedri_end.Schema.{Time}

abbrev pub Hits : Type 0
Hits = ℕ → Option (List Time)

abbrev pub timestamps_of : ℕ → Hits → List Time
timestamps_of key hits = or_default (hits key) []

abbrev pub set_hits : ℕ → List Time → Hits → Hits
set_hits key ts hits k = if k == key then some ts else hits k

-- `clear`
abbrev pub clear : ℕ → Hits → Hits
clear key hits k = if k == key then none else hits k

module _ (limit window_ms : ℕ) where
  abbrev pub is_recent : Time → Time → Bool
  is_recent now t = ltb now (t + window_ms)

  -- `consume`, at a time.
  unfoldable pub consume : ℕ → Time → Hits → Bool × Hits
  consume key now hits =
      let timestamps = find_many (is_recent now) (timestamps_of key hits) in
      if leb limit (length timestamps)
      then (false, set_hits key timestamps hits)
      else (true, set_hits key (timestamps ++ now ∷ []) hits)
