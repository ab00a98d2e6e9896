-- ===== src/Maintenance/Cleanup.antt =====
-- The clean-up takes no session away and brings none back.
use text.Mathlib.Text.{◌==◌ as str_eq}
use text.Mathlib.TextEquality.{eq_iff}
use reedri_end.Base.{
  ◌≡◌, refl, Bool, true, false, Option, none, some, List, [], ◌∷◌, String, arith, ltb,
  if◌then◌else◌, Option-cases, Bool-cases, inl, inr, subst,
}
use reedri_end.Table.{find_first, delete_many}
use reedri_end.Schema.{Time, RefreshToken}
use reedri_end.World.{World, after}
use reedri_end.Auth.{has_hash, find_refresh_token, is_refused}
use reedri_end.Maintenance.{remove_expired_refresh_tokens}

-- No two rows have one hash.
abbrev pub HasUniqueHashes : List RefreshToken → Type 0
HasUniqueHashes [] = Unit
HasUniqueHashes (t ∷ ts) = (find_first (has_hash t.token_hash) ts ≡ none) × HasUniqueHashes ts

-- The stored token that a refresh with this hash accepts.
abbrev pub accepted_token : String → World → Option RefreshToken
accepted_token hash w = elim (find_refresh_token hash w) [
  | none ↦ none
  | some t ↦ if is_refused w.now t then none else some t
]

hash_kept :
    (hash : String) (t : RefreshToken) (ts : List RefreshToken)
    → str_eq t.token_hash hash ≡ true
    → find_first (has_hash t.token_hash) ts ≡ none
    → find_first (has_hash hash) ts ≡ none
hash_kept hash t ts e h =
    subst (λ k. find_first (has_hash k) ts ≡ none) (ground (arith, eq_iff t.token_hash hash, e)) h

gone_stays_gone :
    (hash : String) (p : RefreshToken → Bool) (ts : List RefreshToken)
    → find_first (has_hash hash) ts ≡ none
    → find_first (has_hash hash) (delete_many p ts) ≡ none
unfolding find_first delete_many
gone_stays_gone hash p [] h = refl
gone_stays_gone hash p (t ∷ ts) h = ground (arith, h, gone_stays_gone hash p ts)

found_after :
    (hash : String) (p : RefreshToken → Bool) (ts : List RefreshToken)
    → HasUniqueHashes ts
    → find_first (has_hash hash) (delete_many p ts) ≡ (elim (find_first (has_hash hash) ts) [
      | none ↦ none
      | some t ↦ if p t then none else some t
    ])
unfolding find_first delete_many
found_after hash p [] u = refl
found_after hash p (t ∷ ts) u = elim (Bool-cases (str_eq t.token_hash hash)) [
  | inl hit ↦ ground (arith, hit, gone_stays_gone hash p ts (hash_kept hash t ts hit u.0))
  | inr miss ↦ ground (arith, miss, found_after hash p ts u.1)
]

-- Where hashes are unique, as the table has them, the clean-up changes for no hash which stored
-- token a refresh accepts, at the time of the clean-up or later.
pub remove_expired-accepted :
    (hash : String) (later : Time) (w : World)
    → HasUniqueHashes w.refresh_tokens
    → ltb later w.now ≡ false
    → accepted_token hash (record (after remove_expired_refresh_tokens w) { now = later })
      ≡ accepted_token hash (record w { now = later })
unfolding remove_expired_refresh_tokens
remove_expired-accepted hash later w u order = ground (
  arith,
  order,
  found_after hash (λ (t : RefreshToken). ltb t.expires_at w.now) w.refresh_tokens u,
  Option-cases (find_refresh_token hash w),
)
