-- ===== src/Maintenance.antt =====
-- The nightly clean-up of refresh tokens (src/maintenance/token-cleanup.service.ts).
pub mod Cleanup
use reedri_end.Base.{ℕ, ltb}
use reedri_end.Table.{delete_many}
use reedri_end.Schema.{RefreshToken}
use reedri_end.World.{World, Result, ok, M, modify}

-- `removeExpiredRefreshTokens`
unfoldable pub remove_expired_refresh_tokens : M (Unit {0})
remove_expired_refresh_tokens = modify λ w. record w {
  refresh_tokens = delete_many (λ (t : RefreshToken). ltb t.expires_at w.now) w.refresh_tokens;
}
