-- ===== src/Cache.antt =====
-- The cache layer: server/src/cache/mod.rs (the keys of packets, the pools of the two message kinds);
-- its child Pool is server/src/cache/pool.rs.
pub mod Pool
pub mod Keys
use svc_telemetry.Base.{ℕ, List, [], ◌∷◌, ◌++◌}
use svc_telemetry.Base.Text.{hex_byte}
use Pool.{TelemetryPool}
use mathlib.Core.List.{foldl}

pub record TelemetryPools : Type 0 where
  pub netrid : TelemetryPool
  pub adsb : TelemetryPool

unfoldable pub bytes_to_key : List ℕ → List ℕ
bytes_to_key = foldl (λ acc byte. acc ++ hex_byte byte) []
