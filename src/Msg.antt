-- ===== src/Msg.antt =====
-- The two telemetry message formats (server/src/msg/mod.rs).
pub mod Netrid
pub mod Adsb
