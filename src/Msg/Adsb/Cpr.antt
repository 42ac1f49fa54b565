-- ===== src/Msg/Adsb/Cpr.antt =====
-- The position of server/src/msg/adsb.rs: decode_cpr against the encoding of latitudes in the standard.
pub mod Modulus
pub mod Latitude
pub mod Codes
pub mod Zones
pub mod Encoding
