-- ===== src/Rest.antt =====
-- The REST API: server/src/rest/. Its children are the endpoints.
pub mod Status
pub mod Gis
pub mod OpenApi
pub mod Service
pub mod Health
pub mod Jwt
pub mod Netrid
pub mod Adsb
pub mod Server
