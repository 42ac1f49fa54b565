-- ===== src/Rest/Status.antt =====
-- The HTTP status codes that the handlers of server/src/rest/api/ answer with (`hyper::StatusCode`).
pub data StatusCode : Type 0 where
  bad_request unauthorized internal_server_error not_implemented service_unavailable : StatusCode
