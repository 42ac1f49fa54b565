-- ===== src/Rest/OpenApi.antt =====
-- The OpenAPI file: server/src/rest/mod.rs. The document as JSON comes from utoipa and the file is
-- written by std; both are parameters.
use svc_telemetry.Base.{Bool, Option, Result, ok, err, ok_or, ◌>>=◌, String, if◌then◌else◌}
use svc_telemetry.World.{Bytes}

pub data OpenApiError : Type 0 where
  json file_write : OpenApiError

abbrev pub open_api_error_fmt : OpenApiError → String
open_api_error_fmt json = "Failed to export as JSON string"
open_api_error_fmt file_write = "Failed to write to file"

-- `pretty_json` is the document of `T::openapi()`, and `write` tells whether a file could be written.
unfoldable pub generate_openapi_spec :
    Option Bytes → (Bytes → Bytes → Bool) → Bytes → Result OpenApiError (Unit {0})
generate_openapi_spec pretty_json write target = do
  output ← ok_or pretty_json json
  if write target output then ok tt else err file_write
