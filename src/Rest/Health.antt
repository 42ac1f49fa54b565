-- ===== src/Rest/Health.antt =====
-- The health check: server/src/rest/api/health.rs. Whether the calls of is_ready of svc-storage and
-- svc-gis succeed is a parameter; what they answer is not looked at.
use svc_telemetry.Base.{Bool, true, false, Result, ok, err, if◌then◌else◌}
use svc_telemetry.Rest.Status.{StatusCode, service_unavailable}

unfoldable pub health_check : Bool → Bool → Result StatusCode (Unit {0})
health_check storage_ready gis_ready =
    let ok1 = if storage_ready then true else false in
    let ok2 = if gis_ready then ok1 else false in if ok2 then ok tt else err service_unavailable
