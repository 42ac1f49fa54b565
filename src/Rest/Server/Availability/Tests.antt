-- ===== src/Rest/Server/Availability/Tests.antt =====
-- The health check with svc-gis down.
use svc_telemetry.Base.{◌≡◌, refl, ◌⊎◌, true, false, []}
use svc_telemetry.Rest.Status.{service_unavailable}
use svc_telemetry.Rest.Server.{get, health_path, HttpRequest, healthy, status, Site, serve}
use svc_telemetry.Rest.Server.Tests.{site, no_credentials, route_list-IsAxum}
use svc_telemetry.Rest.Server.Availability.{serve-health}

abbrev health_request : HttpRequest
health_request = record {
  method = get;
  path = health_path;
  credentials = no_credentials;
  body = [];
}

abbrev without_gis : Site
without_gis = record site { gis_ready = λ h. false }

serve-health_example :
    ((serve without_gis health_request [] ≡ (healthy, [])) × (true ≡ true) × (false ≡ true))
    ⊎ ((serve without_gis health_request [] ≡ (status service_unavailable, []))
        × ((true ≡ false) ⊎ (false ≡ false)))
serve-health_example = serve-health without_gis route_list-IsAxum health_request [] refl refl
