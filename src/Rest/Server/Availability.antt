-- ===== src/Rest/Server/Availability.antt =====
-- The health check as the service answers it: server/src/rest/server.rs and server/src/rest/api/health.rs.
pub mod Tests
use svc_telemetry.Base.{◌≡◌, refl, ◌⊎◌, inl, inr, Bool, true, false, Bool-cases, same}
use svc_telemetry.World.{History}
use svc_telemetry.Rest.Status.{service_unavailable}
use svc_telemetry.Rest.Health as Health
use svc_telemetry.Rest.Server.{
  get, health_path, HttpRequest, Reply, healthy, status, reply_of, Site, serve, found, run_layers,
  run_endpoint,
}
use svc_telemetry.Rest.Server.Routes.{IsAxum, serve-found}

reply_cases :
    (storage_ready gis_ready : Bool) (h : History)
    → ((reply_of (λ u. healthy) (Health.health_check storage_ready gis_ready, h) ≡ (healthy, h))
        × (storage_ready ≡ true)
        × (gis_ready ≡ true))
      ⊎ ((reply_of (λ u. healthy) (Health.health_check storage_ready gis_ready, h)
            ≡ (status service_unavailable, h))
          × ((storage_ready ≡ false) ⊎ (gis_ready ≡ false)))
unfolding Health.health_check reply_of
reply_cases true true h = inl (refl, refl, refl)
reply_cases false true h = inr (refl, inl refl)
reply_cases false false h = inr (refl, inl refl)
reply_cases true false h = inr (refl, inr refl)

module _ (site : Site) (ax : IsAxum (site.axum)) where
  open site use {storage_ready, gis_ready}

  -- With a router library that behaves as documented: GET of the health path is answered without a
  -- token and sends nothing. The answer is that the service is healthy when svc-storage and svc-gis
  -- both answer, and 503 when one of them does not.
  pub serve-health :
      (req : HttpRequest) (h : History)
      → req.method ≡ get
      → req.path ≡ health_path
      → ((serve site req h ≡ (healthy, h)) × (storage_ready h ≡ true) × (gis_ready h ≡ true))
        ⊎ ((serve site req h ≡ (status service_unavailable, h))
            × ((storage_ready h ≡ false) ⊎ (gis_ready h ≡ false)))
  unfolding found run_layers run_endpoint same
  serve-health req h pm pp =
      rw (serve-found site ax req h) (rw pm (rw pp (reply_cases (storage_ready h) (gis_ready h) h)))
