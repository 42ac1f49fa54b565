-- ===== src/Rest/Server/Refinement.antt =====
-- The service implements the counter of reports: server/src/rest/server.rs on a Redis that counts.
use svc_telemetry.Base.{
  suc, ◌<◌, ◌^◌, ◌≡◌, refl, arith, inl, inr, Result-cases, List, [], ◌∷◌, All, Option, none, some,
}
use svc_telemetry.World.{History}
use svc_telemetry.Cache.Pool.Counting.{IsCounting}
use svc_telemetry.Rest.Jwt.Session.{auth_cases}
use svc_telemetry.Rest.Jwt as Jwt
use svc_telemetry.Rest.Health as Health
use svc_telemetry.Rest.Server.{
  Endpoint, network_remote_id, health_check, login, adsb, Layer, auth as auth_layer, Site, reply_of,
  HttpRequest, run_endpoint, run_layers, denial, found, serve, service_pools,
}
use svc_telemetry.Rest.Server.Routes.{IsAxum, find-app, table_cases}
use svc_telemetry.Rest.Server.Reports.{
  netrid_kind, adsb_kind, Report, next, Answers, counts, report_at, report,
}
use svc_telemetry.Rest.Server.Follows.{Follows, adsb-Follows, netrid-Follows}

module _ (site : Site) (k : IsCounting (site.service.backends)) (named : site.pools ≡ service_pools)
    (req : HttpRequest) (h : History) (r : Report) (hr : All (λ b. b < 256) r.payload)
    (hq : All (λ b. b < 256) (req.body))
    (small_netrid : suc (counts h (record { kind = netrid_kind; payload = req.body })) < 2 ^ 32)
    (small_adsb : suc (counts h (record { kind = adsb_kind; payload = req.body })) < 2 ^ 32) where
  open site use {axum, chrono, service, libm, deku, unpack, jwt, to_str, secret, now}

  -- The request at the route `x`.
  AtRoute : Option (List Layer × Endpoint) → Type 0
  AtRoute x = Follows site k (report_at site x req h) h (found site x req h) r

  login-AtRoute : AtRoute (some ([], login))
  unfolding AtRoute found run_layers run_endpoint reply_of
  login-AtRoute = elim (Result-cases (Jwt.login jwt secret (now h 0) (now h 1) req.body)) [
    | inl (t, e) ↦ rw e (refl, omega arith)
    | inr (s, e) ↦ rw e (refl, omega arith)
  ]

  health-AtRoute : AtRoute (some ([], health_check))
  unfolding AtRoute found run_layers run_endpoint reply_of
  health-AtRoute =
      elim (Result-cases (Health.health_check (site.storage_ready h) (site.gis_ready h))) [
        | inl (t, e) ↦ rw e (refl, omega arith)
        | inr (s, e) ↦ rw e (refl, omega arith)
      ]

  unrouted-AtRoute : AtRoute none
  unfolding AtRoute found
  unrouted-AtRoute = (refl, omega arith)

  adsb-AtRoute : AtRoute (some ([], adsb))
  unfolding AtRoute found run_layers run_endpoint
  adsb-AtRoute = rw named (adsb-Follows site k req.body h r hr hq small_adsb)

  netrid-AtRoute : AtRoute (some (auth_layer ∷ [], network_remote_id))
  unfolding AtRoute found run_layers run_endpoint denial
  netrid-AtRoute =
      elim (auth_cases to_str jwt secret (now h 0) req.credentials
        (λ c. run_layers site [] network_remote_id req (some c))) [
          | inl (claim, e, w) ↦
              rw w (rw e (rw named (netrid-Follows site k claim req.body h r hr hq small_netrid)))
          | inr (s, e, w) ↦ rw w (rw e (refl, omega arith))
        ]

  -- With a router library that behaves as documented, a Redis that counts and the pools of
  -- rest_server, a request whose body is bytes and was reported less than 2 ^ 32 - 1 times at either
  -- endpoint does what the abstract counter of reports does. It adds one to the count of the packet
  -- that it reports, if it reports one: 14 bytes at the ADS-B endpoint, or 25 bytes that unpack to a
  -- frame other than a basic message at the Network Remote ID endpoint, past auth. It changes no other
  -- count. The first report of a packet is answered with 1 or with an error status, a later one with
  -- its count, and a request that reports nothing with no count above 1.
  pub serve-Follows :
      IsAxum axum
      → (counts (serve site req h).1 r ≡ next (report site req h) (counts h) r)
        × Answers (report site req h) (counts h) (serve site req h).0
  unfolding AtRoute serve
  serve-Follows ax = rw (find-app axum ax req.method req.path) (
      table_cases AtRoute req.method req.path unrouted-AtRoute netrid-AtRoute health-AtRoute
        login-AtRoute adsb-AtRoute)
