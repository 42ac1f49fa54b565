-- ===== src/Rest/Server.antt =====
-- The routes of the REST server: `Router` and the handlers behind it in server/src/rest/server.rs. The
-- router is that of the axum library. CORS, the limits and the layers that hand the pools to the
-- handlers are left out.
pub mod Routes
pub mod Availability
pub mod Runs
pub mod Marks
pub mod Once
pub mod Reports
pub mod Deduplicated
pub mod Follows
pub mod Refinement
pub mod Startup
pub mod Concurrent
pub mod Sessions
pub mod Tests
use svc_telemetry.Base.{
  ℕ, ◌≡◌, Bool, true, false, ◌&&◌, List, [], ◌∷◌, Option, none, some, Result, ok, err, same,
  if◌then◌else◌,
}
use svc_telemetry.Base.Text.{codes}
use svc_telemetry.World.{Bytes, History, Io}
use svc_telemetry.Cache.{TelemetryPools}
use svc_telemetry.Msg.Adsb.{Libm}
use svc_telemetry.Msg.Netrid.Clock.{Chrono}
use svc_telemetry.Rest.Status.{StatusCode, internal_server_error}
use svc_telemetry.Rest.Service.{Service}
use svc_telemetry.Rest.Jwt as Jwt
use svc_telemetry.Rest.Jwt.{Claim, ErrorResponse, JwtLibrary}
use svc_telemetry.Rest.Netrid as Netrid
use svc_telemetry.Rest.Netrid.{Unpack}
use svc_telemetry.Rest.Adsb as Adsb
use svc_telemetry.Rest.Adsb.Push.{AdsbDeku}
use svc_telemetry.Rest.Health as Health

-- The pools that rest_server makes.
abbrev pub service_pools : TelemetryPools
service_pools = record {
  adsb = record { key_folder = codes "tlm:adsb" };
  netrid = record { key_folder = codes "tlm:netrid" };
}

pub data Method : Type 0 where
  get post : Method

abbrev pub same_method : Method → Method → Bool
same_method get get = true
same_method post post = true
same_method _ _ = false

pub data Endpoint : Type 0 where
  network_remote_id health_check login adsb : Endpoint

pub data Layer : Type 0 where
  auth : Layer

-- `axum::Router`: `find` gives the layers of a route, outermost first, and its handler.
pub record Axum : Type 1 where
  pub Router : Type 0
  pub new : Router
  pub route : Router → Bytes → Method → Endpoint → Router
  pub route_layer : Router → Layer → Router
  pub find : Router → Method → Bytes → Option (List Layer × Endpoint)

-- The paths of the routes.
abbrev pub netrid_path : Bytes
netrid_path = codes "/telemetry/netrid"

abbrev pub health_path : Bytes
health_path = codes "/health"

abbrev pub login_path : Bytes
login_path = codes "/telemetry/login"

abbrev pub adsb_path : Bytes
adsb_path = codes "/telemetry/adsb"

module _ (axum : Axum) where
  unfoldable pub app : axum.Router
  app =
      let r1 = axum.route axum.new netrid_path post network_remote_id in
      let r2 = axum.route_layer r1 auth in
      let r3 = axum.route r2 health_path get health_check in
      let r4 = axum.route r3 login_path get login in axum.route r4 adsb_path post adsb

pub record HttpRequest : Type 0 where
  pub method : Method
  pub path : Bytes
  pub credentials : Jwt.Request
  pub body : Bytes

pub data Reply : Type 0 where
  counted : ℕ → Reply
  token : Bytes → Reply
  healthy : Reply
  status : StatusCode → Reply
  denied : StatusCode → ErrorResponse → Reply
  -- 404 or 405.
  unrouted : Reply

-- What the handlers run with.
pub record Site : Type 1 where
  pub axum : Axum
  pub chrono : Chrono
  pub service : Service chrono
  pub libm : Libm
  pub deku : AdsbDeku
  pub unpack : Unpack
  pub jwt : JwtLibrary
  pub to_str : List ℕ → Result (List ℕ) (List ℕ)
  -- The content of JWT_SECRET.
  pub secret : Option (List ℕ)
  -- `Utc::now()`, the reading `k` after the history so far.
  pub now : History → ℕ → jwt.DateTime
  pub pools : TelemetryPools
  -- Whether the calls of is_ready of svc-storage and svc-gis succeed.
  pub storage_ready : History → Bool
  pub gis_ready : History → Bool

pub reply_of : {A : Type 0} → (A → Reply) → Result StatusCode A × History → Reply × History
reply_of f (ok a, h) = (f a, h)
reply_of f (err s, h) = (status s, h)

module _ (site : Site) where
  open site use {axum, chrono, service, libm, deku, unpack, jwt, to_str, secret, now, pools}

  -- A handler, with the claim that a layer added to the request. Without it the extractor of
  -- network_remote_id fails.
  run_endpoint : Endpoint → HttpRequest → Option Claim → History → Reply × History
  unfolding reply_of
  run_endpoint network_remote_id req none h = (status internal_server_error, h)
  run_endpoint network_remote_id req (some claim) h =
      reply_of counted (Netrid.network_remote_id chrono service unpack pools claim req.body h)
  run_endpoint health_check req claim h =
      reply_of (λ u. healthy) (Health.health_check (site.storage_ready h) (site.gis_ready h), h)
  run_endpoint login req claim h =
      reply_of token (Jwt.login jwt secret (now h 0) (now h 1) req.body, h)
  run_endpoint adsb req claim h =
      reply_of counted (Adsb.adsb chrono service libm deku pools req.body h)

  denial :
      Result (StatusCode × ErrorResponse) (History → Reply × History) → History → Reply × History
  denial (ok next) h = next h
  denial (err (s, m)) h = (denied s m, h)

  -- The layers of a route, then its handler.
  run_layers : List Layer → Endpoint → HttpRequest → Option Claim → History → Reply × History
  unfolding run_endpoint denial
  run_layers [] e req claim h = run_endpoint e req claim h
  run_layers (auth ∷ ls) e req claim h =
      denial
        (Jwt.auth to_str jwt secret (now h 0) req.credentials (λ c. run_layers ls e req (some c))) h

  pub found : Option (List Layer × Endpoint) → HttpRequest → History → Reply × History
  unfolding run_layers
  found none req h = (unrouted, h)
  found (some (ls, e)) req h = run_layers ls e req none h

  unfoldable pub serve : HttpRequest → History → Reply × History
  unfolding found app
  serve req h = found (axum.find (app axum) req.method req.path) req h
