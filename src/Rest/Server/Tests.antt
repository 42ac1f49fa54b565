-- ===== src/Rest/Server/Tests.antt =====
-- A concrete site, and the theorems on server/src/rest/server.rs applied to it.
use svc_telemetry.Base.{
  err, ℕ, zero, suc, ◌<◌, ◌≤◌, ◌≡◌, refl, ◌⊎◌, arith, true, false, ◌&&◌, List, [], ◌∷◌, ◌++◌, All,
  Option, none, some, ok, replicate, same, if◌then◌else◌,
}
use svc_telemetry.Base.Text.{codes}
use svc_telemetry.World.{Bytes, History}
use svc_telemetry.World.Tally.{tally}
use svc_telemetry.Cache.Pool.Tests.{counting_redis-IsCounting}
use svc_telemetry.Cache.Pool.Counting.{incrs}
use svc_telemetry.Msg.Netrid.Tests.{clock}
use svc_telemetry.Rest.Status.{unauthorized}
use svc_telemetry.Rest.Jwt.{Claim, ErrorResponse, Request, get_token_from_cookie_jar}
use svc_telemetry.Rest.Jwt.Tests.{plain_tokens, drone_token, read_token}
use svc_telemetry.Rest.Netrid.Tests.{service, unpack}
use svc_telemetry.Rest.Netrid as Netrid
use svc_telemetry.Rest.Adsb.Tests.{plain, name_deku, payload}
use svc_telemetry.Cache.{bytes_to_key}
use svc_telemetry.Msg.Adsb.{get_adsb_icao_address, get_adsb_message_type}
use svc_telemetry.Rest.Adsb as Adsb
use svc_telemetry.Rest.Adsb.Duplicates.{packet_key}
use svc_telemetry.Rest.Server.{
  Method, post, same_method, Endpoint, Layer, Axum, netrid_path, adsb_path, HttpRequest, counted,
  denied, reply_of, Site, serve, service_pools,
}
use svc_telemetry.Rest.Server.Routes.{IsAxum, add_layer, invalid_token, serve-netrid}
use svc_telemetry.Rest.Server.Runs.{start, request}
use svc_telemetry.Rest.Server.Marks.{publishes, inserts}
use svc_telemetry.Rest.Server.Startup.{Host, Started, take_samples, start_up}
use svc_telemetry.Rest.Server.Startup.Success.{start_up-eq-ok}
use svc_telemetry.Amqp.{init_mq}
use svc_telemetry.Amqp.Topology.{topology}
use svc_telemetry.Base.Text.{decimal_u32}
use svc_telemetry.Cache.Pool.{new_telemetry_pool, new_gis_pool}
use svc_telemetry.Config.{Config, new}
use svc_telemetry.Grpc.{default_clients}
use svc_telemetry.Rest.Server.Once.{Reached-once}
use svc_telemetry.Rest.Server.Reports.{adsb_kind, netrid_kind, counts, next, Answers, report}
use svc_telemetry.Rest.Server.Refinement.{serve-Follows}

-- A router that is the list of its routes.
pub record Route : Type 0 where
  pub method : Method
  pub path : Bytes
  pub layers : List Layer
  pub endpoint : Endpoint

abbrev pub find : List Route → Method → Bytes → Option (List Layer × Endpoint)
find [] m p = none
find (r ∷ rs) m p =
    if same_method r.method m && same r.path p then some (r.layers, r.endpoint) else find rs m p

abbrev pub layered : Layer → List Route → List Route
layered l [] = []
layered l (r ∷ rs) =
    record { method = r.method; path = r.path; layers = l ∷ r.layers; endpoint = r.endpoint }
    ∷ layered l rs

pub find-layered :
    (rs : List Route) (l : Layer) (m : Method) (p : Bytes)
    → find (layered l rs) m p ≡ add_layer l (find rs m p)
find-layered [] l m p = refl
find-layered (r ∷ rs) l m p = ground (arith, find-layered rs l m p)

abbrev pub route_list : Axum
route_list = record {
  Router = List Route;
  new = [];
  route = λ r p m e. record { method = m; path = p; layers = []; endpoint = e } ∷ r;
  route_layer = λ r l. layered l r;
  find = find;
}

abbrev pub route_list-IsAxum : IsAxum route_list
route_list-IsAxum = record {
  find-new = λ m p. refl;
  find-route = λ r p m e n q free. refl;
  find-route_layer = find-layered;
}

abbrev pub site : Site
site = record {
  axum = route_list;
  chrono = clock;
  service = service;
  libm = plain;
  deku = name_deku;
  unpack = unpack;
  jwt = plain_tokens;
  to_str = λ h. ok h;
  secret = some (take_samples (λ i. 0x61) 0 42);
  now = λ h k. 1100;
  pools = service_pools;
  storage_ready = λ h. true;
  gis_ready = λ h. true;
}

abbrev pub no_credentials : Request
no_credentials = record { token_cookie = none; authorization = none }

abbrev pub adsb_report : HttpRequest
adsb_report = record {
  method = post;
  path = adsb_path;
  credentials = no_credentials;
  body = payload;
}

abbrev netrid_report : HttpRequest
netrid_report = record {
  method = post;
  path = netrid_path;
  credentials = record { token_cookie = some drone_token; authorization = none };
  body = replicate 25 0;
}

-- A start with all backends up.
abbrev pub host : Host
host = record {
  SocketAddr = Bytes;
  HeaderValue = Bytes;
  parse_address = λ s. some s;
  parse_header = λ s. some s;
  creates_adsb_pool = true;
  creates_netrid_pool = true;
  creates_gis_pool = true;
  broker = λ url. record {
    url = url;
    creates_pool = true;
    connects = true;
    creates_channel = true;
    accepts = λ h e. true;
  };
  sample = λ i. 0x61;
  initializing = false;
  clients = record {
    Clients = Bytes × ℕ;
    GisClient = Bytes × ℕ × Bytes;
    new = λ host port. (host, port);
    new_client = λ host port name. (host, port, name);
  };
}

abbrev pub config : Config
config = record new {
  amqp_url = some (codes "amqp://rabbitmq");
  redis_url = some (codes "redis://redis");
}

abbrev pub begun : Started host
begun = record {
  full_rest_addr = codes "[::]:8000";
  cors_allowed_origin = codes "http://localhost:3000";
  rate_limit = 2;
  concurrency_limit = 5;
  tlm_pools = service_pools;
  gis_pool = record {};
  jwt_secret = take_samples (λ i. 0x61) 0 42;
  grpc_clients = default_clients host.clients config;
}

pub started : start_up host config none [] ≡ (ok begun, topology [])
unfolding start_up init_mq decimal_u32 new_telemetry_pool new_gis_pool
started = refl

start_up-eq-ok_example :
    (◌≡◌ {A = Option Bytes} none none)
    × (begun.jwt_secret ≡ take_samples (λ i. 0x61) 0 42)
    × (begun.tlm_pools ≡ service_pools)
    × (host.parse_address (codes "[::]:" ++ decimal_u32 8000) ≡ some begun.full_rest_addr)
    × (host.parse_header (codes "http://localhost:3000") ≡ some begun.cors_allowed_origin)
    × (topology [] ≡ topology [])
start_up-eq-ok_example = start_up-eq-ok host config none begun [] (topology []) started

-- The same packet twice.
abbrev once : History
once = (serve site adsb_report (topology [])).1

abbrev twice : History
twice = (serve site adsb_report once).1

counted_once : incrs (packet_key service_pools payload) once ≡ 1
unfolding serve Adsb.adsb incrs same get_adsb_icao_address get_adsb_message_type bytes_to_key
counted_once = refl

counted_twice : incrs (packet_key service_pools payload) twice ≡ 2
unfolding serve Adsb.adsb incrs same get_adsb_icao_address get_adsb_message_type bytes_to_key
counted_twice = refl

passed_on_once : tally (publishes payload) twice ≡ 1
unfolding serve Adsb.adsb incrs same get_adsb_icao_address get_adsb_message_type bytes_to_key tally
passed_on_once = refl

All-replicate : (n x : ℕ) → x < 256 → All (λ b. b < 256) (replicate n x)
All-replicate zero x h = tt
All-replicate (suc n) x h = (h, All-replicate n x h)

pub payload_bytes : All (λ b. b < 256) payload
payload_bytes = All-replicate 14 0x8d (omega arith)

Reached-once_example :
    (tally (publishes payload) twice ≤ 1)
    × (tally (inserts payload) twice ≤ 1)
    × (tally (publishes payload) twice ≤ incrs (packet_key service_pools payload) twice)
    × (tally (inserts payload) twice ≤ incrs (packet_key service_pools payload) twice)
Reached-once_example =
    Reached-once site counting_redis-IsCounting payload twice payload_bytes
      (request adsb_report once payload_bytes (
        request adsb_report (topology []) payload_bytes
          (start host config begun (topology []) started refl refl)))
      (omega (arith, counted_twice))

uncounted : counts once (record { kind = netrid_kind; payload = payload }) ≡ 0
unfolding serve Adsb.adsb incrs same get_adsb_icao_address get_adsb_message_type bytes_to_key
uncounted = refl

serve-Follows_example :
    (counts twice (record { kind = adsb_kind; payload = payload })
      ≡ next
          (report site adsb_report once)
          (counts once)
          (record { kind = adsb_kind; payload = payload }))
    × Answers (report site adsb_report once) (counts once) (serve site adsb_report once).0
serve-Follows_example =
    serve-Follows site counting_redis-IsCounting refl adsb_report once
      (record { kind = adsb_kind; payload = payload }) payload_bytes payload_bytes
      (omega (arith, uncounted)) (omega (arith, counted_once)) route_list-IsAxum

serve-netrid_example :
    ((m : ErrorResponse) × (get_token_from_cookie_jar (λ h. ok h) netrid_report.credentials
        ≡ err (unauthorized, m))
      × (serve site netrid_report [] ≡ (denied unauthorized m, [])))
    ⊎ ((token : List ℕ) × (get_token_from_cookie_jar (λ h. ok h) netrid_report.credentials
          ≡ ok token)
        × ((site.secret ≡ none)
            ⊎ ((k : List ℕ) × (site.secret ≡ some k) × (read_token 1100 token ≡ none)))
        × (serve site netrid_report [] ≡ (denied unauthorized invalid_token, [])))
    ⊎ ((k token : List ℕ) × (claim : Claim) × (site.secret ≡ some k)
        × (get_token_from_cookie_jar (λ h. ok h) netrid_report.credentials ≡ ok token)
        × (read_token 1100 token ≡ some claim)
        × (serve site netrid_report []
            ≡ reply_of counted (
                Netrid.network_remote_id clock service unpack service_pools claim netrid_report.body
                  [])))
serve-netrid_example = serve-netrid site route_list-IsAxum netrid_report [] refl refl
