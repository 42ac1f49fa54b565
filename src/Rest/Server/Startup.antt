-- ===== src/Rest/Server/Startup.antt =====
-- The start of the REST server: `rest_server` of server/src/rest/server.rs up to the serving of requests,
-- as built for the service (not for tests). The libraries' answers are a parameter.
pub mod Success
use svc_telemetry.Base.{
  ℕ, zero, suc, ◌+◌, Bool, List, [], ◌∷◌, ◌++◌, Option, none, some, Result, ok, err, ok_or,
  ◌>>=◌ as and_then, if◌then◌else◌,
}
use svc_telemetry.Base.Text.{codes, decimal_u32}
use svc_telemetry.World.{Bytes, History, Io, ◌>>=◌, ◌>>◌, return, lift, or_err}
use svc_telemetry.Amqp.{Broker, AmqpError, init_mq}
use svc_telemetry.Cache.{TelemetryPools}
use svc_telemetry.Cache.Pool.{TelemetryPool, GisPool, new_telemetry_pool, new_gis_pool}
use svc_telemetry.Config.{Config}
use svc_telemetry.Grpc.{ClientLibrary, GrpcClients, default_clients}

-- What the libraries answer.
pub record Host : Type 1 where
  pub SocketAddr : Type 0
  pub HeaderValue : Type 0
  -- `parse`
  pub parse_address : Bytes → Option SocketAddr
  pub parse_header : Bytes → Option HeaderValue
  -- The outcome of `create_pool` for the Redis pools, in their order.
  pub creates_adsb_pool : Bool
  pub creates_netrid_pool : Bool
  pub creates_gis_pool : Bool
  -- RabbitMQ, for an address.
  pub broker : Option Bytes → Broker
  -- `rand::thread_rng().sample_iter(&Alphanumeric)`
  pub sample : ℕ → ℕ
  -- Another task is setting JWT_SECRET.
  pub initializing : Bool
  pub clients : ClientLibrary

-- What the server runs with.
pub record Started (host : Host) : Type 0 where
  pub full_rest_addr : host.SocketAddr
  pub cors_allowed_origin : host.HeaderValue
  pub rate_limit : ℕ
  pub concurrency_limit : ℕ
  pub tlm_pools : TelemetryPools
  pub gis_pool : GisPool
  -- The content of JWT_SECRET.
  pub jwt_secret : Bytes
  pub grpc_clients : GrpcClients host.clients

-- `.take(42)`
unfoldable pub take_samples : (ℕ → ℕ) → ℕ → ℕ → Bytes
take_samples f i zero = []
take_samples f i (suc n) = f i ∷ take_samples f (i + 1) n

module _ (host : Host) where
  -- `JWT_SECRET.set(..)`: the cell is set once.
  set_secret : Option Bytes → Result (Unit {0}) Bytes
  unfolding take_samples
  set_secret none = if host.initializing then err tt else ok (take_samples host.sample 0 42)
  set_secret (some secret) = err tt

  -- The address to listen on, and the allowed origin.
  endpoints : Config → Result (Unit {0}) (host.SocketAddr × host.HeaderValue)
  endpoints config =
      and_then
        (ok_or (host.parse_address (codes "[::]:" ++ decimal_u32 config.docker_port_rest)) tt)
        λ full_rest_addr.
          and_then (ok_or (host.parse_header config.rest_cors_allowed_origin) tt)
            λ cors_allowed_origin. ok (full_rest_addr, cors_allowed_origin)

  redis_pools : Config → Result (Unit {0}) (TelemetryPools × GisPool)
  redis_pools config =
      and_then (new_telemetry_pool config.redis_url host.creates_adsb_pool (codes "tlm:adsb"))
        λ adsb.
          and_then
            (new_telemetry_pool config.redis_url host.creates_netrid_pool (codes "tlm:netrid"))
            λ netrid.
              and_then (new_gis_pool config.redis_url host.creates_gis_pool)
                λ gis_pool. ok (record { adsb = adsb; netrid = netrid }, gis_pool)

  -- `secret` is the content of JWT_SECRET before.
  unfoldable pub start_up : Config → Option Bytes → Io (Unit {0}) (Started host)
  unfolding set_secret endpoints redis_pools default_clients
  start_up config secret = do
    (full_rest_addr, cors_allowed_origin) ← lift (endpoints config)
    (tlm_pools, gis_pool) ← lift (redis_pools config)
    or_err (init_mq (host.broker config.amqp_url)) tt
    jwt_secret ← lift (set_secret secret)
    return (record {
      full_rest_addr = full_rest_addr;
      cors_allowed_origin = cors_allowed_origin;
      rate_limit = config.rest_request_limit_per_second;
      concurrency_limit = config.rest_concurrency_limit_per_service;
      tlm_pools = tlm_pools;
      gis_pool = gis_pool;
      jwt_secret = jwt_secret;
      grpc_clients = default_clients host.clients config;
    })
