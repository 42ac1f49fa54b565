-- ===== src/Config.antt =====
-- The configuration of the service: server/src/config.rs. The config library, which reads the
-- environment and fills the struct, is a parameter. Of the settings of deadpool_redis and deadpool_lapin
-- only the addresses are kept.
pub mod Fields
pub mod Defaults
pub mod Tests
use svc_telemetry.Base.{ℕ, List, [], ◌∷◌, Option, none, some, Result, ok, err, ◌>>=◌}
use svc_telemetry.Base.Text.{codes}
use svc_telemetry.World.{Bytes}

pub record Config : Type 0 where
  pub docker_port_grpc : ℕ
  pub docker_port_rest : ℕ
  pub storage_host_grpc : Bytes
  pub storage_port_grpc : ℕ
  pub gis_host_grpc : Bytes
  pub gis_port_grpc : ℕ
  pub amqp_url : Option Bytes
  pub redis_url : Option Bytes
  pub log_config : Bytes
  pub ringbuffer_size_bytes : ℕ
  pub gis_push_cadence_ms : ℕ
  pub gis_max_message_size_bytes : ℕ
  pub rest_request_limit_per_second : ℕ
  pub rest_concurrency_limit_per_service : ℕ
  pub rest_cors_allowed_origin : Bytes

-- `Config::new`, also `Config::default`.
abbrev pub new : Config
new = record {
  docker_port_grpc = 50051;
  docker_port_rest = 8000;
  storage_port_grpc = 50051;
  storage_host_grpc = codes "localhost";
  gis_port_grpc = 50051;
  gis_host_grpc = codes "localhost";
  redis_url = none;
  amqp_url = none;
  log_config = codes "log4rs.yaml";
  ringbuffer_size_bytes = 4096;
  gis_push_cadence_ms = 50;
  gis_max_message_size_bytes = 2048;
  rest_request_limit_per_second = 2;
  rest_concurrency_limit_per_service = 5;
  rest_cors_allowed_origin = codes "http://localhost:3000";
}

pub data Setting : Type 0 where
  number : ℕ → Setting
  text : Bytes → Setting

-- The config library with the process's environment: a builder of settings and what is built.
pub record ConfigLibrary : Type 1 where
  pub Builder : Type 0
  pub Built : Type 0
  pub ConfigError : Type 0
  pub builder : Builder
  pub set_default : Builder → Bytes → Setting → Result ConfigError Builder
  -- `add_source(Environment::default().separator("__"))`
  pub add_environment : Builder → Builder
  pub build : Builder → Result ConfigError Built
  pub try_deserialize : Built → Result ConfigError Config

-- The defaults that try_from_env sets, by their keys.
abbrev pub defaults : List (Bytes × Setting)
defaults =
    (codes "docker_port_grpc", number new.docker_port_grpc)
    ∷ (codes "docker_port_rest", number new.docker_port_rest)
    ∷ (codes "log_config", text new.log_config)
    ∷ (codes "rest_concurrency_limit_per_service", number new.rest_concurrency_limit_per_service)
    ∷ (codes "rest_request_limit_per_seconds", number new.rest_request_limit_per_second)
    ∷ (codes "rest_cors_allowed_origin", text new.rest_cors_allowed_origin)
    ∷ (codes "ringbuffer_size_bytes", number new.ringbuffer_size_bytes)
    ∷ (codes "gis_push_cadence_ms", number new.gis_push_cadence_ms)
    ∷ (codes "gis_max_message_size_bytes", number new.gis_max_message_size_bytes)
    ∷ []

module _ (lib : ConfigLibrary) where
  -- The chain of `set_default` calls.
  set_defaults : List (Bytes × Setting) → lib.Builder → Result lib.ConfigError lib.Builder
  set_defaults [] b = ok b
  set_defaults ((k, v) ∷ ds) b = lib.set_default b k v >>= λ c. set_defaults ds c

  unfoldable pub try_from_env : Result lib.ConfigError Config
  unfolding set_defaults
  try_from_env = do
    b ← set_defaults defaults lib.builder
    s ← lib.build (lib.add_environment b)
    lib.try_deserialize s
