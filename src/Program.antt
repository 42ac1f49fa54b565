-- ===== src/Program.antt =====
-- The program around the servers: server/src/main.rs, server/src/grpc/server.rs and the command line of
-- server/src/lib.rs. The gRPC server runs until it is shut down; what is kept of it is where it serves.
pub mod Failure
mod Tests
use svc_telemetry.Base.{Bool, ◌++◌, Option, none, some, Result, ok, err}
use svc_telemetry.Base.Text.{codes, decimal_u32}
use svc_telemetry.World.{Bytes, History}
use svc_telemetry.Config.{Config, ConfigLibrary, try_from_env}
use svc_telemetry.Rest.OpenApi.{generate_openapi_spec}
use svc_telemetry.Rest.Server.Startup.{Host, Started, start_up}

pub record Cli : Type 0 where
  pub openapi : Option Bytes

-- How `main` goes on: it has failed, has written the OpenAPI file, or runs the two servers.
pub data Course (host : Host) : Type 0 where
  failed : Course host
  generated : Course host
  running : Result (Unit {0}) (Started host) → Option host.SocketAddr → Course host

module _ (lib : ConfigLibrary) (host : Host) where
  -- The address that the gRPC server serves at, if the server starts.
  pub grpc_server : Config → Option host.SocketAddr
  grpc_server config = host.parse_address (codes "[::]:" ++ decimal_u32 config.docker_port_grpc)

  -- The OpenAPI document and the writing of its file are parameters. The outcome of the REST server is
  -- not looked at.
  unfoldable pub main :
      Option Bytes → (Bytes → Bytes → Bool) → Cli → History → Course host × History
  unfolding grpc_server generate_openapi_spec
  main pretty_json write args h = elim (try_from_env lib) [
    | err e ↦ (failed, h)
    | ok config ↦ elim args.openapi [
      | some target ↦ elim (generate_openapi_spec pretty_json write target) [
        | ok u ↦ (generated, h)
        | err e ↦ (failed, h)
      ]
      | none ↦
          let (rest, h') = start_up host config none h in (running rest (grpc_server config), h')
    ]
  ]
