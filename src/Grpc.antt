-- ===== src/Grpc.antt =====
-- gRPC: the clients that the service calls others with, server/src/grpc/client.rs; its own method, of
-- server/src/grpc/server.rs; and the client crate that calls it, client-grpc/src/client.rs with the
-- generated client-grpc/src/grpc.rs. Connections and transport are those of lib_common and tonic.
pub mod Ready
use svc_telemetry.Base.{ℕ, Bool, true, false, ◌++◌, Option, none, some, Result, ok, err, ◌>>=◌}
use svc_telemetry.Base.Text.{codes}
use svc_telemetry.World.{Bytes}
use svc_telemetry.Config.{Config}

-- `svc_storage_client_grpc::Clients::new` and `GisClient::new_client`.
pub record ClientLibrary : Type 1 where
  pub Clients : Type 0
  pub GisClient : Type 0
  pub new : Bytes → ℕ → Clients
  pub new_client : Bytes → ℕ → Bytes → GisClient

pub record GrpcClients (lib : ClientLibrary) : Type 0 where
  pub storage : lib.Clients
  pub gis : lib.GisClient

unfoldable pub default_clients : (lib : ClientLibrary) → Config → GrpcClients lib
default_clients lib config = record {
  storage = lib.new config.storage_host_grpc config.storage_port_grpc;
  gis = lib.new_client config.gis_host_grpc config.gis_port_grpc (codes "gis");
}

pub record ReadyResponse : Type 0 where
  pub ready : Bool

-- The method of the server; its request has no fields.
unfoldable pub is_ready : {Status : Type 0} → Unit {0} → Result Status ReadyResponse
is_ready request = ok (record { ready = true })

-- `tonic::Status`, as far as the generated client makes one.
pub record Status : Type 0 where
  pub unknown : Bool
  pub message : Bytes

-- `tonic::client::Grpc` over a channel: the error of `ready`, if any, and the answer to a call of a path.
pub record Channel : Type 0 where
  pub not_ready : Option Bytes
  pub unary : Bytes → Result Status ReadyResponse

-- The generated `RpcServiceClient::is_ready`.
rpc_is_ready : Channel → Unit {0} → Result Status ReadyResponse
rpc_is_ready ch request = elim ch.not_ready [
  | some e ↦ err (record { unknown = true; message = codes "Service was not ready: " ++ e })
  | none ↦ ch.unary (codes "/grpc.RpcService/isReady")
]

-- `TelemetryClient::is_ready`; `get_client` gives the channel, or fails to connect.
unfoldable pub client_is_ready : Result Status Channel → Unit {0} → Result Status ReadyResponse
unfolding rpc_is_ready
client_is_ready get_client request = get_client >>= λ ch. rpc_is_ready ch request

-- The same with the stub client.
pub stub_is_ready : Unit {0} → Result Status ReadyResponse
stub_is_ready request = ok (record { ready = true })
