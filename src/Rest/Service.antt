-- ===== src/Rest/Service.antt =====
-- What a request handler of server/src/rest/api/ runs with: the pools, and the libraries that are not
-- part of the repository.
use svc_telemetry.Base.{ℕ, Option, ok, err, if◌then◌else◌, ◌∷◌}
use svc_telemetry.World.{Backends, History, Bytes, Io, publish}
use svc_telemetry.Msg.Netrid.Clock.{Chrono}
use svc_telemetry.Rest.Gis.{AircraftId, AircraftPosition, AircraftVelocity}

pub record Service (c : Chrono) : Type 0 where
  pub backends : Backends
  -- `Utc::now()`: the reading `k` after the history so far.
  pub now : History → ℕ → c.DateTime
  -- `serde_json::to_vec`.
  pub id_json : AircraftId c.DateTime → Option Bytes
  pub position_json : AircraftPosition c.DateTime → Option Bytes
  pub velocity_json : AircraftVelocity c.DateTime → Option Bytes
  -- REDIS_KEY_AIRCRAFT_ID, REDIS_KEY_AIRCRAFT_POSITION, REDIS_KEY_AIRCRAFT_VELOCITY of svc-gis.
  pub key_id : Bytes
  pub key_position : Bytes
  pub key_velocity : Bytes

-- `mq_channel.basic_publish(exchange, routing key, .., message, ..).await`
unfoldable pub basic_publish : Backends → Bytes → Bytes → Bytes → Io (Unit {0}) (Unit {0})
basic_publish b exchange routing_key msg h =
    ((if b.published h then ok tt else err tt), publish exchange routing_key msg ∷ h)
