-- ===== src/Rest/Netrid/Quiet.antt =====
-- The processing of a Network Remote ID message leaves a measure of the history as it is, if it gives
-- pushes and the announcements of these messages no weight: server/src/rest/api/netrid.rs.
use svc_telemetry.Base.{ℕ, ◌≡◌, refl, arith, Option, none, some}
use svc_telemetry.World.{Bytes, Event, publish}
use svc_telemetry.World.Tally.{quiet_rules, tally, IsQuiet, bind-IsQuiet, lift-IsQuiet}
use svc_telemetry.Amqp.{
  exchange_name_telemetry, routing_key_netrid_position, routing_key_netrid_velocity,
  routing_key_netrid_id,
}
use svc_telemetry.Cache.Pool.Quiet.{IsIdle, push-IsQuiet}
use svc_telemetry.Msg.Netrid.{BasicMessage, LocationMessage}
use svc_telemetry.Msg.Netrid.Fields.{MessageType}
use svc_telemetry.Msg.Netrid.Clock.{Chrono}
use svc_telemetry.Rest.Gis.{AircraftId, AircraftPosition, AircraftVelocity}
use svc_telemetry.Rest.Service.{Service}
use svc_telemetry.Rest.Netrid.{
  Unpack, now, send_id, send_location, publish_json, process_basic_message,
  process_location_message, process_message,
}

-- The announcements of Network Remote ID messages have no weight.
pub record IsUnheard (weigh : Event → ℕ) : Type 0 where
  pub id : (msg : Bytes) → weigh (publish exchange_name_telemetry routing_key_netrid_id msg) ≡ 0
  pub position :
      (msg : Bytes) → weigh (publish exchange_name_telemetry routing_key_netrid_position msg) ≡ 0
  pub velocity :
      (msg : Bytes) → weigh (publish exchange_name_telemetry routing_key_netrid_velocity msg) ≡ 0

module _ (c : Chrono) (sv : Service c) (weigh : Event → ℕ) (idle : IsIdle sv.backends weigh)
    (unheard : IsUnheard weigh) where
  publish_json-IsQuiet :
      (key : Bytes) (msg : Option Bytes)
      → ((m : Bytes) → weigh (publish exchange_name_telemetry key m) ≡ 0)
      → IsQuiet weigh (publish_json c sv key msg)
  unfolding IsQuiet publish_json tally
  publish_json-IsQuiet key none z h = refl
  publish_json-IsQuiet key (some msg) z h = rw (z msg) (omega arith)

  send_id-IsQuiet : (item : AircraftId c.DateTime) → IsQuiet weigh (send_id c sv item)
  unfolding send_id
  send_id-IsQuiet item =
      search (quiet_rules, push-IsQuiet sv.backends weigh idle, publish_json-IsQuiet, unheard.id)

  send_location-IsQuiet :
      (x : AircraftPosition c.DateTime) (v : AircraftVelocity c.DateTime)
      → IsQuiet weigh (send_location c sv x v)
  unfolding send_location
  send_location-IsQuiet x v = search (
    quiet_rules,
    push-IsQuiet sv.backends weigh idle,
    publish_json-IsQuiet,
    unheard.position,
    unheard.velocity,
  )

  now-IsQuiet : (k : ℕ) → IsQuiet weigh (now c sv k)
  unfolding IsQuiet now
  now-IsQuiet k h = refl

  process_basic_message-IsQuiet :
      (sub : Bytes) (m : BasicMessage) → IsQuiet weigh (process_basic_message c sv sub m)
  unfolding process_basic_message
  process_basic_message-IsQuiet sub m = search (quiet_rules, now-IsQuiet, send_id-IsQuiet)

  process_location_message-IsQuiet :
      (sub : Bytes) (m : LocationMessage) → IsQuiet weigh (process_location_message c sv sub m)
  unfolding process_location_message
  process_location_message-IsQuiet sub m = search (quiet_rules, now-IsQuiet, send_location-IsQuiet)

  pub process_message-IsQuiet :
      (un : Unpack) (t : MessageType) (sub message : Bytes)
      → IsQuiet weigh (process_message c sv un t sub message)
  unfolding process_message
  process_message-IsQuiet un MessageType.basic sub message =
      bind-IsQuiet weigh _ _ (lift-IsQuiet weigh _) λ m. process_basic_message-IsQuiet sub m
  process_message-IsQuiet un MessageType.location sub message =
      bind-IsQuiet weigh _ _ (lift-IsQuiet weigh _) λ m. process_location_message-IsQuiet sub m
  process_message-IsQuiet un _ sub message = lift-IsQuiet weigh _
