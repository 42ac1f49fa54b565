-- ===== src/Rest/Netrid/Tests.antt =====
-- The theorems on the Network Remote ID endpoint applied to concrete packets.
use svc_telemetry.Base.{◌≡◌, refl, ◌⊎◌, arith, [], ◌∷◌, some, none, ok, err, replicate}
use svc_telemetry.Base.Text.{codes, from_utf8}
use svc_telemetry.World.{publish, pipeline, Bytes, History}
use svc_telemetry.Cache.{TelemetryPools, bytes_to_key}
use svc_telemetry.Cache.Pool.Counting.{incrs}
use svc_telemetry.Cache.Pool.Tests.{fresh_redis, counting_redis, counting_redis-IsCounting}
use svc_telemetry.Msg.Netrid.{Frame, BasicMessage}
use svc_telemetry.Msg.Netrid.Fields.{MessageType, IdType, UaType}
use svc_telemetry.Msg.Netrid.Tests.{clock, sample}
use svc_telemetry.Rest.Status.{bad_request}
use svc_telemetry.Rest.Jwt.{Claim}
use svc_telemetry.Rest.Service.{Service}
use svc_telemetry.Rest.Netrid.Sends.{process_location_message-eq-ok, process_basic_message-eq-ok}
use svc_telemetry.Cache.Pool.Quiet.{push_steps}
use svc_telemetry.Float.{Float}
use svc_telemetry.Amqp.{
  exchange_name_telemetry, routing_key_netrid_velocity, routing_key_netrid_position,
  routing_key_netrid_id,
}
use svc_telemetry.Rest.Netrid.{
  process_location_message, process_basic_message, readings, Unpack, is_basic, network_remote_id,
}
use svc_telemetry.Rest.Netrid.Replies.{counting, network_remote_id-eq-bad_request}
use svc_telemetry.Rest.Netrid.Duplicates.{network_remote_id-incrs}

abbrev pub service : Service clock
service = record {
  backends = counting_redis;
  now = λ h k. 1_700_000_000_000_000_000;
  id_json = λ x. some (codes "id");
  position_json = λ x. some (codes "position");
  velocity_json = λ x. some (codes "velocity");
  key_id = codes "gis:id";
  key_position = codes "gis:position";
  key_velocity = codes "gis:velocity";
}

abbrev pub frame : Frame
frame = record {
  header = record { message_type = MessageType.location; protocol_version = 2 };
  message = replicate 24 0;
}

-- Every packet is a location message.
abbrev pub unpack : Unpack
unpack = record {
  frame = λ payload. some frame;
  basic = λ message. none;
  location = λ message. some sample;
}

abbrev pools : TelemetryPools
pools = record {
  netrid = record { key_folder = codes "tlm:netrid" };
  adsb = record { key_folder = codes "tlm:adsb" };
}

abbrev claim : Claim
claim = record { sub = codes "drone7"; iat = 1000; exp = 1360 }

abbrev payload : Bytes
payload = replicate 25 0x12

abbrev seen : History
seen = counting clock service unpack pools payload ∷ []

-- The second time the packet comes.
network_remote_id-incrs_example :
    network_remote_id clock service unpack pools claim payload seen
    ≡ (ok 2, counting clock service unpack pools payload ∷ seen)
unfolding incrs is_basic bytes_to_key
network_remote_id-incrs_example =
    network_remote_id-incrs clock service unpack counting_redis-IsCounting pools claim payload frame
      seen refl refl refl (omega arith)

-- Every packet is a frame, and no message can be unpacked.
abbrev unreadable : Unpack
unreadable = record {
  frame = λ payload. some frame;
  basic = λ message. none;
  location = λ message. none;
}

rejected :
    network_remote_id clock service unreadable pools claim payload [] ≡ (err bad_request, seen)
unfolding network_remote_id is_basic incrs bytes_to_key svc_telemetry.Cache.Pool.increment
rejected = refl

network_remote_id-eq-bad_request_example :
    (seen ≡ []) ⊎ (seen ≡ counting clock service unreadable pools payload ∷ [])
network_remote_id-eq-bad_request_example =
    network_remote_id-eq-bad_request clock service unreadable pools claim payload [] seen rejected

-- A Redis that accepts a push.
abbrev open_service : Service clock
open_service = record service { backends = fresh_redis }

abbrev position_bytes : Bytes
position_bytes = codes "position"

abbrev velocity_bytes : Bytes
velocity_bytes = codes "velocity"

abbrev located : History
located =
    publish exchange_name_telemetry routing_key_netrid_velocity velocity_bytes
    ∷ publish exchange_name_telemetry routing_key_netrid_position position_bytes
    ∷ pipeline (push_steps (codes "gis:velocity") velocity_bytes)
    ∷ pipeline (push_steps (codes "gis:position") position_bytes)
    ∷ []

accepted : process_location_message clock open_service (codes "drone7") sample [] ≡ (ok tt, located)
unfolding process_location_message readings svc_telemetry.Msg.Netrid.decode_altitude
    svc_telemetry.Float.feq svc_telemetry.Float.sub svc_telemetry.Float.mul svc_telemetry.Float.of_ℕ
    svc_telemetry.Float.round svc_telemetry.Float.half_even svc_telemetry.Float.excess
    svc_telemetry.Float.literal svc_telemetry.Msg.Netrid.decode_speed
    svc_telemetry.Msg.Netrid.decode_vertical_speed svc_telemetry.Float.of_ℤ
accepted = refl

process_location_message-eq-ok_example :
    (altitude : Float) × (speed : Float) × (vertical : Float) × (readings sample
      ≡ ok (altitude, speed, vertical))
    × (located ≡ located)
process_location_message-eq-ok_example =
    process_location_message-eq-ok clock open_service (λ x. position_bytes) (λ v. velocity_bytes)
      (codes "is:position") (codes "is:velocity") b'g' b'g' (codes "drone7") sample [] located
      (λ h. refl) (λ x. refl) (λ v. refl) refl refl accepted

-- A session identifier with white space around it.
abbrev session : BasicMessage
session = record {
  id_type = IdType.specific_session;
  ua_type = UaType.rotorcraft;
  uas_id = codes " s1 ";
  reserved = [];
}

abbrev id_bytes : Bytes
id_bytes = codes "id"

abbrev identified : History
identified =
    publish exchange_name_telemetry routing_key_netrid_id id_bytes
    ∷ pipeline (push_steps (codes "gis:id") id_bytes)
    ∷ []

identified_lem :
    process_basic_message clock open_service (codes "drone7") session [] ≡ (ok tt, identified)
unfolding process_basic_message from_utf8
identified_lem = refl

process_basic_message-eq-ok_example :
    (text : Bytes) × (from_utf8 (codes " s1 ") ≡ some text) × (identified ≡ identified)
process_basic_message-eq-ok_example =
    process_basic_message-eq-ok clock open_service (λ x. id_bytes) (codes "is:id") b'g'
      (codes "drone7") session [] identified refl (λ x. refl) refl identified_lem
