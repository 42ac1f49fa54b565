-- ===== src/Rest/Netrid/Basic.antt =====
-- Basic messages are accepted: server/src/rest/api/netrid.rs with Redis up.
use svc_telemetry.Base.{ℕ, ◌≡◌, arith, true, ◌∷◌, some, ok, length}
use svc_telemetry.Base.Text.{from_utf8, trim}
use svc_telemetry.World.{Bytes, Value, end, more, History, Backends, pipeline, publish, return}
use svc_telemetry.World.Effects.{bind_ok}
use svc_telemetry.Amqp.{exchange_name_telemetry, routing_key_netrid_id}
use svc_telemetry.Cache.{TelemetryPools}
use svc_telemetry.Cache.Pool.{push}
use svc_telemetry.Cache.Pool.Quiet.{push_steps}
use svc_telemetry.Msg.Netrid.{Frame, BasicMessage}
use svc_telemetry.Msg.Netrid.Fields.{MessageType}
use svc_telemetry.Msg.Netrid.Clock.{Chrono}
use svc_telemetry.Rest.Jwt.{Claim}
use svc_telemetry.Rest.Gis.{AircraftId}
use svc_telemetry.Rest.Service.{Service}
use svc_telemetry.Rest.Netrid.{
  Unpack, id_item, send_id, process_basic_message, process_message, publish_json, is_basic,
  network_remote_id,
}

-- Redis is up, and answers a push with one value.
pub record IsPushing (b : Backends) : Type 0 where
  pub connected : (h : History) → b.connects h ≡ true
  pub pushed :
      (h : History) (key item : Bytes)
      → (v : Value) × (b.answer h (push_steps key item) ≡ some (Value.bulk (more v end)))

pub push_lem :
    (b : Backends) (k : IsPushing b) (item ks : Bytes) (x : ℕ) (h : History)
    → push b (record {}) (some item) (x ∷ ks) h ≡ (ok tt, pipeline (push_steps (x ∷ ks) item) ∷ h)
unfolding push
push_lem b k item ks x h = let (v, e) = k.pushed h (x ∷ ks) item in ground (arith, k.connected h, e)

module _ (c : Chrono) (sv : Service c) (k : IsPushing (sv.backends)) where
  send_id_lem :
      (item : AircraftId c.DateTime) (j ks : Bytes) (x : ℕ) (h : History)
      → sv.id_json item ≡ some j
      → sv.key_id ≡ x ∷ ks
      → send_id c sv item h ≡ (
        ok tt,
        publish exchange_name_telemetry routing_key_netrid_id j
            ∷ pipeline (push_steps (x ∷ ks) j)
            ∷ h,
      )
  unfolding send_id publish_json
  send_id_lem item j ks x h pj pk = rw pj (rw pk (ground (arith, push_lem sv.backends k j ks x h)))

  process_basic_message_lem :
      (sub : Bytes) (m : BasicMessage) (text j ks : Bytes) (x : ℕ) (h : History)
      → from_utf8 m.uas_id ≡ some text
      → sv.id_json (id_item c sv sub m (trim text) (sv.now h 0)) ≡ some j
      → sv.key_id ≡ x ∷ ks
      → process_basic_message c sv sub m h ≡ (
        ok tt,
        publish exchange_name_telemetry routing_key_netrid_id j
            ∷ pipeline (push_steps (x ∷ ks) j)
            ∷ h,
      )
  unfolding process_basic_message
  process_basic_message_lem sub m text j ks x h pu pj pk =
      rw (process_basic_message, pu)
        (send_id_lem (id_item c sv sub m (trim text) (sv.now h 0)) j ks x h pj pk)

  module _ (un : Unpack) where
    process_message_lem :
        (sub message text j ks : Bytes) (x : ℕ) (m : BasicMessage) (h : History)
        → un.basic message ≡ some m
        → from_utf8 m.uas_id ≡ some text
        → sv.id_json (id_item c sv sub m (trim text) (sv.now h 0)) ≡ some j
        → sv.key_id ≡ x ∷ ks
        → process_message c sv un MessageType.basic sub message h ≡ (
          ok tt,
          publish exchange_name_telemetry routing_key_netrid_id j
              ∷ pipeline (push_steps (x ∷ ks) j)
              ∷ h,
        )
    unfolding process_message
    process_message_lem sub message text j ks x m h pm pu pj pk =
        rw (process_message, pm) (process_basic_message_lem sub m text j ks x h pu pj pk)

    -- With Redis up and an item that is serialized: a packet of 25 bytes that unpacks to a basic
    -- message with an identifier in UTF-8 is answered with 1, every time it comes, and exactly this is
    -- sent: the item to its queue, then to RabbitMQ.
    pub network_remote_id-basic :
        (pools : TelemetryPools) (claim : Claim) (payload text j ks : Bytes) (x : ℕ) (f : Frame)
        (m : BasicMessage) (h : History)
        → length payload ≡ 25
        → un.frame payload ≡ some f
        → f.header.message_type ≡ MessageType.basic
        → un.basic f.message ≡ some m
        → from_utf8 m.uas_id ≡ some text
        → sv.id_json (id_item c sv claim.sub m (trim text) (sv.now h 0)) ≡ some j
        → sv.key_id ≡ x ∷ ks
        → network_remote_id c sv un pools claim payload h ≡ (
          ok 1,
          publish exchange_name_telemetry routing_key_netrid_id j
              ∷ pipeline (push_steps (x ∷ ks) j)
              ∷ h,
        )
    unfolding network_remote_id is_basic
    network_remote_id-basic pools claim payload text j ks x f m h len pf pt pm pu pj pk = rw len (
        rw pf (
          rw pt (
            bind_ok (process_message c sv un MessageType.basic claim.sub f.message) (λ u. return 1)
              tt h _ (process_message_lem claim.sub f.message text j ks x m h pm pu pj pk))))
