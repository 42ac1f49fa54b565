-- ===== src/Rest/Netrid/Replies.antt =====
-- What the Network Remote ID endpoint answers, and what it has sent by then:
-- server/src/rest/api/netrid.rs.
use svc_telemetry.Base.{
  ℕ, ◌≡◌, refl, ◌≢◌, ◌⊎◌, inl, inr, arith, Bool-cases, ◌∷◌, Option, none, some, Option-cases, ok,
  err, Result-cases, ok_or, length, ◌==◌,
}
use svc_telemetry.World.{Event, Bytes, History, Io, ◌>>=◌, pipeline}
use svc_telemetry.World.Effects.{bind_cases, Rejects, Never, Rejects-bind, Keeps-lift, Rejects-lift}
use svc_telemetry.Cache.{TelemetryPools, bytes_to_key}
use svc_telemetry.Cache.Pool.{push}
use svc_telemetry.Cache.Pool.Pipelines.{increment_steps, increment_history}
use svc_telemetry.Msg.Netrid.{BasicMessage, LocationMessage}
use svc_telemetry.Msg.Netrid.Fields.{MessageType}
use svc_telemetry.Msg.Netrid.Clock.{Chrono}
use svc_telemetry.Rest.Status.{StatusCode, bad_request, internal_server_error}
use svc_telemetry.Rest.Gis.{AircraftId, AircraftPosition, AircraftVelocity}
use svc_telemetry.Base.Text.{from_utf8, trim}
use svc_telemetry.Amqp.{routing_key_netrid_id}
use svc_telemetry.Rest.Jwt.{Claim}
use svc_telemetry.Rest.Service.{Service}
use svc_telemetry.Rest.Netrid.{
  Unpack, readings, id_item, send_id, send_location, publish_json, process_basic_message,
  process_location_message, process_message, on_count, count_reporters, network_remote_id,
  cache_expire_ms_netrid,
}

bad≢internal : bad_request ≢ internal_server_error
bad≢internal e = cc

module _ (c : Chrono) (sv : Service c) where
  publish_json_ok :
      (key : Bytes) (msg : Option Bytes) (h : History) → (publish_json c sv key msg h).0 ≡ ok tt
  unfolding publish_json
  publish_json_ok key none h = refl
  publish_json_ok key (some msg) h = refl

  Never-send_id : (item : AircraftId c.DateTime) → Never bad_request (send_id c sv item)
  unfolding send_id Never
  Never-send_id item h h' p = ground (
    arith,
    bad≢internal,
    publish_json_ok routing_key_netrid_id (sv.id_json item)
        (push sv.backends (record {}) (sv.id_json item) sv.key_id h).1,
  )

  Never-send_location :
      (x : AircraftPosition c.DateTime) (v : AircraftVelocity c.DateTime)
      → Never bad_request (send_location c sv x v)
  unfolding send_location Never
  Never-send_location x v h h' p = ground (arith, bad≢internal)

  Rejects-process_basic_message :
      (sub : Bytes) (m : BasicMessage) → Rejects bad_request (process_basic_message c sv sub m)
  unfolding process_basic_message Rejects Never
  Rejects-process_basic_message sub m h h' e =
      elim (Result-cases (ok_or (from_utf8 m.uas_id) bad_request)) [
        | inl (text, q) ↦
            absurd (Never-send_id (id_item c sv sub m (trim text) (sv.now h 0)) h h' (rw q at e))
        | inr (x, q) ↦ cc (rw q at e)
      ]

  Rejects-process_location_message :
      (sub : Bytes) (m : LocationMessage)
      → Rejects bad_request (process_location_message c sv sub m)
  unfolding process_location_message Rejects Never
  Rejects-process_location_message sub m h h' e = elim (Result-cases (readings m)) [
    | inl ((altitude, speed, vertical), q) ↦ absurd (Never-send_location _ _ h h' (rw q at e))
    | inr (x, q) ↦ cc (rw q at e)
  ]

  module _ (un : Unpack) where
    Rejects-process_message :
        (t : MessageType) (sub message : Bytes)
        → Rejects bad_request (process_message c sv un t sub message)
    unfolding process_message Rejects
    Rejects-process_message MessageType.basic sub message =
        Rejects-bind _ _ _ (Keeps-lift _) (Rejects-lift _ _)
          λ m. Rejects-process_basic_message sub m
    Rejects-process_message MessageType.location sub message =
        Rejects-bind _ _ _ (Keeps-lift _) (Rejects-lift _ _)
          λ m. Rejects-process_location_message sub m
    Rejects-process_message _ sub message = λ h h' p. cc

    Rejects-on_count :
        (n : ℕ) (p : Io StatusCode (Unit {0}))
        → Rejects bad_request p
        → Rejects bad_request (on_count c sv un n p)
    unfolding on_count Rejects
    Rejects-on_count n p r h h' e = ground (arith, r h h')

    -- The increment of a packet's count.
    abbrev pub counting : TelemetryPools → Bytes → Event
    counting pools payload =
        pipeline (increment_steps pools.netrid (bytes_to_key payload) cache_expire_ms_netrid)

    count_sends :
        (pools : TelemetryPools) (t : MessageType) (payload : Bytes) (n : ℕ) (h h' : History)
        → count_reporters c sv un pools t payload h ≡ (ok n, h')
        → (h' ≡ h) ⊎ (h' ≡ counting pools payload ∷ h)
    unfolding count_reporters
    count_sends pools t payload n h h' e = ground (
      arith,
      increment_history sv.backends pools.netrid (bytes_to_key payload) cache_expire_ms_netrid h,
    )

    Never-count_reporters :
        (pools : TelemetryPools) (t : MessageType) (payload : Bytes)
        → Never bad_request (count_reporters c sv un pools t payload)
    unfolding count_reporters Never
    Never-count_reporters pools t payload h h' e = ground arith

    -- The part of the handler behind the unpacking of the frame.
    counted :
        (pools : TelemetryPools) (payload : Bytes) (t : MessageType) (p : Io StatusCode (Unit {0}))
        (h h' : History)
        → Rejects bad_request p
        → (count_reporters c sv un pools t payload >>= λ n. on_count c sv un n p) h
          ≡ (err bad_request, h')
        → (h' ≡ h) ⊎ (h' ≡ counting pools payload ∷ h)
    unfolding Rejects Never
    counted pools payload t p h h' r e =
        elim (bind_cases (count_reporters c sv un pools t payload) (λ n. on_count c sv un n p)
          bad_request h h' e) [
            | inl q ↦ absurd (Never-count_reporters pools t payload h h' q)
            | inr (n, h1, q, w) ↦
                ground (arith, Rejects-on_count n p r h1 h' w, count_sends pools t payload n h h1 q)
          ]

    -- A packet that is answered with 400 has left no trace but the increment of its own count.
    pub network_remote_id-eq-bad_request :
        (pools : TelemetryPools) (claim : Claim) (payload : Bytes) (h h' : History)
        → network_remote_id c sv un pools claim payload h ≡ (err bad_request, h')
        → (h' ≡ h) ⊎ (h' ≡ counting pools payload ∷ h)
    unfolding network_remote_id
    network_remote_id-eq-bad_request pools claim payload h h' e =
        elim (Bool-cases (length payload == 25)) [
          | inr q ↦ inl (cc (rw q at e))
          | inl q ↦ elim (Option-cases (un.frame payload)) [
            | inl w ↦ inl (cc (rw w at (rw q at e)))
            | inr (f, w) ↦
                counted pools payload f.header.message_type
                  (process_message c sv un f.header.message_type claim.sub f.message) h h'
                  (Rejects-process_message f.header.message_type claim.sub f.message)
                  (rw w at (rw q at e))
          ]
        ]
