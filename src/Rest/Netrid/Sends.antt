-- ===== src/Rest/Netrid/Sends.antt =====
-- What the Network Remote ID endpoint sends for a message that it accepts:
-- server/src/rest/api/netrid.rs.
use svc_telemetry.Base.{
  ℕ, ◌≡◌, arith, true, ◌∷◌, some, none, ok, Result-cases, Option-cases, inl, inr, if◌then◌else◌,
}
use svc_telemetry.Base.Text.{from_utf8, trim}
use svc_telemetry.World.{Bytes, History, Backends, pipeline, publish}
use svc_telemetry.Amqp.{
  exchange_name_telemetry, routing_key_netrid_position, routing_key_netrid_velocity,
  routing_key_netrid_id,
}
use svc_telemetry.Cache.Pool.Quiet.{push_steps}
use svc_telemetry.Cache.Pool.{push}
use svc_telemetry.Msg.Netrid.Clock.{Chrono}
use svc_telemetry.Rest.Gis.{AircraftId, AircraftPosition, AircraftVelocity}
use svc_telemetry.Rest.Service.{Service}
use svc_telemetry.Rest.Netrid.{
  send_location, send_id, id_item, is_session_id, aircraft_type_from, process_basic_message,
  publish_json, readings, position_item, velocity_item, asset_time, process_location_message,
}
use svc_telemetry.Float.{Float}
use svc_telemetry.Msg.Netrid.{LocationMessage, BasicMessage}

push_sends :
    (b : Backends) (item k : Bytes) (x : ℕ) (h : History)
    → b.connects h ≡ true
    → (push b (record {}) (some item) (x ∷ k) h).1 ≡ pipeline (push_steps (x ∷ k) item) ∷ h
unfolding push
push_sends b item k x h up = ground (arith, up)

module _ (c : Chrono) (sv : Service c) where
  send_location-eq-ok :
      (x : AircraftPosition c.DateTime) (v : AircraftVelocity c.DateTime) (jx jv ks ls : Bytes)
      (k l : ℕ) (h h' : History)
      → ((h : History) → sv.backends.connects h ≡ true)
      → sv.position_json x ≡ some jx
      → sv.velocity_json v ≡ some jv
      → sv.key_position ≡ k ∷ ks
      → sv.key_velocity ≡ l ∷ ls
      → send_location c sv x v h ≡ (ok tt, h')
      → h'
        ≡ publish exchange_name_telemetry routing_key_netrid_velocity jv
          ∷ publish exchange_name_telemetry routing_key_netrid_position jx
          ∷ pipeline (push_steps (l ∷ ls) jv)
          ∷ pipeline (push_steps (k ∷ ks) jx)
          ∷ h
  unfolding send_location publish_json
  send_location-eq-ok x v jx jv ks ls k l h h' up px pv pk pl e =
      let e1 = rw px at (rw pv at (rw pk at (rw pl at e))) in
      ground (
        arith,
        push_sends sv.backends jx ks k h (up h),
        push_sends sv.backends jv ls l (pipeline (push_steps (k ∷ ks) jx) ∷ h)
            (up (pipeline (push_steps (k ∷ ks) jx) ∷ h)),
      )

  -- With Redis connected, items that are serialized and queues with names: when a location message is
  -- processed with success its readings are known, and exactly this was sent: the position and the
  -- velocity to their queues, then both to RabbitMQ under their routing keys.
  pub process_location_message-eq-ok :
      (jx : AircraftPosition c.DateTime → Bytes) (jv : AircraftVelocity c.DateTime → Bytes)
      (ks ls : Bytes) (k l : ℕ) (sub : Bytes) (m : LocationMessage) (h h' : History)
      → ((h : History) → sv.backends.connects h ≡ true)
      → ((x : AircraftPosition c.DateTime) → sv.position_json x ≡ some (jx x))
      → ((v : AircraftVelocity c.DateTime) → sv.velocity_json v ≡ some (jv v))
      → sv.key_position ≡ k ∷ ks
      → sv.key_velocity ≡ l ∷ ls
      → process_location_message c sv sub m h ≡ (ok tt, h')
      → (altitude : Float) × (speed : Float) × (vertical : Float) × (readings m
          ≡ ok (altitude, speed, vertical))
        × (let asset = asset_time c sv (sv.now h 0) m in
            let x = jx (position_item c sv sub m altitude asset (sv.now h 1)) in
            let v = jv (velocity_item c sv sub m speed vertical asset (sv.now h 2)) in
            h'
            ≡ publish exchange_name_telemetry routing_key_netrid_velocity v
              ∷ publish exchange_name_telemetry routing_key_netrid_position x
              ∷ pipeline (push_steps (l ∷ ls) v)
              ∷ pipeline (push_steps (k ∷ ks) x)
              ∷ h)
  unfolding process_location_message
  process_location_message-eq-ok jx jv ks ls k l sub m h h' up px pv pk pl e =
      elim (Result-cases (readings m)) [
        | inl ((altitude, speed, vertical), q) ↦
            let asset = asset_time c sv (sv.now h 0) m in
            let x = position_item c sv sub m altitude asset (sv.now h 1) in
            let v = velocity_item c sv sub m speed vertical asset (sv.now h 2) in
            (
              altitude,
              speed,
              vertical,
              q,
              send_location-eq-ok x v (jx x) (jv v) ks ls k l h h' up (px x) (pv v) pk pl
                  (rw q at e),
            )
        | inr (x, q) ↦ cc (rw q at e)
      ]

  send_id-eq-ok :
      (item : AircraftId c.DateTime) (j ks : Bytes) (k : ℕ) (h h' : History)
      → sv.backends.connects h ≡ true
      → sv.id_json item ≡ some j
      → sv.key_id ≡ k ∷ ks
      → send_id c sv item h ≡ (ok tt, h')
      → h'
        ≡ publish exchange_name_telemetry routing_key_netrid_id j
          ∷ pipeline (push_steps (k ∷ ks) j)
          ∷ h
  unfolding send_id publish_json
  send_id-eq-ok item j ks k h h' up pj pk e =
      let e1 = rw pj at (rw pk at e) in ground (arith, push_sends sv.backends j ks k h up)

  -- With Redis connected, items that are serialized and a queue with a name: when a basic message is
  -- processed with success its identifier is UTF-8, and exactly this was sent: the item to its queue,
  -- then to RabbitMQ. In the item a session identifier stands beside the identifier of the login, and
  -- any other identifier, without white space around it, takes its place.
  pub process_basic_message-eq-ok :
      (j : AircraftId c.DateTime → Bytes) (ks : Bytes) (k : ℕ) (sub : Bytes) (m : BasicMessage)
      (h h' : History)
      → sv.backends.connects h ≡ true
      → ((item : AircraftId c.DateTime) → sv.id_json item ≡ some (j item))
      → sv.key_id ≡ k ∷ ks
      → process_basic_message c sv sub m h ≡ (ok tt, h')
      → (text : Bytes) × (from_utf8 m.uas_id ≡ some text)
        × (let item : AircraftId c.DateTime = record {
          identifier = some (if is_session_id m.id_type then sub else trim text);
          session_id = if is_session_id m.id_type then some (trim text) else none;
          aircraft_type = aircraft_type_from m.ua_type;
          timestamp_network = sv.now h 0;
          timestamp_asset = none;
        } in
            h'
            ≡ publish exchange_name_telemetry routing_key_netrid_id (j item)
              ∷ pipeline (push_steps (k ∷ ks) (j item))
              ∷ h)
  unfolding process_basic_message id_item
  process_basic_message-eq-ok j ks k sub m h h' up pj pk e =
      elim (Option-cases (from_utf8 m.uas_id)) [
        | inl q ↦ cc (rw q at e)
        | inr (text, q) ↦
            let item = id_item c sv sub m (trim text) (sv.now h 0) in
            (text, q, send_id-eq-ok item (j item) ks k h h' up (pj item) pk (rw q at e))
      ]
