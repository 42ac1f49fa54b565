-- ===== src/Client/Items.antt =====
-- What a run of the client of client-rest/examples/netrid-flow.rs rests on and what it has sent: its
-- libraries, its identifiers, and the items of the pushes that reach the service.
use svc_telemetry.Base.{ℕ, zero, suc, ◌<◌, ◌≡◌, refl, arith, [], ◌∷◌, ◌++◌, All, none, some, length}
use svc_telemetry.Base.Text.{decimal_u32, from_utf8, trim}
use svc_telemetry.World.{Bytes, History, pipeline, publish}
use svc_telemetry.Amqp.{exchange_name_telemetry, routing_key_netrid_id}
use svc_telemetry.Cache.Pool.Quiet.{push_steps}
use svc_telemetry.Msg.Netrid.{Frame, BasicMessage}
use svc_telemetry.Rest.Gis.{AircraftId, AircraftType}
use svc_telemetry.Rest.Netrid as Netrid
use svc_telemetry.Rest.Server.{Site}
use svc_telemetry.Client.{
  Library, Delivery, lost, unanswered, answered, arrived, identifier, pad_20, array_20,
}
use svc_telemetry.Client.Text.{IsPlain, quote, All-append, All-mono}

-- Packets unpack to what was packed, in 25 bytes, and a plain text stands in quotes in JSON.
pub record IsLibrary (lib : Library) (un : Netrid.Unpack) : Type 0 where
  pub frame-pack :
      (f : Frame) (b : Bytes) → lib.pack_frame f ≡ some b → (length b ≡ 25) × (un.frame b ≡ some f)
  pub basic-pack : (m : BasicMessage) (b : Bytes) → lib.pack_basic m ≡ some b → un.basic b ≡ some m
  pub quoted : (t : Bytes) → All IsPlain t → lib.json_string t ≡ quote ∷ (t ++ (quote ∷ []))

-- The identifiers of the reporters of the example.
pub reporter_text :
    (r : ℕ)
    → r < 3
    → (array_20 (pad_20 (identifier r)) ≡ some (pad_20 (identifier r)))
      × (from_utf8 (identifier r) ≡ some (identifier r))
      × (from_utf8 (pad_20 (identifier r)) ≡ some (pad_20 (identifier r)))
      × (trim (pad_20 (identifier r)) ≡ identifier r)
unfolding from_utf8 trim decimal_u32
reporter_text zero h = (refl, refl, refl, refl)
reporter_text (suc zero) h = (refl, refl, refl, refl)
reporter_text (suc (suc zero)) h = (refl, refl, refl, refl)
reporter_text (suc (suc (suc r))) h = absurd (omega arith)

pub quoted_ascii : (t : Bytes) → All IsPlain t → All (λ c. c < 0x80) (quote ∷ (t ++ (quote ∷ [])))
quoted_ascii t p = (
  omega arith,
  All-append (λ c. c < 0x80) t (quote ∷ [])
      (All-mono IsPlain (λ c. c < 0x80) t (λ c q. omega (arith, q.0, q.1)) p) (omega arith, tt),
)

module _ (site : Site) where
  open site use {chrono, service}

  -- One push of a reporter: its item to the queue `key`, then to RabbitMQ.
  unfoldable pub pushed : (AircraftId chrono.DateTime → Bytes) → Bytes → ℕ → History → History
  pushed json key r h =
      let item : AircraftId chrono.DateTime = record {
        identifier = some (identifier r);
        session_id = none;
        aircraft_type = AircraftType.rotorcraft;
        timestamp_network = service.now h 0;
        timestamp_asset = none;
      } in
      publish exchange_name_telemetry routing_key_netrid_id (json item)
      ∷ pipeline (push_steps key (json item))
      ∷ h

  -- What the service sends for so many pushes, the first with the given number: those that are not lost
  -- on the way.
  unfoldable pub reported :
      (ℕ → History → Delivery)
      → (AircraftId chrono.DateTime → Bytes)
      → Bytes
      → ℕ
      → ℕ
      → ℕ
      → History
      → History
  unfolding pushed
  reported delivery json key r zero number h = h
  reported delivery json key r (suc n) number h =
      reported delivery json key r n (suc number)
        (arrived (delivery number h) h (pushed json key r h))

pub arrived_same : (d : Delivery) (h : History) → arrived d h h ≡ h
arrived_same lost h = refl
arrived_same unanswered h = refl
arrived_same answered h = refl
