-- ===== src/Rest/Adsb/Extends.antt =====
-- The handling of a first report, in server/src/rest/api/adsb.rs, only adds to the history.
use svc_telemetry.Base.{ℕ, refl, [], ◌∷◌, ok_or, ltb, inl, inr, Bool-cases}
use svc_telemetry.World.{Bytes, insert, publish}
use svc_telemetry.World.Extends.{Extends, extends_rules, lift-Extends, bind-Extends}
use svc_telemetry.Cache.{TelemetryPools}
use svc_telemetry.Msg.Adsb.{Libm, get_adsb_icao_address}
use svc_telemetry.Msg.Netrid.Clock.{Chrono}
use svc_telemetry.Rest.Status.{bad_request}
use svc_telemetry.Rest.Service.{Service, basic_publish}
use svc_telemetry.Rest.Adsb.Push.{
  AdsbDeku, Me, identification, airborne_position, velocity, unrecognized, Packet, not_adsb,
  adsb_format,
}
use svc_telemetry.Rest.Adsb.Push.Extends.{
  gis_identifier_push-Extends, gis_position_push-Extends, gis_velocity_push-Extends,
  set_cpr-Extends,
}
use svc_telemetry.Rest.Adsb.{
  process_me, insert_record, store_packet, process_frame, process_packet, on_count,
  n_reporters_needed,
}

module _ (ch : Chrono) (sv : Service ch) (lib : Libm) (deku : AdsbDeku) where
  process_me-Extends :
      (pools : TelemetryPools) (icao : ℕ) (me : Me)
      → Extends (process_me ch sv lib deku pools icao me)
  unfolding process_me
  process_me-Extends pools icao (identification tc ca cn) =
      search (extends_rules, gis_identifier_push-Extends ch sv lib deku)
  process_me-Extends pools icao (airborne_position f lat lon alt) =
      search
        (extends_rules, gis_position_push-Extends ch sv lib deku, set_cpr-Extends ch sv lib deku)
  process_me-Extends pools icao (velocity st sub sign v) =
      search (extends_rules, gis_velocity_push-Extends ch sv lib deku)
  process_me-Extends pools icao unrecognized = lift-Extends _

  basic_publish-Extends :
      (exchange routing_key msg : Bytes)
      → Extends (basic_publish sv.backends exchange routing_key msg)
  unfolding Extends basic_publish
  basic_publish-Extends exchange routing_key msg h = (publish exchange routing_key msg ∷ [], refl)

  insert_record-Extends :
      (icao message_type : ℕ) (payload : Bytes)
      → Extends (insert_record ch sv lib deku icao message_type payload)
  unfolding Extends insert_record
  insert_record-Extends icao message_type payload h = (insert icao message_type payload ∷ [], refl)

  store_packet-Extends :
      (icao : ℕ) (payload : Bytes) (count : ℕ)
      → Extends (store_packet ch sv lib deku icao payload count)
  unfolding store_packet
  store_packet-Extends icao payload count =
      search (extends_rules, basic_publish-Extends, insert_record-Extends)

  process_frame-Extends :
      (pools : TelemetryPools) (payload : Bytes) (count : ℕ) (p : Packet)
      → Extends (process_frame ch sv lib deku pools payload count p)
  unfolding process_frame
  process_frame-Extends pools payload count not_adsb = lift-Extends _
  process_frame-Extends pools payload count (adsb_format address me) =
      bind-Extends _ _ (process_me-Extends pools (get_adsb_icao_address address) me)
        λ u. store_packet-Extends (get_adsb_icao_address address) payload count

  pub process_packet-Extends :
      (pools : TelemetryPools) (payload : Bytes) (count : ℕ)
      → Extends (process_packet ch sv lib deku pools payload count)
  unfolding process_packet
  process_packet-Extends pools payload count =
      bind-Extends _ _ (lift-Extends (ok_or (deku.from_bytes payload) bad_request))
        λ p. process_frame-Extends pools payload count p

  -- What follows the count.
  pub on_count-Extends :
      (pools : TelemetryPools) (payload : Bytes) (count : ℕ)
      → Extends (on_count ch sv lib deku count (process_packet ch sv lib deku pools payload count))
  unfolding on_count
  on_count-Extends pools payload count = elim (Bool-cases (ltb count n_reporters_needed)) [
    | inl few ↦ rw few (lift-Extends _)
    | inr enough ↦ rw enough (elim (Bool-cases (ltb n_reporters_needed count)) [
      | inl many ↦ rw many (lift-Extends _)
      | inr once ↦ rw once (process_packet-Extends pools payload count)
    ])
  ]
