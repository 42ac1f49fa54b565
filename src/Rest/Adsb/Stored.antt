-- ===== src/Rest/Adsb/Stored.antt =====
-- What the ADS-B endpoint has done when it answers 200: server/src/rest/api/adsb.rs.
use svc_telemetry.Base.{
  ℕ, zero, suc, ◌≡◌, refl, sym, ◌∙◌, ◌≤◌, ◌⊎◌, inl, inr, arith, Bool-cases, ◌∷◌, Option-cases, some,
  ok, length, ◌==◌,
}
use svc_telemetry.World.{Bytes, History, insert, publish, ◌>>=◌, or_err}
use svc_telemetry.World.Effects.{bind-eq-ok, or_err-eq-ok}
use svc_telemetry.Amqp.{exchange_name_telemetry, routing_key_adsb}
use svc_telemetry.Cache.{TelemetryPools, bytes_to_key}
use svc_telemetry.Cache.Pool.{increment}
use svc_telemetry.Msg.Adsb.{Libm, get_adsb_icao_address, get_adsb_message_type}
use svc_telemetry.Msg.Netrid.Clock.{Chrono}
use svc_telemetry.Rest.Status.{internal_server_error}
use svc_telemetry.Rest.Service.{Service}
use svc_telemetry.Rest.Adsb.Push.{AdsbDeku, Me, Packet, adsb_format, not_adsb}
use svc_telemetry.Rest.Adsb.{
  store_packet, process_me, process_frame, process_packet, on_count, adsb, cache_expire_ms_adsb,
}

module _ (ch : Chrono) (sv : Service ch) (lib : Libm) (deku : AdsbDeku) where
  pub unpacked :
      (pools : TelemetryPools) (payload : Bytes) (h : History)
      → length payload ≡ 14
      → adsb ch sv lib deku pools payload h
        ≡ (or_err
                (increment sv.backends pools.adsb (bytes_to_key payload) cache_expire_ms_adsb)
                internal_server_error
              >>= λ n. on_count ch sv lib deku n (process_packet ch sv lib deku pools payload n))
            h
  unfolding adsb
  unpacked pools payload h len = rw len refl

  length_lem :
      (pools : TelemetryPools) (payload : Bytes) (n : ℕ) (h h' : History)
      → adsb ch sv lib deku pools payload h ≡ (ok n, h')
      → length payload ≡ 14
  unfolding adsb
  length_lem pools payload n h h' e = elim (Bool-cases (length payload == 14)) [
    | inl q ↦ ground arith
    | inr q ↦ cc (rw q at e)
  ]

  store_packet-eq-ok :
      (icao : ℕ) (payload : Bytes) (count n : ℕ) (h h' : History)
      → store_packet ch sv lib deku icao payload count h ≡ (ok n, h')
      → h'
        ≡ insert icao (get_adsb_message_type payload) payload
          ∷ publish exchange_name_telemetry routing_key_adsb payload
          ∷ h
  unfolding store_packet
  store_packet-eq-ok icao payload count n h h' e = ground arith

  -- Between the histories `h` and `h'` a packet was parsed, its message was processed, it was published
  -- and svc-storage was sent its record.
  abbrev pub IsStored : TelemetryPools → Bytes → History → History → Type 0
  IsStored pools payload h h' =
      (address : Bytes) × (me : Me) × (h1 : History) × (deku.from_bytes payload
        ≡ some (adsb_format address me))
      × (process_me ch sv lib deku pools (get_adsb_icao_address address) me h ≡ (ok tt, h1))
      × (h'
          ≡ insert (get_adsb_icao_address address) (get_adsb_message_type payload) payload
            ∷ publish exchange_name_telemetry routing_key_adsb payload
            ∷ h1)

  process_frame-eq-ok :
      (pools : TelemetryPools) (payload : Bytes) (count n : ℕ) (p : Packet) (h h' : History)
      → deku.from_bytes payload ≡ some p
      → process_frame ch sv lib deku pools payload count p h ≡ (ok n, h')
      → IsStored pools payload h h'
  unfolding process_frame
  process_frame-eq-ok pools payload count n not_adsb h h' q e = cc e
  process_frame-eq-ok pools payload count n (adsb_format address me) h h' q e =
      let icao = get_adsb_icao_address address in
      let (u, h1, r, w) =
        bind-eq-ok (process_me ch sv lib deku pools icao me)
          (λ u. store_packet ch sv lib deku icao payload count) n h h' e in
      (address, me, h1, q, r, store_packet-eq-ok icao payload count n h1 h' w)

  process_packet-eq-ok :
      (pools : TelemetryPools) (payload : Bytes) (count n : ℕ) (h h' : History)
      → process_packet ch sv lib deku pools payload count h ≡ (ok n, h')
      → IsStored pools payload h h'
  unfolding process_packet
  process_packet-eq-ok pools payload count n h h' e =
      elim (Option-cases (deku.from_bytes payload)) [
        | inl q ↦ cc (rw q at e)
        | inr (p, q) ↦ process_frame-eq-ok pools payload count n p h h' q (rw q at e)
      ]

  on_count-eq-ok :
      (pools : TelemetryPools) (payload : Bytes) (count n : ℕ) (h h' : History)
      → on_count ch sv lib deku count (process_packet ch sv lib deku pools payload count) h
        ≡ (ok n, h')
      → ((2 ≤ count) × (n ≡ count) × (h' ≡ h)) ⊎ ((count ≡ 1) × IsStored pools payload h h')
  unfolding on_count
  on_count-eq-ok pools payload zero n h h' e = cc e
  on_count-eq-ok pools payload (suc zero) n h h' e =
      inr (refl, process_packet-eq-ok pools payload 1 n h h' e)
  on_count-eq-ok pools payload (suc (suc c)) n h h' e =
      inl (omega arith, ground arith, ground arith)

  -- A packet that is answered with success has 14 bytes and was counted. If the count is more than 1
  -- nothing else was done; if it is 1 the packet was parsed, its message was processed with success,
  -- and then it was published on RabbitMQ and its record was sent to svc-storage.
  pub adsb-eq-ok :
      (pools : TelemetryPools) (payload : Bytes) (n : ℕ) (h h' : History)
      → adsb ch sv lib deku pools payload h ≡ (ok n, h')
      → (length payload ≡ 14)
        × (count : ℕ) × (h1 : History) × (increment sv.backends pools.adsb
              (bytes_to_key payload)
              cache_expire_ms_adsb
              h
            ≡ (ok count, h1))
        × (((2 ≤ count) × (n ≡ count) × (h' ≡ h1)) ⊎ ((count ≡ 1) × IsStored pools payload h1 h'))
  adsb-eq-ok pools payload n h h' e =
      let len = length_lem pools payload n h h' e in
      let count_it = increment sv.backends pools.adsb (bytes_to_key payload) cache_expire_ms_adsb in
      let (count, h1, p, q) =
        bind-eq-ok (or_err count_it internal_server_error)
          (λ n. on_count ch sv lib deku n (process_packet ch sv lib deku pools payload n)) n h h'
          (sym (unpacked pools payload h len) ∙ e) in
      (
        len,
        count,
        h1,
        or_err-eq-ok count_it internal_server_error count h h1 p,
        on_count-eq-ok pools payload count n h1 h' q,
      )
