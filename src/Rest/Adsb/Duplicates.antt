-- ===== src/Rest/Adsb/Duplicates.antt =====
-- The deduplication of ADS-B packets: server/src/rest/api/adsb.rs on a Redis that counts.
use svc_telemetry.Base.{
  ℕ, zero, suc, ◌<◌, ◌^◌, ◌≡◌, refl, ◌∙◌, arith, ◌∷◌, some, ok, err, true, false, length, ◌==◌,
  if◌then◌else◌,
}
use svc_telemetry.World.{Value, end, more, Event, pipeline, Bytes, History, Io, or_err}
use svc_telemetry.Base.Int.{pos}
use svc_telemetry.World.Effects.{bind_ok, or_err_ok, Yields, yield_rules, bind-Yields, fail-Yields}
use svc_telemetry.Cache.{TelemetryPools, bytes_to_key}
use svc_telemetry.Cache.Pool.{increment}
use svc_telemetry.Cache.Pool.Pipelines.{increment_steps}
use svc_telemetry.Cache.Pool.Counting.{IsCounting, incrs, stored_key, increment_answered}
use svc_telemetry.Msg.Adsb.{Libm, get_adsb_icao_address}
use svc_telemetry.Msg.Netrid.Clock.{Chrono}
use svc_telemetry.Rest.Status.{StatusCode, bad_request, internal_server_error}
use svc_telemetry.Rest.Service.{Service}
use svc_telemetry.Rest.Adsb.Push.{AdsbDeku, Packet, not_adsb, adsb_format}
use svc_telemetry.Rest.Adsb.{
  store_packet, process_frame, process_packet, on_count, adsb, cache_expire_ms_adsb,
}
use svc_telemetry.Rest.Adsb.Stored.{unpacked}

-- The key under which a packet is counted.
abbrev pub packet_key : TelemetryPools → Bytes → Bytes
packet_key pools payload = stored_key pools.adsb (bytes_to_key payload)

-- The increment of a packet's count.
abbrev pub counting : TelemetryPools → Bytes → Event
counting pools payload =
    pipeline (increment_steps pools.adsb (bytes_to_key payload) cache_expire_ms_adsb)

module _ (ch : Chrono) (sv : Service ch) (lib : Libm) (deku : AdsbDeku) where
  on_count_lem :
      (n : ℕ) (p : ℕ → Io StatusCode ℕ) (h : History)
      → on_count ch sv lib deku (suc n) (p (suc n)) h ≡ (if n == 0 then p 1 h else (ok (suc n), h))
  unfolding on_count
  on_count_lem zero p h = refl
  on_count_lem (suc n) p h = ground arith

  -- A packet of another length.
  pub adsb_short :
      (pools : TelemetryPools) (payload : Bytes) (h : History)
      → length payload == 14 ≡ false
      → adsb ch sv lib deku pools payload h ≡ (err bad_request, h)
  unfolding adsb
  adsb_short pools payload h q = rw q refl

  -- A packet whose INCR is answered with `suc n` is processed if `n` is 0.
  pub adsb_answered :
      (pools : TelemetryPools) (payload : Bytes) (n : ℕ) (h : History)
      → length payload ≡ 14
      → sv.backends.connects h ≡ true
      → sv.backends.answer h
          (increment_steps pools.adsb (bytes_to_key payload) cache_expire_ms_adsb)
        ≡ some (Value.bulk (more (Value.int (pos (suc n))) end))
      → suc n < 2 ^ 32
      → adsb ch sv lib deku pools payload h ≡ (
          if n == 0
          then process_packet ch sv lib deku pools payload 1 (counting pools payload ∷ h)
          else (ok (suc n), counting pools payload ∷ h))
  adsb_answered pools payload n h len c a small =
      let count_it = increment sv.backends pools.adsb (bytes_to_key payload) cache_expire_ms_adsb in
      let process : ℕ → Io StatusCode ℕ = process_packet ch sv lib deku pools payload in
      unpacked ch sv lib deku pools payload h len
      ∙ bind_ok (or_err count_it internal_server_error) (λ n. on_count ch sv lib deku n (process n))
          _ h (counting pools payload ∷ h)
          (or_err_ok count_it internal_server_error _ h _ (
            increment_answered sv.backends pools.adsb (bytes_to_key payload) cache_expire_ms_adsb n
              h c a small))
      ∙ on_count_lem n process (counting pools payload ∷ h)

  -- With a counting Redis, a packet of 14 bytes that was counted less than 2 ^ 32 - 1 times is processed
  -- when its key was not counted before; otherwise it is answered with its count, and nothing but the
  -- increment is sent.
  pub adsb-incrs :
      (k : IsCounting sv.backends) (pools : TelemetryPools) (payload : Bytes) (h : History)
      → length payload ≡ 14
      → suc (incrs (packet_key pools payload) h) < 2 ^ 32
      → adsb ch sv lib deku pools payload h ≡ (
          if incrs (packet_key pools payload) h == 0
          then process_packet ch sv lib deku pools payload 1 (counting pools payload ∷ h)
          else (ok (suc (incrs (packet_key pools payload) h)), counting pools payload ∷ h))
  adsb-incrs k pools payload h len small =
      adsb_answered pools payload _ h len (k.connected h)
        (k.counts h pools.adsb (bytes_to_key payload) cache_expire_ms_adsb) small

  store_packet-Yields :
      (icao : ℕ) (payload : Bytes) (count : ℕ)
      → Yields count (store_packet ch sv lib deku icao payload count)
  unfolding store_packet
  store_packet-Yields icao payload count = search yield_rules

  process_frame-Yields :
      (pools : TelemetryPools) (payload : Bytes) (count : ℕ) (p : Packet)
      → Yields count (process_frame ch sv lib deku pools payload count p)
  unfolding process_frame
  process_frame-Yields pools payload count not_adsb = fail-Yields count bad_request
  process_frame-Yields pools payload count (adsb_format address me) =
      bind-Yields count _ _ λ u. store_packet-Yields (get_adsb_icao_address address) payload count

  -- The answer to a first report, if it is a success, is its count.
  pub process_packet-Yields :
      (pools : TelemetryPools) (payload : Bytes) (count : ℕ)
      → Yields count (process_packet ch sv lib deku pools payload count)
  unfolding process_packet
  process_packet-Yields pools payload count =
      bind-Yields count _ _ λ p. process_frame-Yields pools payload count p
