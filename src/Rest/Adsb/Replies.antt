-- ===== src/Rest/Adsb/Replies.antt =====
-- What an ADS-B packet that is answered with 400 has sent: server/src/rest/api/adsb.rs.
use svc_telemetry.Base.{
  ℕ, ◌≡◌, ◌≢◌, ◌∙◌, sym, ap, ◌⊎◌, inl, inr, arith, Bool-cases, ◌∷◌, err, ok_or, length, ◌==◌,
}
use svc_telemetry.World.{Bytes, History, Io, or_err}
use svc_telemetry.World.Effects.{
  bind_cases, Rejects, Never, Rejects-bind, Rejects-bind_Never, Never-bind, Keeps-lift,
  Rejects-lift, Rejects-Never, Never-or_err,
}
use svc_telemetry.Cache.{TelemetryPools, bytes_to_key}
use svc_telemetry.Cache.Pool.{increment}
use svc_telemetry.Cache.Pool.Pipelines.{increment_history}
use svc_telemetry.Msg.Adsb.{Libm, get_adsb_icao_address}
use svc_telemetry.Msg.Netrid.Clock.{Chrono}
use svc_telemetry.Rest.Status.{StatusCode, bad_request, internal_server_error}
use svc_telemetry.Rest.Service.{Service}
use svc_telemetry.Rest.Adsb.Push.{
  AdsbDeku, Me, identification, airborne_position, velocity, unrecognized, Packet, not_adsb,
  adsb_format,
}
use svc_telemetry.Rest.Adsb.{
  process_me, store_packet, process_frame, process_packet, on_count, adsb, cache_expire_ms_adsb,
}
use svc_telemetry.Rest.Adsb.Stored.{unpacked}
use svc_telemetry.Rest.Adsb.Duplicates.{counting, adsb_short}

ruleset reject_rules =
    (Rejects-bind, Keeps-lift, Rejects-lift, Rejects-Never, Never-bind, Never-or_err)

bad≢internal : bad_request ≢ internal_server_error
bad≢internal e = cc

module _ (ch : Chrono) (sv : Service ch) (lib : Libm) (deku : AdsbDeku) where
  Rejects-process_me :
      (pools : TelemetryPools) (icao : ℕ) (me : Me)
      → Rejects bad_request (process_me ch sv lib deku pools icao me)
  unfolding process_me
  Rejects-process_me pools icao (identification tc ca cn) =
      Rejects-Never bad_request _ (Never-or_err bad_request internal_server_error _ bad≢internal)
  Rejects-process_me pools icao (airborne_position f lat lon alt) =
      search (reject_rules, bad≢internal)
  Rejects-process_me pools icao (velocity st sub sign v) = search (reject_rules, bad≢internal)
  Rejects-process_me pools icao unrecognized = Rejects-lift bad_request (err bad_request)

  Never-store_packet :
      (icao : ℕ) (payload : Bytes) (count : ℕ)
      → Never bad_request (store_packet ch sv lib deku icao payload count)
  unfolding store_packet Never
  Never-store_packet icao payload count h h' e = ground (arith, bad≢internal)

  Rejects-process_frame :
      (pools : TelemetryPools) (payload : Bytes) (count : ℕ) (p : Packet)
      → Rejects bad_request (process_frame ch sv lib deku pools payload count p)
  unfolding process_frame
  Rejects-process_frame pools payload count not_adsb = Rejects-lift bad_request (err bad_request)
  Rejects-process_frame pools payload count (adsb_format address me) =
      let icao = get_adsb_icao_address address in
      Rejects-bind_Never (process_me ch sv lib deku pools icao me) _ bad_request
        (Rejects-process_me pools icao me) λ u. Never-store_packet icao payload count

  Rejects-process_packet :
      (pools : TelemetryPools) (payload : Bytes) (count : ℕ)
      → Rejects bad_request (process_packet ch sv lib deku pools payload count)
  unfolding process_packet
  Rejects-process_packet pools payload count =
      Rejects-bind _ _ bad_request (Keeps-lift (ok_or (deku.from_bytes payload) bad_request))
        (Rejects-lift bad_request _) λ p. Rejects-process_frame pools payload count p

  Rejects-on_count :
      (n : ℕ) (p : Io StatusCode ℕ)
      → Rejects bad_request p
      → Rejects bad_request (on_count ch sv lib deku n p)
  unfolding on_count Rejects
  Rejects-on_count n p r h h' e = ground (arith, r h h')

  rejected :
      (pools : TelemetryPools) (payload : Bytes) (n : ℕ) (h h' : History)
      → on_count ch sv lib deku n (process_packet ch sv lib deku pools payload n) h
        ≡ (err bad_request, h')
      → h' ≡ h
  unfolding Rejects
  rejected pools payload n h h' e =
      Rejects-on_count n (process_packet ch sv lib deku pools payload n)
        (Rejects-process_packet pools payload n) h h' e

  never_counting :
      {D : Type 0} (m : Io D ℕ) (h h' : History)
      → or_err m internal_server_error h ≢ (err bad_request, h')
  unfolding Never
  never_counting m h h' = Never-or_err bad_request internal_server_error m bad≢internal h h'

  -- An ADS-B packet that is answered with 400 has left no trace but the increment of its own count.
  pub adsb-eq-bad_request :
      (pools : TelemetryPools) (payload : Bytes) (h h' : History)
      → adsb ch sv lib deku pools payload h ≡ (err bad_request, h')
      → (h' ≡ h) ⊎ (h' ≡ counting pools payload ∷ h)
  adsb-eq-bad_request pools payload h h' e =
      let count_it = increment sv.backends pools.adsb (bytes_to_key payload) cache_expire_ms_adsb in
      let process : ℕ → Io StatusCode ℕ =
        λ n. on_count ch sv lib deku n (process_packet ch sv lib deku pools payload n) in
      elim (Bool-cases (length payload == 14)) [
        | inr q ↦ inl (ap (λ x. x.1) (sym e ∙ adsb_short ch sv lib deku pools payload h q))
        | inl q ↦
            elim (bind_cases (or_err count_it internal_server_error) process bad_request h h'
              (sym (unpacked ch sv lib deku pools payload h (ground arith)) ∙ e)) [
                | inl w ↦ absurd (never_counting count_it h h' w)
                | inr (n, h1, w, t) ↦
                    let r = rejected pools payload n h1 h' t in
                    let k = ap (λ x. x.1) w in
                    ground (
                      arith,
                      r,
                      k,
                      increment_history sv.backends pools.adsb (bytes_to_key payload)
                          cache_expire_ms_adsb h,
                    )
              ]
      ]
