-- ===== src/Rest/Server/Follows.antt =====
-- The two telemetry endpoints of server/src/rest/api/ as counters of reports, on a Redis that counts.
use svc_telemetry.Base.{
  ℕ, suc, ◌+◌, ◌≤◌, ◌<◌, ◌^◌, ◌≡◌, refl, ◌∙◌, ap, arith, ◌⊎◌, inl, inr, Bool-cases, All, Option,
  none, some, Option-cases, Result, ok, err, length, ◌==◌, if◌then◌else◌,
}
use svc_telemetry.World.{pipeline, Bytes, History, Io, ◌>>=◌, return}
use svc_telemetry.World.Effects.{Yields}
use svc_telemetry.World.Tally.{tally, IsQuiet, Adds-IsQuiet}
use svc_telemetry.Cache.{bytes_to_key}
use svc_telemetry.Cache.Pool.Pipelines.{increment_steps}
use svc_telemetry.Cache.Pool.Counting.{IsCounting, incrs, event_incrs, event_incrs-IsIdle}
use svc_telemetry.Msg.Netrid.{Frame}
use svc_telemetry.Rest.Status.{StatusCode}
use svc_telemetry.Rest.Jwt.{Claim}
use svc_telemetry.Rest.Netrid as Netrid
use svc_telemetry.Rest.Adsb as Adsb
use svc_telemetry.Rest.Adsb.Weights.{process_packet-Adds}
use svc_telemetry.Rest.Adsb.Duplicates.{adsb_short, adsb-incrs, process_packet-Yields}
use svc_telemetry.Rest.Netrid.Duplicates.{
  network_remote_id_short, network_remote_id_unframed, network_remote_id-incrs, basic_report,
  first-Yields,
}
use svc_telemetry.Rest.Netrid.Weights.{process-IsQuiet}
use svc_telemetry.Rest.Server.{Site, Reply, counted, reply_of, service_pools}
use svc_telemetry.Rest.Server.Runs.{reply_of_lem}
use svc_telemetry.Rest.Server.Marks.{incrs-IsUnheard, incrs-IsLight}
use svc_telemetry.Rest.Server.Reports.{
  netrid_kind, adsb_kind, Report, next, count_of, Answers, pool_of, report_key, counts, framed,
}
use svc_telemetry.Rest.Server.Deduplicated.{
  report_incrs, deduplicated, deduplicated-Answered, tally-deduplicated,
}

module _ (site : Site) (k : IsCounting (site.service.backends)) where
  open site use {chrono, service, libm, deku, unpack}

  -- A reply and the history behind it are what the counter does.
  abbrev pub Follows : Option Report → History → Reply × History → Report → Type 0
  Follows o h x r = (counts x.1 r ≡ next o (counts h) r) × Answers o (counts h) x.0

  -- The handler's run on a report.
  report-Follows :
      (r s : Report) (ms : ℕ) (process : Io StatusCode ℕ) (h : History)
      → All (λ b. b < 256) r.payload
      → All (λ b. b < 256) s.payload
      → Yields 1 process
      → IsQuiet (event_incrs (report_key r)) process
      → Follows
          (some s)
          h
          (reply_of counted (
            deduplicated
              (counts h s)
              process
              (pipeline (increment_steps (pool_of s.kind) (bytes_to_key s.payload) ms))
              h))
          r
  unfolding incrs
  report-Follows r s ms process h hr hs y q =
      let e = pipeline (increment_steps (pool_of s.kind) (bytes_to_key s.payload) ms) in
      let t = tally-deduplicated (event_incrs (report_key r)) (counts h s) process e h q in
      (
        ap (tally (event_incrs (report_key r))) (reply_of_lem counted _)
            ∙ t
            ∙ ap (λ w. w + counts h r) (report_incrs r s ms hr hs),
        deduplicated-Answered (counts h s) process e h y,
      )

  process_packet-IsQuiet :
      (q : Bytes) (n : ℕ) (key : Bytes)
      → IsQuiet (event_incrs key) (Adsb.process_packet chrono service libm deku service_pools q n)
  process_packet-IsQuiet q n key = Adds-IsQuiet (event_incrs key) _ (
      process_packet-Adds chrono service libm deku (event_incrs key)
        (event_incrs-IsIdle (service.backends) key) service_pools q n 0 (incrs-IsLight key q))

  pub adsb-Follows :
      (q : Bytes) (h : History) (r : Report)
      → All (λ b. b < 256) r.payload
      → All (λ b. b < 256) q
      → suc (counts h (record { kind = adsb_kind; payload = q })) < 2 ^ 32
      → Follows
          (if length q == 14 then some (record { kind = adsb_kind; payload = q }) else none)
          h
          (reply_of counted (Adsb.adsb chrono service libm deku service_pools q h))
          r
  unfolding reply_of
  adsb-Follows q h r hr hq small = elim (Bool-cases (length q == 14)) [
    | inr e ↦
        rw e (rw (adsb_short chrono service libm deku service_pools q h e) (refl, omega arith))
    | inl e ↦ rw e (
        rw (adsb-incrs chrono service libm deku k service_pools q h (ground arith) small) (
          report-Follows r (record { kind = adsb_kind; payload = q }) Adsb.cache_expire_ms_adsb
            (Adsb.process_packet chrono service libm deku service_pools q 1) h hr hq
            (process_packet-Yields chrono service libm deku service_pools q 1)
            (process_packet-IsQuiet q 1 (report_key r))))
  ]

  -- A basic message.
  basic-Follows :
      (h : History) (r : Report) (m : Io StatusCode ℕ)
      → Yields 1 m
      → IsQuiet (event_incrs (report_key r)) m
      → Follows none h (reply_of counted (m h)) r
  unfolding Yields IsQuiet incrs reply_of
  basic-Follows h r m y q = (
    ap (tally (event_incrs (report_key r))) (reply_of_lem counted (m h)) ∙ q h,
    at_most_one (m h) (y h),
  )
    where
      at_most_one :
          (x : Result StatusCode ℕ × History)
          → (x.0 ≡ ok 1) ⊎ ((s : StatusCode) × (x.0 ≡ err s))
          → count_of (reply_of counted x).0 ≤ 1
      at_most_one (ok n, h1) (inl e) = ground arith
      at_most_one (ok n, h1) (inr (s, e)) = cc e
      at_most_one (err s, h1) e = omega arith

  netrid-IsQuiet :
      (claim : Claim) (f : Frame) (key : Bytes)
      → IsQuiet (event_incrs key) (
          Netrid.process_message chrono service unpack f.header.message_type claim.sub f.message
          >>= λ _. return {A = ℕ} 1)
  netrid-IsQuiet claim f key =
      process-IsQuiet chrono service unpack (event_incrs key)
        (event_incrs-IsIdle (service.backends) key) (incrs-IsUnheard key) f.header.message_type
        claim.sub f.message

  pub netrid-Follows :
      (claim : Claim) (q : Bytes) (h : History) (r : Report)
      → All (λ b. b < 256) r.payload
      → All (λ b. b < 256) q
      → suc (counts h (record { kind = netrid_kind; payload = q })) < 2 ^ 32
      → Follows
          (if length q == 25 then framed q (unpack.frame q) else none)
          h
          (reply_of counted
            (Netrid.network_remote_id chrono service unpack service_pools claim q h))
          r
  unfolding reply_of
  netrid-Follows claim q h r hr hq small = elim (Bool-cases (length q == 25)) [
    | inr e ↦ rw e (
        rw (network_remote_id_short chrono service unpack service_pools claim q h e)
          (refl, omega arith))
    | inl e ↦ rw e (elim (Option-cases (unpack.frame q)) [
      | inl w ↦ rw w (
          rw (network_remote_id_unframed chrono service unpack service_pools claim q h e w)
            (refl, omega arith))
      | inr (f, w) ↦ rw w (elim (Bool-cases (Netrid.is_basic f.header.message_type)) [
        | inl b ↦ rw b (
            rw (basic_report chrono service unpack service_pools claim q f h (ground arith) w b) (
              basic-Follows h r _
                (first-Yields chrono service unpack f.header.message_type claim.sub f.message)
                (netrid-IsQuiet claim f (report_key r))))
        | inr b ↦ rw b (
            rw
              (network_remote_id-incrs chrono service unpack k service_pools claim q f h
                (ground arith) w b small)
              (report-Follows r (record { kind = netrid_kind; payload = q })
                Netrid.cache_expire_ms_netrid _ h hr hq
                (first-Yields chrono service unpack f.header.message_type claim.sub f.message)
                (netrid-IsQuiet claim f (report_key r))))
      ])
    ])
  ]
