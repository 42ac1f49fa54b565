-- ===== src/Rest/Server/Deduplicated.antt =====
-- A handler that drops repeated packets, as the two telemetry endpoints of server/src/rest/api/ do, and the
-- keys that it counts by.
use svc_telemetry.Base.{
  ℕ, zero, suc, ◌+◌, ◌<◌, ◌≡◌, refl, ◌∙◌, ap, arith, ◌⊎◌, inl, inr, false, ◌∷◌, All, Result, ok,
  err, ◌==◌, same, same_ext, if◌then◌else◌,
}
use svc_telemetry.World.{Event, pipeline, History, Io}
use svc_telemetry.World.Effects.{Yields}
use svc_telemetry.World.Tally.{tally, IsQuiet}
use svc_telemetry.Cache.{bytes_to_key}
use svc_telemetry.Cache.Keys.{bytes_to_key-injective}
use svc_telemetry.Cache.Pool.Pipelines.{increment_steps}
use svc_telemetry.Cache.Pool.Counting.{event_incrs, event_incrs-increment_steps}
use svc_telemetry.Rest.Status.{StatusCode}
use svc_telemetry.Rest.Server.{counted, reply_of, service_pools}
use svc_telemetry.Rest.Server.Reports.{
  Kind, netrid_kind, adsb_kind, Report, same_report, Answered, first, failed, again, pool_of,
  report_key,
}

-- INCR of a report's key is sent for that report only.
pub report_incrs :
    (r s : Report) (ms : ℕ)
    → All (λ b. b < 256) r.payload
    → All (λ b. b < 256) s.payload
    → event_incrs
        (report_key r)
        (pipeline (increment_steps (pool_of s.kind) (bytes_to_key s.payload) ms))
      ≡ (if same_report r s then 1 else 0)
unfolding same
report_incrs r s ms hr hs = go r.kind s.kind
  where
    keys : same (bytes_to_key r.payload) (bytes_to_key s.payload) ≡ same r.payload s.payload
    keys =
        same_ext (bytes_to_key r.payload) (bytes_to_key s.payload) r.payload s.payload
          (bytes_to_key-injective r.payload s.payload hr hs) (λ w. ap bytes_to_key w)

    go :
        (j k : Kind)
        → event_incrs
            (report_key (record { kind = j; payload = r.payload }))
            (pipeline (increment_steps (pool_of k) (bytes_to_key s.payload) ms))
          ≡ (if same_report
                (record { kind = j; payload = r.payload })
                (record { kind = k; payload = s.payload })
              then 1
              else 0)
    go netrid_kind netrid_kind =
        event_incrs-increment_steps service_pools.netrid _ _ ms ∙ rw keys refl
    go netrid_kind adsb_kind = event_incrs-increment_steps service_pools.adsb _ _ ms
    go adsb_kind netrid_kind = event_incrs-increment_steps service_pools.netrid _ _ ms
    go adsb_kind adsb_kind = event_incrs-increment_steps service_pools.adsb _ _ ms ∙ rw keys refl

-- What a handler does with a report that was counted `n` times before.
abbrev pub deduplicated : ℕ → Io StatusCode ℕ → Event → Io StatusCode ℕ
deduplicated n process e h = if n == 0 then process (e ∷ h) else (ok (suc n), e ∷ h)

positive : (n : ℕ) → suc n == 0 ≡ false
positive n = ground arith

first-Answered :
    (y : Result StatusCode ℕ × History)
    → (y.0 ≡ ok 1) ⊎ ((s : StatusCode) × (y.0 ≡ err s))
    → Answered 0 (reply_of counted y).0
unfolding reply_of
first-Answered (ok n, h) (inl e) = let w : 1 ≡ n = cc e in rw (← w) first
first-Answered (ok n, h) (inr (s, e)) = cc e
first-Answered (err s, h) e = failed s

pub deduplicated-Answered :
    (n : ℕ) (process : Io StatusCode ℕ) (e : Event) (h : History)
    → Yields 1 process
    → Answered n (reply_of counted (deduplicated n process e h)).0
unfolding reply_of Yields
deduplicated-Answered zero process e h y = first-Answered (process (e ∷ h)) (y (e ∷ h))
deduplicated-Answered (suc n) process e h y = rw (positive n) (again n)

pub tally-deduplicated :
    (weigh : Event → ℕ) (n : ℕ) (process : Io StatusCode ℕ) (e : Event) (h : History)
    → IsQuiet weigh process
    → tally weigh (deduplicated n process e h).1 ≡ weigh e + tally weigh h
unfolding IsQuiet tally
tally-deduplicated weigh zero process e h q = q (e ∷ h)
tally-deduplicated weigh (suc n) process e h q = rw (positive n) refl
