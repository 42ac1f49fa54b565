-- ===== src/Cache/Pool/Counting.antt =====
-- `increment` of server/src/cache/pool.rs on a Redis whose INCR counts: the value is the number of
-- earlier INCRs of the key that were sent, and one more, as long as the key does not expire.
use svc_telemetry.Base.{
  ℕ, suc, ◌+◌, ◌^◌, ◌<◌, ◌≡◌, refl, arith, true, List, [], ◌∷◌, ◌++◌, some, same, same_refl,
  if◌then◌else◌, ok,
}
use svc_telemetry.Base.Int.{pos}
use svc_telemetry.World.{
  Bytes, Value, end, more, Command, incr, Step, Event, pipeline, History, Backends,
}
use svc_telemetry.World.Tally.{tally}
use svc_telemetry.Cache.Pool.{TelemetryPool, increment, set_steps}
use svc_telemetry.Cache.Pool.Pipelines.{increment_steps}
use svc_telemetry.Cache.Pool.Quiet.{IsIdle}

incr_command : Bytes → Command → ℕ
unfolding same
incr_command k (incr j) = if same k j then 1 else 0
incr_command k _ = 0

incr_steps : Bytes → List Step → ℕ
unfolding incr_command
incr_steps k [] = 0
incr_steps k (s ∷ p) = incr_command k s.command + incr_steps k p

unfoldable pub event_incrs : Bytes → Event → ℕ
unfolding incr_steps
event_incrs k (pipeline p) = incr_steps k p
event_incrs k _ = 0

-- How often INCR of a key was sent.
unfoldable pub incrs : Bytes → History → ℕ
unfolding tally event_incrs
incrs k = tally (event_incrs k)

-- The key that a pool stores.
abbrev pub stored_key : TelemetryPool → Bytes → Bytes
stored_key pool key = pool.key_folder ++ (b':' ∷ key)

incr_steps-set_steps :
    (b : Backends) (k : Bytes) (kvs : List (Bytes × Bytes)) (ms : ℕ)
    → incr_steps k (set_steps b kvs ms) ≡ 0
unfolding incr_steps set_steps
incr_steps-set_steps b k [] ms = refl
incr_steps-set_steps b k ((x, v) ∷ kvs) ms = rw (incr_steps-set_steps b k kvs ms) refl

-- Only `increment` sends INCR.
pub event_incrs-IsIdle : (b : Backends) (k : Bytes) → IsIdle b (event_incrs k)
unfolding event_incrs
event_incrs-IsIdle b k = record {
  pushing = λ key item. refl;
  setting = λ kvs ms. incr_steps-set_steps b k kvs ms;
  getting = λ keys. refl;
}

pub event_incrs-increment_steps :
    (pool : TelemetryPool) (key k : Bytes) (ms : ℕ)
    → event_incrs k (pipeline (increment_steps pool key ms))
      ≡ (if same k (stored_key pool key) then 1 else 0)
unfolding event_incrs
event_incrs-increment_steps pool key k ms = ground arith

-- Redis is up, and INCR counts.
pub record IsCounting (b : Backends) : Type 0 where
  pub connected : (h : History) → b.connects h ≡ true
  pub counts :
      (h : History) (pool : TelemetryPool) (key : Bytes) (ms : ℕ)
      → b.answer h (increment_steps pool key ms)
        ≡ some (Value.bulk (more (Value.int (pos (suc (incrs (stored_key pool key) h)))) end))

pub incrs-increment :
    (pool : TelemetryPool) (key : Bytes) (ms : ℕ) (h : History)
    → incrs (stored_key pool key) (pipeline (increment_steps pool key ms) ∷ h)
      ≡ suc (incrs (stored_key pool key) h)
unfolding incrs
incrs-increment pool key ms h = rw (same_refl (stored_key pool key)) (omega arith)

-- When Redis answers the INCR with a number below 2 ^ 32, `increment` returns it.
pub increment_answered :
    (b : Backends) (pool : TelemetryPool) (key : Bytes) (ms n : ℕ) (h : History)
    → b.connects h ≡ true
    → b.answer h (increment_steps pool key ms)
      ≡ some (Value.bulk (more (Value.int (pos (suc n))) end))
    → suc n < 2 ^ 32
    → increment b pool key ms h ≡ (ok (suc n), pipeline (increment_steps pool key ms) ∷ h)
unfolding increment
increment_answered b pool key ms n h c a small = ground arith

-- On a counting Redis `increment` returns the number of INCRs of the key, this one included, and sends
-- one pipeline, as long as that number is below 2 ^ 32.
pub increment-incrs :
    (b : Backends) (k : IsCounting b) (pool : TelemetryPool) (key : Bytes) (ms : ℕ) (h : History)
    → suc (incrs (stored_key pool key) h) < 2 ^ 32
    → increment b pool key ms h
      ≡ (ok (suc (incrs (stored_key pool key) h)), pipeline (increment_steps pool key ms) ∷ h)
increment-incrs b k pool key ms h small =
    increment_answered b pool key ms _ h (k.connected h) (k.counts h pool key ms) small
