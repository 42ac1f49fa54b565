-- ===== src/Cache/Pool/Quiet.antt =====
-- The pool operations of server/src/cache/pool.rs other than `increment` leave a measure of the history
-- as it is, if it gives their commands no weight.
use svc_telemetry.Base.{ℕ, ◌≡◌, refl, arith, false, List, [], ◌∷◌, Option, none, some}
use svc_telemetry.World.{Bytes, Event, Step, lpush, pipeline, Backends}
use svc_telemetry.World.Tally.{tally, IsQuiet}
use svc_telemetry.Cache.Pool.{GisPool, TelemetryPool, push, multiple_set, multiple_get, set_steps}
use svc_telemetry.Cache.Pool.Pipelines.{get_steps}

-- The pipeline of a push.
abbrev pub push_steps : Bytes → Bytes → List Step
push_steps key item = record { command = lpush key item; ignored = false } ∷ []

-- Only INCR may have a weight.
pub record IsIdle (b : Backends) (weigh : Event → ℕ) : Type 0 where
  pub pushing : (key item : Bytes) → weigh (pipeline (push_steps key item)) ≡ 0
  pub setting : (kvs : List (Bytes × Bytes)) (ms : ℕ) → weigh (pipeline (set_steps b kvs ms)) ≡ 0
  pub getting : (keys : List Bytes) → weigh (pipeline (get_steps keys)) ≡ 0

module _ (b : Backends) (weigh : Event → ℕ) (idle : IsIdle b weigh) where
  pub push-IsQuiet :
      (pool : GisPool) (item : Option Bytes) (key : Bytes) → IsQuiet weigh (push b pool item key)
  unfolding IsQuiet push tally
  push-IsQuiet pool none [] h = refl
  push-IsQuiet pool (some item) [] h = refl
  push-IsQuiet pool none (k ∷ key) h = refl
  push-IsQuiet pool (some item) (k ∷ key) h = ground (arith, idle.pushing (k ∷ key) item)

  pub multiple_set-IsQuiet :
      (pool : TelemetryPool) (kvs : List (Bytes × Bytes)) (ms : ℕ)
      → IsQuiet weigh (multiple_set b pool kvs ms)
  unfolding IsQuiet multiple_set tally
  multiple_set-IsQuiet pool kvs ms h = ground (arith, idle.setting kvs ms)

  pub multiple_get-IsQuiet :
      {T : Type 0} (pool : TelemetryPool) (from_str : Bytes → Option T) (keys : List Bytes)
      → IsQuiet weigh (multiple_get b pool from_str keys)
  unfolding IsQuiet multiple_get tally
  multiple_get-IsQuiet pool from_str keys h = ground (arith, idle.getting keys)
