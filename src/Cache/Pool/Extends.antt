-- ===== src/Cache/Pool/Extends.antt =====
-- The operations of server/src/cache/pool.rs only add to the history.
use svc_telemetry.Base.{arith, ℕ, refl, Bool-cases, inl, inr, List, [], ◌∷◌, Option, none, some}
use svc_telemetry.World.{Bytes, pipeline, Backends}
use svc_telemetry.World.Extends.{Extends}
use svc_telemetry.Cache.Pool.{GisPool, TelemetryPool, push, set_steps, multiple_set, multiple_get}
use svc_telemetry.Cache.Pool.Pipelines.{get_steps}
use svc_telemetry.Cache.Pool.Quiet.{push_steps}

module _ (b : Backends) where
  pub push-Extends :
      (pool : GisPool) (item : Option Bytes) (key : Bytes) → Extends (push b pool item key)
  unfolding Extends push
  push-Extends pool none [] h = ([], refl)
  push-Extends pool (some item) [] h = ([], refl)
  push-Extends pool none (k ∷ key) h = ([], refl)
  push-Extends pool (some item) (k ∷ key) h = elim (Bool-cases (b.connects h)) [
    | inl c ↦ (pipeline (push_steps (k ∷ key) item) ∷ [], ground arith)
    | inr c ↦ ([], ground arith)
  ]

  pub multiple_set-Extends :
      (pool : TelemetryPool) (kvs : List (Bytes × Bytes)) (ms : ℕ)
      → Extends (multiple_set b pool kvs ms)
  unfolding Extends multiple_set
  multiple_set-Extends pool kvs ms h = elim (Bool-cases (b.connects h)) [
    | inl c ↦ (pipeline (set_steps b kvs ms) ∷ [], ground arith)
    | inr c ↦ ([], ground arith)
  ]

  pub multiple_get-Extends :
      {T : Type 0} (pool : TelemetryPool) (from_str : Bytes → Option T) (keys : List Bytes)
      → Extends (multiple_get b pool from_str keys)
  unfolding Extends multiple_get
  multiple_get-Extends pool from_str keys h = elim (Bool-cases (b.connects h)) [
    | inl c ↦ (pipeline (get_steps keys) ∷ [], ground arith)
    | inr c ↦ ([], ground arith)
  ]
