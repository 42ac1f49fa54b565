-- ===== src/Cache/Pool.antt =====
-- The Redis pools of server/src/cache/pool.rs, as built for the service (not its mock for tests).
pub mod Pipelines
pub mod Counting
pub mod Quiet
pub mod Extends
pub mod Tests
use svc_telemetry.Base.{
  ℕ, ◌+◌, ◌%◌, ◌^◌, ◌≡◌, Bool, true, false, List, [], ◌∷◌, ◌++◌, Option, none, some, length, ltb,
  ◌==◌, if◌then◌else◌, Result, ok, err, ok_or, ◌<◌,
}
use svc_telemetry.Base.Int.{ℤ, pos, negsuc}
use svc_telemetry.Base.Text.{join_space, from_utf8}
use svc_telemetry.World
use svc_telemetry.World.{
  Bytes, Value, Values, to_list, Command, incr, pexpire, pset_ex, mget, lpush, Step, pipeline,
  Backends, Io, ◌>>=◌, ◌>>◌, return, fail, lift,
}

pub record TelemetryPool : Type 0 where
  pub key_folder : Bytes

-- A pool of connections, with no state of its own.
pub record GisPool : Type 0 where

pub data CacheError : Type 0 where
  could_not_configure could_not_connect operation_failed : CacheError

is_empty : {A : Type 0} → List A → Bool
is_empty [] = true
is_empty (x ∷ xs) = false

-- `url` is the configured address, and `created` the outcome of `create_pool`.
unfoldable pub new_gis_pool : Option Bytes → Bool → Result (Unit {0}) GisPool
new_gis_pool none created = err tt
new_gis_pool (some url) created = if created then ok (record {}) else err tt

unfoldable pub new_telemetry_pool : Option Bytes → Bool → Bytes → Result (Unit {0}) TelemetryPool
unfolding is_empty
new_telemetry_pool url created folder = if is_empty folder then err tt else elim url [
  | none ↦ err tt
  | some u ↦ if created then ok (record { key_folder = folder }) else err tt
]

-- `values.pop()`
last? : {A : Type 0} → List A → Option A
last? [] = none
last? (x ∷ []) = some x
last? (x ∷ y ∷ ys) = last? (y ∷ ys)

-- The count in the answer to INCR: an integer from 1 on, cut to u32.
count_of : Value → Result CacheError ℕ
count_of (Value.int (pos n)) = if ltb n 1 then err operation_failed else ok (n % 2 ^ 32)
count_of _ = err operation_failed

last_count : List Value → Result CacheError ℕ
unfolding last? count_of
last_count vs = elim (last? vs) [ none ↦ err operation_failed | some v ↦ count_of v ]

read_count : Value → Result CacheError ℕ
unfolding last_count
read_count (Value.bulk vs) = last_count (to_list vs)
read_count _ = err operation_failed

expect_okay : Value → Result CacheError (Unit {0})
expect_okay Value.okay = ok tt
expect_okay _ = err operation_failed

-- Data is read as UTF-8, then parsed.
read_data : {T : Type 0} → (Bytes → Option T) → Bytes → Option T
read_data from_str b = elim (from_utf8 b) [ none ↦ none | some s ↦ from_str s ]

-- The elements that are data and parse.
parsed : {T : Type 0} → (Bytes → Option T) → List Value → List T
unfolding read_data
parsed from_str [] = []
parsed from_str (Value.bytes b ∷ vs) = elim (read_data from_str b) [
  | none ↦ parsed from_str vs
  | some t ↦ t ∷ parsed from_str vs
]
parsed from_str (_ ∷ vs) = parsed from_str vs

read_all : {T : Type 0} → (Bytes → Option T) → ℕ → Value → Result CacheError (List T)
unfolding parsed
read_all from_str n (Value.bulk vs) =
    let ts = parsed from_str (to_list vs) in if length ts == n then ok ts else err operation_failed
read_all from_str n _ = err operation_failed

one_value : Value → Result (Unit {0}) (Unit {0})
one_value (Value.bulk vs) = if length (to_list vs) == 1 then ok tt else err tt
one_value _ = err tt

module _ (b : Backends) where
  -- `self.pool.get().await`
  connect : {E : Type 0} → E → Io E (Unit {0})
  connect e h = (if b.connects h then ok tt else err e, h)

  -- `pipe.query_async(&mut connection).await`
  query : {E : Type 0} → E → List Step → Io E Value
  query e p h = (ok_or (b.answer h p) e, pipeline p ∷ h)

  unfoldable pub push : GisPool → Option Bytes → Bytes → Io (Unit {0}) (Unit {0})
  unfolding connect query one_value is_empty
  push pool serialized queue_key = if is_empty queue_key then fail tt else do
    item ← lift (ok_or serialized tt)
    connect tt
    v ← query tt (record { command = lpush queue_key item; ignored = false } ∷ [])
    lift (one_value v)

  unfoldable pub increment : TelemetryPool → Bytes → ℕ → Io CacheError ℕ
  unfolding connect query read_count
  increment pool key expiration_ms = do
    let key' = pool.key_folder ++ (b':' ∷ key)
    connect could_not_connect
    v ← query operation_failed (
        record { command = incr key'; ignored = false }
        ∷ record { command = pexpire key' expiration_ms; ignored = true }
        ∷ [])
    lift (read_count v)

  pub set_steps : List (Bytes × Bytes) → ℕ → List Step
  set_steps [] ms = []
  set_steps ((k, v) ∷ kvs) ms =
      record { command = pset_ex k v ms; ignored = true } ∷ set_steps kvs ms

  unfoldable pub multiple_set : TelemetryPool → List (Bytes × Bytes) → ℕ → Io CacheError (Unit {0})
  unfolding connect query set_steps expect_okay
  multiple_set pool keyvals expiration_ms = do
    connect could_not_connect
    v ← query operation_failed (set_steps keyvals expiration_ms)
    lift (expect_okay v)

  unfoldable pub multiple_get :
      {T : Type 0} → TelemetryPool → (Bytes → Option T) → List Bytes → Io CacheError (List T)
  unfolding connect query read_all
  multiple_get pool from_str keys = do
    connect could_not_connect
    v ← query operation_failed (record { command = mget (join_space keys); ignored = false } ∷ [])
    lift (read_all from_str (length keys) v)
