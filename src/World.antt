-- ===== src/World.antt =====
-- What the service exchanges with the backends: Redis (through the redis and deadpool_redis
-- libraries), RabbitMQ (lapin) and svc-storage (its gRPC client). A request handler is a function of
-- the history of effects, newest first; the backends' answers are parameters that may depend on it.
pub mod Effects
pub mod Tally
pub mod Extends
use svc_telemetry.Base.{
  ℕ, zero, suc, ◌+◌, ◌≡◌, refl, Bool, true, false, List, [], ◌∷◌, Option, none, some, Result, ok,
  err, length,
}
use svc_telemetry.Base.Int.{ℤ}

-- Text and byte strings.
abbrev pub Bytes : Type 0
Bytes = List ℕ

-- `redis::Value`.
mutual
  pub data Value : Type 0 where
    nil okay : Value
    int : ℤ → Value
    bytes : Bytes → Value
    status : Bytes → Value
    bulk : Values → Value

  pub data Values : Type 0 where
    end : Values
    more : Value → Values → Values

abbrev pub to_list : Values → List Value
to_list end = []
to_list (more v vs) = v ∷ to_list vs

pub data Command : Type 0 where
  incr : Bytes → Command
  pexpire : Bytes → ℕ → Command
  pset_ex : Bytes → Bytes → ℕ → Command
  mget : Bytes → Command
  lpush : Bytes → Bytes → Command

-- A command of a pipeline, and whether it is followed by `.ignore()`.
pub record Step : Type 0 where
  pub command : Command
  pub ignored : Bool

-- The commands whose answers a pipeline reports.
abbrev pub reported : List Step → ℕ
reported [] = 0
reported (s ∷ p) = elim s.ignored [ true ↦ reported p | false ↦ suc (reported p) ]

pub data Event : Type 0 where
  -- An atomic pipeline sent to Redis.
  pipeline : List Step → Event
  -- A message with its exchange and its routing key, sent to RabbitMQ.
  publish : Bytes → Bytes → Bytes → Event
  -- An ADS-B record for svc-storage: address, message type, payload, without its network timestamp.
  insert : ℕ → ℕ → Bytes → Event
  -- A topic exchange, a queue, and a queue with an exchange and a routing key, set up in RabbitMQ.
  exchange_declare : Bytes → Event
  queue_declare : Bytes → Event
  queue_bind : Bytes → Bytes → Bytes → Event

abbrev pub History : Type 0
History = List Event

-- The answers of the backends.
pub record Backends : Type 0 where
  -- `pool.get()` gives a connection.
  pub connects : History → Bool
  -- The answer to a pipeline; `none` is a Redis error.
  pub answer : History → List Step → Option Value
  pub published : History → Bool
  pub inserted : History → Bool

-- The documented answer to a pipeline: a bulk value with one element for each command that is not
-- ignored.
pub record IsPipelined (b : Backends) : Type 0 where
  pub bulk_answer :
      (h : History) (p : List Step) (v : Value)
      → b.answer h p ≡ some v
      → (vs : Values) × (v ≡ bulk vs) × (length (to_list vs) ≡ reported p)

-- A computation with effects that may fail.
abbrev pub Io : Type 0 → Type 0 → Type 0
Io E A = History → Result E A × History

infixl 5 ◌>>=◌ ◌>>◌
abbrev pub ◌>>=◌ : {E A B : Type 0} → Io E A → (A → Io E B) → Io E B
◌>>=◌ m f h = let (r, h') = m h in elim r [ ok a ↦ f a h' | err e ↦ (err e, h') ]

abbrev pub ◌>>◌ : {E A B : Type 0} → Io E A → Io E B → Io E B
m >> k = m >>= λ _. k

abbrev pub return : {E A : Type 0} → A → Io E A
return a h = (ok a, h)

abbrev pub fail : {E A : Type 0} → E → Io E A
fail e h = (err e, h)

-- A value of Rust's `Result`, followed by `?`.
abbrev pub lift : {E A : Type 0} → Result E A → Io E A
lift r h = (r, h)

-- `r.map_err(|_| e)?`
abbrev pub or_err : {D E A : Type 0} → Io D A → E → Io E A
or_err m e h = let (r, h') = m h in elim r [ ok a ↦ (ok a, h') | err d ↦ (err e, h') ]

-- `let _ = ...`: the outcome is dropped.
abbrev pub ignoring : {D E A : Type 0} → Io D A → Io E (Unit {0})
ignoring m h = let (r, h') = m h in (ok tt, h')
