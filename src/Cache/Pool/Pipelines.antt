-- ===== src/Cache/Pool/Pipelines.antt =====
-- The pool operations of server/src/cache/pool.rs against a Redis client that answers a pipeline as
-- documented: one element for each command that is not ignored.
use svc_telemetry.Base.{
  ℕ, ◌%◌, ◌^◌, ◌≤◌, ◌≡◌, ◌≢◌, arith, true, false, List, [], ◌∷◌, ◌++◌, Option, some, Option-cases,
  inl, inr, length, if◌then◌else◌, ok, err, none, ◌⊎◌, Bool-cases, refl, ap, ◌∙◌, ltb,
}
use svc_telemetry.Base.Int.{pos, negsuc}
use svc_telemetry.Base.Text.{join_space}
use svc_telemetry.World.{
  Bytes, Value, end, more, to_list, incr, pexpire, mget, Step, pipeline, History, Backends,
  IsPipelined,
}
use svc_telemetry.Cache.Pool.{
  TelemetryPool, could_not_connect, operation_failed, read_count, last_count, last?, count_of,
  set_steps, parsed, increment, multiple_set, multiple_get,
}

-- The pipeline of `increment`: INCR and PEXPIRE of one key.
abbrev pub increment_steps : TelemetryPool → Bytes → ℕ → List Step
increment_steps pool key ms =
    record { command = incr (pool.key_folder ++ (b':' ∷ key)); ignored = false }
    ∷ record { command = pexpire (pool.key_folder ++ (b':' ∷ key)) ms; ignored = true }
    ∷ []

abbrev pub get_steps : List Bytes → List Step
get_steps keys = record { command = mget (join_space keys); ignored = false } ∷ []

length-parsed :
    {T : Type 0} (from_str : Bytes → Option T) (vs : List Value)
    → length (parsed from_str vs) ≤ length vs
unfolding parsed
length-parsed from_str [] = omega arith
length-parsed from_str (Value.bytes x ∷ vs) = ground (arith, length-parsed from_str vs)
length-parsed from_str (Value.nil ∷ vs) = omega (arith, length-parsed from_str vs)
length-parsed from_str (Value.okay ∷ vs) = omega (arith, length-parsed from_str vs)
length-parsed from_str (Value.int z ∷ vs) = omega (arith, length-parsed from_str vs)
length-parsed from_str (Value.status x ∷ vs) = omega (arith, length-parsed from_str vs)
length-parsed from_str (Value.bulk xs ∷ vs) = omega (arith, length-parsed from_str vs)

count_of_cases : (v : Value) → ((n : ℕ) × (count_of v ≡ ok n)) ⊎ (count_of v ≡ err operation_failed)
unfolding count_of
count_of_cases (Value.int (pos n)) = elim (Bool-cases (ltb n 1)) [
  | inl q ↦ rw q (inr refl)
  | inr q ↦ rw q (inl (n % 2 ^ 32, refl))
]
count_of_cases (Value.int (negsuc n)) = inr refl
count_of_cases Value.nil = inr refl
count_of_cases Value.okay = inr refl
count_of_cases (Value.bulk vs) = inr refl
count_of_cases (Value.bytes x) = inr refl
count_of_cases (Value.status x) = inr refl

last_count_cases :
    (vs : List Value) → ((n : ℕ) × (last_count vs ≡ ok n)) ⊎ (last_count vs ≡ err operation_failed)
unfolding last_count
last_count_cases vs = elim (Option-cases (last? vs)) [
  | inl n ↦ inr (rw (last_count, n) refl)
  | inr (v, p) ↦ rw (last_count, p) (count_of_cases v)
]

-- An answer is read as a count, or refused.
read_count_cases :
    (v : Value) → ((n : ℕ) × (read_count v ≡ ok n)) ⊎ (read_count v ≡ err operation_failed)
unfolding read_count
read_count_cases (Value.bulk vs) = last_count_cases (to_list vs)
read_count_cases Value.nil = inr refl
read_count_cases Value.okay = inr refl
read_count_cases (Value.int z) = inr refl
read_count_cases (Value.bytes x) = inr refl
read_count_cases (Value.status x) = inr refl

module _ (b : Backends) where
  -- What `increment` adds to the history.
  pub increment_history :
      (pool : TelemetryPool) (key : Bytes) (ms : ℕ) (h : History)
      → (increment b pool key ms h).1
        ≡ (if b.connects h then pipeline (increment_steps pool key ms) ∷ h else h)
  unfolding increment
  increment_history pool key ms h = ground arith

  increment_unconnected :
      (pool : TelemetryPool) (key : Bytes) (ms : ℕ) (h : History)
      → b.connects h ≡ false
      → increment b pool key ms h ≡ (err could_not_connect, h)
  unfolding increment
  increment_unconnected pool key ms h q = ground (arith, q)

  increment_refused :
      (pool : TelemetryPool) (key : Bytes) (ms : ℕ) (h : History)
      → b.connects h ≡ true
      → b.answer h (increment_steps pool key ms) ≡ none
      → increment b pool key ms h
        ≡ (err operation_failed, pipeline (increment_steps pool key ms) ∷ h)
  unfolding increment
  increment_refused pool key ms h q p = ground (arith, q, p)

  increment_read :
      (pool : TelemetryPool) (key : Bytes) (ms : ℕ) (v : Value) (h : History)
      → b.connects h ≡ true
      → b.answer h (increment_steps pool key ms) ≡ some v
      → increment b pool key ms h ≡ (read_count v, pipeline (increment_steps pool key ms) ∷ h)
  unfolding increment
  increment_read pool key ms v h q p = ground (arith, q, p)

  -- Without a connection `increment` sends nothing and fails with CouldNotConnect. With one it sends one
  -- pipeline, which resets the expiry of the key on every call, and it returns a count or fails with
  -- OperationFailed, whatever Redis answers.
  pub increment_sends :
      (pool : TelemetryPool) (key : Bytes) (ms : ℕ) (h : History)
      → ((b.connects h ≡ false) × (increment b pool key ms h ≡ (err could_not_connect, h)))
        ⊎ ((b.connects h ≡ true)
            × ((increment b pool key ms h).1 ≡ pipeline (increment_steps pool key ms) ∷ h)
            × (((n : ℕ) × ((increment b pool key ms h).0 ≡ ok n))
                ⊎ ((increment b pool key ms h).0 ≡ err operation_failed)))
  increment_sends pool key ms h = elim (Bool-cases (b.connects h)) [
    | inr q ↦ inl (q, increment_unconnected pool key ms h q)
    | inl q ↦ elim (Option-cases (b.answer h (increment_steps pool key ms))) [
      | inl n ↦
          let e = increment_refused pool key ms h q n in
          inr (q, ap (λ r. r.1) e, inr (ap (λ r. r.0) e))
      | inr (v, p) ↦
          let e = increment_read pool key ms v h q p in
          inr (
            q,
            ap (λ r. r.1) e,
            elim (read_count_cases v) [
              | inl (n, w) ↦ inl (n, ap (λ r. r.0) e ∙ w)
              | inr w ↦ inr (ap (λ r. r.0) e ∙ w)
            ],
          )
    ]
  ]

  -- With a connection, when Redis answers the pipeline with one integer `n` of at least 1, `increment`
  -- returns `n`, cut to 32 bits.
  pub increment_counts :
      (pool : TelemetryPool) (key : Bytes) (ms n : ℕ) (h : History)
      → b.connects h ≡ true
      → b.answer h (increment_steps pool key ms) ≡ some (Value.bulk (more (Value.int (pos n)) end))
      → 1 ≤ n
      → (increment b pool key ms h).0 ≡ ok (n % 2 ^ 32)
  unfolding increment
  increment_counts pool key ms n h p q hn = ground arith

  module _ (k : IsPipelined b) where
    -- When pipelines are answered as documented, `multiple_set` never succeeds: it waits for `Okay`,
    -- and a pipeline is answered with a bulk value.
    pub multiple_set-ne-ok :
        (pool : TelemetryPool) (kvs : List (Bytes × Bytes)) (ms : ℕ) (h : History)
        → (multiple_set b pool kvs ms h).0 ≢ ok tt
    unfolding multiple_set
    multiple_set-ne-ok pool kvs ms h e = elim (Option-cases (b.answer h (set_steps b kvs ms))) [
      | inl n ↦ ground (arith, n)
      | inr (v, p) ↦
          let (vs, q, l) = k.bulk_answer h (set_steps b kvs ms) v p in ground (arith, p, q)
    ]

    -- When pipelines are answered as documented, `multiple_get` of two or more keys never succeeds: it
    -- sends one MGET of the joined keys, so the answer has one element.
    pub multiple_get-ne-ok :
        {T : Type 0} (pool : TelemetryPool) (from_str : Bytes → Option T) (keys : List Bytes)
        (ts : List T) (h : History)
        → 2 ≤ length keys
        → (multiple_get b pool from_str keys h).0 ≢ ok ts
    unfolding multiple_get
    multiple_get-ne-ok pool from_str keys ts h two e =
        elim (Option-cases (b.answer h (get_steps keys))) [
          | inl n ↦ ground (arith, n)
          | inr (v, p) ↦
              let (vs, q, l) = k.bulk_answer h (get_steps keys) v p in
              ground (arith, p, q, l, length-parsed from_str (to_list vs))
        ]
