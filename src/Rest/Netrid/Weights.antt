-- ===== src/Rest/Netrid/Weights.antt =====
-- What the Network Remote ID endpoint of server/src/rest/api/netrid.rs adds to a measure of the history.
use svc_telemetry.Base.{ℕ, ◌+◌, ◌≤◌, arith, ok, Bool-cases, Option-cases, inl, inr, length, ◌==◌}
use svc_telemetry.World.{Event, Bytes, History, Io, return, ◌>>=◌}
use svc_telemetry.World.Tally.{
  tally, IsQuiet, Adds, IsQuiet-Adds, bind-Adds, bind-IsQuiet, lift-IsQuiet,
}
use svc_telemetry.Cache.{TelemetryPools, bytes_to_key}
use svc_telemetry.Cache.Pool.Pipelines.{increment_history}
use svc_telemetry.Cache.Pool.Quiet.{IsIdle}
use svc_telemetry.Msg.Netrid.Fields.{MessageType}
use svc_telemetry.Msg.Netrid.Clock.{Chrono}
use svc_telemetry.Rest.Jwt.{Claim}
use svc_telemetry.Rest.Service.{Service}
use svc_telemetry.Rest.Status.{StatusCode}
use svc_telemetry.Rest.Netrid.{
  Unpack, process_message, on_count, count_reporters, network_remote_id, cache_expire_ms_netrid,
}
use svc_telemetry.Rest.Netrid.Replies.{counting}
use svc_telemetry.Rest.Netrid.Quiet.{IsUnheard, process_message-IsQuiet}

module _ (c : Chrono) (sv : Service c) (un : Unpack) (weigh : Event → ℕ)
    (idle : IsIdle sv.backends weigh) (unheard : IsUnheard weigh) where
  count_reporters-Adds :
      (pools : TelemetryPools) (t : MessageType) (payload : Bytes)
      → Adds weigh
          (weigh (counting c sv un pools payload))
          (count_reporters c sv un pools t payload)
  unfolding count_reporters Adds tally
  count_reporters-Adds pools t payload h = ground (
    arith,
    increment_history sv.backends pools.netrid (bytes_to_key payload) cache_expire_ms_netrid h,
  )

  on_count-IsQuiet :
      (n : ℕ) (p : Io StatusCode (Unit {0}))
      → IsQuiet weigh p
      → IsQuiet weigh (on_count c sv un n p)
  unfolding on_count IsQuiet
  on_count-IsQuiet n p q h = ground (arith, q h)

  counted-Adds :
      (pools : TelemetryPools) (t : MessageType) (payload : Bytes) (p : Io StatusCode (Unit {0}))
      → IsQuiet weigh p
      → (h : History)
      → (tally weigh h
          ≤ tally weigh
              ((count_reporters c sv un pools t payload >>= λ n. on_count c sv un n p) h).1)
        × (tally weigh ((count_reporters c sv un pools t payload >>= λ n. on_count c sv un n p) h).1
            ≤ weigh (counting c sv un pools payload) + tally weigh h)
  unfolding Adds
  counted-Adds pools t payload p q h =
      let (a, b) =
        bind-Adds weigh (count_reporters c sv un pools t payload) (λ n. on_count c sv un n p)
          (weigh (counting c sv un pools payload)) 0 (count_reporters-Adds pools t payload)
          (λ n. IsQuiet-Adds weigh _ 0 (on_count-IsQuiet n p q)) h in
      (a, omega (arith, b))

  -- A request adds at most the weight of its own increment.
  pub network_remote_id-Adds :
      (pools : TelemetryPools) (claim : Claim) (payload : Bytes)
      → Adds weigh
          (weigh (counting c sv un pools payload))
          (network_remote_id c sv un pools claim payload)
  unfolding network_remote_id Adds
  network_remote_id-Adds pools claim payload h = elim (Bool-cases (length payload == 25)) [
    | inr q ↦ rw q (omega arith, omega arith)
    | inl q ↦ elim (Option-cases (un.frame payload)) [
      | inl w ↦ rw q (rw w (omega arith, omega arith))
      | inr (f, w) ↦ rw q (
          rw w (
            counted-Adds pools f.header.message_type payload _
              (process_message-IsQuiet c sv weigh idle unheard un f.header.message_type claim.sub
                f.message)
              h))
    ]
  ]

  -- The processing of a packet has no weight.
  pub process-IsQuiet :
      (t : MessageType) (sub message : Bytes)
      → IsQuiet {A = ℕ} weigh (process_message c sv un t sub message >>= λ _. return 1)
  process-IsQuiet t sub message =
      bind-IsQuiet weigh {A = Unit {0}} {B = ℕ} _ (λ u. return 1)
        (process_message-IsQuiet c sv weigh idle unheard un t sub message)
        λ u. lift-IsQuiet weigh (ok 1)
