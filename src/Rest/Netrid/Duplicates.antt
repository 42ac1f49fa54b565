-- ===== src/Rest/Netrid/Duplicates.antt =====
-- A repeated Network Remote ID packet is dropped: server/src/rest/api/netrid.rs.
use svc_telemetry.Base.{
  true, none, err, ℕ, suc, ◌^◌, ◌<◌, ◌≡◌, refl, ◌∙◌, arith, false, ◌∷◌, some, ok, length, ◌==◌,
  if◌then◌else◌,
}
use svc_telemetry.World.{Bytes, History, Io, ◌>>=◌, return}
use svc_telemetry.World.Effects.{Yields, bind-Yields, return-Yields, bind_ok}
use svc_telemetry.Cache.{TelemetryPools, bytes_to_key}
use svc_telemetry.Cache.Pool.Counting.{IsCounting, incrs, stored_key, increment-incrs}
use svc_telemetry.Msg.Netrid.{Frame}
use svc_telemetry.Msg.Netrid.Fields.{MessageType}
use svc_telemetry.Msg.Netrid.Clock.{Chrono}
use svc_telemetry.Rest.Status.{bad_request, StatusCode}
use svc_telemetry.Rest.Jwt.{Claim}
use svc_telemetry.Rest.Service.{Service}
use svc_telemetry.Rest.Netrid.{
  Unpack, process_message, on_count, count_reporters, is_basic, network_remote_id,
  cache_expire_ms_netrid,
}
use svc_telemetry.Rest.Netrid.Replies.{counting}

-- The key under which a packet is counted.
abbrev pub packet_key : TelemetryPools → Bytes → Bytes
packet_key pools payload = stored_key pools.netrid (bytes_to_key payload)

count_reporters_lem :
    (c : Chrono) (sv : Service c) (un : Unpack) (k : IsCounting sv.backends)
    (pools : TelemetryPools) (t : MessageType) (payload : Bytes) (h : History)
    → is_basic t ≡ false
    → suc (incrs (packet_key pools payload) h) < 2 ^ 32
    → count_reporters c sv un pools t payload h
      ≡ (ok (suc (incrs (packet_key pools payload) h)), counting c sv un pools payload ∷ h)
unfolding count_reporters
count_reporters_lem c sv un k pools t payload h nb small = ground (
  arith,
  increment-incrs sv.backends k pools.netrid (bytes_to_key payload) cache_expire_ms_netrid h small,
)

on_count_lem :
    (c : Chrono) (sv : Service c) (un : Unpack) (n : ℕ) (p : Io StatusCode (Unit {0})) (h : History)
    → on_count c sv un (suc n) p h ≡ (if n == 0 then (p >>= λ _. return 1) h else (ok (suc n), h))
unfolding on_count
on_count_lem c sv un n p h = ground arith

unpacked :
    (c : Chrono) (sv : Service c) (un : Unpack) (pools : TelemetryPools) (claim : Claim)
    (payload : Bytes) (f : Frame) (h : History)
    → length payload ≡ 25
    → un.frame payload ≡ some f
    → network_remote_id c sv un pools claim payload h
      ≡ (count_reporters c sv un pools f.header.message_type payload >>= λ n.
            on_count c sv un n (process_message c sv un f.header.message_type claim.sub f.message))
          h
unfolding network_remote_id
unpacked c sv un pools claim payload f h len fr = rw len (rw fr refl)

-- A packet of another length, and one that is no frame.
pub network_remote_id_short :
    (c : Chrono) (sv : Service c) (un : Unpack) (pools : TelemetryPools) (claim : Claim)
    (payload : Bytes) (h : History)
    → length payload == 25 ≡ false
    → network_remote_id c sv un pools claim payload h ≡ (err bad_request, h)
unfolding network_remote_id
network_remote_id_short c sv un pools claim payload h e = rw e refl

pub network_remote_id_unframed :
    (c : Chrono) (sv : Service c) (un : Unpack) (pools : TelemetryPools) (claim : Claim)
    (payload : Bytes) (h : History)
    → length payload == 25 ≡ true
    → un.frame payload ≡ none
    → network_remote_id c sv un pools claim payload h ≡ (err bad_request, h)
unfolding network_remote_id
network_remote_id_unframed c sv un pools claim payload h e w = rw e (rw w refl)

-- With a counting Redis, a packet of 25 bytes that unpacks to a frame, is no basic message and was
-- counted less than 2 ^ 32 - 1 times, is processed when its key was not counted before; otherwise it is
-- answered with its count, and nothing but the increment is sent.
pub network_remote_id-incrs :
    (c : Chrono) (sv : Service c) (un : Unpack) (k : IsCounting sv.backends)
    (pools : TelemetryPools) (claim : Claim) (payload : Bytes) (f : Frame) (h : History)
    → length payload ≡ 25
    → un.frame payload ≡ some f
    → is_basic f.header.message_type ≡ false
    → suc (incrs (packet_key pools payload) h) < 2 ^ 32
    → network_remote_id c sv un pools claim payload h ≡ (
        if incrs (packet_key pools payload) h == 0
        then (process_message c sv un f.header.message_type claim.sub f.message >>= λ _. return 1)
            (counting c sv un pools payload ∷ h)
        else (ok (suc (incrs (packet_key pools payload) h)), counting c sv un pools payload ∷ h))
network_remote_id-incrs c sv un k pools claim payload f h len fr nb small =
    let process = process_message c sv un f.header.message_type claim.sub f.message in
    unpacked c sv un pools claim payload f h len fr
    ∙ bind_ok (count_reporters c sv un pools f.header.message_type payload)
        (λ n. on_count c sv un n process) _ h (counting c sv un pools payload ∷ h)
        (count_reporters_lem c sv un k pools f.header.message_type payload h nb small)
    ∙ on_count_lem c sv un (incrs (packet_key pools payload) h) process
        (counting c sv un pools payload ∷ h)

-- A first report, if it is processed with success, is answered with 1.
pub first-Yields :
    (c : Chrono) (sv : Service c) (un : Unpack) (t : MessageType) (sub message : Bytes)
    → Yields {A = ℕ} 1 (process_message c sv un t sub message >>= λ _. return 1)
first-Yields c sv un t sub message =
    bind-Yields {A = ℕ} 1 _ _ λ u. return-Yields StatusCode {A = ℕ} 1

-- A basic message is processed without being counted.
pub basic_report :
    (c : Chrono) (sv : Service c) (un : Unpack) (pools : TelemetryPools) (claim : Claim)
    (payload : Bytes) (f : Frame) (h : History)
    → length payload ≡ 25
    → un.frame payload ≡ some f
    → is_basic f.header.message_type ≡ true
    → network_remote_id c sv un pools claim payload h
      ≡ (process_message c sv un f.header.message_type claim.sub f.message >>= λ _. return 1) h
unfolding count_reporters
basic_report c sv un pools claim payload f h len fr b =
    let process = process_message c sv un f.header.message_type claim.sub f.message in
    unpacked c sv un pools claim payload f h len fr
    ∙ bind_ok (count_reporters c sv un pools f.header.message_type payload)
        (λ n. on_count c sv un n process) 1 h h (uncounted h)
    ∙ on_count_lem c sv un 0 process h
  where
    uncounted :
        (h : History) → count_reporters c sv un pools f.header.message_type payload h ≡ (ok 1, h)
    uncounted h = rw b refl
