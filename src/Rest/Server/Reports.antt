-- ===== src/Rest/Server/Reports.antt =====
-- The service as a counter of reports: an abstract view of server/src/rest/server.rs and the two
-- telemetry endpoints, without Redis, RabbitMQ and the parsers' output.
use svc_telemetry.Base.{
  ℕ, suc, ◌+◌, ◌≤◌, Bool, true, false, ◌&&◌, List, [], ◌∷◌, Option, none, some, Result, ok, err,
  length, ◌==◌, same, if◌then◌else◌,
}
use svc_telemetry.World.{Bytes, History}
use svc_telemetry.Cache.{bytes_to_key}
use svc_telemetry.Cache.Pool.{TelemetryPool}
use svc_telemetry.Cache.Pool.Counting.{incrs, stored_key}
use svc_telemetry.Msg.Netrid.{Frame}
use svc_telemetry.Rest.Status.{StatusCode}
use svc_telemetry.Rest.Jwt.{auth}
use svc_telemetry.Rest.Netrid.{is_basic}
use svc_telemetry.Rest.Server.{
  Endpoint, network_remote_id, adsb, Layer, auth as auth_layer, HttpRequest, Reply, counted, status,
  Site, service_pools,
}
use svc_telemetry.Rest.Server.Routes.{table}

pub data Kind : Type 0 where
  netrid_kind adsb_kind : Kind

abbrev pub same_kind : Kind → Kind → Bool
same_kind netrid_kind netrid_kind = true
same_kind adsb_kind adsb_kind = true
same_kind _ _ = false

-- A report is a packet with the endpoint that accepts it.
pub record Report : Type 0 where
  pub kind : Kind
  pub payload : Bytes

abbrev pub same_report : Report → Report → Bool
same_report r s = same_kind r.kind s.kind && same r.payload s.payload

-- The state of the counter: how often each packet was reported.
abbrev pub Counts : Type 0
Counts = Report → ℕ

abbrev pub next : Option Report → Counts → Counts
next none c r = c r
next (some s) c r = (if same_report r s then 1 else 0) + c r

-- The replies to a packet that was reported `n` times before: only the first report may fail.
pub data Answered : ℕ → Reply → Type 0 where
  first : Answered 0 (counted 1)
  failed : (s : StatusCode) → Answered 0 (status s)
  again : (n : ℕ) → Answered (suc n) (counted (suc (suc n)))

-- A request that is no report is not answered with a count above 1.
abbrev pub count_of : Reply → ℕ
count_of (counted n) = n
count_of _ = 0

abbrev pub Answers : Option Report → Counts → Reply → Type 0
Answers none c r = count_of r ≤ 1
Answers (some s) c r = Answered (c s) r

-- The view of a history.
abbrev pub pool_of : Kind → TelemetryPool
pool_of netrid_kind = service_pools.netrid
pool_of adsb_kind = service_pools.adsb

abbrev pub report_key : Report → Bytes
report_key r = stored_key (pool_of r.kind) (bytes_to_key r.payload)

abbrev pub counts : History → Counts
counts h r = incrs (report_key r) h

-- A Network Remote ID packet is a report unless it holds a basic message.
abbrev pub framed : Bytes → Option Frame → Option Report
framed payload none = none
framed payload (some f) =
    if is_basic f.header.message_type
    then none
    else some (record { kind = netrid_kind; payload = payload })

abbrev pub let_in : {E A : Type 0} → Result E A → Option Report → Option Report
let_in (ok a) r = r
let_in (err e) r = none

module _ (site : Site) where
  open site use {jwt, unpack, to_str, secret, now}

  abbrev pub report_at : Option (List Layer × Endpoint) → HttpRequest → History → Option Report
  report_at (some ([], adsb)) req h =
      if length req.body == 14 then some (record { kind = adsb_kind; payload = req.body }) else none
  report_at (some (auth_layer ∷ [], network_remote_id)) req h =
      let_in (auth to_str jwt secret (now h 0) req.credentials (λ c. c))
        (if length req.body == 25 then framed req.body (unpack.frame req.body) else none)
  report_at _ req h = none

  -- The packet that a request reports.
  abbrev pub report : HttpRequest → History → Option Report
  report req h = report_at (table req.method req.path) req h
