-- ===== src/Client/Repeats/Counts.antt =====
-- The counts of the reports of client-rest/examples/rest.rs, and how the service answers one.
use svc_telemetry.Base.{ℕ, suc, ◌≤◌, ◌<◌, ◌≡◌, ◌∙◌, arith, All, some, same}
use svc_telemetry.World.{Bytes, History}
use svc_telemetry.Cache.Pool.Counting.{IsCounting}
use svc_telemetry.Rest.Server.{Reply, Site, serve, service_pools}
use svc_telemetry.Rest.Server.Routes.{IsAxum}
use svc_telemetry.Rest.Server.Reports.{Kind, netrid_kind, adsb_kind, Report, counts, next, Answered}
use svc_telemetry.Rest.Server.Refinement.{serve-Follows}
use svc_telemetry.Client.Repeats.{payload_of, report_request}

abbrev pub report_of : Kind → Bytes → Report
report_of kind payload = record { kind = kind; payload = payload }

-- The reports of the client.
abbrev pub of_packet : ℕ → Report
of_packet i = report_of adsb_kind (payload_of i)

unfoldable pub AtMost : ℕ → History → Type 0
AtMost n h = (r : Report) → All (λ b. b < 256) r.payload → counts h r ≤ n

-- The packets from number i on have not been reported.
unfoldable pub Unreported : ℕ → History → Type 0
Unreported i h = (j : ℕ) → i ≤ j → j ≤ 4 → counts h (of_packet j) ≡ 0

next_same :
    (i : ℕ) (c : Report → ℕ) → next (some (of_packet i)) c (of_packet i) ≡ suc (c (of_packet i))
unfolding same
next_same i c = ground arith

next_other :
    (i j : ℕ) (c : Report → ℕ) → i < j → next (some (of_packet i)) c (of_packet j) ≡ c (of_packet j)
unfolding same
next_other i j c h = ground arith

next-le : (s r : Report) (c : Report → ℕ) → next (some s) c r ≤ suc (c r)
next-le s r c = ground arith

pub packet_bytes : (i : ℕ) → i ≤ 4 → All (λ b. b < 256) (payload_of i)
packet_bytes i h = omega (arith, h)

pub AtMost-mono : (a b : ℕ) (h : History) → a ≤ b → AtMost a h → AtMost b h
unfolding AtMost
AtMost-mono a b h l le r hr = omega (arith, l, le r hr)

module _ (site : Site) where
  unfoldable pub after_report : ℕ → History → History
  after_report i h = (serve site (report_request (payload_of i)) h).1

  unfoldable pub reply_to : ℕ → History → Reply
  reply_to i h = (serve site (report_request (payload_of i)) h).0

module _ (site : Site) (ax : IsAxum (site.axum)) (k : IsCounting (site.service.backends))
    (named : site.pools ≡ service_pools) where
  -- One report.
  pub answered :
      (i n : ℕ) (h : History) (r : Report)
      → i ≤ 4
      → n < 100
      → AtMost n h
      → All (λ b. b < 256) r.payload
      → (counts (after_report site i h) r ≡ next (some (of_packet i)) (counts h) r)
        × Answered (counts h (of_packet i)) (reply_to site i h)
  unfolding same after_report reply_to AtMost
  answered i n h r small few le hr =
      serve-Follows site k named (report_request (payload_of i)) h r hr (packet_bytes i small)
        (omega (arith, le (report_of netrid_kind (payload_of i)) (packet_bytes i small)))
        (omega (arith, le (report_of adsb_kind (payload_of i)) (packet_bytes i small))) ax

  pub after-AtMost :
      (i n : ℕ) (h : History)
      → i ≤ 4
      → n < 100
      → AtMost n h
      → AtMost (suc n) (after_report site i h)
  unfolding AtMost
  after-AtMost i n h small few le r hr =
      let (e, a) = answered i n h r small few le hr in
      omega (arith, e, next-le (of_packet i) r (counts h), le r hr)

  pub after_count :
      (i n : ℕ) (h : History)
      → i ≤ 4
      → n < 100
      → AtMost n h
      → counts (after_report site i h) (of_packet i) ≡ suc (counts h (of_packet i))
  after_count i n h small few le =
      let (e, a) = answered i n h (of_packet i) small few le (packet_bytes i small) in
      e ∙ next_same i (counts h)

  pub after-Unreported :
      (i n : ℕ) (h : History)
      → i ≤ 4
      → n < 100
      → AtMost n h
      → Unreported i h
      → Unreported (suc i) (after_report site i h)
  unfolding Unreported
  after-Unreported i n h small few le u j above below =
      let (e, a) = answered i n h (of_packet j) small few le (packet_bytes j below) in
      e ∙ next_other i j (counts h) above ∙ u j (omega (arith, above)) below
