-- ===== src/Client/Repeats/Answers.antt =====
-- What the service answers the client of client-rest/examples/rest.rs.
use svc_telemetry.Base.{
  ℕ, zero, suc, ◌+◌, ◌≤◌, ◌<◌, ◌≡◌, refl, ap, ◌∙◌, arith, ◌⊎◌, inl, inr, List, [], ◌∷◌, All, Option,
  some, ok, length, replicate,
}
use svc_telemetry.Base.Int.{ℤ, pos}
use svc_telemetry.World.{Bytes, History, lift, return, ◌>>=◌}
use svc_telemetry.World.Effects.{bind_ok}
use svc_telemetry.Cache.Pool.Counting.{IsCounting}
use svc_telemetry.Rest.Server.{Reply, Site, service_pools}
use svc_telemetry.Rest.Server.Routes.{IsAxum}
use svc_telemetry.Rest.Server.Reports.{Report, counts, Answered, first, failed, again}
use svc_telemetry.Client.{Delivery, Library, request, ok_body}
use svc_telemetry.Client.Repeats.Counts.{
  of_packet, AtMost, Unreported, packet_bytes, AtMost-mono, after_report, reply_to, answered,
  after-AtMost, after_count, after-Unreported,
}
use svc_telemetry.Client.Repeats.{
  Evaluation, unexpected_code, as_expected, payload_of, report_request, evaluate, report_packet,
  nominal, repeated, adsb,
}

IsFirst : Evaluation → Type 0
IsFirst e = (e ≡ as_expected) ⊎ (e ≡ unexpected_code)

module _ (lib : Library) (from_slice : Bytes → Option ℤ) (site : Site) (ax : IsAxum (site.axum))
    (k : IsCounting (site.service.backends)) (named : site.pools ≡ service_pools)
    (connected : (number : ℕ) (h : History) → lib.delivery number h ≡ Delivery.answered)
    (read : (n : ℕ) → n < 10 → from_slice (lib.json_number n) ≡ some (pos n)) where
  evaluate-IsFirst :
      (r : Reply)
      → Answered 0 r
      → (e : Evaluation) × (evaluate lib from_slice (some r) (pos 1) ≡ ok e) × IsFirst e
  unfolding evaluate ok_body IsFirst
  evaluate-IsFirst _ first = (as_expected, rw (read 1 (omega arith)) refl, inl refl)
  evaluate-IsFirst _ (failed s) = (unexpected_code, refl, inr refl)

  evaluate_again :
      (n : ℕ) (r : Reply)
      → n < 8
      → Answered (suc n) r
      → evaluate lib from_slice (some r) (pos (suc (suc n))) ≡ ok as_expected
  unfolding evaluate ok_body
  evaluate_again _ _ small (again n) = rw (read (suc (suc n)) (omega (arith, small))) (ground arith)

  request_lem :
      (number i : ℕ) (h : History)
      → request lib site number (report_request (payload_of i)) h
        ≡ (ok (some (reply_to site i h)), after_report site i h)
  unfolding request reply_to after_report
  request_lem number i h = rw (connected number h) refl

  report_packet_lem :
      (number i : ℕ) (h : History) (expected : ℤ) (e : Evaluation)
      → evaluate lib from_slice (some (reply_to site i h)) expected ≡ ok e
      → report_packet lib from_slice site number (payload_of i) expected h
        ≡ (ok e, after_report site i h)
  unfolding report_packet
  report_packet_lem number i h expected e q =
      bind_ok (request lib site number (report_request (payload_of i)))
        (λ resp. lift (evaluate lib from_slice resp expected)) (some (reply_to site i h)) h
        (after_report site i h) (request_lem number i h)
      ∙ ap (λ x. (x, after_report site i h)) q

  -- The first reports of the packets.
  report_packet-IsFirst :
      (i n : ℕ) (h : History)
      → i ≤ 4
      → n < 100
      → AtMost n h
      → Unreported i h
      → (e : Evaluation) × (report_packet lib from_slice site i (payload_of i) (pos 1) h
          ≡ (ok e, after_report site i h))
        × IsFirst e
  unfolding Unreported
  report_packet-IsFirst i n h small few le u =
      let (q, a) =
        answered site ax k named i n h (of_packet i) small few le (packet_bytes i small) in
      let a0 : Answered 0 (reply_to site i h) = rw (u i (omega arith) small) at a in
      let (e, w, f) = evaluate-IsFirst (reply_to site i h) a0 in
      (e, report_packet_lem i i h (pos 1) e w, f)

  nominal_cons :
      (j i : ℕ) (h h' : History) (e : Evaluation) (es : List Evaluation)
      → report_packet lib from_slice site i (payload_of i) (pos 1) h ≡ (ok e, after_report site i h)
      → nominal lib from_slice site j (suc i) (after_report site i h) ≡ (ok es, h')
      → nominal lib from_slice site (suc j) i h ≡ (ok (e ∷ es), h')
  unfolding nominal
  nominal_cons j i h h' e es q w =
      bind_ok (report_packet lib from_slice site i (payload_of i) (pos 1))
        (λ e. nominal lib from_slice site j (suc i) >>= λ es. return (e ∷ es)) e h
        (after_report site i h) q
      ∙ bind_ok (nominal lib from_slice site j (suc i)) (λ es. return (e ∷ es)) es
          (after_report site i h) h' w

  Reported : ℕ → ℕ → History → Type 0
  Reported j i h =
      (es : List Evaluation) × (h' : History) × (nominal lib from_slice site j i h ≡ (ok es, h'))
      × (length es ≡ j)
      × All IsFirst es
      × AtMost 5 h'
      × (counts h' (of_packet 4) ≡ 1)

  last_lem : (h : History) → AtMost 4 h → Unreported 4 h → Reported 1 4 h
  unfolding Reported nominal Unreported
  last_lem h le u =
      let (e, q, f) = report_packet-IsFirst 4 4 h (omega arith) (omega arith) le u in
      let c = after_count site ax k named 4 4 h (omega arith) (omega arith) le in
      (
        e ∷ [],
        after_report site 4 h,
        nominal_cons zero 4 h (after_report site 4 h) e [] q refl,
        refl,
        (f, tt),
        after-AtMost site ax k named 4 4 h (omega arith) (omega arith) le,
        c ∙ ap suc (u 4 (omega arith) (omega arith)),
      )

  last_at : (i : ℕ) (h : History) → i ≡ 4 → AtMost i h → Unreported i h → Reported 1 i h
  last_at i h e = rw e (last_lem h)

  nominal_lem :
      (j i : ℕ) (h : History) → i + j ≡ 4 → AtMost i h → Unreported i h → Reported (suc j) i h
  unfolding Reported nominal
  nominal_lem zero i h total le u = last_at i h (omega (arith, total)) le u
  nominal_lem (suc j) i h total le u =
      let small : i ≤ 4 = omega (arith, total) in
      let few : i < 100 = omega (arith, total) in
      let (e, q, f) = report_packet-IsFirst i i h small few le u in
      let (es, h', w, n, fs, m, c) =
        nominal_lem j (suc i) (after_report site i h) (omega (arith, total))
          (after-AtMost site ax k named i i h small few le)
          (after-Unreported site ax k named i i h small few le u) in
      (e ∷ es, h', nominal_cons (suc j) i h h' e es q w, ap (λ (l : ℕ). suc l) n, (f, fs), m, c)

  -- The reports of the last packet again.
  repeated_lem :
      (j m : ℕ) (h : History)
      → j + m < 6
      → AtMost (m + 5) h
      → counts h (of_packet 4) ≡ suc m
      → (h' : History) × (repeated lib from_slice site j (payload_of 4) (suc (suc m)) h
          ≡ (ok (replicate j as_expected), h'))
  unfolding repeated
  repeated_lem zero m h few le c = (h, refl)
  repeated_lem (suc j) m h few le c =
      let (q, a) =
        answered site ax k named 4 (m + 5) h (of_packet 4) (omega arith) (omega (arith, few)) le
          (packet_bytes 4 (omega arith)) in
      let a1 : Answered (suc m) (reply_to site 4 h) = rw c at a in
      let step =
        report_packet_lem (3 + suc (suc m)) 4 h (pos (suc (suc m))) as_expected
          (evaluate_again m (reply_to site 4 h) (omega (arith, few)) a1) in
      let count = after_count site ax k named 4 (m + 5) h (omega arith) (omega (arith, few)) le in
      let (h', w) =
        repeated_lem j (suc m) (after_report site 4 h) (omega (arith, few))
          (AtMost-mono (suc (m + 5)) (suc m + 5) (after_report site 4 h) (omega arith)
            (after-AtMost site ax k named 4 (m + 5) h (omega arith) (omega (arith, few)) le))
          (count ∙ ap (λ (l : ℕ). suc l) c) in
      (
        h',
        bind_ok
              (report_packet lib from_slice site (3 + suc (suc m)) (payload_of 4)
                (pos (suc (suc m))))
              (λ e. repeated lib from_slice site j (payload_of 4) (suc (suc (suc m))) >>= λ es.
                return (e ∷ es))
              as_expected h (after_report site 4 h) step
            ∙ bind_ok (repeated lib from_slice site j (payload_of 4) (suc (suc (suc m))))
                (λ es. return (as_expected ∷ es)) (replicate j as_expected) (after_report site 4 h)
                h' w,
      )

  -- With a router library that behaves as documented, a Redis that counts with keys that do not expire,
  -- the pools of rest_server, a service that is reached and whose answers arrive, one-digit numbers that come back from their
  -- JSON text, and no packet counted before: the client of the example, up to its wait, does not panic.
  -- Each of its first five reports is answered with 1 or with an error status, and each of the five that
  -- follow with the count that it expects, 2 to 6.
  pub adsb-answered :
      (h : History)
      → ((r : Report) → All (λ b. b < 256) r.payload → counts h r ≡ 0)
      → (es : List Evaluation) × (h' : History) × (adsb lib from_slice site h
          ≡ (ok (es, replicate 5 as_expected), h'))
        × (length es ≡ 5)
        × All (λ e. (e ≡ as_expected) ⊎ (e ≡ unexpected_code)) es
  unfolding adsb Reported AtMost Unreported IsFirst
  adsb-answered h none_yet =
      let (es, h1, q, n, fs, le, c) =
        nominal_lem 4 0 h refl (λ r hr. omega (arith, none_yet r hr))
          (λ j a b. none_yet (of_packet j) (packet_bytes j b)) in
      let (h2, w) = repeated_lem 5 0 h1 (omega arith) (λ r hr. omega (arith, le r hr)) c in
      (
        es,
        h2,
        bind_ok (nominal lib from_slice site 5 0)
              (λ first.
                repeated lib from_slice site 5 (payload_of 4) 2 >>= λ again. return (first, again))
              es h h1 q
            ∙ bind_ok (repeated lib from_slice site 5 (payload_of 4) 2)
                (λ again. return (es, again)) (replicate 5 as_expected) h1 h2 w,
        n,
        fs,
      )
