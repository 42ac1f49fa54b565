-- ===== src/Rest/Server/Concurrent/Traces.antt =====
-- What one request sends, whatever other tasks send meanwhile: server/src/rest/server.rs with the
-- handlers of server/src/rest/api/. For an ADS-B packet it either has no weight, or is a report, which
-- begins with the increment of the packet's count.
use svc_telemetry.Base.{
  ℕ, suc, ◌≤◌, ◌<◌, ◌^◌, ◌≡◌, refl, ◌∙◌, ap, arith, ◌⊎◌, inl, inr, Bool-cases, false, ◌∷◌, [], ◌++◌,
  All, length, ◌==◌, same, same_refl, eq_of_same, if◌then◌else◌,
}
use svc_telemetry.World.{Event, Bytes, History, or_err}
use svc_telemetry.World.Tally.{tally, tally-append}
use svc_telemetry.World.Extends.{after-Extends}
use svc_telemetry.Cache.{bytes_to_key}
use svc_telemetry.Cache.Pool.{increment}
use svc_telemetry.Cache.Pool.Pipelines.{increment_steps, increment_history}
use svc_telemetry.Cache.Pool.Quiet.{IsIdle}
use svc_telemetry.Cache.Pool.Counting.{IsCounting, incrs, event_incrs, event_incrs-IsIdle}
use svc_telemetry.Rest.Status.{internal_server_error}
use svc_telemetry.Rest.Netrid as Netrid
use svc_telemetry.Rest.Jwt.{Claim}
use svc_telemetry.Rest.Adsb as Adsb
use svc_telemetry.Rest.Adsb.Extends.{on_count-Extends}
use svc_telemetry.Rest.Adsb.Stored.{unpacked}
use svc_telemetry.Rest.Adsb.Weights.{IsLight}
use svc_telemetry.Rest.Adsb.Duplicates.{packet_key, counting, adsb_short, adsb_answered}
use svc_telemetry.Rest.Server.{Site, HttpRequest, service_pools}
use svc_telemetry.Rest.Server.Runs.{IsHandled, serve-IsHandled}
use svc_telemetry.Rest.Server.Marks.{
  IsMark, netrid_incrs, adsb_incrs, incrs-IsUnheard, incrs-IsLight, netrid_handler, adsb_handler,
  netrid_tally, adsb_tally,
}
use svc_telemetry.Rest.Server.Concurrent.{seen, trace}

-- The key of a packet's count.
abbrev pub key : Bytes → Bytes
key p = packet_key service_pools p

-- 1 if the packet was not counted in the history.
abbrev pub chance : Bytes → History → ℕ
chance p h = if incrs (key p) h == 0 then 1 else 0

module _ (p : Bytes) (weigh : Event → ℕ) where
  -- A trace without weight.
  pub record IsSilent (t : History) : Type 0 where
    pub weight : tally weigh t ≡ 0
    pub uncounted : incrs (key p) t ≡ 0

  -- A trace of a report that meets the history `h` first.
  pub record IsReport (t : History) (h : History) : Type 0 where
    pub rest : History
    pub first : Event
    pub begins : t ≡ rest ++ (first ∷ [])
    pub counts : event_incrs (key p) first ≡ 1
    pub light : weigh first ≡ 0
    pub once : incrs (key p) rest ≡ 0
    pub wins : suc (incrs (key p) h) < 2 ^ 32 → tally weigh rest ≤ chance p h

module _ (site : Site) (k : IsCounting (site.service.backends)) (named : site.pools ≡ service_pools)
    (p : Bytes) (hp : All (λ b. b < 256) p) (weigh : Event → ℕ) (mark : IsMark p weigh) where
  module _ (view : History → History) where
    idle : IsIdle ((seen site view).service.backends) weigh
    idle = record {
      pushing = λ list item. mark.pipelines _;
      setting = λ kvs ms. mark.pipelines _;
      getting = λ keys. mark.pipelines _;
    }

    netrid-IsSilent :
        (claim : Claim) (q : Bytes) → IsSilent p weigh (netrid_handler (seen site view) claim q [])
    unfolding incrs tally
    netrid-IsSilent claim q = record {
      weight = netrid_tally (seen site view) weigh idle claim q [] mark.unheard (mark.pipelines _);
      uncounted =
          netrid_tally (seen site view) (event_incrs (key p)) (event_incrs-IsIdle _ (key p)) claim q
            [] (incrs-IsUnheard (key p))
            (netrid_incrs p (bytes_to_key q) Netrid.cache_expire_ms_netrid);
    }

    -- A report of another packet.
    other-IsSilent :
        (q : Bytes)
        → All (λ b. b < 256) q
        → same p q ≡ false
        → IsSilent p weigh (adsb_handler (seen site view) q [])
    unfolding incrs tally
    other-IsSilent q hq e =
        let (a, b) =
          adsb_tally (seen site view) weigh idle q 0 [] (λ icao. rw e at (mark.light q icao)) in
        let (c, d) =
          adsb_tally (seen site view) (event_incrs (key p)) (event_incrs-IsIdle _ (key p)) q 0 []
            (incrs-IsLight (key p) q) in
        let z =
          mark.pipelines
            (increment_steps service_pools.adsb (bytes_to_key q) Adsb.cache_expire_ms_adsb) in
        let y : event_incrs (key p) (counting service_pools q) ≡ 0 =
          adsb_incrs p q hp hq ∙ rw e refl in
        record { weight = omega (arith, b, z); uncounted = omega (arith, d, y) }

    short-IsSilent : length p == 14 ≡ false → IsSilent p weigh (adsb_handler (seen site view) p [])
    unfolding incrs tally adsb_handler
    short-IsSilent short =
        let e =
          ap (λ x. x.1)
            (adsb_short site.chrono ((seen site view).service) site.libm site.deku service_pools p
              [] short) in
        record { weight = ap (tally weigh) e; uncounted = ap (tally (event_incrs (key p))) e }

    own_incrs : event_incrs (key p) (counting service_pools p) ≡ 1
    own_incrs = adsb_incrs p p hp hp ∙ rw (same_refl p) refl

    -- A report of the packet begins with the increment.
    own_begins :
        length p ≡ 14
        → (rest : History) × (adsb_handler (seen site view) p []
            ≡ rest ++ (counting service_pools p ∷ []))
    unfolding adsb_handler
    own_begins len =
        let sv = (seen site view).service in
        let count_it =
          increment sv.backends service_pools.adsb (bytes_to_key p) Adsb.cache_expire_ms_adsb in
        let (rest, e) =
          after-Extends (or_err count_it internal_server_error)
            (λ n.
              Adsb.on_count site.chrono sv site.libm site.deku n
                (Adsb.process_packet site.chrono sv site.libm site.deku service_pools p n))
            [] (counting service_pools p ∷ [])
            (ground (
              arith,
              increment_history sv.backends service_pools.adsb (bytes_to_key p)
                  Adsb.cache_expire_ms_adsb [],
              k.connected (view []),
            ))
            (on_count-Extends site.chrono sv site.libm site.deku service_pools p) in
        (
          rest,
          ap (λ x. x.1) (unpacked site.chrono sv site.libm site.deku service_pools p [] len) ∙ e,
        )

    -- If the packet was counted before, nothing else follows.
    own_ends :
        length p ≡ 14
        → suc (incrs (key p) (view [])) < 2 ^ 32
        → incrs (key p) (view []) == 0 ≡ false
        → adsb_handler (seen site view) p [] ≡ counting service_pools p ∷ []
    unfolding adsb_handler
    own_ends len small z =
        let sv = (seen site view).service in
        ap (λ x. x.1)
          (adsb_answered site.chrono sv site.libm site.deku service_pools p
            (incrs (key p) (view [])) [] len (k.connected (view []))
            (k.counts (view []) service_pools.adsb (bytes_to_key p) Adsb.cache_expire_ms_adsb)
            small)
        ∙ rw z refl

    own-IsReport : length p ≡ 14 → IsReport p weigh (adsb_handler (seen site view) p []) (view [])
    unfolding incrs tally
    own-IsReport len =
        let (rest, e) = own_begins len in
        let light : IsLight weigh p 1 = λ icao. rw (same_refl p) at (mark.light p icao) in
        let (a, b) = adsb_tally (seen site view) weigh idle p 1 [] light in
        let (c, d) =
          adsb_tally (seen site view) (event_incrs (key p)) (event_incrs-IsIdle _ (key p)) p 0 []
            (incrs-IsLight (key p) p) in
        let w = ap (tally weigh) e ∙ tally-append weigh rest (counting service_pools p ∷ []) in
        let i =
          ap (tally (event_incrs (key p))) e
          ∙ tally-append (event_incrs (key p)) rest (counting service_pools p ∷ []) in
        let z : weigh (counting service_pools p) ≡ 0 = mark.pipelines _ in
        record {
          rest = rest;
          first = counting service_pools p;
          begins = e;
          counts = own_incrs;
          light = z;
          once = omega (arith, i, d, own_incrs);
          wins = λ small. elim (Bool-cases (incrs (key p) (view []) == 0)) [
            | inl new ↦ rw new (omega (arith, w, b, z))
            | inr old ↦
                let v = ap (tally weigh) (own_ends len small old) in rw old (omega (arith, w, v, z))
          ];
        }

    adsb_cases :
        (q : Bytes)
        → All (λ b. b < 256) q
        → IsSilent p weigh (adsb_handler (seen site view) q [])
          ⊎ IsReport p weigh (adsb_handler (seen site view) q []) (view [])
    adsb_cases q hq = elim (Bool-cases (same p q)) [
      | inr other ↦ inl (other-IsSilent q hq other)
      | inl own ↦ rw (← eq_of_same p q own) (elim (Bool-cases (length p == 14)) [
        | inl len ↦ inr (own-IsReport (ground arith))
        | inr short ↦ inl (short-IsSilent short)
      ])
    ]

  IsSilent-nil : IsSilent p weigh []
  unfolding incrs tally
  IsSilent-nil = record { weight = refl; uncounted = refl }

  handled_cases :
      (req : HttpRequest) (view : History → History) (t : History)
      → All (λ b. b < 256) req.body
      → IsHandled (seen site view) req [] t
      → IsSilent p weigh t ⊎ IsReport p weigh t (view [])
  unfolding adsb_handler netrid_handler
  handled_cases req view t hq (inl e) = rw e (inl IsSilent-nil)
  handled_cases req view t hq (inr (inl (claim, e))) =
      let w : t ≡ netrid_handler (seen site view) claim req.body [] = rw named at e in
      rw w (inl (netrid-IsSilent view claim req.body))
  handled_cases req view t hq (inr (inr e)) =
      let w : t ≡ adsb_handler (seen site view) req.body [] = rw named at e in
      rw w (adsb_cases view req.body hq)

  -- Every request.
  pub trace_cases :
      (req : HttpRequest) (view : History → History)
      → All (λ b. b < 256) req.body
      → IsSilent p weigh (trace site req view) ⊎ IsReport p weigh (trace site req view) (view [])
  trace_cases req view hq =
      handled_cases req view (trace site req view) hq (serve-IsHandled (seen site view) req [])
