-- ===== src/Rest/Server/Concurrent/Once.antt =====
-- However the tasks of the service take turns, an ADS-B packet is passed on once: server/src/rest/server.rs
-- and server/src/rest/api/adsb.rs on a Redis that counts.
use svc_telemetry.Base.{
  ℕ, suc, ◌+◌, ◌≤◌, ◌<◌, ◌^◌, ◌≡◌, refl, sym, ◌∙◌, arith, List, [], true, ◌∷◌, ◌++◌, All, none,
}
use svc_telemetry.World.{Event, Bytes, History}
use svc_telemetry.World.Tally.{tally}
use svc_telemetry.Cache.Pool.Counting.{IsCounting, incrs}
use svc_telemetry.Rest.Server.{Site, HttpRequest, service_pools}
use svc_telemetry.Rest.Server.Runs.{is_declaration, start-IsDeclared}
use svc_telemetry.Rest.Server.Startup.Success.{start_up-eq-ok}
use svc_telemetry.Rest.Adsb.Duplicates.{packet_key}
use svc_telemetry.Rest.Server.Marks.{
  IsMark, declared_tally, publishes, inserts, publishes-IsMark, inserts-IsMark,
}
use svc_telemetry.Rest.Server.Concurrent.{Task, begun, Interleaved, start, accept, send}
use svc_telemetry.Rest.Server.Concurrent.Traces.{key, trace_cases}
use svc_telemetry.Rest.Server.Concurrent.Sums.{
  total, total-nil, total-cons, total_middle, total_mono, All_middle, All-replace,
}
use svc_telemetry.Rest.Server.Concurrent.Tasks.{
  IsGood, IsStep, score, weight, weight-le-score, send-IsStep, begun-IsGood,
}

module _ (p : Bytes) (weigh : Event → ℕ) where
  -- What holds of the tasks and the history.
  record Holds (ts : List Task) (h : History) : Type 0 where
    tasks : All (IsGood p weigh) ts
    sum : tally weigh h ≡ total (weight p weigh) ts
    single : total (score p weigh) ts ≤ 1
    fresh : incrs (key p) h ≡ 0 → total (score p weigh) ts ≡ 0

  send-Holds :
      (ts : List Task) (t u : Task) (us : List Task) (e : Event) (h : History)
      → IsStep p weigh t u e h
      → weight p weigh u ≡ weigh e + weight p weigh t
      → Holds (ts ++ (t ∷ us)) h
      → Holds (ts ++ (u ∷ us)) (e ∷ h)
  unfolding tally incrs
  send-Holds ts t u us e h st w i =
      let wt = total_middle (weight p weigh) ts t us in
      let wu = total_middle (weight p weigh) ts u us in
      let st' = total_middle (score p weigh) ts t us in
      let su = total_middle (score p weigh) ts u us in
      record {
        tasks = All-replace (IsGood p weigh) ts t u us st.good i.tasks;
        sum = omega (arith, i.sum, wt, wu, w);
        single = ground (arith, st.gain, i.single, i.fresh, su, st');
        fresh = λ z. omega (arith, su, st', st.kept (omega (arith, z)), i.fresh (omega (arith, z)));
      }

  begun-Holds :
      (site : Site) (req : HttpRequest) (view : History → History) (ts : List Task) (h : History)
      → IsGood p weigh (begun site req view)
      → Holds ts h
      → Holds (begun site req view ∷ ts) h
  unfolding tally incrs
  begun-Holds site req view ts h g i =
      let w = total-cons (weight p weigh) (begun site req view) ts in
      let c = total-cons (score p weigh) (begun site req view) ts in
      let z : score p weigh (begun site req view) ≡ 0 = ground arith in
      record {
        tasks = (g, i.tasks);
        sum = omega (arith, i.sum, w);
        single = omega (arith, i.single, c, z);
        fresh = λ n. omega (arith, i.fresh n, c, z);
      }

  declared-Holds :
      (h : History)
      → ((e : Event) → is_declaration e ≡ true → weigh e ≡ 0)
      → All (λ e. is_declaration e ≡ true) h
      → Holds [] h
  declared-Holds h f d =
      let w = total-nil (weight p weigh) in
      let c = total-nil (score p weigh) in
      record {
        tasks = tt;
        sum = declared_tally weigh h f d ∙ sym w;
        single = omega (arith, c);
        fresh = λ n. c;
      }

  Holds-bound :
      (ts : List Task) (h : History)
      → Holds ts h
      → (tally weigh h ≤ 1) × (tally weigh h ≤ incrs (key p) h)
  Holds-bound ts h i =
      let m =
        total_mono (weight p weigh) (score p weigh) (IsGood p weigh) ts (weight-le-score p weigh)
          i.tasks in
      (omega (arith, m, i.sum, i.single), ground (arith, m, i.sum, i.single, i.fresh))

  incrs_mono : (e : Event) (h : History) → incrs (key p) h ≤ incrs (key p) (e ∷ h)
  unfolding tally incrs
  incrs_mono e h = omega arith

  tally_cons : (e : Event) (h : History) → tally weigh (e ∷ h) ≡ weigh e + tally weigh h
  unfolding tally
  tally_cons e h = refl

pub Interleaved-pools :
    (site : Site) (ts : List Task) (h : History)
    → Interleaved site ts h
    → site.pools ≡ service_pools
Interleaved-pools site _ _ (start host config s h e p q) =
    let (unset, sampled, named, address, origin, t) = start_up-eq-ok host config none s [] h e in
    p ∙ named
Interleaved-pools site _ _ (accept req view ts h b i) = Interleaved-pools site ts h i
Interleaved-pools site _ _ (send ts req view sent e left us h v i) =
    Interleaved-pools site
      (ts ++ (record { request = req; view = view; sent = sent; left = e ∷ left } ∷ us)) h i

module _ (site : Site) (k : IsCounting (site.service.backends)) (p : Bytes)
    (hp : All (λ b. b < 256) p) where
  Interleaved-Holds :
      (weigh : Event → ℕ) (mark : IsMark p weigh) (ts : List Task) (h : History)
      → Interleaved site ts h
      → suc (incrs (key p) h) < 2 ^ 32
      → Holds p weigh ts h
  Interleaved-Holds weigh mark _ _ (start host config s h e q r) small =
      declared-Holds p weigh h mark.declared (start-IsDeclared host config s h e)
  Interleaved-Holds weigh mark _ _ (accept req view ts h b i) small =
      begun-Holds p weigh site req view ts h
        (begun-IsGood p weigh site req view
          (trace_cases site k (Interleaved-pools site ts h i) p hp weigh mark req view b))
        (Interleaved-Holds weigh mark ts h i small)
  Interleaved-Holds weigh mark _ _ (send ts req view sent e left us h v i) small =
      let t : Task = record { request = req; view = view; sent = sent; left = e ∷ left } in
      let before = incrs_mono p weigh e h in
      let holds =
        Interleaved-Holds weigh mark (ts ++ (t ∷ us)) h i (omega (arith, small, before)) in
      send-Holds p weigh ts t (record { request = req; view = view; sent = e ∷ sent; left = left })
        us e h
        (send-IsStep p weigh req view sent e left h v (omega (arith, small, before))
          (All_middle (IsGood p weigh) ts t us holds.tasks))
        (tally_cons p weigh e sent) holds

  -- In every interleaving of requests on a Redis that counts, with keys that do not expire: an ADS-B
  -- packet that was counted less than 2 ^ 32 - 1 times has been published under the routing key of
  -- ADS-B at most once and sent to svc-storage at most once, and neither if it was not counted.
  pub Interleaved-once :
      (ts : List Task) (h : History)
      → Interleaved site ts h
      → suc (incrs (packet_key service_pools p) h) < 2 ^ 32
      → (tally (publishes p) h ≤ 1)
        × (tally (inserts p) h ≤ 1)
        × (tally (publishes p) h ≤ incrs (packet_key service_pools p) h)
        × (tally (inserts p) h ≤ incrs (packet_key service_pools p) h)
  Interleaved-once ts h i small =
      let a =
        Holds-bound p (publishes p) ts h
          (Interleaved-Holds (publishes p) (publishes-IsMark p) ts h i small) in
      let b =
        Holds-bound p (inserts p) ts h
          (Interleaved-Holds (inserts p) (inserts-IsMark p) ts h i small) in
      (a.0, b.0, a.1, b.1)
