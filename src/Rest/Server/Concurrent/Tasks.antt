-- ===== src/Rest/Server/Concurrent/Tasks.antt =====
-- One step of a task in flight of server/src/rest/server.rs, as far as an ADS-B packet is concerned.
use svc_telemetry.Base.{
  ℕ, suc, ◌+◌, ◌≤◌, ◌<◌, ◌^◌, ◌≡◌, refl, sym, ◌∙◌, ap, arith, ◌⊎◌, inl, inr, List, [], ◌∷◌, ◌==◌,
  if◌then◌else◌,
}
use svc_telemetry.World.{Event, Bytes, History}
use svc_telemetry.World.Tally.{tally, tally-reverse}
use svc_telemetry.Cache.Pool.Counting.{incrs, event_incrs}
use svc_telemetry.Rest.Server.{Site, HttpRequest}
use svc_telemetry.Rest.Server.Concurrent.{Task, trace, begun}
use svc_telemetry.Rest.Server.Concurrent.Traces.{key, chance, IsSilent, IsReport}
use mathlib.Core.List.{reverse, reverse-append}

module _ (p : Bytes) (weigh : Event → ℕ) where
  -- What a task may be at: its request has no weight, or its report has not begun, or it has.
  pub data IsGood (t : Task) : Type 0 where
    silent :
        tally (event_incrs (key p)) t.left ≡ 0
        → tally weigh t.left ≡ 0
        → incrs (key p) t.sent ≡ 0
        → tally weigh t.sent ≡ 0
        → IsGood t
    waiting :
        (first : Event) (after : List Event)
        → t.sent ≡ []
        → t.left ≡ first ∷ after
        → event_incrs (key p) first ≡ 1
        → weigh first ≡ 0
        → tally (event_incrs (key p)) after ≡ 0
        → (suc (incrs (key p) (t.view [])) < 2 ^ 32 → tally weigh after ≤ chance p (t.view []))
        → IsGood t
    reporting :
        tally (event_incrs (key p)) t.left ≡ 0
        → incrs (key p) t.sent ≡ 1
        → tally weigh t.sent + tally weigh t.left ≤ chance p (t.view [])
        → IsGood t

  -- 1 if the task has counted the packet, as the first.
  abbrev pub score : Task → ℕ
  score t = if incrs (key p) (t.view []) == 0 then incrs (key p) t.sent else 0

  abbrev pub weight : Task → ℕ
  weight t = tally weigh t.sent

  pub weight-le-score : (t : Task) → IsGood t → weight t ≤ score t
  unfolding tally incrs
  weight-le-score t (silent a b c d) = ground arith
  weight-le-score t (waiting first after a b c d e f) = ground arith
  weight-le-score t (reporting a b c) = ground arith

  -- One step of a task.
  pub record IsStep (t u : Task) (e : Event) (h : History) : Type 0 where
    pub good : IsGood u
    pub kept : event_incrs (key p) e ≡ 0 → score u ≤ score t
    pub gain : score u ≤ score t + chance p h

  pub send-IsStep :
      (req : HttpRequest) (view : History → History) (sent : History) (e : Event)
      (left : List Event) (h : History)
      → view sent ≡ h
      → suc (incrs (key p) h) < 2 ^ 32
      → IsGood (record { request = req; view = view; sent = sent; left = e ∷ left })
      → IsStep
          (record { request = req; view = view; sent = sent; left = e ∷ left })
          (record { request = req; view = view; sent = e ∷ sent; left = left })
          e
          h
  unfolding tally incrs
  send-IsStep req view sent e left h v small (silent a b c d) = record {
    good = silent (omega (arith, a)) (omega (arith, b)) (omega (arith, a, c)) (omega (arith, b, d));
    kept = λ z. ground arith;
    gain = ground arith;
  }
  send-IsStep req view sent e left h v small (waiting first after a b c d f g) =
      let x : view [] ≡ h = ap view (sym a) ∙ v in
      let y : e ≡ first = cc in
      let z : left ≡ after = cc in
      let n : event_incrs (key p) e ≡ 1 = rw y c in
      let l : weigh e ≡ 0 = rw y d in
      let i = ap (tally (event_incrs (key p))) a in
      let w = ap (tally weigh) a in
      let c = ap (incrs (key p)) x in
      let r : tally weigh left ≤ chance p (view []) = rw z (g (rw x small)) in
      record {
        good = reporting (rw z f) (omega (arith, n, i)) (omega (arith, l, w, r));
        kept = λ q. absurd (omega (arith, q, n));
        gain = ground arith;
      }
  send-IsStep req view sent e left h v small (reporting a b c) = record {
    good = reporting (omega (arith, a)) (omega (arith, a, b)) (omega (arith, c));
    kept = λ z. ground arith;
    gain = ground arith;
  }

  pub begun-IsGood :
      (site : Site) (req : HttpRequest) (view : History → History)
      → IsSilent p weigh (trace site req view) ⊎ IsReport p weigh (trace site req view) (view [])
      → IsGood (begun site req view)
  unfolding tally incrs
  begun-IsGood site req view (inl s) =
      silent (tally-reverse _ _ ∙ s.uncounted) (tally-reverse _ _ ∙ s.weight) refl refl
  begun-IsGood site req view (inr r) =
      waiting r.first (reverse r.rest) refl
        (ap reverse r.begins ∙ reverse-append r.rest (r.first ∷ [])) r.counts r.light
        (tally-reverse _ _ ∙ r.once) (λ small. rw (tally-reverse weigh r.rest) (r.wins small))
