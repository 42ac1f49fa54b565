-- ===== src/Rest/Server/Concurrent.antt =====
-- Requests in flight at the same time: server/src/rest/server.rs serves each request in a task of its
-- own, and the tasks take turns wherever a handler waits. Between two effects of a handler other tasks
-- may have theirs, so it meets a longer history than its own.
pub mod Traces
pub mod Sums
pub mod Tasks
pub mod Once
pub mod Tests
use svc_telemetry.Base.{◌≡◌, ◌<◌, List, [], ◌∷◌, ◌++◌, All, none, some, ok}
use svc_telemetry.World.{Bytes, Event, History, Backends}
use svc_telemetry.Config.{Config}
use svc_telemetry.Rest.Service.{Service}
use svc_telemetry.Rest.Server.{HttpRequest, Site, serve}
use svc_telemetry.Rest.Server.Startup.{Host, Started, start_up}
use mathlib.Core.List.{reverse}

-- A request in flight. `view` gives the history of the whole service that the task meets when its own
-- is the argument; `sent` is what it has sent, newest first, and `left` what it sends next, in order.
pub record Task : Type 0 where
  pub request : HttpRequest
  pub view : History → History
  pub sent : History
  pub left : List Event

module _ (site : Site) where
  open site use {chrono, service}

  -- The backends, the clock and the other services as a task meets them.
  abbrev pub seen_backends : (History → History) → Backends
  seen_backends view = record {
    connects = λ h. service.backends.connects (view h);
    answer = λ h. service.backends.answer (view h);
    published = λ h. service.backends.published (view h);
    inserted = λ h. service.backends.inserted (view h);
  }

  abbrev pub seen_service : (History → History) → Service chrono
  seen_service view = record service {
    backends = seen_backends view;
    now = λ h. service.now (view h);
  }

  abbrev pub seen : (History → History) → Site
  seen view = record site {
    service = seen_service view;
    now = λ h. site.now (view h);
    storage_ready = λ h. site.storage_ready (view h);
    gis_ready = λ h. site.gis_ready (view h);
  }

  -- What the handling of a request sends, newest first.
  abbrev pub trace : HttpRequest → (History → History) → History
  trace req view = (serve (seen view) req []).1

  abbrev pub begun : HttpRequest → (History → History) → Task
  begun req view = record { request = req; view = view; sent = []; left = reverse (trace req view) }

  -- The tasks and the history that the service reaches from its start when requests with bodies of
  -- bytes come in and tasks send what they have next, in any order. A task may be dropped on the way.
  pub data Interleaved : List Task → History → Type 1 where
    start :
        (host : Host) (config : Config) (s : Started host) (h : History)
        → start_up host config none [] ≡ (ok s, h)
        → site.pools ≡ s.tlm_pools
        → site.secret ≡ some s.jwt_secret
        → Interleaved [] h
    accept :
        (req : HttpRequest) (view : History → History) (ts : List Task) (h : History)
        → All (λ b. b < 256) req.body
        → Interleaved ts h
        → Interleaved (begun req view ∷ ts) h
    send :
        (ts : List Task) (req : HttpRequest) (view : History → History) (sent : History) (e : Event)
        (left : List Event) (us : List Task) (h : History)
        → view sent ≡ h
        → Interleaved
            (ts ++ (record { request = req; view = view; sent = sent; left = e ∷ left } ∷ us))
            h
        → Interleaved
            (ts ++ (record { request = req; view = view; sent = e ∷ sent; left = left } ∷ us))
            (e ∷ h)
