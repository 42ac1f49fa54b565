-- ===== src/Rest/Server/Runs.antt =====
-- What the requests of a run of the service do to the history: server/src/rest/server.rs. Requests are
-- handled one after the other.
use svc_telemetry.Base.{
  ◌≡◌, ◌∙◌, refl, ◌⊎◌, inl, inr, ◌<◌, Bool, true, false, List, [], ◌∷◌, All, Option, none, some,
  Result, ok, err,
}
use svc_telemetry.World.{Event, exchange_declare, queue_declare, queue_bind, History}
use svc_telemetry.Rest.Status.{StatusCode}
use svc_telemetry.Rest.Jwt.{Claim, ErrorResponse, auth}
use svc_telemetry.Rest.Jwt.Session.{auth-eq-ok}
use svc_telemetry.Config.{Config}
use svc_telemetry.Rest.Server.Startup.{Host, Started, start_up}
use svc_telemetry.Rest.Server.Startup.Success.{start_up-eq-ok}
use svc_telemetry.Rest.Netrid as Netrid
use svc_telemetry.Rest.Adsb as Adsb
use svc_telemetry.Rest.Server.{
  Endpoint, network_remote_id, health_check, login, adsb, Layer, auth as auth_layer, app,
  HttpRequest, Reply, Site, reply_of, service_pools, run_endpoint, run_layers, denial, found, serve,
}

abbrev pub is_declaration : Event → Bool
is_declaration (exchange_declare name) = true
is_declaration (queue_declare name) = true
is_declaration (queue_bind name exchange key) = true
is_declaration _ = false

pub reply_of_lem :
    {A : Type 0} (f : A → Reply) (x : Result StatusCode A × History) → (reply_of f x).1 ≡ x.1
unfolding reply_of
reply_of_lem f (ok a, h) = refl
reply_of_lem f (err s, h) = refl

pub reply_of-ok :
    {A : Type 0} (f : A → Reply) (x : Result StatusCode A × History) (a : A) (h : History)
    → x ≡ (ok a, h)
    → reply_of f x ≡ (f a, h)
unfolding reply_of
reply_of-ok f x a h e = rw e refl

pub start-IsDeclared :
    (host : Host) (config : Config) (s : Started host) (h : History)
    → start_up host config none [] ≡ (ok s, h)
    → All (λ e. is_declaration e ≡ true) h
start-IsDeclared host config s h e =
    let (unset, sampled, named, address, origin, t) = start_up-eq-ok host config none s [] h e in
    rw t (refl, (refl, (refl, (refl, (refl, (refl, (refl, (refl, (refl, tt)))))))))

module _ (site : Site) where
  open site use {axum, chrono, service, libm, deku, unpack, jwt, to_str, secret, now, pools}

  -- A history that the service reaches by requests with bodies of bytes, from that of its start. The
  -- start has made its pools and its secret.
  pub data Reached : History → Type 1 where
    start :
        (host : Host) (config : Config) (s : Started host) (h : History)
        → start_up host config none [] ≡ (ok s, h)
        → pools ≡ s.tlm_pools
        → secret ≡ some s.jwt_secret
        → Reached h
    request :
        (req : HttpRequest) (h : History)
        → All (λ b. b < 256) req.body
        → Reached h
        → Reached (serve site req h).1

  -- The history behind a request: that before it, or what one of the two telemetry handlers leaves.
  abbrev pub IsHandled : HttpRequest → History → History → Type 0
  IsHandled req h h' =
      (h' ≡ h)
      ⊎ ((claim : Claim) × (h'
            ≡ (Netrid.network_remote_id chrono service unpack pools claim (req.body) h).1))
      ⊎ (h' ≡ (Adsb.adsb chrono service libm deku pools (req.body) h).1)

  run_endpoint-IsHandled :
      (e : Endpoint) (req : HttpRequest) (claim : Option Claim) (h : History)
      → IsHandled req h (run_endpoint site e req claim h).1
  unfolding run_endpoint
  run_endpoint-IsHandled network_remote_id req none h = inl refl
  run_endpoint-IsHandled network_remote_id req (some claim) h = inr (inl (claim, reply_of_lem _ _))
  run_endpoint-IsHandled health_check req claim h = inl (reply_of_lem _ _)
  run_endpoint-IsHandled login req claim h = inl (reply_of_lem _ _)
  run_endpoint-IsHandled adsb req claim h = inr (inr (reply_of_lem _ _))

  denial-IsHandled :
      (req : HttpRequest) (h : History) (next : Claim → History → Reply × History)
      (r : Result (StatusCode × ErrorResponse) (History → Reply × History))
      → ((c : Claim) → IsHandled req h (next c h).1)
      → auth to_str jwt secret (now h 0) (req.credentials) next ≡ r
      → IsHandled req h (denial site r h).1
  unfolding denial
  denial-IsHandled req h next (err (s, m)) f e = inl refl
  denial-IsHandled req h next (ok r) f e =
      let (key, token, claim, a, b, c, d) =
        auth-eq-ok to_str jwt secret (now h 0) (req.credentials) next r e in
      rw d (f claim)

  run_layers-IsHandled :
      (ls : List Layer) (e : Endpoint) (req : HttpRequest) (claim : Option Claim) (h : History)
      → IsHandled req h (run_layers site ls e req claim h).1
  unfolding run_layers
  run_layers-IsHandled [] e req claim h = run_endpoint-IsHandled e req claim h
  run_layers-IsHandled (auth_layer ∷ ls) e req claim h =
      denial-IsHandled req h _ _ (λ c. run_layers-IsHandled ls e req (some c) h) refl

  pub serve-IsHandled : (req : HttpRequest) (h : History) → IsHandled req h (serve site req h).1
  unfolding serve found
  serve-IsHandled req h = go (axum.find (app axum) (req.method) (req.path))
    where
      go : (x : Option (List Layer × Endpoint)) → IsHandled req h (found site x req h).1
      go none = inl refl
      go (some (ls, e)) = run_layers-IsHandled ls e req none h

  pub Reached-pools : (h : History) → Reached h → pools ≡ service_pools
  Reached-pools _ (start host config s h e p q) =
      let (unset, sampled, named, address, origin, t) = start_up-eq-ok host config none s [] h e in
      p ∙ named
  Reached-pools _ (request req h b r) = Reached-pools h r
