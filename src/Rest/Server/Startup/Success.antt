-- ===== src/Rest/Server/Startup/Success.antt =====
-- What has happened when the REST server starts to serve: server/src/rest/server.rs.
use svc_telemetry.Base.{
  ◌≡◌, refl, ap, ◌∙◌, sym, arith, ◌++◌, Option, none, some, Result-cases, inl, inr, Bool-cases,
  Result, ok, ok_or, ok_or-eq-ok, >>=-eq-ok,
}
use svc_telemetry.Base.Text.{codes, decimal_u32}
use svc_telemetry.World.{Bytes, History, Io, ◌>>=◌, return, lift, or_err}
use svc_telemetry.World.Effects.{lift_bind-eq-ok, bind-eq-ok, or_err-eq-ok}
use svc_telemetry.Amqp.{init_mq}
use svc_telemetry.Amqp.Topology.{topology, init_mq-eq-ok}
use svc_telemetry.Cache.{TelemetryPools}
use svc_telemetry.Cache.Pool.{TelemetryPool, GisPool, new_telemetry_pool, new_gis_pool}
use svc_telemetry.Config.{Config}
use svc_telemetry.Grpc.{default_clients}
use svc_telemetry.Rest.Server.{service_pools}
use svc_telemetry.Rest.Server.Startup.{
  Host, Started, take_samples, set_secret, endpoints, redis_pools, start_up,
}

new_telemetry_pool-eq-ok :
    (url : Option Bytes) (created : _) (folder : Bytes) (p : TelemetryPool)
    → new_telemetry_pool url created folder ≡ ok p
    → p ≡ record { key_folder = folder }
unfolding new_telemetry_pool
new_telemetry_pool-eq-ok url created folder p e = ground (arith)

set_secret-eq-ok :
    (host : Host) (secret : Option Bytes) (s : Bytes)
    → set_secret host secret ≡ ok s
    → (secret ≡ none) × (s ≡ take_samples host.sample 0 42)
unfolding set_secret
set_secret-eq-ok host none s e = elim (Bool-cases host.initializing) [
  | inl i ↦ cc (rw i at e)
  | inr i ↦ (refl, cc (rw i at e))
]
set_secret-eq-ok host (some x) s e = cc e

endpoints-eq-ok :
    (host : Host) (config : Config) (a : host.SocketAddr) (o : host.HeaderValue)
    → endpoints host config ≡ ok (a, o)
    → (host.parse_address (codes "[::]:" ++ decimal_u32 config.docker_port_rest) ≡ some a)
      × (host.parse_header config.rest_cors_allowed_origin ≡ some o)
unfolding endpoints
endpoints-eq-ok host config a o e =
    let parsed =
      ok_or (host.parse_address (codes "[::]:" ++ decimal_u32 config.docker_port_rest)) tt in
    let header = ok_or (host.parse_header config.rest_cors_allowed_origin) tt in
    let (x, p, e1) = >>=-eq-ok parsed _ e in
    let (y, q, e2) = >>=-eq-ok header _ e1 in
    let s : x ≡ a = cc e2 in
    let t : y ≡ o = cc e2 in (ok_or-eq-ok _ tt p ∙ ap some s, ok_or-eq-ok _ tt q ∙ ap some t)

redis_pools-eq-ok :
    (host : Host) (config : Config) (pools : TelemetryPools) (g : GisPool)
    → redis_pools host config ≡ ok (pools, g)
    → pools ≡ service_pools
unfolding redis_pools
redis_pools-eq-ok host config pools g e =
    let (x, p, e1) =
      >>=-eq-ok (new_telemetry_pool config.redis_url host.creates_adsb_pool (codes "tlm:adsb")) _
        e in
    let (y, q, e2) =
      >>=-eq-ok (new_telemetry_pool config.redis_url host.creates_netrid_pool (codes "tlm:netrid"))
        _ e1 in
    let (z, r, e3) = >>=-eq-ok (new_gis_pool config.redis_url host.creates_gis_pool) _ e2 in
    let a =
      new_telemetry_pool-eq-ok config.redis_url host.creates_adsb_pool (codes "tlm:adsb") x p in
    let n =
      new_telemetry_pool-eq-ok config.redis_url host.creates_netrid_pool (codes "tlm:netrid") y q in
    let made : TelemetryPools = record { adsb = x; netrid = y } in
    let t : made ≡ pools = cc e3 in sym t ∙ rw a (rw n refl)

-- The last steps of the start.
last_steps-eq-ok :
    {D E C B : Type 0} (m : Io D (Unit {0})) (x : E) (r : Result E C) (f : C → B) (b : B)
    (h h' : History)
    → (or_err m x >>= λ u. lift r >>= λ c. return (f c)) h ≡ (ok b, h')
    → (c : C) × (r ≡ ok c) × (b ≡ f c) × (m h ≡ (ok tt, h'))
last_steps-eq-ok {E} {C} {B} m x r f b h h' e =
    let (u, h1, p, q) = bind-eq-ok (or_err m x) (λ u. lift r >>= λ c. return (f c)) b h h' e in
    let (c, w, v) = lift_bind-eq-ok r (λ c. return (f c)) b h1 h' q in
    let same_history : h1 ≡ h' = ap (λ y. y.1) v in
    (c, w, cc v, or_err-eq-ok m x u h h1 p ∙ ap (λ k. (ok tt, k)) same_history)

-- When the start succeeds, JWT_SECRET was not set before and now holds 42 samples; the telemetry pools
-- have the folders tlm:adsb and tlm:netrid; the address and the origin are those of the configuration;
-- and all that was sent is the set-up of RabbitMQ.
pub start_up-eq-ok :
    (host : Host) (config : Config) (secret : Option Bytes) (s : Started host) (h h' : History)
    → start_up host config secret h ≡ (ok s, h')
    → (secret ≡ none)
      × (s.jwt_secret ≡ take_samples host.sample 0 42)
      × (s.tlm_pools ≡ service_pools)
      × (host.parse_address (codes "[::]:" ++ decimal_u32 config.docker_port_rest)
          ≡ some s.full_rest_addr)
      × (host.parse_header config.rest_cors_allowed_origin ≡ some s.cors_allowed_origin)
      × (h' ≡ topology h)
unfolding start_up
start_up-eq-ok host config secret s h h' e = elim (Result-cases (endpoints host config)) [
  | inr (x, q) ↦ cc (rw q at e)
  | inl ((a, o), q) ↦ elim (Result-cases (redis_pools host config)) [
    | inr (x, w) ↦ cc (rw w at (rw q at e))
    | inl ((t, g), w) ↦
        let (x, r, b, m) =
          last_steps-eq-ok (init_mq (host.broker config.amqp_url)) tt (set_secret host secret)
            (started a o t g) s h h' (rw w at (rw q at e)) in
        let (unset, sampled) = set_secret-eq-ok host secret x r in
        let (address, origin) = endpoints-eq-ok host config a o q in
        (
          unset,
          ap (λ y. y.jwt_secret) b ∙ sampled,
          ap (λ y. y.tlm_pools) b ∙ redis_pools-eq-ok host config t g w,
          address ∙ ap some (sym (ap (λ y. y.full_rest_addr) b)),
          origin ∙ ap some (sym (ap (λ y. y.cors_allowed_origin) b)),
          init_mq-eq-ok (host.broker config.amqp_url) h h' m,
        )
  ]
]
  where
    started : host.SocketAddr → host.HeaderValue → TelemetryPools → GisPool → Bytes → Started host
    started a o t g x = record {
      full_rest_addr = a;
      cors_allowed_origin = o;
      rate_limit = config.rest_request_limit_per_second;
      concurrency_limit = config.rest_concurrency_limit_per_service;
      tlm_pools = t;
      gis_pool = g;
      grpc_clients = default_clients host.clients config;
      jwt_secret = x;
    }
