-- ===== src/Rest/Server/Sessions.antt =====
-- A login and the messages sent with its token: server/src/rest/server.rs with server/src/rest/api/jwt.rs.
use svc_telemetry.Base.{
  same, sym, ℕ, ◌+◌, ◌≤◌, ◌≡◌, refl, ◌∙◌, inl, inr, Result-cases, ◌++◌, none, some, ok,
}
use svc_telemetry.Base.Int.{pos}
use svc_telemetry.Base.Text.{codes, from_utf8}
use svc_telemetry.World.{Bytes, History}
use svc_telemetry.Rest.Status.{unauthorized}
use svc_telemetry.Rest.Jwt as Jwt
use svc_telemetry.Rest.Jwt.{Claim}
use svc_telemetry.Rest.Jwt.Session.{IsJwtLibrary, bearer, auth-login}
use svc_telemetry.Rest.Netrid as Netrid
use svc_telemetry.Rest.Server.{
  get, post, Site, HttpRequest, counted, token, denied, reply_of, netrid_path, login_path,
  run_endpoint, run_layers, found, denial, serve,
}
use svc_telemetry.Rest.Server.Routes.{IsAxum, serve-found}

-- A login, and a Network Remote ID packet with a bearer token.
abbrev pub login_request : Bytes → HttpRequest
login_request identifier = record {
  method = get;
  path = login_path;
  credentials = record { token_cookie = none; authorization = none };
  body = identifier;
}

abbrev pub packet_request : Bytes → Bytes → HttpRequest
packet_request t packet = record {
  method = post;
  path = netrid_path;
  credentials = bearer t;
  body = packet;
}

-- A packet without credentials.
abbrev pub bare_request : Bytes → HttpRequest
bare_request packet = record {
  method = post;
  path = netrid_path;
  credentials = record { token_cookie = none; authorization = none };
  body = packet;
}

module _ (site : Site) (ax : IsAxum (site.axum)) (k : IsJwtLibrary (site.jwt)) where
  open site use {chrono, service, unpack, jwt, to_str, secret, now, pools}

  pub serve-login :
      (body : Bytes) (h : History)
      → serve site (login_request body) h
        ≡ reply_of token (Jwt.login jwt secret (now h 0) (now h 1) body, h)
  unfolding run_layers run_endpoint found same
  serve-login body h = serve-found site ax (login_request body) h

  pub serve-bare :
      (packet : Bytes) (h : History)
      → serve site (bare_request packet) h ≡ (
        denied unauthorized (record {
          status = codes "fail";
          message = codes "could not get authorization header.";
        }),
        h,
      )
  unfolding run_layers run_endpoint found denial same Jwt.auth
  serve-bare packet h = serve-found site ax (bare_request packet) h

  login_token :
      (body t : Bytes) (h h1 : History)
      → serve site (login_request body) h ≡ (token t, h1)
      → Jwt.login jwt secret (now h 0) (now h 1) body ≡ ok t
  unfolding reply_of
  login_token body t h h1 e = elim (Result-cases (Jwt.login jwt secret (now h 0) (now h 1) body)) [
    | inl (u, q) ↦ q ∙ cc (rw q at (sym (serve-login body h) ∙ e))
    | inr (s, q) ↦ cc (rw q at (sym (serve-login body h) ∙ e))
  ]

  -- With a router and a token library that behave as documented: when a login is answered with a
  -- token, then a packet that comes with it, at any later time until 360 seconds after the login,
  -- reaches the handler, with a claim whose subject is the identifier that was sent to the login.
  pub serve-session :
      (key body sub t packet : Bytes) (s0 s1 s : ℕ) (h h1 h' : History)
      → secret ≡ some key
      → from_utf8 body ≡ some sub
      → jwt.timestamp (now h 0) ≡ pos s0
      → jwt.timestamp (now h 1) ≡ pos s1
      → jwt.timestamp (now h' 0) ≡ pos s
      → s ≤ s1 + 360
      → to_str (codes "Bearer " ++ t) ≡ ok (codes "Bearer " ++ t)
      → serve site (login_request body) h ≡ (token t, h1)
      → serve site (packet_request t packet) h'
        ≡ reply_of counted (
            Netrid.network_remote_id chrono service unpack pools
              (record { sub = sub; iat = s0; exp = s1 + 360 })
              packet
              h')
  unfolding run_layers run_endpoint found denial same
  serve-session key body sub t packet s0 s1 s h h1 h' ps pb p0 p1 p le str log =
      serve-found site ax (packet_request t packet) h'
      ∙ rw ps (
          rw
            (auth-login to_str jwt k key body sub t (now h 0) (now h 1) (now h' 0) s0 s1 s _ pb p0
              p1 p le (rw ps at (login_token body t h h1 log)) str)
            refl)
