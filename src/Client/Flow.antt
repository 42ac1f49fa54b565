-- ===== src/Client/Flow.antt =====
-- What the client of client-rest/examples/netrid-flow.rs and the service do together.
use svc_telemetry.Base.{
  Result, err, if◌then◌else◌, ℕ, zero, suc, ◌+◌, ◌≤◌, ◌<◌, ◌≡◌, refl, ap, ◌∙◌, [], ◌∷◌, ◌++◌, All,
  some, ok,
}
use svc_telemetry.Base.Int.{pos}
use svc_telemetry.Base.Text.{codes, from_utf8, from_utf8_ascii, trim}
use svc_telemetry.World.{Bytes, History, lift, ◌>>=◌, ◌>>◌}
use svc_telemetry.World.Effects.{bind_ok, bind_err}
use svc_telemetry.Rest.Gis.{AircraftId}
use svc_telemetry.Rest.Jwt as Jwt
use svc_telemetry.Rest.Jwt.{Claim, ErrorResponse}
use svc_telemetry.Rest.Status.{unauthorized}
use svc_telemetry.Rest.Jwt.Session.{IsJwtLibrary}
use svc_telemetry.Rest.Netrid as Netrid
use svc_telemetry.Rest.Netrid.Basic.{IsPushing, network_remote_id-basic}
use svc_telemetry.Rest.Server.{denied, Site, serve, Reply, counted, token, HttpRequest}
use svc_telemetry.Rest.Server.Routes.{IsAxum}
use svc_telemetry.Rest.Server.Runs.{reply_of-ok}
use svc_telemetry.Rest.Server.Sessions.{
  login_request, packet_request, serve-bare, serve-login, serve-session,
}
use svc_telemetry.Client.{
  Library, Delivery, lost, unanswered, answered, seen, arrived, is_answered, identifier, pad_20,
  message_of, frame_of, packet, request, plain_request, expect_unauthorized, token_of, expect_ok,
  pushes, try_plain, log_in, netrid,
}
use svc_telemetry.Client.Text.{IsPlain, quote, unquoted}
use svc_telemetry.Client.Items.{
  IsLibrary, reporter_text, quoted_ascii, pushed, reported, arrived_same,
}

module _ (lib : Library) (site : Site) (ax : IsAxum (site.axum)) (k : IsJwtLibrary (site.jwt))
    (redis : IsPushing (site.service.backends)) (l : IsLibrary lib (site.unpack)) where
  open site use {chrono, service, jwt, to_str, secret, now, pools}

  request_lem :
      (number : ℕ) (req : HttpRequest) (r : Reply) (h h' : History)
      → serve site req h ≡ (r, h')
      → request lib site number req h
        ≡ (ok (seen (lib.delivery number h) r), arrived (lib.delivery number h) h h')
  unfolding request
  request_lem number req r h h' e = rw e refl

  packet_lem :
      (r : ℕ) (message payload : Bytes)
      → r < 3
      → lib.pack_basic (message_of (pad_20 (identifier r))) ≡ some message
      → lib.pack_frame (frame_of message) ≡ some payload
      → packet lib r ≡ ok payload
  unfolding packet
  packet_lem r message payload small pm pf =
      let (a, b, c, d) = reporter_text r small in rw (packet, a) (rw (packet, pm) (rw pf refl))

  -- A 401 and no answer are both expected.
  expect_plain :
      (d : Delivery) (m : ErrorResponse)
      → expect_unauthorized lib (seen d (denied unauthorized m)) ≡ ok tt
  unfolding expect_unauthorized
  expect_plain lost m = refl
  expect_plain unanswered m = refl
  expect_plain answered m = refl

  try_plain_lem : (payload : Bytes) (h : History) → try_plain lib site payload h ≡ (ok tt, h)
  unfolding try_plain
  try_plain_lem payload h =
      let d = lib.delivery 0 h in
      bind_ok (request lib site 0 (plain_request payload)) (λ a. lift (expect_unauthorized lib a)) _
        h (arrived d h h)
        (request_lem 0 (plain_request payload) _ h h (serve-bare site ax k payload h))
      ∙ rw (expect_plain d _) (ap (λ x. (ok tt, x)) (arrived_same d h))

  -- A token in its JSON text comes back.
  token_lem : (t : Bytes) → All IsPlain t → token_of lib (some (token t)) ≡ ok t
  unfolding token_of
  token_lem t p =
      let q : from_utf8 (lib.json_string t) ≡ some (quote ∷ (t ++ (quote ∷ []))) =
        rw (l.quoted t p) (from_utf8_ascii _ (quoted_ascii t p)) in
      rw (token_of, q) (rw (unquoted t p) refl)

  module _ (json : AircraftId chrono.DateTime → Bytes) (x : ℕ) (ks : Bytes) (r : ℕ) (small : r < 3)
      (message payload secret_key t : Bytes) (s1 : ℕ) (h0 : History)
      (items : (item : AircraftId chrono.DateTime) → service.id_json item ≡ some (json item))
      (queue : service.key_id ≡ x ∷ ks)
      (packed : lib.pack_basic (message_of (pad_20 (identifier r))) ≡ some message)
      (framed : lib.pack_frame (frame_of message) ≡ some payload) (keyed : secret ≡ some secret_key)
      (plain : All IsPlain t) (readable : to_str (codes "Bearer " ++ t) ≡ ok (codes "Bearer " ++ t))
      (logged : Jwt.login jwt secret (now h0 0) (now h0 1) (identifier r) ≡ ok t)
      (later : jwt.timestamp (now h0 1) ≡ pos s1)
      (clock : (h : History) (i : ℕ)
        → (s : ℕ) × (jwt.timestamp (now h i) ≡ pos s) × (s ≤ s1 + 360)) where
    login_serve : serve site (login_request (identifier r)) h0 ≡ (token t, h0)
    login_serve =
        serve-login site ax k (identifier r) h0
        ∙ reply_of-ok token _ t h0 (ap (λ x. (x, h0)) logged)

    logged_in : Delivery → Result (Unit {0}) Bytes
    logged_in answered = ok t
    logged_in _ = err tt

    token_seen : (d : Delivery) → token_of lib (seen d (token t)) ≡ logged_in d
    unfolding token_of logged_in
    token_seen lost = refl
    token_seen unanswered = refl
    token_seen answered = token_lem t plain

    -- The login, which has no effect on the history.
    log_in_lem : log_in lib site r h0 ≡ (logged_in (lib.delivery 1 h0), h0)
    unfolding log_in
    log_in_lem =
        let d = lib.delivery 1 h0 in
        bind_ok (request lib site 1 (login_request (identifier r))) (λ a. lift (token_of lib a))
          (seen d (token t)) h0 (arrived d h0 h0)
          (request_lem 1 (login_request (identifier r)) (token t) h0 h0 login_serve)
        ∙ rw (token_seen d) (ap (λ x. (logged_in d, x)) (arrived_same d h0))

    push_serve :
        (h : History)
        → serve site (packet_request t payload) h ≡ (counted 1, pushed site json (x ∷ ks) r h)
    unfolding pushed Netrid.id_item
    push_serve h =
        let (a, b, c, d) = reporter_text r small in
        let (s0, p0, q0) = clock h0 0 in
        let (s, p, q) = clock h 0 in
        let claim : Claim = record { sub = identifier r; iat = s0; exp = s1 + 360 } in
        let (len, un) = l.frame-pack (frame_of message) payload framed in
        let m = message_of (pad_20 (identifier r)) in
        serve-session site ax k secret_key (identifier r) (identifier r) t payload s0 s1 s h0 h0 h
          keyed b p0 later p q readable login_serve
        ∙ reply_of-ok counted _ 1 _ (
            network_remote_id-basic chrono service redis (site.unpack) pools claim payload
              (pad_20 (identifier r)) _ ks x (frame_of message) m h len un refl
              (l.basic-pack m message packed) c
              (items (
                  Netrid.id_item chrono service (identifier r) m (trim (pad_20 (identifier r)))
                    (service.now h 0))
                ∙ rw d refl)
              queue)

    expect_counted : (d : Delivery) → expect_ok lib (seen d (counted 1)) ≡ ok tt
    unfolding expect_ok
    expect_counted lost = refl
    expect_counted unanswered = refl
    expect_counted answered = refl

    pushes_lem :
        (n number : ℕ) (h : History)
        → pushes lib site n number (packet_request t payload) h
          ≡ (ok tt, reported site lib.delivery json (x ∷ ks) r n number h)
    unfolding pushes reported
    pushes_lem zero number h = refl
    pushes_lem (suc n) number h =
        let req = packet_request t payload in
        let d = lib.delivery number h in
        let h1 = arrived d h (pushed site json (x ∷ ks) r h) in
        bind_ok (request lib site number req)
          (λ a. lift (expect_ok lib a) >> pushes lib site n (suc number) req) (seen d (counted 1)) h
          h1 (request_lem number req (counted 1) h (pushed site json (x ∷ ks) r h) (push_serve h))
        ∙ bind_ok (lift (expect_ok lib (seen d (counted 1))))
            (λ u. pushes lib site n (suc number) req) tt h1 h1
            (ap (λ x. (x, h1)) (expect_counted d))
        ∙ pushes_lem n (suc number) h1

    after_login :
        (d : Delivery)
        → log_in lib site r h0 ≡ (logged_in d, h0)
        → (log_in lib site r >>= λ t. pushes lib site 10 2 (packet_request t payload)) h0 ≡ (
            if is_answered d
            then (ok tt, reported site lib.delivery json (x ∷ ks) r 10 2 h0)
            else (err tt, h0))
    unfolding logged_in
    after_login lost e =
        bind_err (log_in lib site r) (λ t. pushes lib site 10 2 (packet_request t payload)) tt h0 h0
          e
    after_login unanswered e =
        bind_err (log_in lib site r) (λ t. pushes lib site 10 2 (packet_request t payload)) tt h0 h0
          e
    after_login answered e =
        bind_ok (log_in lib site r) (λ t. pushes lib site 10 2 (packet_request t payload)) t h0 h0 e
        ∙ pushes_lem 10 2 h0

    -- One of the three reporters of the example, against the service. Of the environment it is supposed
    -- that the router, token and packet libraries behave as documented (a plain text stands in quotes in
    -- JSON), that Redis is up and answers a push with one value, that items can be serialized and have a
    -- queue with a name, that the client's packet can be packed, that the secret is set and the login
    -- yields a token of printable characters other than quotes and backslashes, which can be read from a
    -- header, and that every time read is a Unix time from 0 on and at most 360 seconds after that of the
    -- login. Any request may be lost or stay without its answer. When the login is answered, the client
    -- goes through all ten pushes without a panic, and exactly this is sent: for each push that reached
    -- the service, in order, the item with the reporter's identifier to the queue, then to RabbitMQ. When
    -- the login is not answered, the client panics and nothing is sent.
    pub netrid-reported : netrid lib site r h0 ≡ (
        if is_answered (lib.delivery 1 h0)
        then (ok tt, reported site lib.delivery json (x ∷ ks) r 10 2 h0)
        else (err tt, h0))
    unfolding netrid
    netrid-reported =
        bind_ok (lift (packet lib r))
          (λ b.
            try_plain lib site b
            >> (log_in lib site r >>= λ t. pushes lib site 10 2 (packet_request t b)))
          payload h0 h0 (ap (λ x. (x, h0)) (packet_lem r message payload small packed framed))
        ∙ bind_ok (try_plain lib site payload)
            (λ u. log_in lib site r >>= λ t. pushes lib site 10 2 (packet_request t payload)) tt h0
            h0 (try_plain_lem payload h0)
        ∙ after_login (lib.delivery 1 h0) log_in_lem
