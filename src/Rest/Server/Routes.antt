-- ===== src/Rest/Server/Routes.antt =====
-- What the router of server/src/rest/server.rs leads to, with a router library that behaves as
-- documented.
use svc_telemetry.Base.{
  ℕ, arith, ◌≡◌, refl, ap, Bool-cases, ◌∙◌, ◌⊎◌, inl, inr, ◌&&◌, List, [], ◌∷◌, Option, none, some,
  ok, err, same, if◌then◌else◌,
}
use svc_telemetry.Base.Text.{codes}
use svc_telemetry.World.{Bytes, History}
use svc_telemetry.Rest.Status.{unauthorized}
use svc_telemetry.Rest.Jwt.{ErrorResponse, Claim, auth, get_token_from_cookie_jar}
use svc_telemetry.Rest.Jwt.Session.{auth_answers}
use svc_telemetry.Rest.Netrid as Netrid
use svc_telemetry.Rest.Server.{
  Method, get, post, same_method, Endpoint, network_remote_id, health_check, login, adsb, Layer,
  auth as auth_layer, Axum, netrid_path, health_path, login_path, adsb_path, app, HttpRequest,
  Reply, counted, denied, Site, reply_of, run_endpoint, run_layers, found, denial, serve,
}

abbrev pub add_layer : Layer → Option (List Layer × Endpoint) → Option (List Layer × Endpoint)
add_layer l none = none
add_layer l (some (ls, e)) = some (l ∷ ls, e)

-- A route that is not there yet is added without layers; `route_layer` wraps every route added before it.
pub record IsAxum (axum : Axum) : Type 0 where
  pub find-new : (m : Method) (p : Bytes) → axum.find axum.new m p ≡ none
  pub find-route :
      (r : axum.Router) (p : Bytes) (m : Method) (e : Endpoint) (n : Method) (q : Bytes)
      → axum.find r m p ≡ none
      → axum.find (axum.route r p m e) n q
        ≡ (if same_method m n && same p q then some ([], e) else axum.find r n q)
  pub find-route_layer :
      (r : axum.Router) (l : Layer) (m : Method) (p : Bytes)
      → axum.find (axum.route_layer r l) m p ≡ add_layer l (axum.find r m p)

abbrev Table : Type 0
Table = Method → Bytes → Option (List Layer × Endpoint)

-- A table with a route in front.
abbrev pub routed : Method → Bytes → List Layer → Endpoint → Table → Table
routed m p ls e t n q = if same_method m n && same p q then some (ls, e) else t n q

-- The routing table of the service, from the first route on.
abbrev guarded : Table
guarded = routed post netrid_path (auth_layer ∷ []) network_remote_id (λ m p. none)

abbrev with_health : Table
with_health = routed get health_path [] health_check guarded

abbrev with_login : Table
with_login = routed get login_path [] login with_health

abbrev pub table : Table
table = routed post adsb_path [] adsb with_login

routed_cases :
    (P : Option (List Layer × Endpoint) → Type 0) (m n : Method) (p q : Bytes) (ls : List Layer)
    (e : Endpoint) (t : Table)
    → P (some (ls, e))
    → P (t n q)
    → P (routed m p ls e t n q)
routed_cases P m n p q ls e t a b = elim (Bool-cases (same_method m n && same p q)) [
  | inl w ↦ rw w a
  | inr w ↦ rw w b
]

-- What holds of no route and of each of the four routes holds of what the router finds.
pub table_cases :
    (P : Option (List Layer × Endpoint) → Type 0) (n : Method) (q : Bytes)
    → P none
    → P (some (auth_layer ∷ [], network_remote_id))
    → P (some ([], health_check))
    → P (some ([], login))
    → P (some ([], adsb))
    → P (table n q)
table_cases P n q none_case netrid_case health_case login_case adsb_case =
    routed_cases P post n adsb_path q [] adsb with_login adsb_case (
      routed_cases P get n login_path q [] login with_health login_case (
        routed_cases P get n health_path q [] health_check guarded health_case (
          routed_cases P post n netrid_path q (auth_layer ∷ []) network_remote_id (λ m p. none)
            netrid_case none_case)))

module _ (axum : Axum) (k : IsAxum axum) where
  -- `t` is what the router `r` finds.
  Finds : axum.Router → Table → Type 0
  Finds r t = (m : Method) (p : Bytes) → axum.find r m p ≡ t m p

  route-Finds :
      (r : axum.Router) (t : Table) (p : Bytes) (m : Method) (e : Endpoint)
      → Finds r t
      → t m p ≡ none
      → Finds (axum.route r p m e) (routed m p [] e t)
  unfolding Finds
  route-Finds r t p m e f free n q = rw (k.find-route r p m e n q (f m p ∙ free)) (rw (f n q) refl)

  first-Finds :
      Finds
        (axum.route_layer (axum.route axum.new netrid_path post network_remote_id) auth_layer)
        guarded
  unfolding Finds
  first-Finds n q =
      let p =
        route-Finds axum.new (λ m p. none) netrid_path post network_remote_id k.find-new refl n q in
      rw
        (k.find-route_layer (axum.route axum.new netrid_path post network_remote_id) auth_layer n q)
        (rw p (ground arith))

  -- The router leads to the four handlers by their method and path and nowhere else, and the auth
  -- layer is on POST /telemetry/netrid only, with a router library that behaves as documented.
  pub find-app : (m : Method) (p : Bytes) → axum.find (app axum) m p ≡ table m p
  unfolding app same Finds
  find-app m p =
      let f1 = route-Finds _ _ health_path get health_check first-Finds refl in
      let f2 = route-Finds _ _ login_path get login f1 refl in
      let f3 = route-Finds _ _ adsb_path post adsb f2 refl in f3 m p

-- The body of a 401 for a token that does not decode.
abbrev pub invalid_token : ErrorResponse
invalid_token = record { status = codes "fail"; message = codes "Invalid token" }

module _ (site : Site) (k : IsAxum (site.axum)) where
  open site use {axum, chrono, service, unpack, jwt, to_str, secret, now, pools}

  pub serve-found :
      (req : HttpRequest) (h : History)
      → serve site req h ≡ found site (table (req.method) (req.path)) req h
  unfolding serve
  serve-found req h = rw (find-app axum k (req.method) (req.path)) refl

  -- A handler behind the auth layer.
  denial_cases :
      (req : HttpRequest) (h : History) (next : Claim → History → Reply × History)
      → ((m : ErrorResponse) × (get_token_from_cookie_jar to_str (req.credentials)
            ≡ err (unauthorized, m))
          × (denial site (auth to_str jwt secret (now h 0) (req.credentials) next) h
              ≡ (denied unauthorized m, h)))
        ⊎ ((token : List ℕ) × (get_token_from_cookie_jar to_str (req.credentials) ≡ ok token)
            × ((secret ≡ none)
                ⊎ ((key : List ℕ) × (secret ≡ some key) × (jwt.decode (now h 0) key token ≡ none)))
            × (denial site (auth to_str jwt secret (now h 0) (req.credentials) next) h
                ≡ (denied unauthorized invalid_token, h)))
        ⊎ ((key token : List ℕ) × (claim : Claim) × (secret ≡ some key)
            × (get_token_from_cookie_jar to_str (req.credentials) ≡ ok token)
            × (jwt.decode (now h 0) key token ≡ some claim)
            × (denial site (auth to_str jwt secret (now h 0) (req.credentials) next) h
                ≡ next claim h))
  unfolding denial
  denial_cases req h next = elim (auth_answers to_str jwt secret (now h 0) (req.credentials) next) [
    | inl (m, p, e) ↦ inl (m, p, ap (λ r. denial site r h) e)
    | inr (inl (token, p, n, e)) ↦ inr (inl (token, p, n, ap (λ r. denial site r h) e))
    | inr (inr (key, token, claim, q, p, d, e)) ↦
        inr (inr (key, token, claim, q, p, d, ap (λ r. denial site r h) e))
  ]

  -- With a router library that behaves as documented, POST /telemetry/netrid does one of three things.
  -- Without a token that can be read from the cookie or the header, the request is answered with 401
  -- and the message of that failure. With a token, when no secret is set or the token
  -- library does not decode the token under it, the answer is 401 with the message Invalid token. In
  -- both cases nothing is sent or counted. With a token that decodes under the secret of the process,
  -- the answer and the effects are those of the handler, run with the decoded claim.
  pub serve-netrid :
      (req : HttpRequest) (h : History)
      → req.method ≡ post
      → req.path ≡ netrid_path
      → ((m : ErrorResponse) × (get_token_from_cookie_jar to_str (req.credentials)
            ≡ err (unauthorized, m))
          × (serve site req h ≡ (denied unauthorized m, h)))
        ⊎ ((token : List ℕ) × (get_token_from_cookie_jar to_str (req.credentials) ≡ ok token)
            × ((secret ≡ none)
                ⊎ ((key : List ℕ) × (secret ≡ some key) × (jwt.decode (now h 0) key token ≡ none)))
            × (serve site req h ≡ (denied unauthorized invalid_token, h)))
        ⊎ ((key token : List ℕ) × (claim : Claim) × (secret ≡ some key)
            × (get_token_from_cookie_jar to_str (req.credentials) ≡ ok token)
            × (jwt.decode (now h 0) key token ≡ some claim)
            × (serve site req h
                ≡ reply_of counted
                    (Netrid.network_remote_id chrono service unpack pools claim (req.body) h)))
  unfolding run_layers run_endpoint found same
  serve-netrid req h pm pp = rw (serve-found req h) (rw pm (rw pp (denial_cases req h _)))
