-- ===== src/Rest/Jwt.antt =====
-- Login and authentication: server/src/rest/api/jwt.rs. Tokens are made and checked by the
-- jsonwebtoken library, times come from the time library; both are parameters.
pub mod Session
pub mod Tests
use svc_telemetry.Base.{
  ℕ, ◌≡◌, Bool, true, false, List, [], ◌∷◌, ◌++◌, Option, none, some, Result, ok, err, ◌>>=◌, ok_or,
  map_err,
}
use svc_telemetry.Base.Int.{ℤ, pos, negsuc}
use svc_telemetry.Base.Text.{codes, from_utf8, strip_prefix}
use svc_telemetry.Rest.Status.{StatusCode, bad_request, unauthorized, internal_server_error}

abbrev pub jwt_expire_seconds : ℕ
jwt_expire_seconds = 360

pub record ErrorResponse : Type 0 where
  pub status : List ℕ
  pub message : List ℕ

pub record Claim : Type 0 where
  pub sub : List ℕ
  pub iat : ℕ
  pub exp : ℕ

-- `encode` with a header and a secret, and `decode` with the default validation, which compares the
-- expiry with the time.
pub record JwtLibrary : Type 1 where
  pub DateTime : Type 0
  pub Duration : Type 0
  pub try_seconds : ℕ → Option Duration
  pub plus : DateTime → Duration → DateTime
  pub timestamp : DateTime → ℤ
  pub encode : List ℕ → Claim → Option (List ℕ)
  pub decode : DateTime → List ℕ → List ℕ → Option Claim

-- `usize::try_from` of an i64.
abbrev pub usize_of : ℤ → Option ℕ
usize_of (pos n) = some n
usize_of (negsuc n) = none

pub record Request : Type 0 where
  -- The value of the cookie named token.
  pub token_cookie : Option (List ℕ)
  pub authorization : Option (List ℕ)

module _ (lib : JwtLibrary) where
  open lib use {DateTime}

  -- `now` and `later` are the two readings of the clock; `secret` is the content of JWT_SECRET.
  unfoldable pub create :
      Option (List ℕ) → DateTime → DateTime → List ℕ → Result StatusCode (List ℕ)
  create secret now later sub = do
    iat ← ok_or (usize_of (lib.timestamp now)) internal_server_error
    delta ← ok_or (lib.try_seconds jwt_expire_seconds) internal_server_error
    exp ← ok_or (usize_of (lib.timestamp (lib.plus later delta))) internal_server_error
    key ← ok_or secret internal_server_error
    ok_or (lib.encode key (record { sub = sub; iat = iat; exp = exp })) internal_server_error

  unfoldable pub decode_claim : Option (List ℕ) → DateTime → List ℕ → Result StatusCode Claim
  decode_claim secret now token = do
    key ← ok_or secret internal_server_error
    ok_or (lib.decode now key token) unauthorized

  nonempty : List ℕ → Result StatusCode (List ℕ)
  nonempty [] = err bad_request
  nonempty (x ∷ xs) = ok (x ∷ xs)

  unfoldable pub login : Option (List ℕ) → DateTime → DateTime → List ℕ → Result StatusCode (List ℕ)
  unfolding create nonempty
  login secret now later body = do
    identifier ← ok_or (from_utf8 body) bad_request
    identifier ← nonempty identifier
    create secret now later identifier

abbrev pub failure : List ℕ → StatusCode × ErrorResponse
failure message = (unauthorized, record { status = codes "fail"; message = message })

-- `to_str` is that of a header value; on other than visible ASCII it fails with a text.
module _ (to_str : List ℕ → Result (List ℕ) (List ℕ)) where
  header_token : Option (List ℕ) → Result (StatusCode × ErrorResponse) (List ℕ)
  header_token header = do
    value ← ok_or header (failure (codes "could not get authorization header."))
    text ←
        map_err (λ e. failure (codes "could not parse authorization header: " ++ e ++ codes "."))
          (to_str value)
    ok_or (strip_prefix (codes "Bearer ") text)
        (failure (codes "You are not logged in, please provide token."))

  unfoldable pub get_token_from_cookie_jar : Request → Result (StatusCode × ErrorResponse) (List ℕ)
  unfolding header_token
  get_token_from_cookie_jar req = elim req.token_cookie [
    | some cookie ↦ ok cookie
    | none ↦ header_token req.authorization
  ]

  -- `next` is the handler behind the layer, given the claim that the layer adds to the request.
  module _ (lib : JwtLibrary) where
    unfoldable pub auth :
        {Response : Type 0}
        → Option (List ℕ)
        → lib.DateTime
        → Request
        → (Claim → Response)
        → Result (StatusCode × ErrorResponse) Response
    unfolding get_token_from_cookie_jar decode_claim
    auth secret now req next = do
      token ← get_token_from_cookie_jar req
      claim ← map_err (λ e. failure (codes "Invalid token")) (decode_claim lib secret now token)
      ok (next claim)
