-- ===== src/Rest/Jwt/Session.antt =====
-- What login and auth of server/src/rest/api/jwt.rs promise together, against a token library that
-- behaves as documented.
use svc_telemetry.Base.{
  refl, ap, ◌∙◌, Option-cases, ◌⊎◌, inl, inr, Result-cases, ℕ, ◌+◌, ◌≤◌, ◌≡◌, arith, List, [], ◌∷◌,
  ◌++◌, Option, none, some, Result, ok, err, ok_or, map_err, >>=-eq-ok, ok_or-eq-ok, map_err-eq-ok,
}
use svc_telemetry.Base.Int.{pos}
use svc_telemetry.Base.Text.{codes, from_utf8, strip_prefix-append}
use svc_telemetry.Rest.Status.{StatusCode, unauthorized, internal_server_error, bad_request}
use svc_telemetry.Rest.Jwt.{
  JwtLibrary, Claim, Request, ErrorResponse, create, login, nonempty, decode_claim,
  get_token_from_cookie_jar, auth, failure,
}

-- A token gives back its claim until the claim expires, and 360 seconds can be added to a time.
pub record IsJwtLibrary (lib : JwtLibrary) : Type 0 where
  pub decode-encode :
      (key : List ℕ) (claim : Claim) (token : List ℕ) (now : lib.DateTime) (s : ℕ)
      → lib.encode key claim ≡ some token
      → lib.timestamp now ≡ pos s
      → s ≤ claim.exp
      → lib.decode now key token ≡ some claim
  pub timestamp-plus :
      (d : lib.Duration) × (lib.try_seconds 360 ≡ some d)
      × ((t : lib.DateTime) (s : ℕ)
          → lib.timestamp t ≡ pos s
          → lib.timestamp (lib.plus t d) ≡ pos (s + 360))

-- A bearer header for a token.
abbrev pub bearer : List ℕ → Request
bearer token = record { token_cookie = none; authorization = some (codes "Bearer " ++ token) }

module _ (to_str : List ℕ → Result (List ℕ) (List ℕ)) (lib : JwtLibrary) where
  decode_claim-eq-ok :
      (secret : Option (List ℕ)) (now : lib.DateTime) (token : List ℕ) (claim : Claim)
      → decode_claim lib secret now token ≡ ok claim
      → (key : List ℕ) × (secret ≡ some key) × (lib.decode now key token ≡ some claim)
  unfolding decode_claim
  decode_claim-eq-ok secret now token claim e =
      let (key, k, e1) = >>=-eq-ok (ok_or secret internal_server_error) _ e in
      (
        key,
        ok_or-eq-ok secret internal_server_error k,
        ok_or-eq-ok (lib.decode now key token) unauthorized e1,
      )

  -- auth runs the handler only with a claim that the library decoded, under the secret that is set,
  -- from the token of the request.
  pub auth-eq-ok :
      {Response : Type 0} (secret : Option (List ℕ)) (now : lib.DateTime) (req : Request)
      (next : Claim → Response) (r : Response)
      → auth to_str lib secret now req next ≡ ok r
      → (key : List ℕ) × (token : List ℕ) × (claim : Claim) × (secret ≡ some key)
        × (get_token_from_cookie_jar to_str req ≡ ok token)
        × (lib.decode now key token ≡ some claim)
        × (r ≡ next claim)
  unfolding auth
  auth-eq-ok secret now req next r e =
      let (token, p, e1) = >>=-eq-ok (get_token_from_cookie_jar to_str req) _ e in
      let (claim, q, e2) = >>=-eq-ok (map_err _ (decode_claim lib secret now token)) _ e1 in
      let (key, k, d) = decode_claim-eq-ok secret now token claim (map_err-eq-ok _ _ q) in
      (key, token, claim, k, p, d, cc)

  -- Which requests auth lets in does not depend on the handler behind it.
  pub auth_cases :
      {Response : Type 0} (secret : Option (List ℕ)) (now : lib.DateTime) (req : Request)
      (next : Claim → Response)
      → ((claim : Claim) × (auth to_str lib secret now req next ≡ ok (next claim))
          × (auth to_str lib secret now req (λ c. c) ≡ ok claim))
        ⊎ ((e : StatusCode × ErrorResponse) × (auth to_str lib secret now req next ≡ err e)
            × (auth to_str lib secret now req (λ c. c) ≡ err e))
  unfolding auth
  auth_cases secret now req next = elim (Result-cases (get_token_from_cookie_jar to_str req)) [
    | inr (e, p) ↦ inr (e, rw p refl, rw p refl)
    | inl (token, p) ↦ elim (Result-cases (decode_claim lib secret now token)) [
      | inr (e, q) ↦ inr (failure (codes "Invalid token"), rw p (rw q refl), rw p (rw q refl))
      | inl (claim, q) ↦ inl (claim, rw p (rw q refl), rw p (rw q refl))
    ]
  ]

  get_token-eq-err :
      (req : Request) (e : StatusCode × ErrorResponse)
      → get_token_from_cookie_jar to_str req ≡ err e
      → e.0 ≡ unauthorized
  unfolding get_token_from_cookie_jar
  get_token-eq-err req (s, m) e = ground arith

  -- What auth does by whether there is a token, and whether it decodes under the secret.
  pub auth_answers :
      {Response : Type 0} (secret : Option (List ℕ)) (now : lib.DateTime) (req : Request)
      (next : Claim → Response)
      → ((m : ErrorResponse) × (get_token_from_cookie_jar to_str req ≡ err (unauthorized, m))
          × (auth to_str lib secret now req next ≡ err (unauthorized, m)))
        ⊎ ((token : List ℕ) × (get_token_from_cookie_jar to_str req ≡ ok token)
            × ((secret ≡ none)
                ⊎ ((key : List ℕ) × (secret ≡ some key) × (lib.decode now key token ≡ none)))
            × (auth to_str lib secret now req next ≡ err (failure (codes "Invalid token"))))
        ⊎ ((key token : List ℕ) × (claim : Claim) × (secret ≡ some key)
            × (get_token_from_cookie_jar to_str req ≡ ok token)
            × (lib.decode now key token ≡ some claim)
            × (auth to_str lib secret now req next ≡ ok (next claim)))
  unfolding auth decode_claim
  auth_answers secret now req next = elim (Result-cases (get_token_from_cookie_jar to_str req)) [
    | inr ((s, m), p) ↦
        let u = get_token-eq-err req (s, m) p in
        let q = p ∙ ap (λ s. err (s, m)) u in inl (m, q, rw q refl)
    | inl (token, p) ↦ elim (Option-cases secret) [
      | inl n ↦ inr (inl (token, p, inl n, rw p (rw n refl)))
      | inr (key, q) ↦ elim (Option-cases (lib.decode now key token)) [
        | inl n ↦ inr (inl (token, p, inr (key, q, n), rw p (rw q (rw n refl))))
        | inr (claim, d) ↦ inr (inr (key, token, claim, q, p, d, rw p (rw q (rw d refl))))
      ]
    ]
  ]

  module _ (k : IsJwtLibrary lib) where
    create_claim :
        (key sub token : List ℕ) (now later : lib.DateTime) (s0 s1 : ℕ)
        → lib.timestamp now ≡ pos s0
        → lib.timestamp later ≡ pos s1
        → create lib (some key) now later sub ≡ ok token
        → lib.encode key (record { sub = sub; iat = s0; exp = s1 + 360 }) ≡ some token
    unfolding create
    create_claim key sub token now later s0 s1 p0 p1 c =
        let (d, pd, qd) = k.timestamp-plus in
        let e = qd later s1 p1 in
        ok_or-eq-ok (lib.encode key (record { sub = sub; iat = s0; exp = s1 + 360 }))
          internal_server_error (rw e at (rw pd at (rw p0 at c)))

    nonempty-eq-ok : (i j : List ℕ) → nonempty lib i ≡ ok j → i ≡ j
    unfolding nonempty
    nonempty-eq-ok [] j e = cc
    nonempty-eq-ok (x ∷ xs) j e = cc

    -- The claim that a successful login has encoded.
    login_claim :
        (key body sub token : List ℕ) (now later : lib.DateTime) (s0 s1 : ℕ)
        → from_utf8 body ≡ some sub
        → lib.timestamp now ≡ pos s0
        → lib.timestamp later ≡ pos s1
        → login lib (some key) now later body ≡ ok token
        → lib.encode key (record { sub = sub; iat = s0; exp = s1 + 360 }) ≡ some token
    unfolding login
    login_claim key body sub token now later s0 s1 pb p0 p1 log =
        let (i, a1, r1) = >>=-eq-ok (ok_or (from_utf8 body) bad_request) _ log in
        let (j, a2, r2) = >>=-eq-ok (nonempty lib i) _ r1 in
        let e : j ≡ sub =
          cc (nonempty-eq-ok i j a2, ok_or-eq-ok (from_utf8 body) bad_request a1, pb) in
        create_claim key sub token now later s0 s1 p0 p1 (rw e at r2)

    -- With a token library that behaves as documented: the token of a successful login opens the
    -- handler, as a bearer token in a readable header and until 360 seconds after the login, with a
    -- claim whose subject is the identifier that was sent.
    pub auth-login :
        {Response : Type 0} (key body sub token : List ℕ) (now later use_time : lib.DateTime)
        (s0 s1 s : ℕ) (next : Claim → Response)
        → from_utf8 body ≡ some sub
        → lib.timestamp now ≡ pos s0
        → lib.timestamp later ≡ pos s1
        → lib.timestamp use_time ≡ pos s
        → s ≤ s1 + 360
        → login lib (some key) now later body ≡ ok token
        → to_str (codes "Bearer " ++ token) ≡ ok (codes "Bearer " ++ token)
        → auth to_str lib (some key) use_time (bearer token) next
          ≡ ok (next (record { sub = sub; iat = s0; exp = s1 + 360 }))
    unfolding auth
    auth-login key body sub token now later use_time s0 s1 s next pb p0 p1 ps le log str =
        let claim : Claim = record { sub = sub; iat = s0; exp = s1 + 360 } in
        let dec =
          k.decode-encode key claim token use_time s
            (login_claim key body sub token now later s0 s1 pb p0 p1 log) ps le in
        rw str (rw (strip_prefix-append (codes "Bearer ") token) (rw dec))
