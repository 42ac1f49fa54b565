-- ===== src/Rest/Jwt/Tests.antt =====
-- A concrete token library, and the theorems on server/src/rest/api/jwt.rs applied to it.
use svc_telemetry.Base.{
  ℕ, ◌+◌, ◌≤◌, ◌≡◌, refl, sym, arith, List, [], ◌∷◌, ◌++◌, Option, some, none, Result, ok, err, leb,
  if◌then◌else◌,
}
use svc_telemetry.Base.Int.{pos}
use svc_telemetry.Base.Text.{codes, from_utf8}
use svc_telemetry.Rest.Jwt.{JwtLibrary, Claim, failure, login, get_token_from_cookie_jar, auth}
use svc_telemetry.Rest.Jwt.Session.{IsJwtLibrary, bearer, auth-login, auth-eq-ok}

-- Times in seconds; a token is issue time, expiry and subject, without a signature.
abbrev pub read_token : ℕ → List ℕ → Option Claim
read_token now (iat ∷ exp ∷ sub) =
    if leb now exp then some (record { sub = sub; iat = iat; exp = exp }) else none
read_token now _ = none

abbrev pub plain_tokens : JwtLibrary
plain_tokens = record {
  DateTime = ℕ;
  Duration = ℕ;
  try_seconds = λ n. some n;
  plus = λ t d. t + d;
  timestamp = λ t. pos t;
  encode = λ key claim. some (claim.iat ∷ claim.exp ∷ claim.sub);
  decode = λ now key token. read_token now token;
}

read_token_lem :
    (claim : Claim) (now : ℕ)
    → now ≤ claim.exp
    → read_token now (claim.iat ∷ claim.exp ∷ claim.sub) ≡ some claim
read_token_lem claim now h = ground arith

read_token-encode :
    (claim : Claim) (token : List ℕ) (now s : ℕ)
    → some (claim.iat ∷ claim.exp ∷ claim.sub) ≡ some token
    → pos now ≡ pos s
    → s ≤ claim.exp
    → read_token now token ≡ some claim
read_token-encode claim token now s enc ts le =
    let q : (claim.iat ∷ claim.exp ∷ claim.sub) ≡ token = cc enc in
    let t : s ≡ now = cc ts in rw (← q) (read_token_lem claim now (omega (arith, t, le)))

pos_plus : (t s : ℕ) → pos t ≡ pos s → pos (t + 360) ≡ pos (s + 360)
pos_plus t s e = cc e

abbrev plain_tokens-IsJwtLibrary : IsJwtLibrary plain_tokens
plain_tokens-IsJwtLibrary = record {
  decode-encode = λ key claim token now s enc ts le. read_token-encode claim token now s enc ts le;
  timestamp-plus = (360, refl, λ t s e. pos_plus t s e);
}

abbrev pub key : List ℕ
key = codes "secret"

-- The token of drone7, who logs in at 1000.
abbrev pub drone_token : List ℕ
drone_token = 1000 ∷ 1360 ∷ codes "drone7"

abbrev pub drone_claim : Claim
drone_claim = record { sub = codes "drone7"; iat = 1000; exp = 1360 }

logged_in : login plain_tokens (some key) 1000 1000 (codes "drone7") ≡ ok drone_token
unfolding login from_utf8
logged_in = refl

decoded_utf8 : from_utf8 (codes "drone7") ≡ some (codes "drone7")
unfolding from_utf8
decoded_utf8 = refl

auth-login_example :
    auth (λ s. ok s) plain_tokens (some key) 1360 (bearer drone_token) (λ claim. claim.sub)
    ≡ ok (codes "drone7")
auth-login_example =
    auth-login (λ s. ok s) plain_tokens plain_tokens-IsJwtLibrary key (codes "drone7")
      (codes "drone7") drone_token 1000 1000 1360 1000 1000 1360 (λ claim. claim.sub) decoded_utf8
      refl refl refl (omega arith) logged_in refl

opened :
    auth (λ s. ok s) plain_tokens (some key) 1200 (bearer drone_token) (λ claim. claim.sub)
    ≡ ok (codes "drone7")
opened =
    auth-login (λ s. ok s) plain_tokens plain_tokens-IsJwtLibrary key (codes "drone7")
      (codes "drone7") drone_token 1000 1000 1200 1000 1000 1200 (λ claim. claim.sub) decoded_utf8
      refl refl refl (omega arith) logged_in refl

auth-eq-ok_example :
    (k : List ℕ) × (token : List ℕ) × (claim : Claim) × (◌≡◌ {A = Option (List ℕ)}
      (some key)
      (some k))
    × (get_token_from_cookie_jar (λ s. ok s) (bearer drone_token) ≡ ok token)
    × (plain_tokens.decode 1200 k token ≡ some claim)
    × (codes "drone7" ≡ claim.sub)
auth-eq-ok_example =
    auth-eq-ok (λ s. ok s) plain_tokens (some key) 1200 (bearer drone_token) (λ claim. claim.sub)
      (codes "drone7") opened

-- The same token a second after its expiry.
expired :
    auth (λ s. ok s) plain_tokens (some key) 1361 (bearer drone_token) (λ claim. claim.sub)
    ≡ err (failure (codes "Invalid token"))
unfolding auth svc_telemetry.Base.Text.strip_prefix
expired = refl
