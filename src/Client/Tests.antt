-- ===== src/Client/Tests.antt =====
-- The client of client-rest/examples/netrid-flow.rs against concrete libraries: the reporter aircraft1.
use svc_telemetry.Base.{
  ℕ, ◌+◌, ◌≤◌, ◌≡◌, refl, arith, ◌&&◌, [], ◌∷◌, ◌++◌, Option, none, some, ok, replicate, leb, ◌==◌,
  if◌then◌else◌, Bool-cases, inl, inr, All,
}
use svc_telemetry.Base.Int.{pos}
use svc_telemetry.Base.Text.{codes, decimal_u32, from_utf8, strip_prefix, strip_prefix-append}
use svc_telemetry.World.{Bytes, Value}
use svc_telemetry.Cache.Pool.Tests.{counting_redis}
use svc_telemetry.Msg.Netrid.{Frame, BasicMessage}
use svc_telemetry.Rest.Jwt.{JwtLibrary, Claim, login}
use svc_telemetry.Rest.Jwt.Session.{IsJwtLibrary}
use svc_telemetry.Rest.Netrid.{Unpack}
use svc_telemetry.Rest.Netrid.Basic.{IsPushing}
use svc_telemetry.Rest.Server.{Site}
use svc_telemetry.Rest.Server.Tests.{site, route_list-IsAxum}
use svc_telemetry.Client.{Library, Delivery, identifier, pad_20, message_of, frame_of, netrid}
use svc_telemetry.Client.Items.{IsLibrary, reported}
use svc_telemetry.Client.Flow.{netrid-reported}
use svc_telemetry.Client.Text.{IsPlain, quote}
use svc_telemetry.Rest.Server.Startup.{take_samples}
use native.Mathlib.Decide.{ℕ_discrete}
use mathlib.Core.Logic.{ite, if_pos, if_neg}

-- Tokens that name the subject, issued at 0.
abbrev read_claim : ℕ → Option Bytes → Option Claim
read_claim now none = none
read_claim now (some sub) =
    if leb now 360 then some (record { sub = sub; iat = 0; exp = 360 }) else none

abbrev tokens : JwtLibrary
tokens = record {
  DateTime = ℕ;
  Duration = ℕ;
  try_seconds = λ n. some n;
  plus = λ t d. t + d;
  timestamp = λ t. pos t;
  encode = λ key claim.
      if claim.iat == 0 && claim.exp == 360 then some (codes "token." ++ claim.sub) else none;
  decode = λ now key token. read_claim now (strip_prefix (codes "token.") token);
}

claim_read :
    (claim : Claim) (token : Bytes) (now s : ℕ)
    → (if claim.iat == 0 && claim.exp == 360 then some (codes "token." ++ claim.sub) else none)
      ≡ some token
    → pos now ≡ pos s
    → s ≤ claim.exp
    → read_claim now (strip_prefix (codes "token.") token) ≡ some claim
claim_read claim token now s e t le = elim (Bool-cases (claim.iat == 0 && claim.exp == 360)) [
  | inr q ↦ cc (rw q at e)
  | inl q ↦
      let w : (codes "token." ++ claim.sub) ≡ token = cc (rw q at e) in
      let i : now ≡ s = cc t in
      rw (← w) (rw (strip_prefix-append (codes "token.") claim.sub) (ground arith))
]

later_read : (t s : ℕ) → pos t ≡ pos s → pos (t + 360) ≡ pos (s + 360)
later_read t s e = cc e

tokens-IsJwtLibrary : IsJwtLibrary tokens
tokens-IsJwtLibrary = record {
  decode-encode = λ key claim token now s e t le. claim_read claim token now s e t le;
  timestamp-plus = (360, refl, λ t s e. later_read t s e);
}

-- The one message that is packed, and its frame.
abbrev message1 : BasicMessage
message1 = message_of (pad_20 (identifier 1))

abbrev packed1 : Bytes
packed1 = replicate 24 0x21

abbrev frame1 : Frame
frame1 = frame_of packed1

BasicMessage-discrete : Discrete BasicMessage
BasicMessage-discrete = hlevel (ℕ_discrete)

Frame-discrete : Discrete Frame
Frame-discrete = hlevel (ℕ_discrete)

module _ {A : Type 0} (d : Discrete A) (one : A) (b : Bytes) where
  pack_one : A → Option Bytes
  pack_one a = ite (d a one) (some b) none

  pack_one_self : pack_one one ≡ some b
  unfolding pack_one
  pack_one_self = if_pos (d one one) refl (some b) none

  pack_one-eq-some : (a : A) (c : Bytes) → pack_one a ≡ some c → (a ≡ one) × (c ≡ b)
  unfolding pack_one
  pack_one-eq-some a c e = elim (d a one) [
    | yes p ↦ (p, cc (rw (if_pos (d a one) p (some b) none) at e))
    | no p ↦ cc (rw (if_neg (d a one) p (some b) none) at e)
  ]

abbrev unpack1 : Unpack
unpack1 = record { frame = λ b. some frame1; basic = λ b. some message1; location = λ b. none }

abbrev library1 : Library
library1 = record {
  pack_basic = pack_one BasicMessage-discrete message1 packed1;
  pack_frame = pack_one Frame-discrete frame1 (replicate 25 0x12);
  delivery = λ number h. if number == 5 then Delivery.lost else Delivery.answered;
  json_string = λ t. quote ∷ (t ++ (quote ∷ []));
  json_number = λ n. decimal_u32 n;
}

library1-IsLibrary : IsLibrary library1 unpack1
library1-IsLibrary = record {
  frame-pack = λ f b e.
      let (p, q) = pack_one-eq-some Frame-discrete frame1 (replicate 25 0x12) f b e in
      (rw q refl, rw p refl);
  basic-pack = λ m b e.
      let (p, q) = pack_one-eq-some BasicMessage-discrete message1 packed1 m b e in rw p refl;
  quoted = λ t p. refl;
}

counting_redis-IsPushing : IsPushing counting_redis
counting_redis-IsPushing = record {
  connected = λ h. refl;
  pushed = λ h key item. (Value.int (pos 1), refl);
}

abbrev token1 : Bytes
token1 = codes "token.aircraft1"

abbrev site1 : Site
site1 = record site { jwt = tokens; unpack = unpack1; now = λ h k. 0 }

logged_in : login tokens (site1.secret) 0 0 (identifier 1) ≡ ok token1
unfolding login from_utf8 decimal_u32
logged_in = refl

plain1 : All IsPlain token1
plain1 = omega arith

-- The fourth push is lost.
netrid-reported_example :
    netrid library1 site1 1 []
    ≡ (ok tt, reported site1 library1.delivery (λ item. codes "id") (codes "gis:id") 1 10 2 [])
netrid-reported_example =
    netrid-reported library1 site1 route_list-IsAxum tokens-IsJwtLibrary counting_redis-IsPushing
      library1-IsLibrary (λ item. codes "id") b'g' (codes "is:id") 1 (omega arith) packed1
      (replicate 25 0x12) (take_samples (λ i. 0x61) 0 42) token1 0 [] (λ item. refl) refl
      (pack_one_self BasicMessage-discrete message1 packed1)
      (pack_one_self Frame-discrete frame1 (replicate 25 0x12)) refl plain1 refl logged_in refl
      (λ h i. (0, refl, omega arith))
