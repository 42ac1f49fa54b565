-- ===== src/Config/Tests.antt =====
-- A concrete config library, and the theorems on server/src/config.rs applied to it.
use svc_telemetry.Base.{
  ℕ, ◌≡◌, refl, sym, ◌∙◌, ap, eq_of_same, Bool, true, false, ◌&&◌, ◌==◌, arith, Bool-cases,
  Option-cases, inl, inr, List, [], ◌∷◌, Option, none, some, Result, ok, err, same, if◌then◌else◌,
}
use svc_telemetry.Base.Text.{codes}
use svc_telemetry.World.{Bytes}
use svc_telemetry.Config.{Config, new, Setting, number, text, ConfigLibrary, defaults, try_from_env}
use svc_telemetry.Config.Fields.{or_else, assoc, fields}
use svc_telemetry.Config.Defaults.{View, IsConfigLibrary, try_from_env-eq-ok}

abbrev pub Settings : Type 0
Settings = List (Bytes × Setting)

-- An environment with the settings that have no default.
abbrev environment : Settings
environment =
    (codes "storage_host_grpc", text (codes "storage"))
    ∷ (codes "storage_port_grpc", number 50003)
    ∷ (codes "gis_host_grpc", text (codes "gis"))
    ∷ (codes "gis_port_grpc", number 50004)
    ∷ (codes "rest_request_limit_per_second", number 100)
    ∷ []

abbrev pub Lookup : Type 0
Lookup = Bytes → Option Setting

abbrev pub number_of : Option Setting → ℕ
number_of (some (number n)) = n
number_of _ = 0

abbrev pub text_of : Option Setting → Bytes
text_of (some (text t)) = t
text_of _ = []

abbrev pub made : Lookup → Config
made s = record new {
  docker_port_grpc = number_of (s (codes "docker_port_grpc"));
  docker_port_rest = number_of (s (codes "docker_port_rest"));
  storage_host_grpc = text_of (s (codes "storage_host_grpc"));
  storage_port_grpc = number_of (s (codes "storage_port_grpc"));
  gis_host_grpc = text_of (s (codes "gis_host_grpc"));
  gis_port_grpc = number_of (s (codes "gis_port_grpc"));
  log_config = text_of (s (codes "log_config"));
  ringbuffer_size_bytes = number_of (s (codes "ringbuffer_size_bytes"));
  gis_push_cadence_ms = number_of (s (codes "gis_push_cadence_ms"));
  gis_max_message_size_bytes = number_of (s (codes "gis_max_message_size_bytes"));
  rest_request_limit_per_second = number_of (s (codes "rest_request_limit_per_second"));
  rest_concurrency_limit_per_service = number_of (s (codes "rest_concurrency_limit_per_service"));
  rest_cors_allowed_origin = text_of (s (codes "rest_cors_allowed_origin"));
}

-- A value of the right sort and content.
abbrev pub agrees : Option Setting → Setting → Bool
agrees (some (number m)) (number n) = m == n
agrees (some (text s)) (text t) = same s t
agrees _ _ = false

abbrev pub agree : Lookup → Settings → Bool
agree s [] = true
agree s ((k, v) ∷ ds) = agrees (s k) v && agree s ds

abbrev pub from_ok : Result (Unit {0}) Lookup → Bytes → Option Setting
from_ok (ok f) j = f j
from_ok (err e) j = none

abbrev pub struct : Lookup → Result (Unit {0}) Config
struct s = if agree s (fields (made s)) then ok (made s) else err tt

-- A library in an environment.
abbrev pub settings : Settings → ConfigLibrary
settings env = record {
  Builder = Lookup;
  Built = Lookup;
  ConfigError = Unit {0};
  builder = λ j. none;
  set_default = λ b k v. ok (λ j. if same k j then some v else b j);
  add_environment = λ b j. or_else (assoc env j) (b j);
  build = λ b. ok b;
  try_deserialize = struct;
}

abbrev pub view : (env : Settings) → View (settings env)
view env = record { default = λ b. b; env = assoc env; lookup = λ s. s }

agrees_lem : (o : Option Setting) (v : Setting) → agrees o v ≡ true → o ≡ some v
agrees_lem (some (number m)) (number n) e = ground arith
agrees_lem (some (text s)) (text t) e = ap (λ x. some (text x)) (eq_of_same s t e)
agrees_lem (some (number m)) (text t) e = cc e
agrees_lem (some (text s)) (number n) e = cc e
agrees_lem none v e = cc e

agree-assoc :
    (s : Lookup) (ds : Settings) (j : Bytes) (v : Setting)
    → agree s ds ≡ true
    → assoc ds j ≡ some v
    → s j ≡ some v
agree-assoc s [] j v a e = cc e
agree-assoc s ((k, x) ∷ ds) j v a e = elim (Option-cases (assoc ds j)) [
  | inr (w, q) ↦ agree-assoc s ds j v (ground arith) (q ∙ cc (rw q at e))
  | inl q ↦ elim (Bool-cases (same k j)) [
    | inr n ↦ cc (rw n at (rw q at e))
    | inl y ↦
        let t : x ≡ v = cc (rw y at (rw q at e)) in
        let z = eq_of_same k j y in
        let u = agrees_lem (s k) x (ground arith) in rw (← z) (u ∙ ap some t)
  ]
]

struct-eq-ok : (s : Lookup) (c : Config) → struct s ≡ ok c → agree s (fields c) ≡ true
struct-eq-ok s c e = elim (Bool-cases (agree s (fields (made s)))) [
  | inr n ↦ cc (rw n at e)
  | inl y ↦ let t : made s ≡ c = cc (rw y at e) in rw (← t) y
]

pub settings-IsConfigLibrary : (env : Settings) → IsConfigLibrary (settings env) (view env)
settings-IsConfigLibrary env = record {
  default-builder = λ j. refl;
  default-set_default = λ b c k j v e. sym (ap (λ r. from_ok r j) e);
  lookup-build = λ b s j e unset. sym (ap (λ r. from_ok r j) e) ∙ rw unset refl;
  lookup-try_deserialize = λ s c j v e f. (v, agree-assoc s (fields c) j v (struct-eq-ok s c e) f);
  field-try_deserialize =
      λ s c j v w e f l t. cc (agree-assoc s (fields c) j v (struct-eq-ok s c e) f, l);
}

abbrev configured : Config
configured = record new {
  storage_host_grpc = codes "storage";
  storage_port_grpc = 50003;
  gis_host_grpc = codes "gis";
  gis_port_grpc = 50004;
  rest_request_limit_per_second = 100;
}

configured_lem : try_from_env (settings environment) ≡ ok configured
unfolding try_from_env same
configured_lem = refl

port_lem : assoc (fields configured) (codes "docker_port_rest") ≡ some (number 8000)
unfolding same
port_lem = refl

port_unset : assoc environment (codes "docker_port_rest") ≡ none
unfolding same
port_unset = refl

try_from_env-eq-ok_example :
    (assoc (fields new) (codes "docker_port_rest") ≡ some (number 8000))
    × (assoc defaults (codes "docker_port_rest") ≡ some (number 8000))
try_from_env-eq-ok_example =
    try_from_env-eq-ok (settings environment) (view environment)
      (settings-IsConfigLibrary environment) configured (codes "docker_port_rest") (number 8000)
      configured_lem port_unset port_lem
