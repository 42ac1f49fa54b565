-- ===== src/Config/Fields.antt =====
-- The settings of server/src/config.rs by their keys: the fields of Config, and the defaults that the
-- code sets.
use svc_telemetry.Base.{
  ◌≡◌, refl, sym, ap, ◌∙◌, All, ◌||◌, Bool-cases, eq_of_same, Bool, true, false, List, [], ◌∷◌,
  Option, none, some, Option-cases, inl, inr, ◌⊎◌, same, if◌then◌else◌,
}
use svc_telemetry.Base.Text.{codes}
use svc_telemetry.World.{Bytes}
use svc_telemetry.Config.{Config, new, Setting, number, text, defaults}

abbrev pub same_sort : Setting → Setting → Bool
same_sort (number m) (number n) = true
same_sort (text s) (text t) = true
same_sort _ _ = false

abbrev pub or_else : Option Setting → Option Setting → Option Setting
or_else (some v) d = some v
or_else none d = d

-- The last entry for a key.
abbrev pub assoc : List (Bytes × Setting) → Bytes → Option Setting
assoc [] j = none
assoc ((k, v) ∷ ds) j = or_else (assoc ds j) (if same k j then some v else none)

-- The fields that are a number or a text, by their names.
abbrev pub fields : Config → List (Bytes × Setting)
fields c =
    (codes "docker_port_grpc", number c.docker_port_grpc)
    ∷ (codes "docker_port_rest", number c.docker_port_rest)
    ∷ (codes "storage_host_grpc", text c.storage_host_grpc)
    ∷ (codes "storage_port_grpc", number c.storage_port_grpc)
    ∷ (codes "gis_host_grpc", text c.gis_host_grpc)
    ∷ (codes "gis_port_grpc", number c.gis_port_grpc)
    ∷ (codes "log_config", text c.log_config)
    ∷ (codes "ringbuffer_size_bytes", number c.ringbuffer_size_bytes)
    ∷ (codes "gis_push_cadence_ms", number c.gis_push_cadence_ms)
    ∷ (codes "gis_max_message_size_bytes", number c.gis_max_message_size_bytes)
    ∷ (codes "rest_request_limit_per_second", number c.rest_request_limit_per_second)
    ∷ (codes "rest_concurrency_limit_per_service", number c.rest_concurrency_limit_per_service)
    ∷ (codes "rest_cors_allowed_origin", text c.rest_cors_allowed_origin)
    ∷ []

unfoldable pub is_text : Setting → Bool
is_text (number n) = false
is_text (text t) = true

-- The keys of the fields that are texts.
unfoldable pub text_key : Bytes → Bool
text_key k =
    same (codes "storage_host_grpc") k
    || same (codes "gis_host_grpc") k
    || same (codes "log_config") k
    || same (codes "rest_cors_allowed_origin") k

unfoldable pub IsSorted : List (Bytes × Setting) → Type 0
IsSorted ds = All (λ d. is_text d.1 ≡ text_key d.0) ds

pub fields-IsSorted : (c : Config) → IsSorted (fields c)
unfolding IsSorted is_text text_key same
fields-IsSorted c = (
  refl,
  (
    refl,
    (refl, (refl, (refl, (refl, (refl, (refl, (refl, (refl, (refl, (refl, (refl, tt))))))))))),
  ),
)

pub defaults-IsSorted : IsSorted defaults
unfolding IsSorted is_text text_key same
defaults-IsSorted = (refl, (refl, (refl, (refl, (refl, (refl, (refl, (refl, (refl, tt)))))))))

pub assoc-IsSorted :
    (ds : List (Bytes × Setting)) (j : Bytes) (v : Setting)
    → IsSorted ds
    → assoc ds j ≡ some v
    → is_text v ≡ text_key j
unfolding IsSorted
assoc-IsSorted [] j v s e = cc e
assoc-IsSorted ((k, x) ∷ ds) j v (s, ss) e = elim (Option-cases (assoc ds j)) [
  | inr (w, q) ↦ let t : w ≡ v = cc (rw q at e) in assoc-IsSorted ds j v ss (q ∙ ap some t)
  | inl q ↦ elim (Bool-cases (same k j)) [
    | inr n ↦ cc (rw n at (rw q at e))
    | inl y ↦
        let t : x ≡ v = cc (rw y at (rw q at e)) in let z : k ≡ j = eq_of_same k j y in cc (s, t, z)
  ]
]

pub sorts : (v w : Setting) → is_text v ≡ is_text w → same_sort v w ≡ true
unfolding is_text
sorts (number m) (number n) e = refl
sorts (text s) (text t) e = refl
sorts (number m) (text t) e = cc e
sorts (text s) (number n) e = cc e

-- A default is the value of `Config::new` for a field, or its key is that of no field.
unfoldable pub IsNew : Config → Bytes × Setting → Type 0
IsNew c d = (assoc (fields new) d.0 ≡ some d.1) ⊎ (assoc (fields c) d.0 ≡ none)

pub defaults-IsNew : (c : Config) → All (IsNew c) defaults
unfolding IsNew same
defaults-IsNew c = (
  inl refl,
  (
    inl refl,
    (inl refl, (inl refl, (inr refl, (inl refl, (inl refl, (inl refl, (inl refl, tt))))))),
  ),
)

pub field_default :
    (c : Config) (ds : List (Bytes × Setting)) (j : Bytes) (v w : Setting)
    → All (IsNew c) ds
    → assoc ds j ≡ some v
    → assoc (fields c) j ≡ some w
    → assoc (fields new) j ≡ some v
unfolding IsNew
field_default c [] j v w a e f = cc e
field_default c ((k, x) ∷ ds) j v w (a, rest) e f = elim (Option-cases (assoc ds j)) [
  | inr (y, q) ↦ field_default c ds j v w rest (q ∙ cc (rw q at e)) f
  | inl q ↦ elim (Bool-cases (same k j)) [
    | inr n ↦ cc (rw n at (rw q at e))
    | inl y ↦
        let t : x ≡ v = cc (rw y at (rw q at e)) in
        let z = eq_of_same k j y in
        elim a [
          | inl g ↦ ap (assoc (fields new)) (sym z) ∙ g ∙ ap some t
          | inr g ↦ let o : none ≡ some w = sym g ∙ ap (assoc (fields c)) z ∙ f in cc o
        ]
  ]
]

pub or_else_none : (o : Option Setting) → or_else o none ≡ o
or_else_none (some v) = refl
or_else_none none = refl

pub or_else_assoc :
    (o d : Option Setting) (b : Bool) (v : Setting)
    → or_else o (if b then some v else d) ≡ or_else (or_else o (if b then some v else none)) d
or_else_assoc (some w) d b v = refl
or_else_assoc none d true v = refl
or_else_assoc none d false v = refl
