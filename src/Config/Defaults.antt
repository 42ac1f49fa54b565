-- ===== src/Config/Defaults.antt =====
-- Which settings try_from_env of server/src/config.rs falls back on, with a config library that behaves
-- as documented.
use svc_telemetry.Base.{
  ◌≡◌, ◌≢◌, refl, sym, ap, ◌∙◌, true, List, [], ◌∷◌, Option, none, some, ok, same, >>=-eq-ok,
  if◌then◌else◌,
}
use svc_telemetry.Base.Text.{codes}
use svc_telemetry.World.{Bytes}
use svc_telemetry.Config.{
  Config, new, Setting, number, ConfigLibrary, defaults, set_defaults, try_from_env,
}
use svc_telemetry.Config.Fields.{
  same_sort, or_else, assoc, fields, fields-IsSorted, defaults-IsSorted, assoc-IsSorted, sorts,
  defaults-IsNew, field_default, or_else_none, or_else_assoc,
}

-- What a builder has for a key by default, what the environment has, and what the built settings have.
pub record View (lib : ConfigLibrary) : Type 0 where
  pub default : lib.Builder → Bytes → Option Setting
  pub env : Bytes → Option Setting
  pub lookup : lib.Built → Bytes → Option Setting

-- The environment overrides the defaults, and a struct is made only when each of its fields has a value;
-- a number for a number and a text for a text are taken as they are.
pub record IsConfigLibrary (lib : ConfigLibrary) (view : View lib) : Type 0 where
  pub default-builder : (j : Bytes) → view.default lib.builder j ≡ none
  pub default-set_default :
      (b c : lib.Builder) (k j : Bytes) (v : Setting)
      → lib.set_default b k v ≡ ok c
      → view.default c j ≡ (if same k j then some v else view.default b j)
  pub lookup-build :
      (b : lib.Builder) (s : lib.Built) (j : Bytes)
      → lib.build (lib.add_environment b) ≡ ok s
      → view.env j ≡ none
      → view.lookup s j ≡ view.default b j
  pub lookup-try_deserialize :
      (s : lib.Built) (c : Config) (j : Bytes) (v : Setting)
      → lib.try_deserialize s ≡ ok c
      → assoc (fields c) j ≡ some v
      → (w : Setting) × (view.lookup s j ≡ some w)
  pub field-try_deserialize :
      (s : lib.Built) (c : Config) (j : Bytes) (v w : Setting)
      → lib.try_deserialize s ≡ ok c
      → assoc (fields c) j ≡ some v
      → view.lookup s j ≡ some w
      → same_sort v w ≡ true
      → v ≡ w

module _ (lib : ConfigLibrary) (view : View lib) (k : IsConfigLibrary lib view) where
  set_defaults-eq-ok :
      (ds : List (Bytes × Setting)) (b c : lib.Builder) (j : Bytes)
      → set_defaults lib ds b ≡ ok c
      → view.default c j ≡ or_else (assoc ds j) (view.default b j)
  unfolding set_defaults
  set_defaults-eq-ok [] b c j e = ap (λ x. view.default x j) (cc e)
  set_defaults-eq-ok ((i, v) ∷ ds) b c j e =
      let (b1, p, q) = >>=-eq-ok (lib.set_default b i v) _ e in
      let r = set_defaults-eq-ok ds b1 c j q in
      let d = k.default-set_default b b1 i j v p in
      r ∙ ap (or_else (assoc ds j)) d ∙ or_else_assoc (assoc ds j) (view.default b j) (same i j) v

  builder_defaults :
      (ds : List (Bytes × Setting)) (b : lib.Builder) (j : Bytes)
      → set_defaults lib ds lib.builder ≡ ok b
      → view.default b j ≡ assoc ds j
  builder_defaults ds b j e =
      set_defaults-eq-ok ds lib.builder b j e
      ∙ ap (or_else (assoc ds j)) (k.default-builder j)
      ∙ or_else_none (assoc ds j)

  defaulted :
      (c : Config) (j : Bytes) (v : Setting)
      → try_from_env lib ≡ ok c
      → view.env j ≡ none
      → assoc (fields c) j ≡ some v
      → assoc defaults j ≡ some v
  unfolding try_from_env
  defaulted c j v e unset f =
      let (b, p, e1) = >>=-eq-ok (set_defaults lib defaults lib.builder) _ e in
      let (s, q, e2) = >>=-eq-ok (lib.build (lib.add_environment b)) _ e1 in
      let (w, l) = k.lookup-try_deserialize s c j v e2 f in
      let a : assoc defaults j ≡ some w =
        sym (builder_defaults defaults b j p) ∙ sym (k.lookup-build b s j q unset) ∙ l in
      let t = sorts v w (
        assoc-IsSorted (fields c) j v (fields-IsSorted c) f
        ∙ sym (assoc-IsSorted defaults j w defaults-IsSorted a)) in
      a ∙ ap some (sym (k.field-try_deserialize s c j v w e2 f l t))

  -- With a config library that behaves as documented: when try_from_env succeeds, every number or text
  -- of the configuration that the environment does not set has the value that Config::new gives it, and
  -- that value was set as the default of its key.
  pub try_from_env-eq-ok :
      (c : Config) (j : Bytes) (v : Setting)
      → try_from_env lib ≡ ok c
      → view.env j ≡ none
      → assoc (fields c) j ≡ some v
      → (assoc (fields new) j ≡ some v) × (assoc defaults j ≡ some v)
  try_from_env-eq-ok c j v e unset f =
      let d = defaulted c j v e unset f in
      (field_default c defaults j v v (defaults-IsNew c) d f, d)

  -- try_from_env never succeeds in an environment without rest_request_limit_per_second, although
  -- Config has a default for it: the code sets that default under another key.
  pub try_from_env-ne-ok :
      (c : Config)
      → view.env (codes "rest_request_limit_per_second") ≡ none
      → try_from_env lib ≢ ok c
  unfolding same
  try_from_env-ne-ok c unset e = cc (
      defaulted c (codes "rest_request_limit_per_second") (number (c.rest_request_limit_per_second))
        e unset refl)
