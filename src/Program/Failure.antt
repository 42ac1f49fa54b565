-- ===== src/Program/Failure.antt =====
-- When the program of server/src/main.rs starts no server.
use svc_telemetry.Base.{◌≡◌, refl, Option, none, Result-cases, inl, inr, Bool}
use svc_telemetry.Base.Text.{codes}
use svc_telemetry.World.{Bytes, History}
use svc_telemetry.Config.{ConfigLibrary, try_from_env}
use svc_telemetry.Config.Defaults.{View, IsConfigLibrary, try_from_env-ne-ok}
use svc_telemetry.Rest.Server.Startup.{Host}
use svc_telemetry.Program.{Cli, failed, main}

-- With a config library that behaves as documented, in an environment without
-- rest_request_limit_per_second the program fails before it starts a server or writes the OpenAPI file,
-- and sends nothing, although Config has a default for that setting: the code sets it under another key.
pub main-failed :
    (lib : ConfigLibrary) (view : View lib) (k : IsConfigLibrary lib view) (host : Host)
    (pretty_json : Option Bytes) (write : Bytes → Bytes → Bool) (args : Cli) (h : History)
    → view.env (codes "rest_request_limit_per_second") ≡ none
    → main lib host pretty_json write args h ≡ (failed, h)
unfolding main
main-failed lib view k host pretty_json write args h unset =
    elim (Result-cases (try_from_env lib)) [
      | inl (c, e) ↦ absurd (try_from_env-ne-ok lib view k c unset e)
      | inr (x, e) ↦ rw (main, e) refl
    ]
