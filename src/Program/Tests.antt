-- ===== src/Program/Tests.antt =====
-- The theorem on server/src/main.rs applied to an empty environment.
use svc_telemetry.Base.{◌≡◌, refl, true, none, []}
use svc_telemetry.Config.Tests.{settings, view, settings-IsConfigLibrary}
use svc_telemetry.Rest.Server.Tests.{host}
use svc_telemetry.Program.{failed, main}
use svc_telemetry.Program.Failure.{main-failed}

main-failed_example :
    main (settings []) host none (λ target output. true) (record { openapi = none }) []
    ≡ (failed, [])
main-failed_example =
    main-failed (settings []) (view []) (settings-IsConfigLibrary []) host none
      (λ target output. true) (record { openapi = none }) [] refl
