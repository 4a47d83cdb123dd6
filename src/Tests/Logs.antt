-- ===== src/Tests/Logs.antt =====
-- The loggers on concrete inputs.
use codebase_be_nestjs.Common.{◌≡◌, true, none, some, [], ◌∷◌}
use codebase_be_nestjs.Logger.{inspected, CustomLogging, Logs, LogEnvironment, context_debug}
use codebase_be_nestjs.Logger.Service.{
  Services, get_instances, holding, unset, debug_at, get_instance-shared,
}

abbrev debugging : LogEnvironment
debugging = record { log_debug_mode = true; instance_id = "api-1" }

abbrev nothing_logged : Logs
nothing_logged = record { lines = []; stored = []; uuids = λ n. "uuid"; drawn = 0 }

abbrev of_user : CustomLogging
of_user = record { trace_id = some "t-1"; context = none; name = none }

-- A second caller renames the service that the first one got.
abbrev renamed : Services
renamed = holding [] 0 "Unset"

get_instance-shared_example :
    ((get_instances ((0, some "Api") ∷ (1, some "") ∷ []) (unset [])).0 ≡ 0 ∷ 0 ∷ [])
    × ((get_instances ((0, some "Api") ∷ (1, some "") ∷ []) (unset [])).1 ≡ renamed)
    × (debug_at debugging
          (get_instances ((0, some "Api") ∷ (1, some "") ∷ []) (unset [])).1
          0
          "AuthService"
          of_user
          (inspected "{ id: 1 }")
          none
          nothing_logged
        ≡ context_debug "AuthService" debugging "Unset" of_user
            (inspected "{ id: 1 }")
            none
            nothing_logged)
get_instance-shared_example =
    get_instance-shared [] 0 (some "Api") ((1, some "") ∷ []) debugging "AuthService" of_user
      (inspected "{ id: 1 }") none nothing_logged
