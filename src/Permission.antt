-- ===== src/Permission.antt =====
-- core/permission/permission.interceptor.ts: the permissions that a route requires before its
-- handler runs, and those that it gives once the handler has answered with success.
pub mod Checks
pub mod Grants
pub mod FlowGrants
use codebase_be_nestjs.Common.{
  String, ◌==◌, Bool, true, false, Option, none, some, List, [], ◌∷◌, all, read, if◌then◌else◌,
  includes,
}
use codebase_be_nestjs.Common.Effect.{
  error, Exception, Exec, Result, ok, err, pure, raise, continue, ◌>>=◌, ◌>>◌,
}
use codebase_be_nestjs.Shared.SystemCode.{code_text, success, unauthorized, unauthorized_exception}
use codebase_be_nestjs.Shared.SessionType.{token}
use codebase_be_nestjs.Shared.Flow.{
  FlowType, FlowPermission, FlowPermission-discrete, BaseFlowSession,
}
use codebase_be_nestjs.Shared.Session.{
  SessionPermission, SessionPermission-discrete, BaseJwtSession,
}
use codebase_be_nestjs.Shared.Token.{template}
use codebase_be_nestjs.Shared.Response.{ResponseDto}
use codebase_be_nestjs.Redis.Server.{Server}
use codebase_be_nestjs.Redis.Storage.{World}
use codebase_be_nestjs.AuthSession.{add_permissions, add_flow_permissions, flows_of, list_or_nil}

-- `undefined` is `none`.
pub record PermissionMetadata : Type 0 where
  pub provide_permissions : Option (List SessionPermission)
  pub required_permissions : Option (List SessionPermission)

pub record FlowPermissionMetadata : Type 0 where
  pub flow : FlowType
  pub provide_permissions : Option (List FlowPermission)
  pub required_permissions : Option (List FlowPermission)

-- What PermissionGuard and FlowPermissionGuard attach to the controller and to the handler.
pub record Metadata : Type 0 where
  pub class_permission : Option PermissionMetadata
  pub handler_permission : Option PermissionMetadata
  pub class_flow : Option FlowPermissionMetadata
  pub handler_flow : Option FlowPermissionMetadata

-- What an observable does: it emits one answer, it fails, or nothing ever comes.
pub data Outcome (A : Type 0) : Type 0 where
  emitted : A → Outcome A
  failed : Exception → Outcome A
  pending : Outcome A

abbrev pub or_metadata : {A : Type 0} → Option A → Option A → Option A
or_metadata none b = b
or_metadata (some a) b = some a

-- `required.forEach((p) => { if (!held.includes(p)) throw ... })`; without a list, `includes` of
-- undefined is a TypeError.
abbrev pub check_held : {P : Type 0} → Discrete P → List P → Option (List P) → Result (Unit {0})
check_held d [] held = ok tt
check_held d (p ∷ ps) none = err (error "TypeError")
check_held d (p ∷ ps) (some held) =
    if all (includes d held) (p ∷ ps)
    then ok tt
    else err (unauthorized_exception (code_text unauthorized))

abbrev pub session_check : List SessionPermission → Option BaseJwtSession → Result (Unit {0})
session_check [] session = ok tt
session_check (p ∷ ps) none = err (error "TypeError")
session_check (p ∷ ps) (some session) =
    check_held SessionPermission-discrete (p ∷ ps) (read session.permissions)

abbrev pub check_flow : List FlowPermission → Option BaseFlowSession → Result (Unit {0})
check_flow required none = err (unauthorized_exception (code_text unauthorized))
check_flow required (some flow) =
    check_held FlowPermission-discrete required (read flow.permissions)

abbrev pub flow_check : FlowType → List FlowPermission → Option BaseJwtSession → Result (Unit {0})
flow_check flow [] session = ok tt
flow_check flow (p ∷ ps) none = err (error "TypeError")
flow_check flow (p ∷ ps) (some session) = check_flow (p ∷ ps) (read (flows_of session flow))

abbrev pub required_of : Option PermissionMetadata → List SessionPermission
required_of none = []
required_of (some meta) = list_or_nil meta.required_permissions

abbrev pub flow_checked : Option FlowPermissionMetadata → Option BaseJwtSession → Result (Unit {0})
flow_checked none session = ok tt
flow_checked (some meta) session =
    flow_check meta.flow (list_or_nil meta.required_permissions) session

abbrev pub and_then : Result (Unit {0}) → Result (Unit {0}) → Result (Unit {0})
and_then (err e) b = err e
and_then (ok _) b = b

-- The two checks before the handler, in their order.
unfoldable pub check :
    Option PermissionMetadata
    → Option FlowPermissionMetadata
    → Option BaseJwtSession
    → Result (Unit {0})
check permission flow session =
    and_then (session_check (required_of permission) session) (flow_checked flow session)

module _ {r : Server} where
  abbrev pub give : List SessionPermission → Option BaseJwtSession → Exec (World r) (Unit {0})
  give [] session = pure tt
  give (p ∷ ps) none = raise (error "TypeError")
  give (p ∷ ps) (some session) =
      add_permissions (template (read session.key)) (p ∷ ps) token >>= λ _. pure tt

  abbrev pub give_flow :
      FlowType → List FlowPermission → Option BaseJwtSession → Exec (World r) (Unit {0})
  give_flow flow [] session = pure tt
  give_flow flow (p ∷ ps) none = raise (error "TypeError")
  give_flow flow (p ∷ ps) (some session) =
      add_flow_permissions (template (read session.key)) flow (p ∷ ps) token >>= λ _. pure tt

  abbrev pub provided :
      Option PermissionMetadata → Option BaseJwtSession → Exec (World r) (Unit {0})
  provided none session = pure tt
  provided (some meta) session = give (list_or_nil meta.provide_permissions) session

  abbrev pub provided_flow :
      Option FlowPermissionMetadata → Option BaseJwtSession → Exec (World r) (Unit {0})
  provided_flow none session = pure tt
  provided_flow (some meta) session =
      give_flow meta.flow (list_or_nil meta.provide_permissions) session

  unfoldable pub provide :
      Option PermissionMetadata
      → Option FlowPermissionMetadata
      → Option BaseJwtSession
      → Exec (World r) (Unit {0})
  provide permission flow session = do provided permission session; provided_flow flow session

  module _ {D E : Type 0} where
    -- `resolve(res)` is not reached when the executor throws, and no reject is.
    abbrev pub settle :
        ResponseDto D E → Result (Unit {0}) × World r → Outcome (ResponseDto D E) × World r
    settle res (ok _, w) = (emitted res, w)
    settle res (err e, w) = (pending, w)

    abbrev pub answered :
        Exec (World r) (Unit {0})
        → Result (ResponseDto D E) × World r
        → Outcome (ResponseDto D E) × World r
    answered granting (err e, w) = (failed e, w)
    answered granting (ok res, w) =
        if res.system_code == code_text success then settle res (granting w) else (emitted res, w)

    -- The handler runs only if the checks pass.
    abbrev pub guarded :
        Result (Unit {0})
        → Exec (World r) (Unit {0})
        → Exec (World r) (ResponseDto D E)
        → World r
        → Outcome (ResponseDto D E) × World r
    guarded (err e) granting handler w = (failed e, w)
    guarded (ok _) granting handler w = answered granting (handler w)

    abbrev pub observed : Result (ResponseDto D E) × World r → Outcome (ResponseDto D E) × World r
    observed (ok res, w) = (emitted res, w)
    observed (err e, w) = (failed e, w)

    abbrev pub intercept_with :
        Option PermissionMetadata
        → Option FlowPermissionMetadata
        → Option BaseJwtSession
        → Exec (World r) (ResponseDto D E)
        → World r
        → Outcome (ResponseDto D E) × World r
    intercept_with none none session handler w = observed (handler w)
    intercept_with (some p) flow session handler w =
        guarded (check (some p) flow session) (provide (some p) flow session) handler w
    intercept_with none (some f) session handler w =
        guarded (check none (some f) session) (provide none (some f) session) handler w

    -- The session is `request.session`, which JwtGuard sets.
    unfoldable pub intercept :
        Metadata
        → Option BaseJwtSession
        → Exec (World r) (ResponseDto D E)
        → World r
        → Outcome (ResponseDto D E) × World r
    intercept meta session handler w =
        intercept_with (or_metadata meta.class_permission meta.handler_permission)
          (or_metadata meta.class_flow meta.handler_flow) session handler w
