-- ===== src/Permission/Checks.antt =====
-- The checks of core/permission/permission.interceptor.ts before the handler.
use codebase_be_nestjs.Common.{
  ◌≡◌, refl, Bool, true, false, Option, none, some, List, [], ◌∷◌, all, read, arith, ◌⊎◌, inl, inr,
  includes, same, same→eq, Bool-cases, ◌≢◌,
}
use codebase_be_nestjs.Common.Effect.{Exception, Exec, Result, ok, err}
use codebase_be_nestjs.Shared.SystemCode.{code_text, unauthorized, unauthorized_exception}
use codebase_be_nestjs.Shared.Flow.{
  FlowType, FlowPermission, FlowPermission-discrete, BaseFlowSession,
}
use codebase_be_nestjs.Shared.Session.{
  SessionPermission, SessionPermission-discrete, BaseJwtSession,
}
use codebase_be_nestjs.Shared.Response.{ResponseDto}
use codebase_be_nestjs.Redis.Server.{Server}
use codebase_be_nestjs.Redis.Storage.{World}
use codebase_be_nestjs.AuthSession.{flows_of, list_or_nil}
use codebase_be_nestjs.AuthSession.Permissions.{holds}
use codebase_be_nestjs.Permission.{
  PermissionMetadata, FlowPermissionMetadata, Metadata, failed, or_metadata, check_held,
  session_check, check_flow, flow_check, required_of, check, and_then, intercept, intercept_with,
}

abbrev pub flow_list : Option BaseFlowSession → List FlowPermission
flow_list none = []
flow_list (some flow) = list_or_nil (read flow.permissions)

-- Whether a flow of the session has the permission.
abbrev pub flow_holds : BaseJwtSession → FlowType → FlowPermission → Bool
flow_holds session flow q =
    includes FlowPermission-discrete (flow_list (read (flows_of session flow))) q

abbrev pub permission_of : Metadata → Option PermissionMetadata
permission_of meta = or_metadata meta.class_permission meta.handler_permission

abbrev pub flow_of : Metadata → Option FlowPermissionMetadata
flow_of meta = or_metadata meta.class_flow meta.handler_flow

-- A permission that the route requires and the session lacks.
abbrev pub LacksSession : Option PermissionMetadata → BaseJwtSession → Type 0
LacksSession permission session =
    (q : SessionPermission) × (includes SessionPermission-discrete (required_of permission) q
      ≡ true)
    × (holds session q ≡ false)

abbrev pub LacksFlow : Option FlowPermissionMetadata → BaseJwtSession → Type 0
LacksFlow none session = ⊥
LacksFlow (some meta) session =
    (q : FlowPermission) × (includes FlowPermission-discrete (list_or_nil meta.required_permissions)
        q
      ≡ true)
    × (flow_holds session meta.flow q ≡ false)

module _ {P : Type 0} (d : Discrete P) where
  all-missing :
      (f : P → Bool) (xs : List P) (q : P) → includes d xs q ≡ true → f q ≡ false → all f xs ≡ false
  unfolding includes
  all-missing f [] q h m = absurd (ground (arith, h))
  all-missing f (x ∷ xs) q h m = elim (Bool-cases (same d x q)) [
    | inl e ↦ rw (same→eq d x q e, m) refl
    | inr e ↦ ground (arith, all-missing f xs q)
  ]

  includes-nil : (q : P) → includes d [] q ≢ true
  unfolding includes
  includes-nil q h = ground (arith, h)

  check_held-missing :
      (required : List P) (held : Option (List P)) (q : P)
      → includes d required q ≡ true
      → includes d (list_or_nil held) q ≡ false
      → (e : Exception) × (check_held d required held ≡ err e)
  check_held-missing [] held q h m = absurd (includes-nil q h)
  check_held-missing (p ∷ ps) none q h m = (_, refl)
  check_held-missing (p ∷ ps) (some held) q h m = (
    unauthorized_exception (code_text unauthorized),
    rw (all-missing (includes d held) (p ∷ ps) q h m) refl,
  )

session_check-missing :
    (required : List SessionPermission) (session : BaseJwtSession) (q : SessionPermission)
    → includes SessionPermission-discrete required q ≡ true
    → holds session q ≡ false
    → (e : Exception) × (session_check required (some session) ≡ err e)
session_check-missing [] session q h m = absurd (includes-nil SessionPermission-discrete q h)
session_check-missing (p ∷ ps) session q h m =
    check_held-missing SessionPermission-discrete (p ∷ ps) (read session.permissions) q h m

check_flow-missing :
    (required : List FlowPermission) (flow : Option BaseFlowSession) (q : FlowPermission)
    → includes FlowPermission-discrete required q ≡ true
    → includes FlowPermission-discrete (flow_list flow) q ≡ false
    → (e : Exception) × (check_flow required flow ≡ err e)
check_flow-missing required none q h m = (_, refl)
check_flow-missing required (some flow) q h m =
    check_held-missing FlowPermission-discrete required (read flow.permissions) q h m

flow_check-missing :
    (flow : FlowType) (required : List FlowPermission) (session : BaseJwtSession)
    (q : FlowPermission)
    → includes FlowPermission-discrete required q ≡ true
    → flow_holds session flow q ≡ false
    → (e : Exception) × (flow_check flow required (some session) ≡ err e)
flow_check-missing flow [] session q h m = absurd (includes-nil FlowPermission-discrete q h)
flow_check-missing flow (p ∷ ps) session q h m =
    check_flow-missing (p ∷ ps) (read (flows_of session flow)) q h m

and_then-err :
    (a b : Result (Unit {0})) {e : Exception}
    → b ≡ err e
    → (e' : Exception) × (and_then a b ≡ err e')
and_then-err (ok _) b h = (_, h)
and_then-err (err e) b h = (e, refl)

check-lacks :
    (permission : Option PermissionMetadata) (flow : Option FlowPermissionMetadata)
    (session : BaseJwtSession)
    → LacksSession permission session ⊎ LacksFlow flow session
    → (e : Exception) × (check permission flow (some session) ≡ err e)
unfolding check
check-lacks permission flow session (inl (q, h, m)) =
    let (e, refused) = session_check-missing (required_of permission) session q h m in
    (e, rw refused refl)
check-lacks permission none session (inr h) = absurd h
check-lacks permission (some meta) session (inr (q, h, m)) =
    and_then-err (session_check (required_of permission) (some session)) _
      (flow_check-missing meta.flow (list_or_nil meta.required_permissions) session q h m).1

module _ {r : Server} {D E : Type 0} where
  intercept_with-lacks :
      (permission : Option PermissionMetadata) (flow : Option FlowPermissionMetadata)
      (session : BaseJwtSession) (handler : Exec (World r) (ResponseDto D E)) (w : World r)
      → LacksSession permission session ⊎ LacksFlow flow session
      → (e : Exception) × (intercept_with permission flow (some session) handler w ≡ (failed e, w))
  intercept_with-lacks (some p) flow session handler w h =
      let (e, refused) = check-lacks (some p) flow session h in (e, rw refused refl)
  intercept_with-lacks none (some f) session handler w h =
      let (e, refused) = check-lacks none (some f) session h in (e, rw refused refl)
  intercept_with-lacks none none session handler w (inl (q, h, m)) =
      absurd (includes-nil SessionPermission-discrete q h)
  intercept_with-lacks none none session handler w (inr h) = absurd h

  -- If the request's session lacks a permission that the route's metadata requires, of the session
  -- or of the flow, the request fails, the handler does not run and nothing is written.
  pub intercept-lacks :
      (meta : Metadata) (session : BaseJwtSession) (handler : Exec (World r) (ResponseDto D E))
      (w : World r)
      → LacksSession (permission_of meta) session ⊎ LacksFlow (flow_of meta) session
      → (e : Exception) × (intercept meta (some session) handler w ≡ (failed e, w))
  unfolding intercept
  intercept-lacks meta session handler w h =
      intercept_with-lacks (permission_of meta) (flow_of meta) session handler w h

-- A list that holds both of two permissions, or the one that is named twice.
check_flow-two :
    (p q : FlowPermission) (flow : Option BaseFlowSession)
    → includes FlowPermission-discrete (flow_list flow) p ≡ true
    → includes FlowPermission-discrete (flow_list flow) q ≡ true
    → check_flow (p ∷ q ∷ []) flow ≡ ok tt
check_flow-two p q none h k = absurd (includes-nil FlowPermission-discrete p h)
check_flow-two p q (some flow) h k = two (read flow.permissions) h k
  where
    two :
        (held : Option (List FlowPermission))
        → includes FlowPermission-discrete (list_or_nil held) p ≡ true
        → includes FlowPermission-discrete (list_or_nil held) q ≡ true
        → check_held FlowPermission-discrete (p ∷ q ∷ []) held ≡ ok tt
    two none h k = absurd (includes-nil FlowPermission-discrete p h)
    two (some held) h k = rw (h, k) refl

-- A session whose flow has both permissions that are required passes the check.
pub check-two :
    (session : BaseJwtSession) (meta : FlowPermissionMetadata) (p q : FlowPermission)
    → meta.required_permissions ≡ some (p ∷ q ∷ [])
    → flow_holds session meta.flow p ≡ true
    → flow_holds session meta.flow q ≡ true
    → check none (some meta) (some session) ≡ ok tt
unfolding check
check-two session meta p q required h k =
    rw required (check_flow-two p q (read (flows_of session meta.flow)) h k)

check_held-one :
    {P : Type 0} (d : Discrete P) (q : P) (held : Option (List P))
    → includes d (list_or_nil held) q ≡ true
    → check_held d (q ∷ []) held ≡ ok tt
check_held-one d q none h = absurd (includes-nil d q h)
check_held-one d q (some held) h = rw h refl

check_flow-one :
    (q : FlowPermission) (flow : Option BaseFlowSession)
    → includes FlowPermission-discrete (flow_list flow) q ≡ true
    → check_flow (q ∷ []) flow ≡ ok tt
check_flow-one q none h = absurd (includes-nil FlowPermission-discrete q h)
check_flow-one q (some flow) h = check_held-one FlowPermission-discrete q (read flow.permissions) h

-- A session whose flow has the one permission that is required passes the check.
pub check-one :
    (session : BaseJwtSession) (meta : FlowPermissionMetadata) (q : FlowPermission)
    → meta.required_permissions ≡ some (q ∷ [])
    → flow_holds session meta.flow q ≡ true
    → check none (some meta) (some session) ≡ ok tt
unfolding check
check-one session meta q required h =
    rw required (check_flow-one q (read (flows_of session meta.flow)) h)
