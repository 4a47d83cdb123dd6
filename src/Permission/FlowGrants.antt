-- ===== src/Permission/FlowGrants.antt =====
-- What core/permission/permission.interceptor.ts does after the handler of a route that gives flow
-- permissions.
use codebase_be_nestjs.Common.{
  ℕ, ◌/◌, ◌≤◌, ◌<◌, String, ◌==◌, ◌≡◌, refl, ap, true, ◌||◌, none, some, List, ◌∷◌, read, val, ◌∙◌,
  includes, push_missing, includes-push_missing, same_refl,
}
use codebase_be_nestjs.Common.Int.{pos}
use codebase_be_nestjs.Common.Effect.{Exec, Result, ok}
use codebase_be_nestjs.Shared.SystemCode.{code_text, success}
use codebase_be_nestjs.Shared.SessionType.{token}
use codebase_be_nestjs.Shared.Flow.{
  FlowPermission, FlowPermission-discrete, FlowType-discrete, BaseFlowSession, stored_flow,
}
use codebase_be_nestjs.Shared.Session.{BaseJwtSession}
use codebase_be_nestjs.Shared.Token.{template}
use codebase_be_nestjs.Shared.Response.{ResponseDto}
use codebase_be_nestjs.Redis.Server.{Server}
use codebase_be_nestjs.Redis.Storage.{World}
use codebase_be_nestjs.Session.Laws.{at_time}
use codebase_be_nestjs.AuthSession.{
  list_or_nil, load, save, with_flow, add_flow_permissions, get_flow_session,
}
use codebase_be_nestjs.AuthSession.Lifetime.{end_of, save-ok}
use codebase_be_nestjs.AuthSession.Flows.{flow_at, grant_flow_lem, get-add_flow_permissions}
use codebase_be_nestjs.Permission.{
  FlowPermissionMetadata, Metadata, emitted, settle, check, provide, intercept, intercept_with,
}
use codebase_be_nestjs.Permission.Checks.{permission_of, flow_of}

module _ {r : Server} {D E : Type 0} (session : BaseJwtSession)
    (handler : Exec (World r) (ResponseDto D E)) (w w' : World r) (res : ResponseDto D E)
    (answers : handler w ≡ (ok res, w')) (succeeded : (res.system_code == code_text success) ≡ true)
    (f : FlowPermissionMetadata) (q : FlowPermission) (qs : List FlowPermission)
    (provides : f.provide_permissions ≡ some (q ∷ qs))
    (passes : check none (some f) (some session) ≡ ok tt) where
  abbrev key : String
  key = template (read session.key)

  abbrev granting : Result BaseJwtSession × World r
  granting = add_flow_permissions key f.flow (q ∷ qs) token w'

  intercept_with-flow :
      intercept_with none (some f) (some session) handler w
      ≡ settle res (provide none (some f) (some session) w')
  intercept_with-flow = rw (passes, answers, succeeded) refl

  provide_flow-ok :
      {a : BaseJwtSession}
      → granting.0 ≡ ok a
      → provide none (some f) (some session) w' ≡ (ok tt, granting.1)
  unfolding provide
  provide_flow-ok h = rw (provides, h) refl

  module _ (meta : Metadata) (permission : permission_of meta ≡ none)
      (flow_meta : flow_of meta ≡ some f) (stored : BaseJwtSession)
      (there : load token key w' ≡ (ok stored, w')) (e : ℕ) (exp : stored.exp ≡ val (pos e))
      (alive : w'.now / 1000 < e) (flow : BaseFlowSession)
      (here : flow_at stored f.flow ≡ some flow) (held : List FlowPermission)
      (perms : flow.permissions ≡ val held) where
    abbrev granted_list : List FlowPermission
    granted_list = push_missing FlowPermission-discrete held (q ∷ qs)

    abbrev granted : BaseFlowSession
    granted = record flow { permissions = val granted_list }

    returns : granting.0 ≡ ok (with_flow f.flow (val granted) stored)
    unfolding add_flow_permissions
    returns =
        rw (there, here, grant_flow_lem (q ∷ qs) flow held perms)
          (save-ok w' token key (with_flow f.flow (val granted) stored) e exp alive)

    intercept-flow_eq : intercept meta (some session) handler w ≡ (emitted res, granting.1)
    unfolding intercept
    intercept-flow_eq =
        rw (permission, flow_meta, intercept_with-flow, provide_flow-ok returns) refl

    -- What the interceptor leaves is what saving the session with the flow leaves.
    granting-save : granting ≡ save token key (with_flow f.flow (val granted) stored) w'
    unfolding add_flow_permissions
    granting-save = rw (there, here, grant_flow_lem (q ∷ qs) flow held perms) refl

    pub intercept-save :
        intercept meta (some session) handler w
        ≡ (emitted res, (save token key (with_flow f.flow (val granted) stored) w').1)
    intercept-save = intercept-flow_eq ∙ ap (λ g. (emitted res, g.1)) granting-save

    -- For a route that gives flow permissions and has no session metadata, a request that passes
    -- its checks, an answer with SUCCESS, and a stored session with whole seconds of life left and
    -- a flow of the route's type with a list of permissions: the answer is passed on, and until
    -- the session ends getFlowSession finds a flow that holds exactly what it held and what the
    -- route gives.
    pub intercept-grants_flow :
        (t : ℕ) (x : FlowPermission)
        → w'.now ≤ t
        → t < end_of w'.now e
        → ((intercept meta (some session) handler w).0 ≡ emitted res)
          × (new : BaseFlowSession) × ((get_flow_session key f.flow token
                (at_time (intercept meta (some session) handler w).1 t)).0
              ≡ ok new)
          × (includes FlowPermission-discrete (list_or_nil (read new.permissions)) x ≡ (
              includes FlowPermission-discrete held x
              || includes FlowPermission-discrete (q ∷ qs) x))
    intercept-grants_flow t x le lt = (
      ap (λ p. p.0) intercept-flow_eq,
      stored_flow granted,
      ap (λ p. (get_flow_session key f.flow token (at_time p.1 t)).0) intercept-flow_eq
          ∙ get-add_flow_permissions w' key token stored there e exp alive f.flow f.flow flow held
              (q ∷ qs) t here perms le lt
          ∙ rw (same_refl FlowType-discrete f.flow) refl,
      includes-push_missing FlowPermission-discrete held (q ∷ qs) x,
    )
