-- ===== src/Overlap.antt =====
-- The operations of core/auth-gateway/auth-session.service.ts when several of them are under way:
-- each reads the session, awaits the answer, changes the session and writes it back.
pub mod Atomic
pub mod Kept
pub mod Permissions
pub mod Lost
pub mod Logout
use codebase_be_nestjs.Common.{
  ℕ, ◌+◌, eqb, String, Option, none, some, List, [], ◌∷◌, Field, undef, val, read, if◌then◌else◌,
}
use codebase_be_nestjs.Common.Effect.{error, Exception, Exec, Result, ok, err, ◌>>=◌}
use codebase_be_nestjs.Shared.SystemCode.{bad_request_exception, code_text, session_not_available}
use codebase_be_nestjs.Shared.SessionType.{JwtSession, token}
use codebase_be_nestjs.Shared.Flow.{FlowType, FlowPermission, BaseFlowSession}
use codebase_be_nestjs.Shared.Session.{SessionPermission, BaseJwtSession}
use codebase_be_nestjs.Redis.Server.{Server}
use codebase_be_nestjs.Redis.Storage.{World}
use codebase_be_nestjs.Session
use codebase_be_nestjs.AuthSession.{
  auth_session_service, grant, with_flow, merged_flow, flows_of, grant_flow, load, save,
  add_permissions, add_flow_of, clear_flow_session, add_flow_permissions,
}

-- A call of one of the four methods that write.
pub data Change : Type 0 where
  adds_permissions : List SessionPermission → Change
  adds_flow : BaseFlowSession → FlowType → Change
  clears_flow : FlowType → Change
  adds_flow_permissions : FlowType → List FlowPermission → Change

pub record Operation : Type 0 where
  pub key : String
  pub session_type : JwtSession
  pub change : Change

abbrev pub flow_granted : FlowType → BaseJwtSession → Option BaseFlowSession → Result BaseJwtSession
flow_granted type session none = err (error "TypeError")
flow_granted type session (some flow) = ok (with_flow type (val flow) session)

abbrev pub flow_permitted :
    FlowType → List FlowPermission → BaseJwtSession → Option BaseFlowSession → Result BaseJwtSession
flow_permitted type ps session none = err (bad_request_exception (code_text session_not_available))
flow_permitted type ps session (some flow) = flow_granted type session (grant_flow ps flow)

-- What the method makes of the session that it has read, before it writes.
abbrev pub changed : Change → BaseJwtSession → Result BaseJwtSession
changed (adds_permissions ps) session = ok (grant ps session)
changed (adds_flow value type) session =
    ok (with_flow type (merged_flow type value session) session)
changed (clears_flow type) session = ok (with_flow type undef session)
changed (adds_flow_permissions type ps) session =
    flow_permitted type ps session (read (flows_of session type))

-- addPermissions reads under JWT_SESSION.TOKEN, the others under the type that they are given.
abbrev pub read_type : Change → JwtSession → JwtSession
read_type (adds_permissions ps) type = token
read_type _ type = type

-- Where a call stands: before the read, between the read and the write, or settled.
pub data Task : Type 0 where
  waiting : Operation → Task
  holding : Operation → BaseJwtSession → Task
  settled : Result BaseJwtSession → Task

module _ {r : Server} where
  -- The methods, uninterrupted.
  abbrev pub call_change : Change → JwtSession → String → Exec (World r) BaseJwtSession
  call_change (adds_permissions ps) type key = add_permissions key ps type
  call_change (adds_flow value flow) type key = add_flow_of (some flow) key value type
  call_change (clears_flow flow) type key = clear_flow_session key flow type
  call_change (adds_flow_permissions flow ps) type key = add_flow_permissions key flow ps type

  abbrev pub call : Operation → Exec (World r) BaseJwtSession
  call op = call_change op.change op.session_type op.key

  abbrev pub after_read : Operation → Result BaseJwtSession × World r → Task × World r
  after_read op (ok session, w) = (holding op session, w)
  after_read op (err e, w) = (settled (err e), w)

  abbrev pub write : Operation → Result BaseJwtSession → World r → Result BaseJwtSession × World r
  write op (ok session) w = save op.session_type op.key session w
  write op (err e) w = (err e, w)

  abbrev pub after_write : Result BaseJwtSession × World r → Task × World r
  after_write (result, w) = (settled result, w)

  -- The next command of a call.
  unfoldable pub advance : Task → World r → Task × World r
  advance (waiting op) w = after_read op (load (read_type op.change op.session_type) op.key w)
  advance (holding op session) w = after_write (write op (changed op.change session) w)
  advance (settled result) w = (settled result, w)

-- What can happen next: a call goes on, time passes, an authenticated session is cleared.
pub data Event : Type 0 where
  advances : ℕ → Event
  passes : ℕ → Event
  clears : String → Event

pub record System (r : Server) : Type 0 where
  pub world : World r
  pub tasks : ℕ → Task

abbrev pub set_task : (ℕ → Task) → ℕ → Task → ℕ → Task
set_task tasks i task j = if eqb i j then task else tasks j

module _ {r : Server} where
  abbrev pub advanced : System r → ℕ → Task × World r → System r
  advanced s i (task, w) = record { world = w; tasks = set_task s.tasks i task }

  unfoldable pub step : System r → Event → System r
  step s (advances i) = advanced s i (advance (s.tasks i) s.world)
  step s (passes ms) = record s { world = record (s.world) { now = s.world.now + ms } }
  step s (clears key) = record s {
    world = (Session.clear_session auth_session_service token key s.world).1;
  }

  unfoldable pub run : System r → List Event → System r
  run s [] = s
  run s (e ∷ events) = run (step s e) events
