-- ===== src/AuthSession/Flows.antt =====
-- What the operations on flow sessions of core/auth-gateway/auth-session.service.ts do.
use codebase_be_nestjs.Common.{
  ℕ, ◌/◌, ◌≤◌, ◌<◌, String, ◌≡◌, refl, ◌∙◌, ap, List, Field, val, arith, if◌then◌else◌, same,
  push_missing, eq_refl, lt→ltb, read, undef, absent, Option, none, some, Bool-cases, inl, inr, [],
  ◌∷◌,
}
use mathlib.Core.Option
use codebase_be_nestjs.Common.Int.{pos}
use codebase_be_nestjs.Common.Effect.{Result, ok, err}
use codebase_be_nestjs.Shared.SystemCode.{bad_request_exception, code_text, session_not_available}
use codebase_be_nestjs.Shared.SessionType.{JwtSession}
use codebase_be_nestjs.Shared.Flow.{
  FlowType, FlowType-discrete, FlowPermission, FlowPermission-discrete, BaseFlowSession,
  spread_flow, stored_flow,
}
use codebase_be_nestjs.Shared.Session.{BaseJwtSession, stored_flow_field}
use codebase_be_nestjs.Redis.Server.{Server}
use codebase_be_nestjs.Redis.Storage.{World}
use codebase_be_nestjs.Session.Laws.{at_time}
use codebase_be_nestjs.AuthSession.{
  add_flow_of, flows_of, flow_or_empty, with_flow, merged_flow, grant_flow, load, save,
  add_flow_session, get_flow_session, clear_flow_session, add_flow_permissions,
}
use codebase_be_nestjs.AuthSession.Lifetime.{end_of, saved, load-save}

-- The flow session of a type, if there is one.
abbrev pub flow_at : BaseJwtSession → FlowType → Option BaseFlowSession
flow_at session type = read (flows_of session type)

abbrev pub flow_answer : Option BaseFlowSession → Result BaseFlowSession
flow_answer none = err (bad_request_exception (code_text session_not_available))
flow_answer (some flow) = ok flow

abbrev pub then_flow : FlowType → Result BaseJwtSession → Result BaseFlowSession
then_flow type (err e) = err e
then_flow type (ok session) = flow_answer (flow_at session type)

read-stored_flow_field :
    (f : Field BaseFlowSession) → read (stored_flow_field f) ≡ Option.map stored_flow (read f)
read-stored_flow_field absent = refl
read-stored_flow_field undef = refl
read-stored_flow_field (val flow) = refl

-- Writing one flow and saving: that flow is the new one, and the others are as they were.
pub flow_at-saved-with_flow :
    (now : ℕ) (session : BaseJwtSession) (type other : FlowType) (value : Field BaseFlowSession)
    → flow_at (saved now (with_flow type value session)) other
      ≡ Option.map stored_flow
          (if same FlowType-discrete type other then read value else flow_at session other)
flow_at-saved-with_flow now session type other value =
    elim (Bool-cases (same FlowType-discrete type other)) [
      | inl e ↦ rw e (read-stored_flow_field value)
      | inr e ↦ rw e (read-stored_flow_field (flows_of session other))
    ]

module _ {r : Server} where
  pub get_flow_session_lem :
      (key : String) (type : FlowType) (session_type : JwtSession) (w : World r)
      → (get_flow_session key type session_type w).0 ≡ then_flow type (load session_type key w).0
  unfolding get_flow_session
  get_flow_session_lem key type session_type w = ground arith

pub grant_flow_lem :
    (ps : List FlowPermission) (flow : BaseFlowSession) (held : List FlowPermission)
    → flow.permissions ≡ val held
    → grant_flow ps flow
      ≡ some (record flow { permissions = val (push_missing FlowPermission-discrete held ps) })
unfolding push_missing
grant_flow_lem [] flow held e = ap (λ f. some (record flow { permissions = f })) e
grant_flow_lem (p ∷ ps) flow held e = rw e

module _ {r : Server} (w : World r) (key : String) (session_type : JwtSession)
    (session : BaseJwtSession) (there : load session_type key w ≡ (ok session, w)) (e : ℕ)
    (exp : session.exp ≡ val (pos e)) (alive : w.now / 1000 < e) where
  get-save-with_flow :
      (type other : FlowType) (value : Field BaseFlowSession) (t : ℕ)
      → w.now ≤ t
      → t < end_of w.now e
      → (get_flow_session key other session_type
          (at_time (save session_type key (with_flow type value session) w).1 t)).0
        ≡ flow_answer (
            Option.map stored_flow
              (if same FlowType-discrete type other then read value else flow_at session other))
  get-save-with_flow type other value t le lt =
      get_flow_session_lem key other session_type _
      ∙ ap (then_flow other) {y = ok (saved w.now (with_flow type value session))} (
          load-save w session_type key (with_flow type value session) e exp alive t key le
          ∙ rw (eq_refl key, lt→ltb t (end_of w.now e) lt))
      ∙ ap flow_answer (flow_at-saved-with_flow w.now session type other value)

  pub add_flow_session-save :
      (value : BaseFlowSession) (type : FlowType)
      → value.type ≡ val type
      → add_flow_session key value session_type w
        ≡ save session_type key (with_flow type (merged_flow type value session) session) w
  unfolding add_flow_session
  add_flow_session-save value type is =
      ap (λ o. add_flow_of o key value session_type w) (ap read is) ∙ rw there

  -- For a session that can be read and has whole seconds of life left: after addFlowSession of a
  -- value with a type, until the session ends, getFlowSession of that type returns the old flow
  -- with each property that the value has replaced by the value's, as JSON keeps it, and
  -- getFlowSession of every other type finds the old flow.
  pub get-add_flow_session :
      (value : BaseFlowSession) (type other : FlowType) (t : ℕ)
      → value.type ≡ val type
      → w.now ≤ t
      → t < end_of w.now e
      → (get_flow_session key other session_type
          (at_time (add_flow_session key value session_type w).1 t)).0
        ≡ flow_answer (
            Option.map stored_flow (
              if same FlowType-discrete type other
              then some (spread_flow (flow_or_empty (flow_at session type)) value)
              else flow_at session other))
  get-add_flow_session value type other t is le lt =
      rw (add_flow_session-save value type is)
        (get-save-with_flow type other (merged_flow type value session) t le lt)

  -- For a session that can be read and has whole seconds of life left: after clearFlowSession,
  -- until the session ends, getFlowSession of that type throws SESSION_NOT_AVAILABLE, and
  -- getFlowSession of every other type finds the old flow.
  get-clear_flow_session :
      (type other : FlowType) (t : ℕ)
      → w.now ≤ t
      → t < end_of w.now e
      → (get_flow_session key other session_type
          (at_time (clear_flow_session key type session_type w).1 t)).0
        ≡ flow_answer (
            Option.map stored_flow
              (if same FlowType-discrete type other then none else flow_at session other))
  unfolding clear_flow_session
  get-clear_flow_session type other t le lt = rw there (get-save-with_flow type other undef t le lt)

  -- For a session that can be read, has whole seconds of life left and has a flow of the type with
  -- a list of permissions: after addFlowPermissions, until the session ends, getFlowSession of
  -- that type finds the flow with the missing permissions pushed and the rest as it was, and of
  -- every other type the old flow.
  pub get-add_flow_permissions :
      (type other : FlowType) (flow : BaseFlowSession) (held ps : List FlowPermission) (t : ℕ)
      → flow_at session type ≡ some flow
      → flow.permissions ≡ val held
      → w.now ≤ t
      → t < end_of w.now e
      → (get_flow_session key other session_type
          (at_time (add_flow_permissions key type ps session_type w).1 t)).0
        ≡ flow_answer (
            Option.map stored_flow (
              if same FlowType-discrete type other
              then some
                  (record flow { permissions = val (push_missing FlowPermission-discrete held ps) })
              else flow_at session other))
  unfolding add_flow_permissions
  get-add_flow_permissions type other flow held ps t here perms le lt =
      rw (there, here, grant_flow_lem ps flow held perms)
        (get-save-with_flow type other
          (val (record flow { permissions = val (push_missing FlowPermission-discrete held ps) })) t
          le lt)
