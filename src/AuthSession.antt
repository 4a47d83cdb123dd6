-- ===== src/AuthSession.antt =====
-- core/auth-gateway/auth-session.service.ts and token-session.service.ts: the two session services
-- and the operations on the permissions and the flows of an authenticated session.
pub mod Lifetime
pub mod Permissions
pub mod Flows
use codebase_be_nestjs.Common.{
  ℕ, ◌/◌, String, Option, none, some, List, [], ◌∷◌, Field, absent, undef, val, read,
}
use codebase_be_nestjs.Common.{push_missing}
use codebase_be_nestjs.Common.Int.{◌-ℤ◌}
use codebase_be_nestjs.Common.Effect.{error, Exec, pure, raise, ◌>>=◌}
use codebase_be_nestjs.Shared.SystemCode.{
  code_text, session_not_available, sorry_something_went_wrong, bad_request_exception,
  internal_server_error_exception,
}
use codebase_be_nestjs.Shared.SessionType.{JwtSession, token}
use codebase_be_nestjs.Shared.Flow.{
  FlowType, FlowPermission, FlowPermission-discrete, BaseFlowSession, FlowSessionData, spread_flow,
  set_flow,
}
use codebase_be_nestjs.Shared.Session.{
  SessionPermission, SessionPermission-discrete, BaseJwtSession, stamp_session, stored_session,
}
use codebase_be_nestjs.Shared.Token.{BaseJwtPayload, stamp_payload, stored_payload}
use codebase_be_nestjs.Redis.Server.{Server, Seconds, StoredText, session_json, payload_json, plain}
use codebase_be_nestjs.Redis.Storage.{World}
use codebase_be_nestjs.Session.{SessionService, add_session, get_session_value}

abbrev parse_session : StoredText → Option BaseJwtSession
parse_session (session_json session) = some session
parse_session (payload_json payload) = none
parse_session (plain text) = none

abbrev parse_payload : StoredText → Option BaseJwtPayload
parse_payload (session_json session) = none
parse_payload (payload_json payload) = some payload
parse_payload (plain text) = none

-- class AuthSessionService
abbrev pub auth_session_service : SessionService BaseJwtSession
auth_session_service = record {
  namespace = "SESSION";
  stamp = stamp_session;
  value_serializer = λ session. session_json (stored_session session);
  value_deserializer = parse_session;
}

-- class TokenSessionService
abbrev pub token_session_service : SessionService BaseJwtPayload
token_session_service = record {
  namespace = "TOKEN";
  stamp = stamp_payload;
  value_serializer = λ payload. payload_json (stored_payload payload);
  value_deserializer = parse_payload;
}

-- `(session as any).exp - Math.floor(Date.now() / 1000)`; `undefined` gives NaN.
abbrev pub time_left : ℕ → BaseJwtSession → Seconds
time_left now session = elim (read session.exp) [
  | none ↦ none
  | some exp ↦ some (exp -ℤ (now / 1000))
]

-- `...flowSessions`, where undefined spreads to nothing.
abbrev pub flows_of : BaseJwtSession → FlowSessionData
flows_of session = elim (read session.flow_sessions) [ none ↦ λ _. absent | some flows ↦ flows ]

abbrev empty_flow : BaseFlowSession
empty_flow = record { type = absent; permissions = absent; fields = λ _. absent }

abbrev pub flow_or_empty : Option BaseFlowSession → BaseFlowSession
flow_or_empty none = empty_flow
flow_or_empty (some flow) = flow

abbrev pub list_or_nil {ℓ} : {A : Type ℓ} → Option (List A) → List A
list_or_nil none = []
list_or_nil (some xs) = xs

-- The permissions of the session, `[]` if it has none, with the missing ones pushed.
abbrev pub grant : List SessionPermission → BaseJwtSession → BaseJwtSession
grant permissions session = record session {
  permissions = val (
      push_missing SessionPermission-discrete (list_or_nil (read session.permissions)) permissions);
}

-- `{ ...session, flowSessions: { ...session.flowSessions, [type]: value } }`
abbrev pub with_flow : FlowType → Field BaseFlowSession → BaseJwtSession → BaseJwtSession
with_flow type value session = record session {
  flow_sessions = val (set_flow (flows_of session) type value);
}

abbrev pub merged_flow : FlowType → BaseFlowSession → BaseJwtSession → Field BaseFlowSession
merged_flow type value session =
    val (spread_flow (flow_or_empty (read (flows_of session type))) value)

-- `permissions.forEach(...)` over a flow session; a list that is undefined has no `includes`.
abbrev pub grant_flow : List FlowPermission → BaseFlowSession → Option BaseFlowSession
grant_flow [] flow = some flow
grant_flow (p ∷ ps) flow = elim (read flow.permissions) [
  | none ↦ none
  | some held ↦
      some (record flow { permissions = val (push_missing FlowPermission-discrete held (p ∷ ps)) })
]

module _ {r : Server} where
  -- `super.addSession(sessionType, key, exp - now, session)`
  unfoldable pub save : JwtSession → String → BaseJwtSession → Exec (World r) BaseJwtSession
  save session_type key session w =
      add_session auth_session_service session_type key (time_left w.now session) session w

  unfoldable pub load : JwtSession → String → Exec (World r) BaseJwtSession
  load session_type key = get_session_value auth_session_service session_type key

  -- A session that was read is never falsy, so the test `!session` of the source passes.
  unfoldable pub add_permissions :
      String → List SessionPermission → JwtSession → Exec (World r) BaseJwtSession
  add_permissions key permissions session_type = do
    session ← load token key
    save session_type key (grant permissions session)

  unfoldable pub add_flow_of :
      Option FlowType → String → BaseFlowSession → JwtSession → Exec (World r) BaseJwtSession
  add_flow_of none key value session_type =
      raise (internal_server_error_exception (code_text sorry_something_went_wrong))
  add_flow_of (some type) key value session_type = do
    session ← load session_type key
    save session_type key (with_flow type (merged_flow type value session) session)

  unfoldable pub add_flow_session :
      String → BaseFlowSession → JwtSession → Exec (World r) BaseJwtSession
  unfolding add_flow_of
  add_flow_session key value session_type = add_flow_of (read value.type) key value session_type

  -- `Partial<V>` is passed on as it is.
  unfoldable pub update_flow_session :
      String → BaseFlowSession → JwtSession → Exec (World r) BaseJwtSession
  unfolding add_flow_session
  update_flow_session = add_flow_session

  abbrev pub found_flow : Option BaseFlowSession → Exec (World r) BaseFlowSession
  found_flow none = raise (bad_request_exception (code_text session_not_available))
  found_flow (some flow) = pure flow

  unfoldable pub get_flow_session : String → FlowType → JwtSession → Exec (World r) BaseFlowSession
  get_flow_session key type session_type = do
    session ← load session_type key
    found_flow (read (flows_of session type))

  unfoldable pub clear_flow_session : String → FlowType → JwtSession → Exec (World r) BaseJwtSession
  clear_flow_session key type session_type = do
    session ← load session_type key
    save session_type key (with_flow type undef session)

  abbrev pub granted_flow : Option BaseFlowSession → Exec (World r) BaseFlowSession
  granted_flow none = raise (error "TypeError")
  granted_flow (some flow) = pure flow

  unfoldable pub add_flow_permissions :
      String → FlowType → List FlowPermission → JwtSession → Exec (World r) BaseJwtSession
  add_flow_permissions key type permissions session_type = do
    session ← load session_type key
    flow ← found_flow (read (flows_of session type))
    granted ← granted_flow (grant_flow permissions flow)
    save session_type key (with_flow type (val granted) session)
