-- ===== src/Shared/Session.antt =====
-- shared/business/auth/jwt-session.payload.ts
use codebase_be_nestjs.Common.{String, List, Field, spread, absent, undef, val, stored}
use codebase_be_nestjs.Common.Int.{ℤ}
use codebase_be_nestjs.Shared.SessionType.{
  SessionType, user_session, octo_web_session, octo_guest_session, fund_transfer_session,
}
use codebase_be_nestjs.Shared.Flow.{BaseFlowSession, FlowSessionData, stored_flow}

-- USER_PERMISSION, the only inhabited part of SESSION_PERMISSION.
pub data SessionPermission : Type 0 where
  otp_verified upload_image_private forgot_password : SessionPermission

unfoldable pub SessionPermission-discrete : Discrete SessionPermission
SessionPermission-discrete = hlevel

-- A session as a JavaScript object: the fields of BaseJwtSession, the times that addSession adds,
-- and in `fields` the text properties of the subclasses, such as userId and deviceId.
pub record BaseJwtSession : Type 0 where
  pub key : Field String
  pub permissions : Field (List SessionPermission)
  pub type : Field SessionType
  pub token_ids : Field (List String)
  pub flow_sessions : Field FlowSessionData
  pub exp : Field ℤ
  pub iat : Field ℤ
  pub fields : String → Field String

-- The concrete session classes, with the value of their property `type`.
pub data SessionClass : Type 0 where
  user_session_class octo_web_user_session octo_guest_session_class : SessionClass
  fund_transfer_session_class : SessionClass

abbrev pub session_class_type : SessionClass → SessionType
session_class_type user_session_class = user_session
session_class_type octo_web_user_session = octo_web_session
session_class_type octo_guest_session_class = octo_guest_session
session_class_type fund_transfer_session_class = fund_transfer_session

abbrev pub stored_flow_field : Field BaseFlowSession → Field BaseFlowSession
stored_flow_field absent = absent
stored_flow_field undef = absent
stored_flow_field (val flow) = val (stored_flow flow)

abbrev pub stored_flows : Field FlowSessionData → Field FlowSessionData
stored_flows absent = absent
stored_flows undef = absent
stored_flows (val flows) = val (λ type. stored_flow_field (flows type))

-- What JSON keeps of a session.
abbrev pub stored_session : BaseJwtSession → BaseJwtSession
stored_session session = record {
  key = stored session.key;
  permissions = stored session.permissions;
  type = stored session.type;
  token_ids = stored session.token_ids;
  flow_sessions = stored_flows session.flow_sessions;
  exp = stored session.exp;
  iat = stored session.iat;
  fields = λ name. stored (session.fields name);
}

-- `{ exp, iat, ...session }`
abbrev pub stamp_session : Field ℤ → Field ℤ → BaseJwtSession → BaseJwtSession
stamp_session exp iat session = record session {
  exp = spread exp session.exp;
  iat = spread iat session.iat;
}
