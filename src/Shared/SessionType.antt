-- ===== src/Shared/SessionType.antt =====
-- shared/business/auth/session-type.ts
use codebase_be_nestjs.Common.{String}

pub data JwtSession : Type 0 where
  token : JwtSession

abbrev pub jwt_session_text : JwtSession → String
jwt_session_text token = "JWT_SESSION"

pub data SessionType : Type 0 where
  user_session sbs_client_session iwp_user_session cip_user_session : SessionType
  agent_user_session fund_transfer_session partner_session partner_user_session : SessionType
  ecdfcp_user_session old_token_session octo_web_session octo_web_advanced_session : SessionType
  agent_session sign_contract_session octo_guest_session octo_basic_user_session : SessionType

unfoldable pub SessionType-discrete : Discrete SessionType
SessionType-discrete = hlevel
