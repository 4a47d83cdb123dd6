-- ===== src/Shared/Flow.antt =====
-- shared/business/auth/flow-session.payload.ts and the flow session of the contract signing.
use codebase_be_nestjs.Common.{String, List, Field, spread, stored, if◌then◌else◌, same}

-- OCTO_FLOW_TYPE and PARTNER_FLOW_TYPE; their two SIGN_CONTRACT are one text.
pub data FlowType : Type 0 where
  sign_contract fund_transfer inquiry_status withdrawal_deposit active_biometric : FlowType
  verify_biometric create_account forgot_password link_type_3 : FlowType

-- The texts of SIGN_CONTRACT_, FUND_TRANSFER_ and WITHDRAWAL_DEPOSIT_FLOW_PERMISSION.
pub data FlowPermission : Type 0 where
  otp_requested otp_verified selfie_verified init_contract inquiry_account : FlowPermission
  request_withdrawal_deposit verified_otp_withdrawal_deposit : FlowPermission

unfoldable pub FlowType-discrete : Discrete FlowType
FlowType-discrete = hlevel

unfoldable pub FlowPermission-discrete : Discrete FlowPermission
FlowPermission-discrete = hlevel

-- A flow session as a JavaScript object; `fields` are the text properties of its subclasses, such
-- as contractId, otpId and selfieId.
pub record BaseFlowSession : Type 0 where
  pub type : Field FlowType
  pub permissions : Field (List FlowPermission)
  pub fields : String → Field String

abbrev pub FlowSessionData : Type 0
FlowSessionData = FlowType → Field BaseFlowSession

-- `{ ...old, ...new }`
abbrev pub spread_flow : BaseFlowSession → BaseFlowSession → BaseFlowSession
spread_flow old new = record {
  type = spread old.type new.type;
  permissions = spread old.permissions new.permissions;
  fields = λ name. spread (old.fields name) (new.fields name);
}

-- What JSON keeps of a flow session.
abbrev pub stored_flow : BaseFlowSession → BaseFlowSession
stored_flow flow = record {
  type = stored flow.type;
  permissions = stored flow.permissions;
  fields = λ name. stored (flow.fields name);
}

-- `{ ...flows, [type]: value }`
abbrev pub set_flow : FlowSessionData → FlowType → Field BaseFlowSession → FlowSessionData
set_flow flows type value other = if same FlowType-discrete type other then value else flows other
