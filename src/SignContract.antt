-- ===== src/SignContract.antt =====
-- module/sign-contract: the three steps of signing a contract, with the guard, the permissions and
-- the answer of each route.
pub mod Order
pub mod Started
pub mod Steps
pub mod Complete
pub mod Overtaken
use codebase_be_nestjs.Common.{
  ℕ, String, ◌==◌, ◌≡◌, Bool, true, false, Option, none, some, List, [], ◌∷◌, absent, undef, val,
  if◌then◌else◌,
}
use codebase_be_nestjs.Common.Effect.{Exception, Exec, Result, ok, err, pure, ◌>>=◌, ◌>>◌}
use codebase_be_nestjs.Shared.Flow.{
  BaseFlowSession, FlowPermission, otp_requested, otp_verified, selfie_verified, sign_contract,
}
use codebase_be_nestjs.Shared.Session.{BaseJwtSession, user_session_class, SessionClass}
use codebase_be_nestjs.Shared.Token.{BaseJwtPayload, user_jwt_payload, session_bound_id}
use codebase_be_nestjs.Shared.Response.{ResponseDto}
use codebase_be_nestjs.Redis.Server.{Server}
use codebase_be_nestjs.Redis.Storage.{World, v4}
use codebase_be_nestjs.AuthSession.{add_flow_session, update_flow_session}
use codebase_be_nestjs.Auth.External.{Libraries}
use codebase_be_nestjs.Guard.{
  OneOrMany, many, Request, Admitted, GuardParams, can_activate, jwt_session, returning,
}
use codebase_be_nestjs.Permission.{FlowPermissionMetadata, Metadata, Outcome, failed, intercept}
use codebase_be_nestjs.Response.{Handled, value, thrown, Answer, respond}

-- plainToInstance(SignContractSession, { contractId, otpId }, { exposeDefaultValues: true }): the
-- defaults of `type` and `permissions` are properties of the instance.
pub record SignContractLibrary : Type 0 where
  pub plain_to_sign_contract : String → String → BaseFlowSession
  pub instance_type :
      (contract_id otp_id : String)
      → (plain_to_sign_contract contract_id otp_id).type ≡ val sign_contract
  pub instance_permissions :
      (contract_id otp_id : String)
      → (plain_to_sign_contract contract_id otp_id).permissions ≡ val []

-- What the DTOs of the answers hold: `isSusses`.
pub record SignContractResponse : Type 0 where
  pub is_susses : Bool

-- `{ selfieId, type: SIGN_CONTRACT }`
abbrev pub selfie_update : String → BaseFlowSession
selfie_update selfie_id = record {
  type = val sign_contract;
  permissions = absent;
  fields = λ name. if name == "selfieId" then val selfie_id else absent;
}

module _ {r : Server} where
  unfoldable pub request_otp :
      SignContractLibrary → BaseJwtPayload → Exec (World r) SignContractResponse
  request_otp lib token_payload = do
    contract_id ← v4
    otp_id ← v4
    add_flow_session (session_bound_id token_payload)
        (lib.plain_to_sign_contract contract_id otp_id) token_payload.session_channel
    pure (record { is_susses = true })

  unfoldable pub check_otp : BaseJwtPayload → Exec (World r) SignContractResponse
  check_otp token_payload = pure (record { is_susses = true })

  unfoldable pub check_selfie : BaseJwtPayload → Exec (World r) SignContractResponse
  check_selfie token_payload = do
    selfie_id ← v4
    update_flow_session (session_bound_id token_payload) (selfie_update selfie_id)
        token_payload.session_channel
    pure (record { is_susses = true })

-- What the three routes ask of a request: a token of a user, and a user's session.
abbrev pub user_guard : GuardParams
user_guard = record {
  allow_tokens = many (user_jwt_payload ∷ []);
  allow_sessions = some (many (user_session_class ∷ []));
  verify_signature = false;
}

-- @FlowPermissionGuard on a handler
abbrev pub flow_metadata : Option (List FlowPermission) → List FlowPermission → Metadata
flow_metadata required provided = record {
  class_permission = none;
  handler_permission = none;
  class_flow = none;
  handler_flow = some (record {
    flow = sign_contract;
    provide_permissions = some provided;
    required_permissions = required;
  });
}

abbrev pub request_otp_metadata : Metadata
request_otp_metadata = flow_metadata none (otp_requested ∷ [])

abbrev pub check_otp_metadata : Metadata
check_otp_metadata = flow_metadata (some (otp_requested ∷ [])) (otp_verified ∷ [])

abbrev pub check_selfie_metadata : Metadata
check_selfie_metadata =
    flow_metadata (some (otp_requested ∷ otp_verified ∷ [])) (selfie_verified ∷ [])

abbrev pub handled : {D : Type 0} → Result D → Handled D
handled (ok d) = value d
handled (err e) = thrown e

abbrev pub user_sessions : OneOrMany SessionClass
user_sessions = many (user_session_class ∷ [])

module _ {r : Server} (lib : Libraries) (show_debug_error : Bool) where
  module _ (sessions : OneOrMany SessionClass) where
    -- The decorator @JWTSession, the method, and the response interceptor.
    unfoldable pub handle_route :
        {D : Type 0} → Admitted → (BaseJwtPayload → Exec (World r) D) → Exec (World r) (Answer D)
    handle_route admitted method w =
        let (result, w') =
          (returning (jwt_session lib sessions admitted) >>= λ _. method admitted.user) w in
        (ok (respond show_debug_error 200 (handled result)).0, w')

    abbrev pub after_guard :
        {D : Type 0}
        → Metadata
        → (BaseJwtPayload → Exec (World r) D)
        → Result Admitted × World r
        → Outcome (Answer D) × World r
    after_guard meta method (err e, w) = (failed e, w)
    after_guard meta method (ok admitted, w) =
        intercept meta (some admitted.session) (handle_route admitted method) w

    -- A request to a route: the guard, the permissions, the handler.
    unfoldable pub guarded_route :
        {D : Type 0}
        → GuardParams
        → Metadata
        → (BaseJwtPayload → Exec (World r) D)
        → Request
        → World r
        → Outcome (Answer D) × World r
    guarded_route guard meta method request w =
        after_guard meta method (can_activate lib guard request w)

  -- A request to one of the three routes.
  unfoldable pub route :
      {D : Type 0}
      → Metadata
      → (BaseJwtPayload → Exec (World r) D)
      → Request
      → World r
      → Outcome (Answer D) × World r
  unfolding guarded_route
  route meta method = guarded_route user_sessions user_guard meta method
