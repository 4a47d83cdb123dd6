-- ===== src/Tests/Contracts.antt =====
-- The steps of signing a contract on concrete inputs.
use codebase_be_nestjs.Common.{
  some, ◌==◌, ◌≡◌, refl, true, false, undef, [], ◌∷◌, val, arith, includes, if◌then◌else◌,
}
use codebase_be_nestjs.Common.Effect.{ok}
use codebase_be_nestjs.Shared.Flow.{
  FlowPermission-discrete, otp_requested, otp_verified, selfie_verified, sign_contract,
  FlowType-discrete, BaseFlowSession,
}
use codebase_be_nestjs.Shared.SessionType.{token, SessionType-discrete}
use codebase_be_nestjs.Shared.Token.{TokenClass-discrete, token_type_map}
use codebase_be_nestjs.Shared.Session.{BaseJwtSession}
use codebase_be_nestjs.Redis.Server.{payload_json, session_json}
use codebase_be_nestjs.Session.{get_session_value}
use codebase_be_nestjs.AuthSession.{load, with_flow}
use codebase_be_nestjs.AuthSession.Flows.{flow_at}
use codebase_be_nestjs.Redis.Memory.{memory, find}
use codebase_be_nestjs.Redis.Storage.{World}
use codebase_be_nestjs.Guard.{
  Admitted, can_activate, admit, admit_class, behind_space, before_space, jwt_session,
  validate_session,
}
use codebase_be_nestjs.Permission.Checks.{flow_holds}
use codebase_be_nestjs.SignContract.{
  SignContractLibrary, route, check_selfie, check_selfie_metadata, user_guard, user_sessions,
}
use codebase_be_nestjs.SignContract.Started.{IsStored, IsSigning}
use codebase_be_nestjs.SignContract.Steps.{success_of, LeavesFlow, check_selfie-verifies}
use codebase_be_nestjs.Tests.Samples.{
  user_payload, live_world, sample_request, sample_session, sample_flow,
}
use codebase_be_nestjs.Tests.Requests.{user, live}

abbrev pub sample_sign_contract : SignContractLibrary
sample_sign_contract = record {
  plain_to_sign_contract = λ contract_id otp_id. record {
    type = val sign_contract;
    permissions = val [];
    fields = λ name.
        if name == "contractId"
        then val contract_id
        else if name == "otpId"
        then val otp_id
        else undef;
  };
  instance_type = λ contract_id otp_id. refl;
  instance_permissions = λ contract_id otp_id. refl;
}

abbrev admitted : Admitted
admitted = record { user = user_payload; session = sample_session }

pub decorates : jwt_session user user_sessions admitted ≡ ok sample_session
unfolding validate_session includes SessionType-discrete
decorates = refl

pub was_requested : flow_holds sample_session sign_contract otp_requested ≡ true
unfolding includes FlowPermission-discrete
was_requested = refl

abbrev pub stored : IsStored live_world "k:1" 1000
stored = record { session = sample_session; there = live; exp = refl; alive = omega arith }

-- The session when the OTP was verified.
abbrev verified_flow : BaseFlowSession
verified_flow = record sample_flow { permissions = val (otp_requested ∷ otp_verified ∷ []) }

abbrev verified_session : BaseJwtSession
verified_session = with_flow sign_contract (val verified_flow) sample_session

abbrev verified_world : World memory
verified_world = record live_world {
  db =
      ("REDIS_SESSION::TOKEN:JWT_SESSION:k:1", 1000900, payload_json user_payload)
      ∷ ("REDIS_SESSION::SESSION:JWT_SESSION:k:1", 1000900, session_json verified_session)
      ∷ [];
}

abbrev verified : Admitted
verified = record { user = user_payload; session = verified_session }

verified_there : load token "k:1" verified_world ≡ (ok verified_session, verified_world)
unfolding load get_session_value find
verified_there = refl

lets_verified :
    can_activate user user_guard sample_request verified_world ≡ (ok verified, verified_world)
unfolding can_activate admit admit_class load get_session_value find validate_session includes
    SessionType-discrete TokenClass-discrete behind_space before_space token_type_map
lets_verified = refl

decorates_verified : jwt_session user user_sessions verified ≡ ok verified_session
unfolding validate_session includes SessionType-discrete
decorates_verified = refl

holds_requested : flow_holds verified_session sign_contract otp_requested ≡ true
unfolding includes FlowPermission-discrete FlowType-discrete
holds_requested = refl

holds_verified : flow_holds verified_session sign_contract otp_verified ≡ true
unfolding includes FlowPermission-discrete FlowType-discrete
holds_verified = refl

flow_there : flow_at verified_session sign_contract ≡ some verified_flow
unfolding FlowType-discrete
flow_there = refl

abbrev signing_verified : IsSigning verified_world "k:1" 1000 (otp_requested ∷ otp_verified ∷ [])
signing_verified = record {
  stored = record {
    session = verified_session;
    there = verified_there;
    exp = refl;
    alive = omega arith;
  };
  flow = verified_flow;
  here = flow_there;
  permissions = refl;
}

check_selfie-verifies_example :
    let after = route user false check_selfie_metadata check_selfie sample_request verified_world in
    (after.0 ≡ success_of false (record { is_susses = true }))
    × LeavesFlow "k:1" 5000 1000 after.1 (otp_requested ∷ otp_verified ∷ []) (selfie_verified ∷ [])
check_selfie-verifies_example =
    check_selfie-verifies user false sample_request verified_world verified lets_verified
      verified_session decorates_verified 1000 (otp_requested ∷ otp_verified ∷ []) holds_requested
      holds_verified refl refl signing_verified
