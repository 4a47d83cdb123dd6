-- ===== src/Tests/Requests.antt =====
-- The permissions of a route and the steps of signing a contract on concrete inputs.
use codebase_be_nestjs.Common.{
  ℕ, String, ◌≡◌, refl, true, false, none, some, [], ◌∷◌, arith, inl, inr, includes,
}
use codebase_be_nestjs.Common.Effect.{Exception, Exec, ok}
use codebase_be_nestjs.Shared.SessionType.{token}
use codebase_be_nestjs.Shared.Flow.{sign_contract, otp_verified, FlowPermission-discrete}
use codebase_be_nestjs.Shared.Session.{
  SessionPermission-discrete, otp_verified as user_otp_verified, forgot_password,
}
use codebase_be_nestjs.Shared.Response.{ResponseDto}
use codebase_be_nestjs.Shared.Token.{token_type_map, TokenClass-discrete}
use codebase_be_nestjs.Shared.SessionType.{SessionType-discrete}
use codebase_be_nestjs.Redis.Memory.{memory, find}
use codebase_be_nestjs.Redis.Storage.{World}
use codebase_be_nestjs.Session.{get_session_value}
use codebase_be_nestjs.AuthSession.{load}
use codebase_be_nestjs.AuthSession.Permissions.{holds}
use codebase_be_nestjs.Guard.{
  can_activate, admit, admit_class, validate_session, behind_space, before_space,
}
use codebase_be_nestjs.Auth.External.{Libraries}
use codebase_be_nestjs.Permission.{PermissionMetadata, Metadata, failed, pending, check, intercept}
use codebase_be_nestjs.Permission.Checks.{flow_holds, intercept-lacks}
use codebase_be_nestjs.Permission.Grants.{intercept-pending}
use codebase_be_nestjs.SignContract.{route, check_selfie, check_selfie_metadata, user_guard}
use codebase_be_nestjs.SignContract.Order.{check_selfie-no_skip}
use codebase_be_nestjs.Tests.Samples.{
  user_payload, live_world, late_world, sample_libraries, sample_request, sample_session,
}

abbrev pub user : Libraries
user = sample_libraries user_payload

abbrev Answer : Type 0
Answer = ResponseDto ℕ String

abbrev success_answer : Answer
success_answer = record {
  result_data = 1;
  message = "";
  system_code = "SUCCESS";
  debug_error = none;
}

abbrev failed_answer : Answer
failed_answer = record { result_data = 0; message = ""; system_code = "FAILED"; debug_error = none }

abbrev answering : Answer → Exec (World memory) Answer
answering answer w = (ok answer, w)

-- The route of exampleAddSessionLocalFlow.
abbrev local_flow : PermissionMetadata
local_flow = record {
  provide_permissions = some (forgot_password ∷ []);
  required_permissions = some (user_otp_verified ∷ []);
}

-- The route of exampleAddPermissionFlow.
abbrev add_flow : PermissionMetadata
add_flow = record {
  provide_permissions = some (user_otp_verified ∷ []);
  required_permissions = none;
}

abbrev with_permission : PermissionMetadata → Metadata
with_permission permission = record {
  class_permission = none;
  handler_permission = some permission;
  class_flow = none;
  handler_flow = none;
}

passes : check (some add_flow) none (some sample_session) ≡ ok tt
unfolding check
passes = refl

pub live : load token "k:1" live_world ≡ (ok sample_session, live_world)
unfolding load get_session_value find
live = refl

live_late : load token "k:1" late_world ≡ (ok sample_session, late_world)
unfolding load get_session_value find
live_late = refl

required : includes SessionPermission-discrete (user_otp_verified ∷ []) user_otp_verified ≡ true
unfolding includes SessionPermission-discrete
required = refl

lacking : holds sample_session user_otp_verified ≡ false
unfolding includes
lacking = refl

intercept-lacks_example :
    (e : Exception) × (intercept
        (with_permission local_flow)
        (some sample_session)
        (answering success_answer)
        live_world
      ≡ (failed e, live_world))
intercept-lacks_example =
    intercept-lacks (with_permission local_flow) sample_session (answering success_answer)
      live_world (inl (user_otp_verified, required, lacking))

intercept-pending_example :
    intercept (with_permission add_flow) (some sample_session) (answering success_answer) late_world
    ≡ (pending, late_world)
intercept-pending_example =
    intercept-pending sample_session (answering success_answer) late_world late_world success_answer
      refl add_flow user_otp_verified [] refl refl passes (with_permission add_flow) refl refl
      sample_session live_late 1000 refl (omega arith)

pub admitted_sample :
    can_activate user user_guard sample_request live_world
    ≡ (ok (record { user = user_payload; session = sample_session }), live_world)
unfolding can_activate admit admit_class validate_session behind_space before_space token_type_map
    includes TokenClass-discrete SessionType-discrete load get_session_value find
admitted_sample = refl

not_verified : flow_holds sample_session sign_contract otp_verified ≡ false
unfolding includes FlowPermission-discrete
not_verified = refl

check_selfie-no_skip_example :
    (e : Exception) × (route user false check_selfie_metadata check_selfie sample_request live_world
      ≡ (failed e, live_world))
check_selfie-no_skip_example =
    check_selfie-no_skip user false sample_request live_world
      (record { user = user_payload; session = sample_session }) admitted_sample (inr not_verified)
