-- ===== src/Tests/Signing.antt =====
-- Signing a contract from the first step to the last on concrete inputs.
use codebase_be_nestjs.Common.{read, ◌≡◌, refl, true, false, [], ◌∷◌, arith, includes, push_missing}
use codebase_be_nestjs.Common.Effect.{Result, ok, err}
use codebase_be_nestjs.Shared.Flow.{
  FlowPermission-discrete, FlowType-discrete, otp_requested, otp_verified, selfie_verified,
}
use codebase_be_nestjs.Shared.SessionType.{token, SessionType-discrete}
use codebase_be_nestjs.Shared.Token.{TokenClass-discrete, user_jwt_payload, token_type_map}
use codebase_be_nestjs.Shared.Session.{BaseJwtSession}
use codebase_be_nestjs.Session.{get_session_value, add_session}
use codebase_be_nestjs.AuthSession.{load, save, add_flow_of, add_flow_session, add_flow_permissions}
use codebase_be_nestjs.Redis.Memory.{memory, find, without, setex}
use codebase_be_nestjs.Redis.Storage.{World}
use codebase_be_nestjs.Guard.{
  Admitted, is_expired, can_activate, admit, admit_class, behind_space, before_space, jwt_session,
  validate_session,
}
use codebase_be_nestjs.Permission.{check, provide, intercept}
use codebase_be_nestjs.Response.{respond, known_code}
use codebase_be_nestjs.SignContract.{
  SignContractResponse, route, guarded_route, handle_route, request_otp, request_otp_metadata,
  check_otp, check_otp_metadata, check_selfie, check_selfie_metadata, user_guard, user_sessions,
}
use codebase_be_nestjs.SignContract.Steps.{key_of, success_of, LeavesFlow}
use codebase_be_nestjs.Guard.Acceptance.{can_activate-accepts}
use codebase_be_nestjs.SignContract.Started.{IsSigning}
use codebase_be_nestjs.Session.Laws.{get_session_value_unchanged}
use codebase_be_nestjs.AuthSession.{token_session_service}
use codebase_be_nestjs.SignContract.Complete.{
  Turn, requested-IsSigning, checked-IsSigning, requested, checked, signing-completes,
}
use codebase_be_nestjs.Tests.Samples.{user_payload, live_world, sample_request, sample_session}
use codebase_be_nestjs.Tests.Requests.{user, live, admitted_sample}
use codebase_be_nestjs.Tests.Contracts.{sample_sign_contract, decorates, stored, was_requested}
use codebase_be_nestjs.SignContract.Overtaken.{
  overtaken, overtaken_world, overtaken-IsSigning, check_otp-overtaken,
}

found_or_sample : Result BaseJwtSession → BaseJwtSession
found_or_sample (ok session) = session
found_or_sample (err e) = sample_session

-- A request with the user's token is let through with a session that is stored and allowed.
lets_for :
    (w : World memory) (session : BaseJwtSession)
    → is_expired w.now (read user_payload.exp) ≡ false
    → (get_session_value token_session_service token "k:1" w).0 ≡ ok user_payload
    → load token "k:1" w ≡ (ok session, w)
    → validate_session user session user_sessions ≡ ok session
    → can_activate user user_guard sample_request w
      ≡ (ok (record { user = user_payload; session = session }), w)
unfolding token_type_map includes TokenClass-discrete before_space behind_space
lets_for w session current there loads allowed =
    can_activate-accepts user user_guard sample_request w
      (record { user = user_payload; session = session })
      (record {
        token = "Bearer jwt";
        raw = user_payload;
        class = user_jwt_payload;
        has_token = refl;
        filled = refl;
        decodes = refl;
        current = current;
        class_known = refl;
        class_allowed = refl;
        admits = record {
          content = user_payload;
          token_live = get_session_value_unchanged token_session_service token "k:1" w there;
          signature = λ h. absurd (ground (arith, h));
          user = refl;
          valid = refl;
          session_live = loads;
          session_allowed = (session, allowed);
        };
      })

abbrev first : Turn user "k:1" live_world
first = record {
  request = sample_request;
  admitted = record { user = user_payload; session = sample_session };
  lets = admitted_sample;
  decorated = sample_session;
  allows = decorates;
  owns = refl;
  bound = refl;
  channel = refl;
  current = live;
}

-- A second after the first step.
abbrev requested_world : World memory
requested_world = requested user false sample_sign_contract "k:1" 1000 live_world first 6000

abbrev requested_session : BaseJwtSession
requested_session = found_or_sample (load token "k:1" requested_world).0

requested_there : load token "k:1" requested_world ≡ (ok requested_session, requested_world)
unfolding load get_session_value find route guarded_route handle_route intercept provide check
    request_otp can_activate admit admit_class behind_space before_space validate_session includes
    add_flow_session add_flow_of add_flow_permissions save add_session without setex respond
    known_code token_type_map FlowPermission-discrete FlowType-discrete SessionType-discrete
    TokenClass-discrete found_or_sample check_otp push_missing
requested_there = refl

abbrev requested_admitted : Admitted
requested_admitted = record { user = user_payload; session = requested_session }

requested_lets :
    can_activate user user_guard sample_request requested_world
    ≡ (ok requested_admitted, requested_world)
unfolding load get_session_value find route guarded_route handle_route intercept provide check
    request_otp can_activate admit admit_class behind_space before_space validate_session includes
    add_flow_session add_flow_of add_flow_permissions save add_session without setex respond
    known_code token_type_map FlowPermission-discrete FlowType-discrete SessionType-discrete
    TokenClass-discrete found_or_sample check_otp push_missing
requested_lets = refl

requested_decorates : jwt_session user user_sessions requested_admitted ≡ ok requested_session
unfolding load get_session_value find route guarded_route handle_route intercept provide check
    request_otp can_activate admit admit_class behind_space before_space validate_session includes
    add_flow_session add_flow_of add_flow_permissions save add_session without setex respond
    known_code token_type_map FlowPermission-discrete FlowType-discrete SessionType-discrete
    TokenClass-discrete found_or_sample check_otp push_missing
requested_decorates = refl

requested_key : key_of requested_admitted ≡ "k:1"
unfolding load get_session_value find route guarded_route handle_route intercept provide check
    request_otp can_activate admit admit_class behind_space before_space validate_session includes
    add_flow_session add_flow_of add_flow_permissions save add_session without setex respond
    known_code token_type_map FlowPermission-discrete FlowType-discrete SessionType-discrete
    TokenClass-discrete found_or_sample check_otp push_missing
requested_key = refl

abbrev second : Turn user "k:1" requested_world
second = record {
  request = sample_request;
  admitted = requested_admitted;
  lets = requested_lets;
  decorated = requested_session;
  allows = requested_decorates;
  owns = requested_key;
  bound = refl;
  channel = refl;
  current = requested_there;
}

-- A second after the second step.
abbrev checked_world : World memory
checked_world = checked user false sample_sign_contract "k:1" 1000 requested_world second 7000

abbrev checked_session : BaseJwtSession
checked_session = found_or_sample (load token "k:1" checked_world).0

load-found :
    {w : World memory} {session : BaseJwtSession}
    → load token "k:1" w ≡ (ok session, w)
    → load token "k:1" w ≡ (ok (found_or_sample (load token "k:1" w).0), w)
unfolding found_or_sample
load-found h = rw h refl

requested_signing : IsSigning requested_world "k:1" 1000 (otp_requested ∷ [])
requested_signing =
    requested-IsSigning user false sample_sign_contract "k:1" 1000 live_world first 6000 stored
      (omega arith) (omega arith)

checked_signing : IsSigning checked_world "k:1" 1000 (otp_requested ∷ otp_verified ∷ [])
checked_signing =
    checked-IsSigning user false sample_sign_contract "k:1" 1000 requested_world second 7000
      requested_signing (omega arith) (omega arith)

checked_there : load token "k:1" checked_world ≡ (ok checked_session, checked_world)
checked_there = load-found checked_signing.stored.there

abbrev checked_admitted : Admitted
checked_admitted = record { user = user_payload; session = checked_session }

checked_token :
    (get_session_value token_session_service token "k:1" checked_world).0 ≡ ok user_payload
unfolding load get_session_value find route guarded_route handle_route intercept provide check
    request_otp can_activate admit admit_class behind_space before_space validate_session includes
    add_flow_session add_flow_of add_flow_permissions save add_session without setex respond
    known_code token_type_map FlowPermission-discrete FlowType-discrete SessionType-discrete
    TokenClass-discrete found_or_sample check_otp push_missing
checked_token = refl

checked_allowed : validate_session user checked_session user_sessions ≡ ok checked_session
unfolding load get_session_value find route guarded_route handle_route intercept provide check
    request_otp can_activate admit admit_class behind_space before_space validate_session includes
    add_flow_session add_flow_of add_flow_permissions save add_session without setex respond
    known_code token_type_map FlowPermission-discrete FlowType-discrete SessionType-discrete
    TokenClass-discrete found_or_sample check_otp push_missing
checked_allowed = refl

checked_lets :
    can_activate user user_guard sample_request checked_world ≡ (ok checked_admitted, checked_world)
checked_lets =
    lets_for checked_world checked_session refl checked_token checked_there checked_allowed

checked_decorates : jwt_session user user_sessions checked_admitted ≡ ok checked_session
unfolding load get_session_value find route guarded_route handle_route intercept provide check
    request_otp can_activate admit admit_class behind_space before_space validate_session includes
    add_flow_session add_flow_of add_flow_permissions save add_session without setex respond
    known_code token_type_map FlowPermission-discrete FlowType-discrete SessionType-discrete
    TokenClass-discrete found_or_sample check_otp push_missing
checked_decorates = refl

checked_key : key_of checked_admitted ≡ "k:1"
unfolding load get_session_value find route guarded_route handle_route intercept provide check
    request_otp can_activate admit admit_class behind_space before_space validate_session includes
    add_flow_session add_flow_of add_flow_permissions save add_session without setex respond
    known_code token_type_map FlowPermission-discrete FlowType-discrete SessionType-discrete
    TokenClass-discrete found_or_sample check_otp push_missing
checked_key = refl

abbrev third : Turn user "k:1" checked_world
third = record {
  request = sample_request;
  admitted = checked_admitted;
  lets = checked_lets;
  decorated = checked_session;
  allows = checked_decorates;
  owns = checked_key;
  bound = refl;
  channel = refl;
  current = checked_there;
}

signing-completes_example :
    let success = success_of {D = SignContractResponse} false (record { is_susses = true }) in
    let one =
      route user false request_otp_metadata
        (request_otp sample_sign_contract)
        sample_request
        live_world in
    let two = route user false check_otp_metadata check_otp sample_request requested_world in
    let three = route user false check_selfie_metadata check_selfie sample_request checked_world in
    (one.0 ≡ success)
    × (two.0 ≡ success)
    × (three.0 ≡ success)
    × LeavesFlow "k:1" 7000 1000 three.1 (otp_requested ∷ otp_verified ∷ []) (selfie_verified ∷ [])
signing-completes_example =
    signing-completes user false sample_sign_contract "k:1" 1000 live_world first 6000 second 7000
      third stored (omega arith) (omega arith) (omega arith)

-- A checkOtp that a requestOtp overtakes, a second before it returns.
abbrev overtaken_live : World memory
overtaken_live =
    overtaken_world user false sample_sign_contract "k:1" 1000 live_world first first 6000 7000

abbrev overtaken_session : BaseJwtSession
overtaken_session = found_or_sample (load token "k:1" overtaken_live).0

overtaken_there : load token "k:1" overtaken_live ≡ (ok overtaken_session, overtaken_live)
overtaken_there =
    load-found
      (overtaken-IsSigning user false sample_sign_contract "k:1" 1000 live_world first first 6000
        was_requested stored (omega arith) (omega arith) 7000 (omega arith)
        (omega arith)).stored.there

overtaken_token :
    (get_session_value token_session_service token "k:1" overtaken_live).0 ≡ ok user_payload
unfolding load get_session_value find route guarded_route handle_route intercept provide check
    request_otp can_activate admit admit_class behind_space before_space validate_session includes
    add_flow_session add_flow_of add_flow_permissions save add_session without setex respond
    known_code token_type_map FlowPermission-discrete FlowType-discrete SessionType-discrete
    TokenClass-discrete found_or_sample check_otp push_missing
overtaken_token = refl

overtaken_allowed : validate_session user overtaken_session user_sessions ≡ ok overtaken_session
unfolding load get_session_value find route guarded_route handle_route intercept provide check
    request_otp can_activate admit admit_class behind_space before_space validate_session includes
    add_flow_session add_flow_of add_flow_permissions save add_session without setex respond
    known_code token_type_map FlowPermission-discrete FlowType-discrete SessionType-discrete
    TokenClass-discrete found_or_sample check_otp push_missing
overtaken_allowed = refl

overtaken_key : key_of (record { user = user_payload; session = overtaken_session }) ≡ "k:1"
unfolding load get_session_value find route guarded_route handle_route intercept provide check
    request_otp can_activate admit admit_class behind_space before_space validate_session includes
    add_flow_session add_flow_of add_flow_permissions save add_session without setex respond
    known_code token_type_map FlowPermission-discrete FlowType-discrete SessionType-discrete
    TokenClass-discrete found_or_sample check_otp push_missing
overtaken_key = refl

abbrev after_overtaken : Turn user "k:1" overtaken_live
after_overtaken = record {
  request = sample_request;
  admitted = record { user = user_payload; session = overtaken_session };
  lets =
      lets_for overtaken_live overtaken_session refl overtaken_token overtaken_there
        overtaken_allowed;
  decorated = overtaken_session;
  allows = overtaken_allowed;
  owns = overtaken_key;
  bound = refl;
  channel = refl;
  current = overtaken_there;
}

check_otp-overtaken_example :
    let success = success_of {D = SignContractResponse} false (record { is_susses = true }) in
    let two =
      route user false check_otp_metadata
        (overtaken user false sample_sign_contract "k:1" 1000 sample_request 6000)
        sample_request
        live_world in
    let three = route user false check_selfie_metadata check_selfie sample_request overtaken_live in
    (two.0 ≡ success)
    × LeavesFlow "k:1" 6000 1000 two.1 (otp_requested ∷ []) (otp_verified ∷ [])
    × (three.0 ≡ success)
check_otp-overtaken_example =
    check_otp-overtaken user false sample_sign_contract "k:1" 1000 live_world first first 6000
      was_requested stored (omega arith) (omega arith) 7000 after_overtaken (omega arith)
      (omega arith)
