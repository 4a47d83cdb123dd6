-- ===== src/SignContract/Steps.antt =====
-- What the routes of module/sign-contract leave in the session, also when they overlap.
use codebase_be_nestjs.Common.{
  arith, ℕ, ◌≤◌, ◌<◌, String, ◌==◌, ◌≡◌, refl, ap, ◌∙◌, Bool, true, Option, none, some, List, [],
  ◌∷◌, ◌||◌, read, includes,
}
use codebase_be_nestjs.Common.Effect.{Exec, ok}
use codebase_be_nestjs.Shared.SystemCode.{code_text, success}
use codebase_be_nestjs.Shared.SessionType.{token}
use codebase_be_nestjs.Shared.Flow.{
  FlowPermission, FlowPermission-discrete, BaseFlowSession, otp_requested, otp_verified,
  selfie_verified, sign_contract,
}
use codebase_be_nestjs.Shared.Session.{BaseJwtSession}
use codebase_be_nestjs.Shared.Token.{BaseJwtPayload, session_bound_id, template}
use codebase_be_nestjs.Redis.Server.{Server}
use codebase_be_nestjs.Redis.Storage.{World}
use codebase_be_nestjs.Session.Laws.{at_time}
use codebase_be_nestjs.AuthSession.{list_or_nil, get_flow_session}
use codebase_be_nestjs.AuthSession.Lifetime.{end_of, end_of_after}
use codebase_be_nestjs.Auth.External.{Libraries}
use codebase_be_nestjs.Guard.{Request, Admitted, can_activate, jwt_session}
use codebase_be_nestjs.Permission.{FlowPermissionMetadata, Outcome, emitted, check}
use codebase_be_nestjs.Permission.Checks.{flow_holds, check-one, check-two}
use codebase_be_nestjs.Permission.FlowGrants.{intercept-grants_flow}
use codebase_be_nestjs.Response.{Answer, value, known_code, respond}
use codebase_be_nestjs.SignContract.{
  SignContractLibrary, request_otp, check_otp, check_selfie, check_selfie_metadata, user_guard,
  user_sessions, flow_metadata, request_otp_metadata, check_otp_metadata, route, handle_route,
}
use codebase_be_nestjs.SignContract.Order.{route-intercept}
use codebase_be_nestjs.SignContract.Started.{
  IsStored, IsSigning, request_otp_lem, after, after-now, after-IsSigning, after_selfie,
  check_selfie_lem, after_selfie-now, after_selfie-IsSigning,
}

pub passes_freely :
    (session : BaseJwtSession) (q : FlowPermission)
    → check none
        (some (record {
          flow = sign_contract;
          provide_permissions = some (q ∷ []);
          required_permissions = none;
        }))
        (some session)
      ≡ ok tt
unfolding check
passes_freely session q = refl

pub success_code :
    {D : Type 0} (show : Bool) (d : D)
    → ((respond show 200 (value d)).0.system_code == code_text success) ≡ true
unfolding respond known_code
success_code show d = refl

abbrev pub success_of : {D : Type 0} → Bool → D → Outcome (Answer D)
success_of show d = emitted (respond show 200 (value d)).0

-- The key under which the permission interceptor stores what a route gives.
abbrev pub key_of : Admitted → String
key_of admitted = template (read admitted.session.key)

-- From a time until the session ends, the flow at the key is read back, and holds exactly the two
-- lists.
abbrev pub LeavesFlow :
    {r : Server} → String → ℕ → ℕ → World r → List FlowPermission → List FlowPermission → Type 0
LeavesFlow key now ends after held given =
    (t : ℕ) (x : FlowPermission)
    → now ≤ t
    → t < end_of now ends
    → (new : BaseFlowSession) × ((get_flow_session key sign_contract token (at_time after t)).0
        ≡ ok new)
      × (includes FlowPermission-discrete (list_or_nil (read new.permissions)) x
          ≡ (includes FlowPermission-discrete held x || includes FlowPermission-discrete given x))

-- A route that gives flow permissions of contract signing, on a request that the guard and the
-- decorator let through.
module _ {r : Server} (lib : Libraries) (show : Bool) (request : Request) (w : World r)
    (admitted : Admitted) (lets : can_activate lib user_guard request w ≡ (ok admitted, w))
    (decorated : BaseJwtSession)
    (allows : jwt_session lib user_sessions admitted ≡ ok decorated) where
  module _ {D : Type 0} (method : BaseJwtPayload → Exec (World r) D) (d : D) (w' : World r)
      (runs : method admitted.user w ≡ (ok d, w')) (required : Option (List FlowPermission))
      (q : FlowPermission) where
    abbrev pub flow_guard : FlowPermissionMetadata
    flow_guard = record {
      flow = sign_contract;
      provide_permissions = some (q ∷ []);
      required_permissions = required;
    }

    pub handles :
        handle_route lib show user_sessions admitted method w
        ≡ (ok (respond show 200 (value d)).0, w')
    unfolding handle_route
    handles = rw (allows, runs) refl

    pub route-grants :
        (ends : ℕ) (held : List FlowPermission)
        → check none (some flow_guard) (some admitted.session) ≡ ok tt
        → IsSigning w' (key_of admitted) ends held
        → let after = route lib show (flow_metadata required (q ∷ [])) method request w in
          (after.0 ≡ success_of show d)
          × LeavesFlow (key_of admitted) w'.now ends after.1 held (q ∷ [])
    route-grants ends held passes signing =
        let meta = flow_metadata required (q ∷ []) in
        let behind = route-intercept lib show request w admitted lets meta method in
        let grants =
          intercept-grants_flow admitted.session
            (handle_route lib show user_sessions admitted method) w w'
            (respond show 200 (value d)).0 handles (success_code show d) flow_guard q [] refl passes
            meta refl refl signing.stored.session signing.stored.there ends signing.stored.exp
            signing.stored.alive signing.flow signing.here held signing.permissions in
        (
          ap (λ p. p.0) behind
              ∙ (grants w'.now q (omega arith) (end_of_after w'.now ends signing.stored.alive)).0,
          λ t x le lt. rw behind (let (_, new, found, has) = grants t x le lt in (new, found, has)),
        )

  -- For a user's requestOtp that the guard and the decorator let through, whose token is of the
  -- session's own key, and a stored session with whole seconds of life left: the answer is a
  -- success, and until the session ends the flow of contract signing holds OTP_REQUESTED and
  -- nothing else.
  pub request_otp-starts :
      (contract : SignContractLibrary) (ends : ℕ)
      → admitted.user.session_channel ≡ token
      → key_of admitted ≡ session_bound_id admitted.user
      → IsStored w (session_bound_id admitted.user) ends
      → let after = route lib show request_otp_metadata (request_otp contract) request w in
        (after.0 ≡ success_of show (record { is_susses = true }))
        × LeavesFlow (key_of admitted) w.now ends after.1 [] (otp_requested ∷ [])
  request_otp-starts contract ends channel owns stored =
      let lem =
        route-grants (request_otp contract) (record { is_susses = true })
          (after contract admitted.user channel w ends stored)
          (request_otp_lem contract admitted.user channel w ends stored) none otp_requested ends []
          (passes_freely admitted.session otp_requested)
          (rw owns (after-IsSigning contract admitted.user channel w ends stored)) in
      rw (after-now contract admitted.user channel w ends stored) at lem

  -- For a checkOtp that the guard and the decorator let through, with a session that had
  -- OTP_REQUESTED when it was admitted, and a stored session with whole seconds of life left and a
  -- flow of contract signing with a list of permissions: the answer is a success, and until the
  -- session ends the flow holds what it held and OTP_VERIFIED.
  pub check_otp-verifies :
      (ends : ℕ) (held : List FlowPermission)
      → flow_holds admitted.session sign_contract otp_requested ≡ true
      → IsSigning w (key_of admitted) ends held
      → let after = route lib show check_otp_metadata check_otp request w in
        (after.0 ≡ success_of show (record { is_susses = true }))
        × LeavesFlow (key_of admitted) w.now ends after.1 held (otp_verified ∷ [])
  unfolding check_otp
  check_otp-verifies ends held requested signing =
      route-grants check_otp (record { is_susses = true }) w refl (some (otp_requested ∷ []))
        otp_verified ends held (check-one admitted.session _ otp_requested refl requested) signing

  -- For a user's checkSelfie that the guard and the decorator let through, whose token is of the
  -- session's own key, with a session that had OTP_REQUESTED and OTP_VERIFIED when it was
  -- admitted, and a stored session with whole seconds of life left and a flow of contract signing
  -- with a list of permissions: the answer is a success, and until the session ends the flow holds
  -- what it held, which the update with the selfie keeps, and SELFIE_VERIFIED.
  pub check_selfie-verifies :
      (ends : ℕ) (held : List FlowPermission)
      → flow_holds admitted.session sign_contract otp_requested ≡ true
      → flow_holds admitted.session sign_contract otp_verified ≡ true
      → admitted.user.session_channel ≡ token
      → key_of admitted ≡ session_bound_id admitted.user
      → IsSigning w (session_bound_id admitted.user) ends held
      → let after = route lib show check_selfie_metadata check_selfie request w in
        (after.0 ≡ success_of show (record { is_susses = true }))
        × LeavesFlow (key_of admitted) w.now ends after.1 held (selfie_verified ∷ [])
  check_selfie-verifies ends held requested verified channel owns signing =
      let lem =
        route-grants check_selfie (record { is_susses = true })
          (after_selfie admitted.user channel w ends held signing)
          (check_selfie_lem admitted.user channel w ends held signing)
          (some (otp_requested ∷ otp_verified ∷ [])) selfie_verified ends held
          (check-two admitted.session _ otp_requested otp_verified refl requested verified)
          (rw owns (after_selfie-IsSigning admitted.user channel w ends held signing)) in
      rw (after_selfie-now admitted.user channel w ends held signing) at lem
