-- ===== src/SignContract/Complete.antt =====
-- Signing a contract from the first step to the last, with module/sign-contract.
use codebase_be_nestjs.Common.{
  ℕ, ◌/◌, ◌≤◌, ◌<◌, String, ◌≡◌, refl, sym, ap, ◌∙◌, Bool, true, Option, none, some, List, [], ◌∷◌,
  includes, push_missing, val, arith, eq_refl, lt→ltb, same_refl,
}
use codebase_be_nestjs.Common.Int.{pos}
use codebase_be_nestjs.Common.Effect.{Exec, ok, ok_inj}
use codebase_be_nestjs.Shared.SessionType.{token}
use codebase_be_nestjs.Shared.Flow.{
  FlowPermission, BaseFlowSession, FlowPermission-discrete, FlowType-discrete, otp_requested,
  otp_verified, selfie_verified, sign_contract, stored_flow,
}
use codebase_be_nestjs.Shared.Session.{BaseJwtSession}
use codebase_be_nestjs.Shared.Token.{BaseJwtPayload, session_bound_id}
use codebase_be_nestjs.Redis.Server.{Server}
use codebase_be_nestjs.Redis.Storage.{World}
use codebase_be_nestjs.Session.Laws.{at_time}
use codebase_be_nestjs.AuthSession.{load, save, with_flow}
use codebase_be_nestjs.AuthSession.Lifetime.{saved, end_of, load-save, load-unchanged}
use codebase_be_nestjs.AuthSession.Flows.{flow_at-saved-with_flow}
use codebase_be_nestjs.Auth.External.{Libraries}
use codebase_be_nestjs.Guard.{Request, Admitted, can_activate, jwt_session}
use codebase_be_nestjs.Permission.{check}
use codebase_be_nestjs.Permission.Checks.{flow_holds, check-one}
use codebase_be_nestjs.Permission.FlowGrants.{intercept-save}
use codebase_be_nestjs.Response.{value, respond}
use codebase_be_nestjs.SignContract.{
  SignContractLibrary, SignContractResponse, request_otp, check_otp, check_selfie, user_guard,
  user_sessions, flow_metadata, request_otp_metadata, check_otp_metadata, check_selfie_metadata,
  route, handle_route,
}
use codebase_be_nestjs.SignContract.Order.{route-intercept}
use codebase_be_nestjs.SignContract.Started.{
  IsStored, IsSigning, request_otp_lem, after, after-now, after-IsSigning,
}
use codebase_be_nestjs.SignContract.Steps.{
  key_of, flow_guard, handles, success_code, success_of, LeavesFlow, passes_freely,
  request_otp-starts, check_otp-verifies, check_selfie-verifies,
}

-- A session that holds permissions of contract signing, as the guard reads it.
pub IsSigning-holds :
    {r : Server} {w : World r} {key : String} {ends : ℕ} {held : List FlowPermission}
    (signing : IsSigning w key ends held) (session : BaseJwtSession)
    → load token key w ≡ (ok session, w)
    → (q : FlowPermission) → includes FlowPermission-discrete held q ≡ true
    → flow_holds session sign_contract q ≡ true
IsSigning-holds signing session there q h =
    let same = ok_inj (ap (λ p. p.0) (sym signing.stored.there ∙ there)) in
    ap (λ s. flow_holds s sign_contract q) (sym same) ∙ rw (signing.here, signing.permissions) h

-- What is read of a session that was saved with a flow of contract signing, before it ends.
save-IsSigning :
    {r : Server} (w : World r) (key : String) (ends : ℕ) (session : BaseJwtSession)
    (flow : BaseFlowSession) (held : List FlowPermission)
    → session.exp ≡ val (pos ends)
    → w.now / 1000 < ends
    → (t : ℕ) → w.now ≤ t
    → t / 1000 < ends
    → IsSigning
        (at_time
          (save token key
            (with_flow sign_contract (val (record flow { permissions = val held })) session)
            w).1
          t)
        key
        ends
        held
save-IsSigning w key ends session flow held exp now t le alive =
    let new : BaseFlowSession = record flow { permissions = val held } in
    let kept : BaseJwtSession = with_flow sign_contract (val new) session in
    record {
      stored = record {
        session = saved w.now kept;
        there = load-unchanged token key (at_time (save token key kept w).1 t) (
            load-save w token key kept ends exp now t key le
            ∙ rw (eq_refl key, lt→ltb t (end_of w.now ends) (omega (arith, now, alive))) refl);
        exp = rw exp refl;
        alive = alive;
      };
      flow = stored_flow new;
      here =
          flow_at-saved-with_flow w.now session sign_contract sign_contract (val new)
          ∙ rw (same_refl FlowType-discrete sign_contract) refl;
      permissions = refl;
    }

module _ {r : Server} (lib : Libraries) (show : Bool) (request : Request) (w : World r)
    (admitted : Admitted) (lets : can_activate lib user_guard request w ≡ (ok admitted, w))
    (decorated : BaseJwtSession) (allows : jwt_session lib user_sessions admitted ≡ ok decorated)
    {D : Type 0} (method : BaseJwtPayload → Exec (World r) D) (d : D) (w' : World r)
    (runs : method admitted.user w ≡ (ok d, w')) (required : Option (List FlowPermission))
    (q : FlowPermission) (ends : ℕ) (held : List FlowPermission)
    (passes : check none
        (some (
          flow_guard lib show request w admitted lets decorated allows method d w' runs required q))
        (some admitted.session)
      ≡ ok tt)
    (signing : IsSigning w' (key_of admitted) ends held) where
  -- What a request that comes later finds, before the session ends.
  pub route-IsSigning :
      (t : ℕ)
      → w'.now ≤ t
      → t / 1000 < ends
      → IsSigning
          (at_time (route lib show (flow_metadata required (q ∷ [])) method request w).1 t)
          (key_of admitted)
          ends
          (push_missing FlowPermission-discrete held (q ∷ []))
  route-IsSigning t le alive =
      let meta = flow_metadata required (q ∷ []) in
      let behind =
        route-intercept lib show request w admitted lets meta method
        ∙ intercept-save admitted.session (handle_route lib show user_sessions admitted method) w w'
            (respond show 200 (value d)).0
            (handles lib show request w admitted lets decorated allows method d w' runs required q)
            (success_code show d) _ q [] refl passes meta refl refl signing.stored.session
            signing.stored.there ends signing.stored.exp signing.stored.alive signing.flow
            signing.here held signing.permissions in
      rw behind (
        save-IsSigning w' (key_of admitted) ends signing.stored.session signing.flow
          (push_missing FlowPermission-discrete held (q ∷ [])) signing.stored.exp
          signing.stored.alive t le alive)

-- A request for the session at a key, in a world in which the guard and the decorator let it
-- through with the session that is stored.
pub record Turn {r : Server} (lib : Libraries) (key : String) (w : World r) : Type 0 where
  pub request : Request
  pub admitted : Admitted
  pub lets : can_activate lib user_guard request w ≡ (ok admitted, w)
  pub decorated : BaseJwtSession
  pub allows : jwt_session lib user_sessions admitted ≡ ok decorated
  pub owns : key_of admitted ≡ key
  pub bound : session_bound_id admitted.user ≡ key
  pub channel : admitted.user.session_channel ≡ token
  pub current : load token key w ≡ (ok admitted.session, w)

-- A time no later than another is in a second that is no later.
earlier_second : (t1 t2 ends : ℕ) → t1 ≤ t2 → t2 / 1000 < ends → t1 / 1000 < ends
earlier_second t1 t2 ends le alive = omega (arith, le, alive)

module _ {r : Server} (lib : Libraries) (show : Bool) (contract : SignContractLibrary)
    (key : String) (ends : ℕ) where
  -- The worlds that the first two steps leave, at a later time.
  abbrev pub requested : (w : World r) → Turn lib key w → ℕ → World r
  requested w turn t =
      at_time (route lib show request_otp_metadata (request_otp contract) turn.request w).1 t

  abbrev pub checked : (w : World r) → Turn lib key w → ℕ → World r
  checked w turn t = at_time (route lib show check_otp_metadata check_otp turn.request w).1 t

  pub requested-IsSigning :
      (w : World r) (turn : Turn lib key w) (t : ℕ)
      → IsStored w key ends
      → w.now ≤ t
      → t / 1000 < ends
      → IsSigning (requested w turn t) key ends (otp_requested ∷ [])
  unfolding push_missing FlowPermission-discrete includes
  requested-IsSigning w turn t stored le alive =
      let at_bound : IsStored w (session_bound_id turn.admitted.user) ends = rw turn.bound stored in
      let lem =
        route-IsSigning lib show turn.request w turn.admitted turn.lets turn.decorated turn.allows
          (request_otp contract) (record { is_susses = true })
          (after contract turn.admitted.user turn.channel w ends at_bound)
          (request_otp_lem contract turn.admitted.user turn.channel w ends at_bound) none
          otp_requested ends [] (passes_freely turn.admitted.session otp_requested)
          (rw (turn.owns ∙ sym turn.bound)
            (after-IsSigning contract turn.admitted.user turn.channel w ends at_bound))
          t in
      rw turn.owns at
        (lem (rw (after-now contract turn.admitted.user turn.channel w ends at_bound) le) alive)

  pub checked-IsSigning :
      (w : World r) (turn : Turn lib key w) (t : ℕ)
      → IsSigning w key ends (otp_requested ∷ [])
      → w.now ≤ t
      → t / 1000 < ends
      → IsSigning (checked w turn t) key ends (otp_requested ∷ otp_verified ∷ [])
  unfolding push_missing includes FlowPermission-discrete check_otp
  checked-IsSigning w turn t signing le alive =
      let lem =
        route-IsSigning lib show turn.request w turn.admitted turn.lets turn.decorated turn.allows
          check_otp (record { is_susses = true }) w refl (some (otp_requested ∷ [])) otp_verified
          ends (otp_requested ∷ [])
          (check-one turn.admitted.session _ otp_requested refl
            (IsSigning-holds signing turn.admitted.session turn.current otp_requested refl))
          (rw turn.owns signing) t in
      rw turn.owns at (lem le alive)

  -- For a session that is stored, and three requests with a user's token of its key, requestOtp,
  -- then checkOtp at a time no earlier than that and checkSelfie at a time no earlier than that of
  -- checkOtp, in a second before the session's exp, with nothing else in between, each of which
  -- the guard and the decorator let through with the session that is stored when it comes: all
  -- three answers are successes, so the permissions that each step asks for are those that the
  -- steps before it have stored, and after the third the flow of contract signing holds
  -- OTP_REQUESTED, OTP_VERIFIED and SELFIE_VERIFIED, and nothing else, until the session ends.
  pub signing-completes :
      (w : World r) (first : Turn lib key w) (t1 : ℕ) (second : Turn lib key (requested w first t1))
      (t2 : ℕ) (third : Turn lib key (checked (requested w first t1) second t2))
      → IsStored w key ends
      → w.now ≤ t1
      → t1 ≤ t2
      → t2 / 1000 < ends
      → let one = route lib show request_otp_metadata (request_otp contract) first.request w in
        let two =
          route lib show check_otp_metadata check_otp second.request (requested w first t1) in
        let three =
          route lib show check_selfie_metadata check_selfie third.request
            (checked (requested w first t1) second t2) in
        let success = success_of {D = SignContractResponse} show (record { is_susses = true }) in
        (one.0 ≡ success)
        × (two.0 ≡ success)
        × (three.0 ≡ success)
        × LeavesFlow key t2 ends three.1 (otp_requested ∷ otp_verified ∷ []) (selfie_verified ∷ [])
  unfolding includes FlowPermission-discrete
  signing-completes w first t1 second t2 third stored le1 le2 alive =
      let alive1 : t1 / 1000 < ends = earlier_second t1 t2 ends le2 alive in
      let signing1 = requested-IsSigning w first t1 stored le1 alive1 in
      let signing2 = checked-IsSigning (requested w first t1) second t2 signing1 le2 alive in
      let holds3 = IsSigning-holds signing2 third.admitted.session third.current in
      let start =
        request_otp-starts lib show first.request w first.admitted first.lets first.decorated
          first.allows contract ends first.channel (first.owns ∙ sym first.bound)
          (rw first.bound stored) in
      let check =
        check_otp-verifies lib show second.request (requested w first t1) second.admitted
          second.lets second.decorated second.allows ends (otp_requested ∷ [])
          (IsSigning-holds signing1 second.admitted.session second.current otp_requested refl)
          (rw second.owns signing1) in
      let selfie =
        check_selfie-verifies lib show third.request (checked (requested w first t1) second t2)
          third.admitted third.lets third.decorated third.allows ends
          (otp_requested ∷ otp_verified ∷ []) (holds3 otp_requested refl) (holds3 otp_verified refl)
          third.channel (third.owns ∙ sym third.bound) (rw third.bound signing2) in
      (start.0, check.0, selfie.0, rw third.owns at selfie.1)
