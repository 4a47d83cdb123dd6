-- ===== src/SignContract/Overtaken.antt =====
-- A requestOtp that is handled while a checkOtp of the same session runs, with
-- module/sign-contract and core/permission.
use codebase_be_nestjs.Common.{
  ℕ, ◌/◌, ◌≤◌, ◌<◌, String, ◌≡◌, refl, sym, ◌∙◌, Bool, true, some, [], ◌∷◌, includes, push_missing,
}
use codebase_be_nestjs.Common.Effect.{Exec}
use codebase_be_nestjs.Shared.Flow.{
  FlowPermission-discrete, otp_requested, otp_verified, sign_contract,
}
use codebase_be_nestjs.Shared.Token.{BaseJwtPayload}
use codebase_be_nestjs.Redis.Server.{Server}
use codebase_be_nestjs.Redis.Storage.{World}
use codebase_be_nestjs.Session.Laws.{at_time}
use codebase_be_nestjs.Auth.External.{Libraries}
use codebase_be_nestjs.Guard.{Request}
use codebase_be_nestjs.Permission.Checks.{flow_holds, check-one}
use codebase_be_nestjs.SignContract.{
  SignContractLibrary, SignContractResponse, request_otp, check_otp, check_selfie,
  request_otp_metadata, check_otp_metadata, check_selfie_metadata, route,
}
use codebase_be_nestjs.SignContract.Started.{IsStored, IsSigning}
use codebase_be_nestjs.SignContract.Steps.{key_of, success_of, LeavesFlow, check_selfie-verifies}
use codebase_be_nestjs.SignContract.Steps.{route-grants}
use codebase_be_nestjs.SignContract.Complete.{
  Turn, requested, requested-IsSigning, route-IsSigning, IsSigning-holds,
}

module _ {r : Server} (lib : Libraries) (show : Bool) (contract : SignContractLibrary)
    (key : String) (ends : ℕ) where
  -- checkOtp, when the whole route of requestOtp, from its guard to the permission that it gives, is
  -- run for another request before checkOtp returns, which it does at a later time.
  abbrev pub overtaken : Request → ℕ → BaseJwtPayload → Exec (World r) SignContractResponse
  overtaken other t payload w =
      check_otp payload
        (at_time (route lib show request_otp_metadata (request_otp contract) other w).1 t)

  -- The world that a checkOtp that was overtaken leaves, at a later time.
  abbrev pub overtaken_world : (w : World r) → Turn lib key w → Turn lib key w → ℕ → ℕ → World r
  overtaken_world w one other t t2 =
      at_time (route lib show check_otp_metadata (overtaken other.request t) one.request w).1 t2

  module _ (w : World r) (one other : Turn lib key w) (t : ℕ)
      (was_requested : flow_holds one.admitted.session sign_contract otp_requested ≡ true)
      (stored : IsStored w key ends) (le : w.now ≤ t) (alive : t / 1000 < ends) where
    start-IsSigning :
        IsSigning
          (requested lib show contract key ends w other t)
          (key_of one.admitted)
          ends
          (otp_requested ∷ [])
    start-IsSigning =
        rw one.owns (requested-IsSigning lib show contract key ends w other t stored le alive)

    pub overtaken-IsSigning :
        (t2 : ℕ)
        → t ≤ t2
        → t2 / 1000 < ends
        → IsSigning (overtaken_world w one other t t2) key ends (otp_requested ∷ otp_verified ∷ [])
    unfolding push_missing includes FlowPermission-discrete check_otp
    overtaken-IsSigning t2 later alive2 =
        let lem =
          route-IsSigning lib show one.request w one.admitted one.lets one.decorated one.allows
            (overtaken other.request t) (record { is_susses = true })
            (requested lib show contract key ends w other t) refl (some (otp_requested ∷ []))
            otp_verified ends (otp_requested ∷ [])
            (check-one one.admitted.session _ otp_requested refl was_requested) start-IsSigning
            t2 in
        rw one.owns at (lem later alive2)

    -- For a session that is stored, a checkOtp and a requestOtp with a user's token of its key,
    -- both let through by the guard and the decorator, the checkOtp with a session that had
    -- OTP_REQUESTED, and a time in a second before the session's exp: if the whole route of
    -- requestOtp, with the permission that it gives, is run until that time before checkOtp
    -- returns, then checkOtp succeeds and adds to what requestOtp has left: until the session ends
    -- the flow holds OTP_REQUESTED and OTP_VERIFIED, and nothing else. A checkSelfie that comes at
    -- a time no earlier, in a second before the exp, and is let through with the session that is
    -- stored by then, succeeds, although no checkOtp came after the requestOtp.
    pub check_otp-overtaken :
        (t2 : ℕ) (third : Turn lib key (overtaken_world w one other t t2))
        → t ≤ t2
        → t2 / 1000 < ends
        → let two = route lib show check_otp_metadata (overtaken other.request t) one.request w in
          let three =
            route lib show check_selfie_metadata check_selfie third.request
              (overtaken_world w one other t t2) in
          let success = success_of {D = SignContractResponse} show (record { is_susses = true }) in
          (two.0 ≡ success)
          × LeavesFlow key t ends two.1 (otp_requested ∷ []) (otp_verified ∷ [])
          × (three.0 ≡ success)
    unfolding includes FlowPermission-discrete check_otp
    check_otp-overtaken t2 third later alive2 =
        let signing = overtaken-IsSigning t2 later alive2 in
        let holds = IsSigning-holds signing third.admitted.session third.current in
        let check =
          route-grants lib show one.request w one.admitted one.lets one.decorated one.allows
            (overtaken other.request t) (record { is_susses = true })
            (requested lib show contract key ends w other t) refl (some (otp_requested ∷ []))
            otp_verified ends (otp_requested ∷ [])
            (check-one one.admitted.session _ otp_requested refl was_requested) start-IsSigning in
        let selfie =
          check_selfie-verifies lib show third.request (overtaken_world w one other t t2)
            third.admitted third.lets third.decorated third.allows ends
            (otp_requested ∷ otp_verified ∷ []) (holds otp_requested refl) (holds otp_verified refl)
            third.channel (third.owns ∙ sym third.bound) (rw third.bound signing) in
        (check.0, rw one.owns at check.1, selfie.0)
