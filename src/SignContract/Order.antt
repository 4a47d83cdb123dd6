-- ===== src/SignContract/Order.antt =====
-- The order of the steps of module/sign-contract.
use codebase_be_nestjs.Common.{◌≡◌, refl, ap, ◌∙◌, Bool, false, some, ◌⊎◌, inl, inr, includes}
use codebase_be_nestjs.Common.Effect.{Exception, Exec, ok}
use codebase_be_nestjs.Shared.Flow.{
  FlowPermission-discrete, otp_requested, otp_verified, sign_contract,
}
use codebase_be_nestjs.Shared.Token.{BaseJwtPayload}
use codebase_be_nestjs.Redis.Server.{Server}
use codebase_be_nestjs.Redis.Storage.{World}
use codebase_be_nestjs.Auth.External.{Libraries}
use codebase_be_nestjs.Guard.{Request, Admitted, can_activate}
use codebase_be_nestjs.Permission.{Metadata, failed, intercept}
use codebase_be_nestjs.Permission.Checks.{LacksFlow, flow_of, flow_holds, intercept-lacks}
use codebase_be_nestjs.SignContract.{
  check_otp, check_selfie, user_guard, check_otp_metadata, check_selfie_metadata, user_sessions,
  guarded_route, route, after_guard, handle_route,
}

module _ {r : Server} (lib : Libraries) (show : Bool) (request : Request) (w : World r)
    (admitted : Admitted) (lets : can_activate lib user_guard request w ≡ (ok admitted, w)) where
  -- Behind the guard, a route is its permissions around its handler.
  pub route-intercept :
      {D : Type 0} (meta : Metadata) (method : BaseJwtPayload → Exec (World r) D)
      → route lib show meta method request w
        ≡ intercept meta
            (some admitted.session)
            (handle_route lib show user_sessions admitted method)
            w
  unfolding route guarded_route
  route-intercept meta method = ap (after_guard lib show user_sessions meta method) lets

  route-lacks :
      {D : Type 0} (meta : Metadata) (method : BaseJwtPayload → Exec (World r) D)
      → LacksFlow (flow_of meta) admitted.session
      → (e : Exception) × (route lib show meta method request w ≡ (failed e, w))
  route-lacks meta method lacks =
      let (e, refused) =
        intercept-lacks meta admitted.session (handle_route lib show user_sessions admitted method)
          w (inr lacks) in
      (e, route-intercept meta method ∙ refused)

  -- An admitted request whose session has not had the OTP requested fails at checkOtp: the method
  -- does not run, and nothing is written.
  pub check_otp-no_skip :
      flow_holds admitted.session sign_contract otp_requested ≡ false
      → (e : Exception) × (route lib show check_otp_metadata check_otp request w ≡ (failed e, w))
  unfolding includes FlowPermission-discrete
  check_otp-no_skip h = route-lacks check_otp_metadata check_otp (otp_requested, refl, h)

  -- A request to checkSelfie that the guard admits, and whose session's flow lacks OTP_REQUESTED
  -- or lacks OTP_VERIFIED, fails; the service method does not run and nothing is written.
  pub check_selfie-no_skip :
      (flow_holds admitted.session sign_contract otp_requested ≡ false)
        ⊎ (flow_holds admitted.session sign_contract otp_verified ≡ false)
      → (e : Exception) × (route lib show check_selfie_metadata check_selfie request w
          ≡ (failed e, w))
  unfolding includes FlowPermission-discrete
  check_selfie-no_skip (inl h) =
      route-lacks check_selfie_metadata check_selfie (otp_requested, refl, h)
  check_selfie-no_skip (inr h) =
      route-lacks check_selfie_metadata check_selfie (otp_verified, refl, h)
