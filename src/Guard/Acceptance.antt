-- ===== src/Guard/Acceptance.antt =====
-- The requests that JwtGuard (core/auth-gateway/auth.guard.ts) accepts.
use codebase_be_nestjs.Common.{
  String, ◌≡◌, refl, sym, ap, ◌∙◌, Bool, true, false, not, ◌&&◌, Option, none, some, is_some, arith,
  if◌then◌else◌, Option-cases, inl, inr,
}
use codebase_be_nestjs.Common.Effect.{ok}
use codebase_be_nestjs.Shared.Session.{BaseJwtSession, SessionClass}
use codebase_be_nestjs.Shared.Token.{BaseJwtPayload, TokenClass, need_verify_jwt_signature}
use codebase_be_nestjs.Redis.Server.{Server}
use codebase_be_nestjs.Redis.Storage.{World}
use codebase_be_nestjs.Auth.External.{Libraries}
use codebase_be_nestjs.Guard.{
  OneOrMany, Request, Admitted, GuardParams, jwt_of, checked_session, decoded, verified,
  admit_class, admit, can_activate,
}
use codebase_be_nestjs.Guard.Admission.{SessionAllowed, AdmitsClass, Admits}

module _ {r : Server} where
  verified-ok :
      (lib : Libraries) (verify : Bool) (jwt : Option String) (w : World r)
      → (verify ≡ true → is_some (lib.verify w.now jwt) ≡ true)
      → verified lib verify jwt w ≡ (ok tt, w)
  verified-ok lib false jwt w h = refl
  verified-ok lib true jwt w h = elim (Option-cases (lib.verify w.now jwt)) [
    | inl e ↦ absurd (ground (arith, rw e at (h refl)))
    | inr (a, e) ↦ rw e refl
  ]

  checked_session-ok :
      (lib : Libraries) (types : Option (OneOrMany SessionClass)) (session : BaseJwtSession)
      (w : World r)
      → SessionAllowed lib types session
      → checked_session lib types session w ≡ (ok tt, w)
  checked_session-ok lib none session w h = refl
  checked_session-ok lib (some types) session w (valid, h) = rw h refl

  decoded-some :
      (lib : Libraries) (verify : Bool) (jwt : Option String) (w : World r) {raw : BaseJwtPayload}
      → (if verify then lib.verify w.now jwt else lib.decode jwt) ≡ some raw
      → decoded lib verify jwt w ≡ (ok raw, w)
  decoded-some lib true jwt w h = rw h refl
  decoded-some lib false jwt w h = rw h refl

  admit_class_complete :
      (lib : Libraries) (params : GuardParams) (jwt : Option String) (raw : BaseJwtPayload)
      (c : TokenClass) (w : World r) (admitted : Admitted)
      → AdmitsClass lib params jwt raw c w admitted
      → admit_class lib params jwt raw c w ≡ (ok admitted, w)
  unfolding admit_class
  admit_class_complete lib params jwt raw c w admitted x =
      rw
        (
          x.token_live,
          verified-ok lib (not params.verify_signature && need_verify_jwt_signature c) jwt w
              x.signature,
          ap (lib.is_valid c) (sym x.user) ∙ x.valid,
          x.session_live,
          checked_session-ok lib params.allow_sessions admitted.session w x.session_allowed,
        )
        (ap (λ u. (ok (record { user = u; session = admitted.session }), w)) (sym x.user))

  admit_complete :
      (lib : Libraries) (params : GuardParams) (request : Request) (w : World r)
      (admitted : Admitted)
      → Admits lib params request w admitted
      → admit lib params request w ≡ (ok admitted, w)
  unfolding admit
  admit_complete lib params request w admitted x =
      rw
        (
          x.has_token,
          x.filled,
          decoded-some lib params.verify_signature (jwt_of x.token) w x.decodes,
          x.current,
          x.class_known,
          x.class_allowed,
        )
        (admit_class_complete lib params (jwt_of x.token) x.raw x.class w admitted x.admits)

  -- Whenever all the checks that can_activate_lem names hold of a request and what it is admitted
  -- with, JwtGuard's canActivate lets the request through, with that user and that session, and
  -- writes nothing.
  pub can_activate-accepts :
      (lib : Libraries) (params : GuardParams) (request : Request) (w : World r)
      (admitted : Admitted)
      → Admits lib params request w admitted
      → can_activate lib params request w ≡ (ok admitted, w)
  unfolding can_activate
  can_activate-accepts lib params request w admitted x =
      rw (admit_complete lib params request w admitted x) refl
