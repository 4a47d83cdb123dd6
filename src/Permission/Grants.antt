-- ===== src/Permission/Grants.antt =====
-- What core/permission/permission.interceptor.ts does after the handler.
use codebase_be_nestjs.Common.{
  ℕ, ◌/◌, ◌≤◌, ◌<◌, ◌==◌, ◌≡◌, refl, ap, true, false, ◌||◌, Option, none, some, List, ◌∷◌, read,
  val, ◌∙◌, includes, eq_refl, lt→ltb,
}
use codebase_be_nestjs.Common.Int.{pos}
use codebase_be_nestjs.Common.Effect.{Exception, Exec, Result, ok, err}
use codebase_be_nestjs.Shared.SystemCode.{code_text, success}
use codebase_be_nestjs.Shared.SessionType.{token}
use codebase_be_nestjs.Shared.Session.{
  SessionPermission, SessionPermission-discrete, BaseJwtSession,
}
use codebase_be_nestjs.Shared.Token.{template}
use codebase_be_nestjs.Shared.Response.{ResponseDto}
use codebase_be_nestjs.Redis.Server.{Server}
use codebase_be_nestjs.Redis.Storage.{World}
use codebase_be_nestjs.Session.Laws.{at_time}
use codebase_be_nestjs.AuthSession.{grant, load, add_permissions}
use codebase_be_nestjs.AuthSession.Lifetime.{end_of, saved}
use codebase_be_nestjs.AuthSession.Permissions.{holds, add_permissions_lem, add_permissions-refused}
use codebase_be_nestjs.Permission.{
  PermissionMetadata, FlowPermissionMetadata, Metadata, emitted, pending, settle, check, provide,
  intercept, intercept_with,
}
use codebase_be_nestjs.Permission.Checks.{permission_of, flow_of}

module _ {r : Server} {D E : Type 0} (session : BaseJwtSession)
    (handler : Exec (World r) (ResponseDto D E)) (w w' : World r) (res : ResponseDto D E)
    (answers : handler w ≡ (ok res, w')) where
  intercept_with-not_success :
      (permission : Option PermissionMetadata) (flow : Option FlowPermissionMetadata)
      → check permission flow (some session) ≡ ok tt
      → (res.system_code == code_text success) ≡ false
      → intercept_with permission flow (some session) handler w ≡ (emitted res, w')
  intercept_with-not_success none none passes h = rw answers refl
  intercept_with-not_success none (some f) passes h = rw (passes, answers, h) refl
  intercept_with-not_success (some p) flow passes h = rw (passes, answers, h) refl

  -- If the checks pass and the handler's answer has another code than SUCCESS, the answer is
  -- passed on and the state is the one that the handler left: no permission is given.
  intercept-not_success :
      (meta : Metadata)
      → check (permission_of meta) (flow_of meta) (some session) ≡ ok tt
      → (res.system_code == code_text success) ≡ false
      → intercept meta (some session) handler w ≡ (emitted res, w')
  unfolding intercept
  intercept-not_success meta passes h =
      intercept_with-not_success (permission_of meta) (flow_of meta) passes h

  module _ (p : PermissionMetadata) (q : SessionPermission) (qs : List SessionPermission)
      (provides : p.provide_permissions ≡ some (q ∷ qs))
      (succeeded : (res.system_code == code_text success) ≡ true)
      (passes : check (some p) none (some session) ≡ ok tt) where
    abbrev granting : Result BaseJwtSession × World r
    granting = add_permissions (template (read session.key)) (q ∷ qs) token w'

    intercept_with-provide :
        intercept_with (some p) none (some session) handler w
        ≡ settle res (provide (some p) none (some session) w')
    intercept_with-provide = rw (passes, answers, succeeded) refl

    provide-ok :
        {a : BaseJwtSession}
        → granting.0 ≡ ok a
        → provide (some p) none (some session) w' ≡ (ok tt, granting.1)
    unfolding provide
    provide-ok h = rw (provides, h) refl

    provide-err :
        {e : Exception}
        → granting.0 ≡ err e
        → provide (some p) none (some session) w' ≡ (err e, granting.1)
    unfolding provide
    provide-err h = rw (provides, h) refl

    module _ (meta : Metadata) (permission : permission_of meta ≡ some p)
        (flow : flow_of meta ≡ none) (stored : BaseJwtSession)
        (there : load token (template (read session.key)) w' ≡ (ok stored, w')) (e : ℕ)
        (exp : stored.exp ≡ val (pos e)) where
      intercept-eq :
          intercept meta (some session) handler w
          ≡ settle res (provide (some p) none (some session) w')
      unfolding intercept
      intercept-eq = rw (permission, flow, intercept_with-provide) refl

      -- For a route that gives session permissions and has no flow metadata, a request that passes
      -- its checks, an answer with SUCCESS, and a stored session with whole seconds of life left:
      -- the answer is passed on, and until the session ends the session that is read back holds
      -- exactly what the stored one held and what the route gives.
      intercept-grants :
          w'.now / 1000 < e
          → (t : ℕ) (x : SessionPermission) → w'.now ≤ t
          → t < end_of w'.now e
          → ((intercept meta (some session) handler w).0 ≡ emitted res)
            × ((load token
                  (template (read session.key))
                  (at_time (intercept meta (some session) handler w).1 t)).0
                ≡ ok (saved w'.now (grant (q ∷ qs) stored)))
            × (holds (saved w'.now (grant (q ∷ qs) stored)) x
                ≡ (holds stored x || includes SessionPermission-discrete (q ∷ qs) x))
      intercept-grants alive t x le lt =
          let (returned, reads, holds_lem, _) =
            add_permissions_lem w' (template (read session.key)) (q ∷ qs) stored there e exp alive t
              (template (read session.key)) x le in
          rw (intercept-eq, provide-ok returned)
            (
              refl,
              reads
                  ∙ rw (eq_refl (template (read session.key)), lt→ltb t (end_of w'.now e) lt) refl,
              holds_lem,
            )

      -- For a route that gives session permissions and has no flow metadata, a request that passes
      -- its checks, an answer with SUCCESS, and a stored session whose end is not after the
      -- current second: nothing is written after the handler, and no answer or error is ever
      -- passed on.
      pub intercept-pending :
          e ≤ w'.now / 1000 → intercept meta (some session) handler w ≡ (pending, w')
      intercept-pending late =
          let refused =
            add_permissions-refused w' (template (read session.key)) (q ∷ qs) stored there e exp
              token late in
          rw (intercept-eq, provide-err (ap (λ x. x.0) refused)) (ap (λ x. (pending, x.1)) refused)
