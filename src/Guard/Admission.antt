-- ===== src/Guard/Admission.antt =====
-- The checks of JwtGuard (core/auth-gateway/auth.guard.ts).
use codebase_be_nestjs.Common.{
  Option-cases, String, ◌==◌, ◌≡◌, refl, ap, Bool, true, false, not, ◌&&◌, Option, none, some, read,
  is_some, arith, if◌then◌else◌, ◌⊎◌, inl, inr, ◌∙◌, sym,
}
use mathlib.Core.Path.{subst}
use codebase_be_nestjs.Common.Effect.{
  Exec, Result, ok, err, continue, ◌>>=◌, continue-ok, err≢ok, Result-cases, ok_inj,
}
use codebase_be_nestjs.Shared.SystemCode.{code_text, unauthorized, unauthorized_exception}
use codebase_be_nestjs.Shared.SessionType.{JwtSession}
use codebase_be_nestjs.Shared.Session.{BaseJwtSession, SessionClass}
use codebase_be_nestjs.Shared.Token.{
  BaseJwtPayload, TokenClass, token_type_map, session_bound_id, need_verify_jwt_signature,
}
use codebase_be_nestjs.Redis.Server.{Server}
use codebase_be_nestjs.Redis.Storage.{World}
use codebase_be_nestjs.Session.{SessionService, get_session_value}
use codebase_be_nestjs.Session.Laws.{get_session_value_lem}
use codebase_be_nestjs.AuthSession.{auth_session_service, token_session_service, load}
use codebase_be_nestjs.Auth.External.{Libraries}
use codebase_be_nestjs.Guard.{
  OneOrMany, Request, Admitted, GuardParams, or_else, jwt_of, is_expired, allows, spread_payload,
  validate_session, or_error, require, returning, checked_session, decoded, verified, admit_class,
  admit, can_activate,
}

-- The session passes validateSession, if the route asks for one.
abbrev pub SessionAllowed : Libraries → Option (OneOrMany SessionClass) → BaseJwtSession → Type 0
SessionAllowed lib none session = Unit {0}
SessionAllowed lib (some types) session =
    (valid : BaseJwtSession) × (validate_session lib session types ≡ ok valid)

not-false : (b : Bool) → not b ≡ true → b ≡ false
not-false b h = ground arith

module _ {r : Server} where
  -- What holds of an admitted request, from its token to its session.
  pub record AdmitsClass (lib : Libraries) (params : GuardParams) (jwt : Option String)
      (raw : BaseJwtPayload) (c : TokenClass) (w : World r) (admitted : Admitted) : Type 0 where
    pub content : BaseJwtPayload
    pub token_live :
        get_session_value token_session_service
          (lib.plain_to_instance c raw).session_channel
          (session_bound_id (lib.plain_to_instance c raw))
          w
        ≡ (ok content, w)
    pub signature :
        not params.verify_signature && need_verify_jwt_signature c ≡ true
        → is_some (lib.verify w.now jwt) ≡ true
    pub user : admitted.user ≡ lib.plain_to_class (some c) (spread_payload raw content)
    pub valid : lib.is_valid c admitted.user ≡ true
    pub session_live :
        load
          (lib.plain_to_instance c raw).session_channel
          (session_bound_id (lib.plain_to_instance c raw))
          w
        ≡ (ok admitted.session, w)
    pub session_allowed : SessionAllowed lib params.allow_sessions admitted.session

  pub record Admits (lib : Libraries) (params : GuardParams) (request : Request) (w : World r)
      (admitted : Admitted) : Type 0 where
    pub token : String
    pub raw : BaseJwtPayload
    pub class : TokenClass
    pub has_token : or_else request.authorization request.query_token ≡ some token
    pub filled : (token == "") ≡ false
    pub decodes :
        (if params.verify_signature
          then lib.verify w.now (jwt_of token)
          else lib.decode (jwt_of token))
        ≡ some raw
    pub current : is_expired w.now (read raw.exp) ≡ false
    pub class_known : token_type_map raw.type ≡ some class
    pub class_allowed : allows params.allow_tokens (some class) ≡ true
    pub admits : AdmitsClass lib params (jwt_of token) raw class w admitted

  module _ {A B : Type 0} (f : A → Exec (World r) B) (w : World r) {b : B} {w' : World r} where
    step-or_error :
        (o : Option A)
        → (or_error o >>= f) w ≡ (ok b, w')
        → (a : A) × (o ≡ some a) × (f a w ≡ (ok b, w'))
    step-or_error none h = absurd (err≢ok (ap (λ p. p.0) h))
    step-or_error (some a) h = (a, refl, h)

    step-returning :
        (o : Result A)
        → (returning o >>= f) w ≡ (ok b, w')
        → (a : A) × (o ≡ ok a) × (f a w ≡ (ok b, w'))
    step-returning o h = continue-ok o f w h

    step-get :
        (service : SessionService A) (type : JwtSession) (id : String)
        → (get_session_value service type id >>= f) w ≡ (ok b, w')
        → (a : A) × (get_session_value service type id w ≡ (ok a, w)) × (f a w ≡ (ok b, w'))
    step-get service type id h =
        let e = get_session_value_lem service type id w in
        let (a, found, rest) = continue-ok _ f w (sym (ap (λ p. continue p.0 f p.1) e) ∙ h) in
        (a, e ∙ ap (λ x. (x, w)) found, rest)

  module _ {B : Type 0} (f : Unit {0} → Exec (World r) B) (w : World r) {b : B} {w' : World r} where
    step-require :
        (c : Bool) → (require c >>= f) w ≡ (ok b, w') → (c ≡ true) × (f tt w ≡ (ok b, w'))
    step-require false h = absurd (err≢ok (ap (λ p. p.0) h))
    step-require true h = (refl, h)

  step-decoded :
      {B : Type 0} (lib : Libraries) (f : BaseJwtPayload → Exec (World r) B) (w : World r) {b : B}
      {w' : World r} (verify : Bool) (jwt : Option String)
      → (decoded lib verify jwt >>= f) w ≡ (ok b, w')
      → (raw : BaseJwtPayload) × ((if verify then lib.verify w.now jwt else lib.decode jwt)
          ≡ some raw)
        × (f raw w ≡ (ok b, w'))
  step-decoded lib f w true jwt h = step-or_error f w (lib.verify w.now jwt) h
  step-decoded lib f w false jwt h = step-or_error f w (lib.decode jwt) h

  step-verified :
      {B : Type 0} (lib : Libraries) (f : Unit {0} → Exec (World r) B) (w : World r) {b : B}
      {w' : World r} (verify : Bool) (jwt : Option String)
      → (verified lib verify jwt >>= f) w ≡ (ok b, w')
      → (verify ≡ true → is_some (lib.verify w.now jwt) ≡ true) × (f tt w ≡ (ok b, w'))
  step-verified lib f w false jwt h = (λ e. absurd (ground (arith, e)), h)
  step-verified lib f w true jwt h = elim (Option-cases (lib.verify w.now jwt)) [
    | inl e ↦ absurd (err≢ok (ap (λ p. p.0) (rw e at h)))
    | inr (a, e) ↦ (λ _. rw e refl, rw e at h)
  ]

  step-checked_session :
      {B : Type 0} (lib : Libraries) (f : Unit {0} → Exec (World r) B) (w : World r) {b : B}
      {w' : World r} (types : Option (OneOrMany SessionClass)) (session : BaseJwtSession)
      → (checked_session lib types session >>= f) w ≡ (ok b, w')
      → SessionAllowed lib types session × (f tt w ≡ (ok b, w'))
  step-checked_session lib f w none session h = (tt, h)
  step-checked_session lib f w (some types) session h =
      elim (Result-cases (validate_session lib session types)) [
        | inl (a, e) ↦ ((a, e), rw e at h)
        | inr (x, e) ↦ absurd (err≢ok (ap (λ p. p.0) (rw e at h)))
      ]

  admit_class-Admits :
      (lib : Libraries) (params : GuardParams) (jwt : Option String) (raw : BaseJwtPayload)
      (c : TokenClass) (w w' : World r) (admitted : Admitted)
      → admit_class lib params jwt raw c w ≡ (ok admitted, w')
      → AdmitsClass lib params jwt raw c w admitted × (w' ≡ w)
  unfolding admit_class load
  admit_class-Admits lib params jwt raw c w w' admitted h =
      let (content, token_live, h) = step-get _ w token_session_service _ _ h in
      let (signature, h) = step-verified lib _ w _ jwt h in
      let (valid, h) = step-require _ w _ h in
      let (session, session_live, h) = step-get _ w auth_session_service _ _ h in
      let (allowed, h) = step-checked_session lib _ w params.allow_sessions session h in
      let same = ok_inj (ap (λ p. p.0) h) in
      (
        record {
          content = content;
          token_live = token_live;
          signature = signature;
          user = sym (ap (λ a. a.user) same);
          valid = ap (lib.is_valid c) (sym (ap (λ a. a.user) same)) ∙ valid;
          session_live = session_live ∙ ap (λ s. (ok s, w)) (ap (λ a. a.session) same);
          session_allowed =
              subst (λ a. SessionAllowed lib params.allow_sessions a.session) same allowed;
        },
        sym (ap (λ p. p.1) h),
      )

  admit-Admits :
      (lib : Libraries) (params : GuardParams) (request : Request) (w w' : World r)
      (admitted : Admitted)
      → admit lib params request w ≡ (ok admitted, w')
      → Admits lib params request w admitted × (w' ≡ w)
  unfolding admit
  admit-Admits lib params request w w' admitted h =
      let (token, has_token, h) = step-or_error _ w _ h in
      let (filled, h) = step-require _ w (not (token == "")) h in
      let (raw, decodes, h) = step-decoded lib _ w params.verify_signature (jwt_of token) h in
      let (current, h) = step-require _ w (not (is_expired w.now (read raw.exp))) h in
      let (class_allowed, h) =
        step-require _ w (allows params.allow_tokens (token_type_map raw.type)) h in
      let (c, class_known, h) = step-or_error _ w (token_type_map raw.type) h in
      let (admits, unchanged) =
        admit_class-Admits lib params (jwt_of token) raw c w w' admitted h in
      (
        record {
          token = token;
          raw = raw;
          class = c;
          has_token = has_token;
          filled = not-false _ filled;
          decodes = decodes;
          current = not-false _ current;
          class_known = class_known;
          class_allowed = ap (allows params.allow_tokens) (sym class_known) ∙ class_allowed;
          admits = admits;
        },
        unchanged,
      )

  -- JwtGuard's canActivate either lets the request through with the state unchanged, or throws 401
  -- UNAUTHORIZED. It lets it through only if the header or the query carries a token that decodes
  -- (or verifies, where the route asks for that) to a payload that has not expired, whose type is
  -- known and allowed on the route, whose token session and authenticated session can both be read
  -- under the token's identifier, whose content is valid, whose signature verifies where the
  -- token's class asks for that, and whose session passes validateSession where the route asks for
  -- one.
  pub can_activate_lem :
      (lib : Libraries) (params : GuardParams) (request : Request) (w : World r)
      → ((admitted : Admitted) × (can_activate lib params request w ≡ (ok admitted, w))
          × Admits lib params request w admitted)
        ⊎ ((can_activate lib params request w).0
            ≡ err (unauthorized_exception (code_text unauthorized)))
  unfolding can_activate
  can_activate_lem lib params request w = elim (Result-cases (admit lib params request w).0) [
    | inl (a, e) ↦
        let (admits, unchanged) =
          admit-Admits lib params request w (admit lib params request w).1 a
            (ap (λ x. (x, (admit lib params request w).1)) e) in
        inl (a, rw (e, unchanged) refl, admits)
    | inr (x, e) ↦ inr (rw e refl)
  ]
