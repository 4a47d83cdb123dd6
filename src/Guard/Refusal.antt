-- ===== src/Guard/Refusal.antt =====
-- JwtGuard (core/auth-gateway/auth.guard.ts) after the logout of
-- core/auth/base-auth.service.ts.
use codebase_be_nestjs.Common.{
  ℕ, String, ◌≡◌, refl, ap, none, some, if◌then◌else◌, inl, inr, ◌⊎◌, ◌∙◌, sym, eq_refl,
}
use codebase_be_nestjs.Common.Effect.{Exception, Result, ok, err, err≢ok}
use codebase_be_nestjs.Shared.SystemCode.{code_text, unauthorized, unauthorized_exception}
use codebase_be_nestjs.Common.Text.{◌<>◌}
use codebase_be_nestjs.Shared.SessionType.{JwtSession, token}
use codebase_be_nestjs.Shared.Token.{BaseJwtPayload, TokenClass, session_bound_id, template}
use codebase_be_nestjs.Shared.Session.{BaseJwtSession}
use codebase_be_nestjs.Redis.Server.{Server}
use codebase_be_nestjs.Redis.Storage.{World}
use codebase_be_nestjs.Session
use codebase_be_nestjs.Session.{get_session_value}
use codebase_be_nestjs.Session.Laws.{at_time, get-clear_session, answer}
use codebase_be_nestjs.AuthSession.{token_session_service, auth_session_service, load}
use codebase_be_nestjs.Auth.{clear_session, logout}
use codebase_be_nestjs.Auth.External.{Libraries}
use codebase_be_nestjs.Guard.{Request, GuardParams, or_else, jwt_of, can_activate}
use codebase_be_nestjs.Guard.Admission.{can_activate_lem}

module _ {r : Server} where
  -- The authenticated session is gone after a logout, at any later time.
  pub load-logout :
      (w : World r) (content : BaseJwtPayload) (t : ℕ)
      → (load content.session_channel (session_bound_id content) (at_time (logout content w).1 t)).0
        ≡ answer auth_session_service none
  unfolding logout clear_session load get_session_value Session.clear_session
  load-logout w content t =
      rw
        (
          get-clear_session auth_session_service content.session_channel
              (Session.clear_session token_session_service content.session_channel
                (session_bound_id content) w).1
              (session_bound_id content) t (session_bound_id content),
          eq_refl (session_bound_id content),
        )
        refl

pub channel-eq : (a b : JwtSession) → a ≡ b
channel-eq token token = refl

some_inj : {A : Type 0} {a b : A} → some a ≡ some b → a ≡ b
some_inj h = cc

pub bound_id :
    (lib : Libraries) (c : TokenClass) (raw content : BaseJwtPayload)
    → raw.key ≡ content.key
    → raw.id ≡ content.id
    → session_bound_id (lib.plain_to_instance c raw) ≡ session_bound_id content
bound_id lib c raw content key id =
    ap (λ k. (k <> ":") <> template (lib.plain_to_instance c raw).id) (lib.instance_key c raw ∙ key)
    ∙ ap (λ i. (content.key <> ":") <> template i) (lib.instance_id c raw ∙ id)

module _ {r : Server} (lib : Libraries) (params : GuardParams) (request : Request)
    (w : World r) where
  -- A request whose token decodes to the key and the id of `content` is refused, unless both
  -- sessions of `content` can be read.
  can_activate-reads :
      (text : String) (raw content : BaseJwtPayload)
      → or_else request.authorization request.query_token ≡ some text
      → (if params.verify_signature
          then lib.verify w.now (jwt_of text)
          else lib.decode (jwt_of text))
        ≡ some raw
      → raw.key ≡ content.key
      → raw.id ≡ content.id
      → ((payload : BaseJwtPayload) × (session : BaseJwtSession) × ((get_session_value
              token_session_service content.session_channel
              (session_bound_id content)
              w).0
            ≡ ok payload)
          × ((load content.session_channel (session_bound_id content) w).0 ≡ ok session))
        ⊎ ((can_activate lib params request w).0
            ≡ err (unauthorized_exception (code_text unauthorized)))
  can_activate-reads text raw content carries decodes key id =
      elim (can_activate_lem lib params request w) [
        | inr refused ↦ inr refused
        | inl (a, e, admits) ↦
            let text_eq = some_inj (sym admits.has_token ∙ carries) in
            let raw_eq = some_inj (
              sym admits.decodes
              ∙ ap
                  (λ s.
                    if params.verify_signature
                    then lib.verify w.now (jwt_of s)
                    else lib.decode (jwt_of s))
                  text_eq
              ∙ decodes) in
            let named =
              bound_id lib admits.class admits.raw content (ap (λ p. p.key) raw_eq ∙ key)
                (ap (λ p. p.id) raw_eq ∙ id) in
            let channel =
              channel-eq (lib.plain_to_instance admits.class admits.raw).session_channel
                content.session_channel in
            let live = admits.admits in
            inl (
              live.content,
              a.session,
              ap (λ p. p.0) (rw (named, channel) at live.token_live),
              ap (λ p. p.0) (rw (named, channel) at live.session_live),
            )
      ]

  -- Without a live authenticated session, or without a live token session, JwtGuard answers 401
  -- UNAUTHORIZED.
  pub can_activate-no_session :
      (text : String) (raw content : BaseJwtPayload)
      → or_else request.authorization request.query_token ≡ some text
      → (if params.verify_signature
          then lib.verify w.now (jwt_of text)
          else lib.decode (jwt_of text))
        ≡ some raw
      → raw.key ≡ content.key
      → raw.id ≡ content.id
      → ((load content.session_channel (session_bound_id content) w).0
          ≡ answer auth_session_service none)
        ⊎ ((get_session_value token_session_service content.session_channel
              (session_bound_id content)
              w).0
            ≡ answer token_session_service none)
      → (can_activate lib params request w).0
        ≡ err (unauthorized_exception (code_text unauthorized))
  can_activate-no_session text raw content carries decodes key id gone =
      elim (can_activate-reads text raw content carries decodes key id) [
        | inr refused ↦ refused
        | inl (payload, session, token_live, session_live) ↦
            absurd (contradiction gone token_live session_live)
      ]
    where
      contradiction :
          {A B : Type 0} {x : Result A} {y : Result B} {e : Exception} {a : A} {b : B}
          → (x ≡ err e) ⊎ (y ≡ err e)
          → y ≡ ok b
          → x ≡ ok a
          → ⊥
      contradiction (inl h) token_live session_live = err≢ok (sym h ∙ session_live)
      contradiction (inr h) token_live session_live = err≢ok (sym h ∙ token_live)

module _ {r : Server} (lib : Libraries) (params : GuardParams) (request : Request)
    (w : World r) where
  -- After logout(content), at any time, JwtGuard throws 401 UNAUTHORIZED for every request whose
  -- token decodes (or verifies, where the route asks for that) to a payload with the key and the
  -- id of `content`, whatever the token's expiry says.
  can_activate-logout :
      (content raw : BaseJwtPayload) (t : ℕ) (text : String)
      → or_else request.authorization request.query_token ≡ some text
      → (if params.verify_signature then lib.verify t (jwt_of text) else lib.decode (jwt_of text))
        ≡ some raw
      → raw.key ≡ content.key
      → raw.id ≡ content.id
      → (can_activate lib params request (at_time (logout content w).1 t)).0
        ≡ err (unauthorized_exception (code_text unauthorized))
  can_activate-logout content raw t text carries decodes key id =
      can_activate-no_session lib params request (at_time (logout content w).1 t) text raw content
        carries decodes key id (inl (load-logout w content t))
