-- ===== src/Login/Guarded.antt =====
-- A request of a user who has logged in, at the guard of the routes of module/auth.
use codebase_be_nestjs.Common.{
  ℕ, suc, ◌+◌, ◌*◌, ◌/◌, ◌≤◌, ◌<◌, String, ◌==◌, ◌≡◌, refl, sym, ◌∙◌, true, false, none, some, [],
  includes, val, read, arith,
}
use codebase_be_nestjs.Common.Int.{pos}
use codebase_be_nestjs.Common.Effect.{ok}
use codebase_be_nestjs.Shared.Session.{BaseJwtSession, stored_session, stamp_session}
use codebase_be_nestjs.Shared.Token.{
  BaseJwtPayload, session_bound_id, token_type_map, user_jwt_payload, TokenClass-discrete,
  stored_payload, stamp_payload, token_type_text, user,
}
use codebase_be_nestjs.Redis.Server.{Server}
use codebase_be_nestjs.Redis.Storage.{World}
use codebase_be_nestjs.Session.{expiry}
use codebase_be_nestjs.Session.Keys.{server_key}
use codebase_be_nestjs.Session.Laws.{at_time, get_session_value_unchanged}
use codebase_be_nestjs.AuthSession.{token_session_service, auth_session_service, load}
use codebase_be_nestjs.Auth.{AuthEnvironment, bound_session}
use codebase_be_nestjs.Auth.External.{Libraries}
use codebase_be_nestjs.Auth.Replacing
use codebase_be_nestjs.Auth.Replacing.{IsIssuable, issued_token, content, own_id}
use codebase_be_nestjs.Auth.Renewal.{settled}
use codebase_be_nestjs.Auth.Authenticating.{identified, drawn_id}
use codebase_be_nestjs.Guard.{
  Request, Admitted, or_else, jwt_of, allows, is_expired, spread_payload, can_activate,
}
use codebase_be_nestjs.Guard.Admission.{SessionAllowed}
use codebase_be_nestjs.Guard.Acceptance.{can_activate-accepts}
use codebase_be_nestjs.Guard.Refusal.{bound_id, channel-eq}
use codebase_be_nestjs.Login.{LoginLibrary, login, logout_guard}
use codebase_be_nestjs.Login.Sessions.{user_payload, login_live}

-- The request carries, at time `t`, a text that decodes to the key, the identifier and the type of
-- `payload` and an expiry that has not passed. Nothing is asked of its signature.
pub record Names (lib : Libraries) (request : Request) (payload : BaseJwtPayload) (t : ℕ)
    : Type 0 where
  pub text : String
  pub raw : BaseJwtPayload
  pub carries : or_else request.authorization request.query_token ≡ some text
  pub filled : (text == "") ≡ false
  pub decodes : lib.decode (jwt_of text) ≡ some raw
  pub key : raw.key ≡ payload.key
  pub id : raw.id ≡ payload.id
  pub type : raw.type ≡ token_type_text user
  pub current : is_expired t (read raw.exp) ≡ false

user_known :
    {type : String} → type ≡ token_type_text user → token_type_map type ≡ some user_jwt_payload
unfolding token_type_map
user_known h = rw h

user_allowed : allows logout_guard.allow_tokens (some user_jwt_payload) ≡ true
unfolding includes TokenClass-discrete
user_allowed = refl

module _ {r : Server} (lib : Libraries) (login_lib : LoginLibrary) (env : AuthEnvironment)
    (user_id : String) (w : World r) (n k : ℕ) (expire : env.token_expire ≡ suc n)
    (issuable : IsIssuable
      (identified w (user_payload lib login_lib env user_id w n k expire))) where
  -- The two sessions that login stored, as they are read back.
  abbrev pub token_content : BaseJwtPayload
  token_content = stored_payload (
      stamp_payload (expiry w.now (some (pos (suc n)))) (val (pos (w.now / 1000)))
        (content lib issuable))

  abbrev pub user_session : BaseJwtSession
  user_session = stored_session (
      stamp_session (expiry w.now (some (pos (suc n)))) (val (pos (w.now / 1000)))
        (bound_session (login_lib.plain_to_user_session user_id) (content lib issuable)))

  -- What the guard leaves in a request with the given payload.
  abbrev pub admitted_user : BaseJwtPayload → Admitted
  admitted_user raw = record {
    user = lib.plain_to_class (some user_jwt_payload) (spread_payload raw token_content);
    session = user_session;
  }

  module _ (request : Request) (t : ℕ)
      (names : Names lib request
        (identified w (user_payload lib login_lib env user_id w n k expire))
        t) where
    named :
        session_bound_id (lib.plain_to_instance user_jwt_payload names.raw) ≡ own_id lib issuable
    named =
        bound_id lib user_jwt_payload names.raw (content lib issuable)
          (names.key ∙ sym (lib.instance_key issuable.token_class _))
          (names.id ∙ sym (lib.instance_id issuable.token_class _))
        ∙ Replacing.bound_id lib issuable

    -- If no deletes are pending, the drawn identifier is one that no token session is stored under
    -- and that does not begin inside the hashed key, which has no special character of a pattern,
    -- and tokens expire after a positive number of seconds: login returns the token that is signed
    -- for that identifier, and, whichever of the deletes that it started run before the session is
    -- added, once all have run and until the sessions expire, the guard of the logout route lets a
    -- request through with the user and the session that login stored, and writes nothing. The
    -- request carries a token that decodes to the hashed key, the drawn identifier, the type USER
    -- and an expiry that has not passed, and class-validator and validateSession accept the user
    -- and the stored session. Nothing is asked of the token's signature.
    pub login-admitted :
        w.background ≡ []
        → r.find w.db w.now (
            server_key token_session_service
              (content lib issuable).session_channel
              (own_id lib issuable))
          ≡ none
        → w.now ≤ t
        → t < w.now + 1000 * suc n
        → lib.is_valid user_jwt_payload (admitted_user names.raw).user ≡ true
        → SessionAllowed lib logout_guard.allow_sessions user_session
        → let issued = login lib login_lib env k user_id w in
          let later = at_time (settled issued.1) t in
          (issued.0 ≡ ok (issued_token lib issuable env n (drawn_id w)))
          × (can_activate lib logout_guard request later ≡ (ok (admitted_user names.raw), later))
    unfolding load
    login-admitted idle fresh le lt valid allowed =
        let after : World r = at_time (settled (login lib login_lib env k user_id w).1) t in
        let (issued, token_live, session_live) =
          login_live lib login_lib env user_id w n k expire issuable idle fresh t le lt in
        let channel =
          channel-eq (lib.plain_to_instance user_jwt_payload names.raw).session_channel
            (content lib issuable).session_channel in
        (
          issued,
          can_activate-accepts lib logout_guard request after (admitted_user names.raw) (record {
            token = names.text;
            raw = names.raw;
            class = user_jwt_payload;
            has_token = names.carries;
            filled = names.filled;
            decodes = names.decodes;
            current = names.current;
            class_known = user_known names.type;
            class_allowed = user_allowed;
            admits = record {
              content = token_content;
              token_live =
                  rw (channel, named)
                    (get_session_value_unchanged token_session_service _ _ after token_live);
              signature = λ h. absurd (ground (arith, h));
              user = refl;
              valid = valid;
              session_live =
                  rw (channel, named)
                    (get_session_value_unchanged auth_session_service _ _ after session_live);
              session_allowed = allowed;
            };
          }),
        )
