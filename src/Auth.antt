-- ===== src/Auth.antt =====
-- core/auth/base-auth.service.ts with the two methods that core/auth-gateway/auth-gateway.service.ts
-- supplies: signing tokens, and the sessions behind them.
pub mod External
pub mod Deletes
pub mod Replacing
pub mod Renewal
pub mod Fresh
pub mod Authenticating
use codebase_be_nestjs.Common.{
  ℕ, zero, suc, ◌+◌, ◌*◌, String, ◌==◌, Bool, true, false, not, ◌||◌, ◌&&◌, Option, none, some,
  List, [], ◌∷◌, ◌++◌, map, Field, absent, val, read, ltb, if◌then◌else◌, is_empty, take, drop,
}
use codebase_be_nestjs.Common.Int.{ℤ, pos, negsuc}
use codebase_be_nestjs.Common.Effect.{Exec, pure, raise, gets, ok, ◌>>=◌, ◌>>◌}
use codebase_be_nestjs.Common.Text.{replace}
use codebase_be_nestjs.Shared.SystemCode.{
  code_text, token_is_not_allow_to_refresh, internal_error_occurred, unauthorized_exception,
  internal_server_error_exception,
}
use codebase_be_nestjs.Shared.SessionType.{JwtSession}
use codebase_be_nestjs.Shared.Session.{BaseJwtSession}
use codebase_be_nestjs.Shared.Token.{
  BaseJwtPayload, TokenClass, token_type_map, session_bound_id, template, refresh_token,
}
use codebase_be_nestjs.Redis.Server.{Server, Seconds, contains}
use codebase_be_nestjs.Redis.Storage
use codebase_be_nestjs.Redis.Storage.{World, v4}
use codebase_be_nestjs.Session
use codebase_be_nestjs.Session.{cache_key, add_session, get_keys}
use codebase_be_nestjs.AuthSession.{auth_session_service, token_session_service, list_or_nil}
use External.{Libraries, SignOptions}

-- The settings of CoreEnvironment that the service reads.
pub record AuthEnvironment : Type 0 where
  pub token_expire : ℕ
  pub token_refresh_time_window : ℕ
  pub jwt_issuer : String

-- `!payload.id`
abbrev pub lacks_id : Option String → Bool
lacks_id none = true
lacks_id (some id) = id == ""

-- `sessionLifeTime || expireTime`
abbrev pub life_time : Option ℕ → ℕ → ℕ
life_time none expire_time = expire_time
life_time (some zero) expire_time = expire_time
life_time (some (suc n)) expire_time = suc n

-- `!exp || Date.now() < exp - window`, for `exp = (content.exp || 0) * 1000`
abbrev pub too_early : ℕ → ℕ → Option ℤ → Bool
too_early now window none = true
too_early now window (some (pos zero)) = true
too_early now window (some (pos (suc e))) = ltb (now + window) (1000 * suc e)
too_early now window (some (negsuc e)) = false

-- `{ ...session, key, tokenIDs: [...(session.tokenIDs || []), id] }`
abbrev pub bound_session : BaseJwtSession → BaseJwtPayload → BaseJwtSession
bound_session session content = record session {
  key = val (session_bound_id content);
  token_ids = val (list_or_nil (read session.token_ids) ++ template content.id ∷ []);
}

-- `delete content.iat; delete content.exp`
abbrev pub public_content : Libraries → BaseJwtPayload → BaseJwtPayload
public_content lib payload = record (lib.plain_to_public payload) { iat = absent; exp = absent }

module _ {r : Server} where
  -- `await` on the deletes of a list, one for each key.
  unfoldable pub del_all : List String → Exec (World r) (Unit {0})
  del_all [] = pure tt
  del_all (k ∷ ks) = Storage.del k >>= λ _. del_all ks

  -- The event loop issues the first `n` deletes that are pending.
  unfoldable pub run_background : ℕ → Exec (World r) (Unit {0})
  unfolding del_all
  run_background n w = del_all (take n w.background) (record w { background = drop n w.background })

  -- `await this.clearSession(type, keys)`
  unfoldable pub clear_session : JwtSession → List String → Exec (World r) (Unit {0})
  clear_session type [] = pure tt
  clear_session type (key ∷ keys) = do
    Session.clear_session token_session_service type key
    Session.clear_session auth_session_service type key
    clear_session type keys

  abbrev push_background : List String → Exec (World r) (Unit {0})
  push_background keys w = (ok tt, record w { background = w.background ++ keys })

  -- `this.clearSession(type, keys)` with no `await`: the deletes of the tokens are issued before
  -- anything else, and those of the sessions later.
  unfoldable pub start_clear_session : JwtSession → List String → Exec (World r) (Unit {0})
  unfolding del_all
  start_clear_session type keys = do
    del_all (map (cache_key token_session_service type) keys)
    push_background (map (cache_key auth_session_service type) keys)

  -- The branches of createToken on the tokens that exist.
  unfoldable pub clear_existing : JwtSession → Bool → List String → Exec (World r) (Unit {0})
  unfolding start_clear_session
  clear_existing type allow_multiple_tokens existing_token =
      if allow_multiple_tokens || is_empty existing_token
      then pure tt
      else start_clear_session type existing_token

  -- `if (!payload.id) payload.id = uuid.v4()`
  unfoldable pub with_id : BaseJwtPayload → Exec (World r) BaseJwtPayload
  with_id payload =
      if lacks_id payload.id
      then (do id ← v4; pure (record payload { id = some id }))
      else pure payload

  -- randomBytes(32).toString("base64")
  abbrev gen_secret : Exec (World r) String
  gen_secret = v4

  -- AuthGatewayService.buildTokenPayload
  abbrev built : Libraries → BaseJwtPayload → Option TokenClass → Exec (World r) BaseJwtPayload
  built lib payload none =
      raise (internal_server_error_exception (code_text internal_error_occurred))
  built lib payload (some token_class) = pure (lib.plain_to_instance token_class payload)

  unfoldable pub build_token_payload : Libraries → BaseJwtPayload → Exec (World r) BaseJwtPayload
  build_token_payload lib payload = built lib payload (token_type_map payload.type)

  module _ (lib : Libraries) (env : AuthEnvironment) where
    unfoldable pub sign_jwt : BaseJwtPayload → Option String → ℕ → Exec (World r) String
    unfolding with_id
    sign_jwt payload secret expire_time = do
      payload ← with_id payload
      gets (λ w. lib.sign w.now (public_content lib payload) (record {
        audience = env.jwt_issuer;
        subject = payload.key;
        issuer = env.jwt_issuer;
        expires_in = expire_time;
        secret = secret;
      }))

    unfoldable pub create_token : BaseJwtPayload → Bool → ℕ → Exec (World r) String
    create_token payload allow_multiple_tokens expire_time = do
      content ← build_token_payload lib payload
      secret_generation ← gen_secret
      existing_token ←
          get_keys token_session_service content.session_channel
            (replace (session_bound_id content) (template content.id) "*")
      clear_existing content.session_channel allow_multiple_tokens existing_token
      jwt ← sign_jwt payload (some secret_generation) expire_time
      add_session token_session_service content.session_channel (session_bound_id content)
          (some (pos expire_time)) content
      pure jwt

    unfoldable pub authenticate_with_hard_secret :
        BaseJwtPayload → BaseJwtSession → ℕ → Option ℕ → Exec (World r) String
    authenticate_with_hard_secret payload session expire_time session_life_time = do
      payload ← with_id payload
      jwt ← sign_jwt payload none expire_time
      content ← build_token_payload lib payload
      add_session token_session_service content.session_channel (session_bound_id content)
          (some (pos expire_time)) content
      add_session auth_session_service content.session_channel (session_bound_id content)
          (some (pos (life_time session_life_time expire_time))) (bound_session session content)
      pure jwt

    -- `issued` deletes of the clearing that createToken started run before the session is added.
    unfoldable pub authenticate :
        (issued : ℕ) → BaseJwtPayload → BaseJwtSession → ℕ → Option ℕ → Bool → Exec (World r) String
    authenticate issued payload session expire_time session_life_time allow_multiple_tokens = do
      payload ← with_id payload
      jwt ← create_token payload allow_multiple_tokens expire_time
      content ← build_token_payload lib payload
      run_background issued
      add_session auth_session_service content.session_channel (session_bound_id content)
          (some (pos (life_time session_life_time expire_time))) (bound_session session content)
      pure jwt

    unfoldable pub renew_token : BaseJwtPayload → ℕ → Bool → Exec (World r) String
    renew_token content expire_time allow_multiple_tokens w =
        if not (contains refresh_token content.type)
        then raise (unauthorized_exception (code_text token_is_not_allow_to_refresh)) w
        else if too_early w.now env.token_refresh_time_window (read content.exp)
        then raise (unauthorized_exception (code_text token_is_not_allow_to_refresh)) w
        else create_token content allow_multiple_tokens expire_time w

  unfoldable pub logout : BaseJwtPayload → Exec (World r) (Unit {0})
  unfolding clear_session
  logout content = clear_session content.session_channel (session_bound_id content ∷ [])
