-- ===== src/Guard.antt =====
-- core/auth-gateway/auth.guard.ts and auth.decorator.ts: the two guards, and what the routes read
-- of the request that a guard let through.
pub mod Admission
pub mod Acceptance
pub mod Refusal
use codebase_be_nestjs.Common.{
  ℕ, ◌*◌, String, ◌==◌, Bool, true, false, not, ◌||◌, ◌&&◌, Option, none, some, List, [], ◌∷◌,
  spread, read, Field, if◌then◌else◌, ltb, same, includes,
}
use Prim.Native.String.{[], ◌∷◌}
use text.Mathlib.Text.{starts_with}
use codebase_be_nestjs.Common.Int.{ℤ, pos, negsuc}
use codebase_be_nestjs.Common.Effect.{error, Exec, Result, ok, err, pure, raise, catch, ◌>>=◌, ◌>>◌}
use codebase_be_nestjs.Common.Text.{replace}
use codebase_be_nestjs.Shared.SystemCode.{
  code_text, unauthorized, unauthorized_exception, internal_server_error_exception,
}
use codebase_be_nestjs.Shared.SessionType.{SessionType, SessionType-discrete}
use codebase_be_nestjs.Shared.Session.{BaseJwtSession, SessionClass, session_class_type}
use codebase_be_nestjs.Shared.Token.{
  BaseJwtPayload, TokenClass, TokenClass-discrete, token_type_map, session_bound_id,
  need_verify_jwt_signature,
}
use codebase_be_nestjs.Redis.Server.{Server}
use codebase_be_nestjs.Redis.Storage.{World}
use codebase_be_nestjs.Session.{get_session_value}
use codebase_be_nestjs.AuthSession.{token_session_service, load}
use codebase_be_nestjs.Auth.External.{Libraries}

-- A class, or an array of classes.
pub data OneOrMany (A : Type 0) : Type 0 where
  one : A → OneOrMany A
  many : List A → OneOrMany A

-- The header and the query parameter that carry a token.
pub record Request : Type 0 where
  pub authorization : Option String
  pub query_token : Option String

-- What a guard leaves in the request: `request.user` and `request.session`.
pub record Admitted : Type 0 where
  pub user : BaseJwtPayload
  pub session : BaseJwtSession

pub record GuardParams : Type 0 where
  pub allow_tokens : OneOrMany TokenClass
  pub allow_sessions : Option (OneOrMany SessionClass)
  pub verify_signature : Bool

-- `a || b` on texts, where the empty text is falsy.
abbrev pub or_else : Option String → Option String → Option String
or_else none b = b
or_else (some a) b = if a == "" then b else some a

-- The text behind the first space, and the text before it.
unfoldable pub behind_space : String → Option String
behind_space [] = none
behind_space (c ∷ s) = let rest = behind_space s in if starts_with (c ∷ s) " " then some s else rest

unfoldable pub before_space : String → String
before_space [] = ""
before_space (c ∷ s) = let rest = before_space s in if starts_with (c ∷ s) " " then "" else c ∷ rest

-- `token.split(" ")[1]`
abbrev pub second_word : String → Option String
second_word s = elim (behind_space s) [ none ↦ none | some rest ↦ some (before_space rest) ]

abbrev pub jwt_of : String → Option String
jwt_of token = if starts_with token "Bearer" then second_word token else some token

-- `rawPayload.exp * 1000 < Date.now()`; a comparison with NaN is false.
abbrev pub is_expired : ℕ → Option ℤ → Bool
is_expired now none = false
is_expired now (some (pos e)) = ltb (e * 1000) now
is_expired now (some (negsuc e)) = true

-- Whether `allowTokens` has the class; `undefined` is in no array and equal to no class.
abbrev pub allows : OneOrMany TokenClass → Option TokenClass → Bool
allows tokens none = false
allows (one c) (some d) = same TokenClass-discrete c d
allows (many cs) (some d) = includes TokenClass-discrete cs d

-- `{ ...rawPayload, ...content }`, where JSON kept no property that is undefined.
abbrev pub spread_payload : BaseJwtPayload → BaseJwtPayload → BaseJwtPayload
spread_payload raw content = record content {
  iat = spread raw.iat content.iat;
  exp = spread raw.exp content.exp;
  id = elim content.id [ none ↦ raw.id | some id ↦ some id ];
}

-- `type === session.type`, which an undefined type never is.
abbrev pub has_type : Option SessionType → SessionClass → Bool
has_type none c = false
has_type (some type) c = same SessionType-discrete (session_class_type c) type

abbrev pub find_class : Option SessionType → List SessionClass → Option SessionClass
find_class type [] = none
find_class type (c ∷ cs) = if has_type type c then some c else find_class type cs

abbrev pub session_class : Option SessionType → OneOrMany SessionClass → Option SessionClass
session_class type (one c) = some c
session_class type (many cs) = find_class type cs

module _ (lib : Libraries) where
  abbrev pub valid_session : SessionClass → BaseJwtSession → Result BaseJwtSession
  valid_session c payload =
      if lib.session_is_valid c payload
      then ok payload
      else err (unauthorized_exception "Invalid session data!")

  abbrev pub session_as : BaseJwtSession → Option SessionClass → Result BaseJwtSession
  session_as session none =
      err (internal_server_error_exception "Wrong session type implementation")
  session_as session (some c) =
      if has_type (read session.type) c
      then valid_session c (lib.plain_to_session c session)
      else err (unauthorized_exception "Invalid session type")

  unfoldable pub validate_session : BaseJwtSession → OneOrMany SessionClass → Result BaseJwtSession
  validate_session session types = session_as session (session_class (read session.type) types)

  -- The validate method of JWTNormalGuard.
  abbrev pub validate : BaseJwtPayload → BaseJwtPayload
  validate payload = lib.plain_to_class (token_type_map payload.type) payload

  -- The decorator JWTSession.
  abbrev pub jwt_session : OneOrMany SessionClass → Admitted → Result BaseJwtSession
  jwt_session types request = validate_session request.session types

-- The decorator JWTContent.
abbrev pub jwt_content : Option Admitted → Result BaseJwtPayload
jwt_content none = err (unauthorized_exception "Unauthorized")
jwt_content (some request) = ok request.user

abbrev pub extra : Option (BaseJwtPayload → Request → Bool) → BaseJwtPayload → Request → Bool
extra none user request = true
extra (some validator) user request = validator user request

module _ {r : Server} where
  abbrev pub or_error : {A : Type 0} → Option A → Exec (World r) A
  or_error none = raise (error "Error")
  or_error (some a) = pure a

  -- `if (!condition) throw new UnauthorizedException(...)`
  abbrev pub require : Bool → Exec (World r) (Unit {0})
  require true = pure tt
  require false = raise (unauthorized_exception (code_text unauthorized))

  abbrev pub returning : {A : Type 0} → Result A → Exec (World r) A
  returning result w = (result, w)

  abbrev pub checked_session :
      Libraries → Option (OneOrMany SessionClass) → BaseJwtSession → Exec (World r) (Unit {0})
  checked_session lib none session = pure tt
  checked_session lib (some types) session = do
    returning (validate_session lib session types)
    pure tt

  module _ (lib : Libraries) where
    abbrev pub decoded : Bool → Option String → Exec (World r) BaseJwtPayload
    decoded true jwt w = or_error (lib.verify w.now jwt) w
    decoded false jwt w = or_error (lib.decode jwt) w

    abbrev pub verified : Bool → Option String → Exec (World r) (Unit {0})
    verified false jwt w = pure tt w
    verified true jwt w = (or_error (lib.verify w.now jwt) >>= λ _. pure tt) w

    -- The try block of JwtGuard's canActivate, from the token's class on.
    unfoldable pub admit_class :
        GuardParams → Option String → BaseJwtPayload → TokenClass → Exec (World r) Admitted
    admit_class params jwt raw c = do
      content ←
          get_session_value token_session_service (lib.plain_to_instance c raw).session_channel
            (session_bound_id (lib.plain_to_instance c raw))
      verified (not params.verify_signature && need_verify_jwt_signature c) jwt
      require (lib.is_valid c (lib.plain_to_class (some c) (spread_payload raw content)))
      session ←
          load (lib.plain_to_instance c raw).session_channel
            (session_bound_id (lib.plain_to_instance c raw))
      checked_session lib params.allow_sessions session
      pure (record {
        user = lib.plain_to_class (some c) (spread_payload raw content);
        session = session;
      })

    abbrev pub not_expired : BaseJwtPayload → Exec (World r) (Unit {0})
    not_expired raw w = require (not (is_expired w.now (read raw.exp))) w

    unfoldable pub admit : GuardParams → Request → Exec (World r) Admitted
    admit params request = do
      token ← or_error (or_else request.authorization request.query_token)
      require (not (token == ""))
      raw ← decoded params.verify_signature (jwt_of token)
      not_expired raw
      require (allows params.allow_tokens (token_type_map raw.type))
      c ← or_error (token_type_map raw.type)
      admit_class params (jwt_of token) raw c

    -- JwtGuard(params).canActivate
    unfoldable pub can_activate : GuardParams → Request → Exec (World r) Admitted
    can_activate params request =
        catch (admit params request) (λ _. raise (unauthorized_exception (code_text unauthorized)))

    -- JWTNormalGuard(options).canActivate, with `request.user`
    unfoldable pub normal_can_activate :
        Option (BaseJwtPayload → Request → Bool) → Request → Exec (World r) (Bool × BaseJwtPayload)
    normal_can_activate extra_validator request =
        catch
          (do
            bearer_token ← or_error (or_else request.authorization request.query_token)
            payload ← decoded true (some (replace bearer_token "Bearer " ""))
            pure (extra extra_validator (validate lib payload) request, validate lib payload))
          (λ _. raise (unauthorized_exception (code_text unauthorized)))
