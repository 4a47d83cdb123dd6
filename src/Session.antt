-- ===== src/Session.antt =====
-- core/session/session.service.ts: BaseSessionService over the storage, for any type of values.
pub mod Keys
pub mod Laws
pub mod Refinement
use codebase_be_nestjs.Common.{
  ℕ, ◌/◌, String, Bool, true, false, Option, none, some, List, map, Field, undef, val,
}
use codebase_be_nestjs.Common.Int.{ℤ, pos, ◌+ℤ◌}
use codebase_be_nestjs.Common.Effect.{Exec, pure, raise, catch, ◌>>=◌}
use codebase_be_nestjs.Common.Effect.{error}
use codebase_be_nestjs.Common.Text.{◌<>◌, replace}
use codebase_be_nestjs.Shared.SystemCode.{
  code_text, session_not_available, unauthorized_exception, bad_request_exception,
}
use codebase_be_nestjs.Shared.SessionType.{JwtSession, jwt_session_text}
use codebase_be_nestjs.Redis.Server.{Server, Seconds, StoredText}
use codebase_be_nestjs.Redis.Storage.{World, set_ex, get, del}
use codebase_be_nestjs.Redis.Storage

-- What a subclass of BaseSessionService supplies. `stamp exp iat` is the spread
-- `{ exp, iat, ...value }`, and `none` is an error of the deserializer.
pub record SessionService (V : Type 0) : Type 0 where
  pub namespace : String
  pub stamp : Field ℤ → Field ℤ → V → V
  pub value_serializer : V → StoredText
  pub value_deserializer : StoredText → Option V

-- `Math.floor(Date.now() / 1000) + expireInSeconds`; JSON writes NaN as null.
abbrev pub expiry : ℕ → Seconds → Field ℤ
expiry now none = undef
expiry now (some seconds) = val (seconds +ℤ (now / 1000))

module _ {V : Type 0} (service : SessionService V) where
  -- `${this.NAMESPACE}:${type}:${id}`
  abbrev pub cache_key : JwtSession → String → String
  cache_key type id = (((service.namespace <> ":") <> jwt_session_text type) <> ":") <> id

module _ {r : Server} {V : Type 0} where
  abbrev pub added : V → Bool → Exec (World r) V
  added value true = pure value
  added value false = raise (bad_request_exception (code_text session_not_available))

  unfoldable pub add_session :
      SessionService V → JwtSession → String → Seconds → V → Exec (World r) V
  add_session service type id expire_in_seconds value w =
      (set_ex (cache_key service type id) expire_in_seconds (
            service.value_serializer
              (service.stamp (expiry w.now expire_in_seconds) (val (pos (w.now / 1000))) value))
          >>= added value)
        w

  abbrev or_throw : SessionService V → Option StoredText → Exec (World r) V
  or_throw service none = raise (error "Session key not exist")
  or_throw service (some text) = elim (service.value_deserializer text) [
    | none ↦ raise (error "SyntaxError")
    | some value ↦ pure value
  ]

  unfoldable pub get_session_value : SessionService V → JwtSession → String → Exec (World r) V
  get_session_value service type id =
      catch (get (cache_key service type id) >>= or_throw service)
        (λ _. raise (unauthorized_exception "Failed to get session value"))

  unfoldable pub check_session : SessionService V → JwtSession → String → Exec (World r) Bool
  check_session service type id =
      catch (get (cache_key service type id) >>= λ _. pure true)
        (λ _. raise (unauthorized_exception (code_text session_not_available)))

  unfoldable pub get_keys : SessionService V → JwtSession → String → Exec (World r) (List String)
  get_keys service type id = Storage.get_keys (cache_key service type id) >>= λ keys.
      pure (map (λ k. replace k (cache_key service type "") "") keys)

  unfoldable pub clear_session : SessionService V → JwtSession → String → Exec (World r) Bool
  clear_session service type id = del (cache_key service type id) >>= λ _. pure true
