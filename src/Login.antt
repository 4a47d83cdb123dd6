-- ===== src/Login.antt =====
-- module/auth: logging in and out, and the routes of auth.controller.ts.
pub mod Sessions
pub mod Guarded
use codebase_be_nestjs.Common.{
  ℕ, String, ◌==◌, ◌≡◌, Bool, true, false, Option, none, some, List, [], ◌∷◌,
}
use codebase_be_nestjs.Common.Effect.{Exec, pure, ◌>>=◌, ◌>>◌}
use codebase_be_nestjs.Shared.SessionType.{token}
use codebase_be_nestjs.Shared.Session.{
  BaseJwtSession, SessionPermission, otp_verified, forgot_password, user_session_class,
}
use codebase_be_nestjs.Shared.Token.{BaseJwtPayload, user_jwt_payload, token_type_text, user}
use codebase_be_nestjs.Redis.Server.{Server}
use codebase_be_nestjs.Redis.Storage.{World}
use codebase_be_nestjs.Auth.{AuthEnvironment, authenticate}
use codebase_be_nestjs.Auth
use codebase_be_nestjs.Auth.External.{Libraries}
use codebase_be_nestjs.Guard.{GuardParams, Request, one, many}
use codebase_be_nestjs.Permission.{Metadata, PermissionMetadata, Outcome}
use codebase_be_nestjs.Response.{Answer}
use codebase_be_nestjs.SignContract.{guarded_route}

-- What the service takes from class-transformer and core/crypto: the instances keep the property
-- that they are given and have the defaults of their classes, and no id.
pub record LoginLibrary : Type 0 where
  pub hashing_sha256 : String → String
  pub plain_to_payload : (key : String) → BaseJwtPayload
  pub plain_to_user_session : (user_id : String) → BaseJwtSession
  pub payload_key : (key : String) → (plain_to_payload key).key ≡ key
  pub payload_id : (key : String) → (plain_to_payload key).id ≡ none
  pub payload_type : (key : String) → (plain_to_payload key).type ≡ token_type_text user

-- The body of logging out: `isSuccess`.
pub record LogoutResponse : Type 0 where
  pub is_success : Bool

module _ {r : Server} where
  -- AuthService.login; `issued` is the number of deletes of createToken's clearing that run before
  -- the session is added.
  unfoldable pub login :
      Libraries → LoginLibrary → AuthEnvironment → (issued : ℕ) → String → Exec (World r) String
  login lib login_lib env issued user_id =
      authenticate lib env issued (login_lib.plain_to_payload (login_lib.hashing_sha256 user_id))
        (login_lib.plain_to_user_session user_id) env.token_expire none false

  -- AuthService.logout
  unfoldable pub logout : BaseJwtPayload → Exec (World r) LogoutResponse
  logout token_payload = do Auth.logout token_payload; pure (record { is_success = true })

-- A handler with nothing attached.
abbrev pub no_metadata : Metadata
no_metadata = record {
  class_permission = none;
  handler_permission = none;
  class_flow = none;
  handler_flow = none;
}

abbrev pub permission_metadata : Option (List SessionPermission) → List SessionPermission → Metadata
permission_metadata required provided = record no_metadata {
  handler_permission =
      some (record { provide_permissions = some provided; required_permissions = required });
}

-- @PermissionGuard of exampleAddPermissionFlow
abbrev pub add_permission_metadata : Metadata
add_permission_metadata = permission_metadata none (otp_verified ∷ [])

-- @PermissionGuard of exampleAddSessionLocalFlow
abbrev pub add_session_local_flow_metadata : Metadata
add_session_local_flow_metadata =
    permission_metadata (some (otp_verified ∷ [])) (forgot_password ∷ [])

-- The guards of the routes: logout has lists, the example routes have single classes.
abbrev pub logout_guard : GuardParams
logout_guard = record {
  allow_tokens = many (user_jwt_payload ∷ []);
  allow_sessions = some (many (user_session_class ∷ []));
  verify_signature = false;
}

abbrev pub example_guard : GuardParams
example_guard = record {
  allow_tokens = one user_jwt_payload;
  allow_sessions = some (one user_session_class);
  verify_signature = false;
}

module _ {r : Server} (lib : Libraries) (show_debug_error : Bool) where
  unfoldable pub logout_route : Request → World r → Outcome (Answer LogoutResponse) × World r
  unfolding logout guarded_route
  logout_route =
      guarded_route lib show_debug_error (many (user_session_class ∷ [])) logout_guard no_metadata
        logout

  -- The two example routes only log the token.
  unfoldable pub example_add_permission_flow :
      Request → World r → Outcome (Answer (Unit {0})) × World r
  unfolding guarded_route
  example_add_permission_flow =
      guarded_route lib show_debug_error (one user_session_class) example_guard
        add_permission_metadata (λ payload. pure tt)

  unfoldable pub example_add_session_local_flow :
      Request → World r → Outcome (Answer (Unit {0})) × World r
  unfolding guarded_route
  example_add_session_local_flow =
      guarded_route lib show_debug_error (one user_session_class) example_guard
        add_session_local_flow_metadata (λ payload. pure tt)
