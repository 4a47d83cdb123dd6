-- ===== src/Shared/Token.antt =====
-- shared/business/auth/auth.payload.ts
use codebase_be_nestjs.Common.{
  String, ◌==◌, List, [], ◌∷◌, Option, none, some, Bool, true, false, Field, if◌then◌else◌, spread,
  stored,
}
use codebase_be_nestjs.Common.Int.{ℤ}
use codebase_be_nestjs.Common.Text.{◌<>◌}
use codebase_be_nestjs.Shared.SessionType.{JwtSession}

pub data TokenType : Type 0 where
  user octo_guest octo_web onboarding_email_otp onboarding_email_otp_verified : TokenType

abbrev pub token_type_text : TokenType → String
token_type_text user = "USER"
token_type_text octo_guest = "OCTO_GUEST"
token_type_text octo_web = "OCTO_WEB"
token_type_text onboarding_email_otp = "ONBOARDING_EMAIL_OTP"
token_type_text onboarding_email_otp_verified = "ONBOARDING_EMAIL_OTP_VERIFIED"

-- REFRESH_TOKEN
abbrev pub refresh_token : List String
refresh_token = token_type_text octo_guest ∷ token_type_text octo_web ∷ []

-- The fields of BaseJWTPayload. A payload that comes from a token holds any text for a type.
pub record BaseJwtPayload : Type 0 where
  pub iat : Field ℤ
  pub exp : Field ℤ
  pub key : String
  pub id : Option String
  pub session_channel : JwtSession
  pub type : String

-- `${undefined}` is a text too.
abbrev pub template : Option String → String
template none = "undefined"
template (some text) = text

-- get sessionBoundId()
abbrev pub session_bound_id : BaseJwtPayload → String
session_bound_id payload = (payload.key <> ":") <> template payload.id

pub data TokenClass : Type 0 where
  user_jwt_payload octo_web_user_jwt_payload octo_web_jwt_payload : TokenClass
  octo_guest_jwt_payload sign_contract_jwt_payload : TokenClass

unfoldable pub TokenClass-discrete : Discrete TokenClass
TokenClass-discrete = hlevel

-- The value of the class's property `type`.
abbrev pub class_type : TokenClass → TokenType
class_type user_jwt_payload = user
class_type octo_web_user_jwt_payload = octo_web
class_type octo_web_jwt_payload = octo_web
class_type octo_guest_jwt_payload = octo_guest
class_type sign_contract_jwt_payload = user

-- The value of the class's property `needVerifyJwtSignature`.
abbrev pub need_verify_jwt_signature : TokenClass → Bool
need_verify_jwt_signature octo_guest_jwt_payload = true
need_verify_jwt_signature _ = false

-- TOKEN_TYPE_MAP
unfoldable pub token_type_map : String → Option TokenClass
token_type_map type =
    if type == token_type_text user
    then some user_jwt_payload
    else if type == token_type_text octo_guest
    then some octo_guest_jwt_payload
    else if type == token_type_text octo_web
    then some octo_web_jwt_payload
    else if type == token_type_text onboarding_email_otp
    then some octo_guest_jwt_payload
    else if type == token_type_text onboarding_email_otp_verified
    then some octo_guest_jwt_payload
    else none

-- What JSON keeps of a payload.
abbrev pub stored_payload : BaseJwtPayload → BaseJwtPayload
stored_payload payload = record payload { iat = stored payload.iat; exp = stored payload.exp }

-- `{ exp, iat, ...payload }`
abbrev pub stamp_payload : Field ℤ → Field ℤ → BaseJwtPayload → BaseJwtPayload
stamp_payload exp iat payload = record payload {
  exp = spread exp payload.exp;
  iat = spread iat payload.iat;
}
