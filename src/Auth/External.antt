-- ===== src/Auth/External.antt =====
-- What core/auth and core/auth-gateway take from @nestjs/jwt, class-transformer and
-- class-validator: the functions, and the documented behaviour that is relied on.
use codebase_be_nestjs.Common.{ℕ, String, ◌≡◌, Bool, Option, read}
use codebase_be_nestjs.Shared.Token.{BaseJwtPayload, TokenClass}
use codebase_be_nestjs.Shared.Session.{BaseJwtSession, SessionClass}

pub record SignOptions : Type 0 where
  pub audience : String
  pub subject : String
  pub issuer : String
  pub expires_in : ℕ
  pub secret : Option String

pub record Libraries : Type 0 where
  -- plainToInstance(tokenClass, payload, { exposeDefaultValues: true })
  pub plain_to_instance : TokenClass → BaseJwtPayload → BaseJwtPayload
  -- plainToInstance(JWTGatewayPayload, payload, …)
  pub plain_to_public : BaseJwtPayload → BaseJwtPayload
  -- jwtService.sign at a time in milliseconds
  pub sign : ℕ → BaseJwtPayload → SignOptions → String
  -- The payload, parsed if it is a text. `none` is null, or what JSON.parse throws on.
  pub decode : Option String → Option BaseJwtPayload
  -- jwtService.verify with the module's secret; `none` is an error
  pub verify : ℕ → Option String → Option BaseJwtPayload
  -- plainToInstance(tokenClass, payload)
  pub plain_to_class : Option TokenClass → BaseJwtPayload → BaseJwtPayload
  -- plainToInstance(sessionType, session)
  pub plain_to_session : SessionClass → BaseJwtSession → BaseJwtSession
  -- validateSync(session) finds no errors
  pub session_is_valid : SessionClass → BaseJwtSession → Bool
  -- validate(token) finds no errors
  pub is_valid : TokenClass → BaseJwtPayload → Bool
  -- The exposed properties keep the values that they are given.
  pub instance_key : (c : TokenClass) (p : BaseJwtPayload) → (plain_to_instance c p).key ≡ p.key
  pub instance_id : (c : TokenClass) (p : BaseJwtPayload) → (plain_to_instance c p).id ≡ p.id
  pub instance_type : (c : TokenClass) (p : BaseJwtPayload) → (plain_to_instance c p).type ≡ p.type
  pub instance_exp :
      (c : TokenClass) (p : BaseJwtPayload) → read (plain_to_instance c p).exp ≡ read p.exp
