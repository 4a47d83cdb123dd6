-- ===== src/Tests/Logins.antt =====
-- Logging in on concrete inputs.
use codebase_be_nestjs.Common.{◌≡◌, refl, true, none, some, arith}
use codebase_be_nestjs.Common.Effect.{ok}
use codebase_be_nestjs.Common.Text.{is_literal}
use codebase_be_nestjs.Shared.SessionType.{SessionType-discrete}
use codebase_be_nestjs.Shared.Token.{BaseJwtPayload, token_type_map, user_jwt_payload}
use codebase_be_nestjs.Redis.Storage.{World}
use codebase_be_nestjs.Redis.Memory.{memory, find}
use codebase_be_nestjs.Session.Laws.{at_time}
use codebase_be_nestjs.Auth.External.{Libraries}
use codebase_be_nestjs.Auth.Replacing.{IsIssuable, issued_token}
use codebase_be_nestjs.Auth.Authenticating.{identified, drawn_id}
use codebase_be_nestjs.Auth.Renewal.{settled}
use codebase_be_nestjs.Guard.{jwt_of, behind_space, before_space, validate_session, can_activate}
use codebase_be_nestjs.Guard.Admission.{SessionAllowed}
use codebase_be_nestjs.Login.{LoginLibrary, login, logout_guard}
use codebase_be_nestjs.Login.Guarded.{Names, user_session, admitted_user, login-admitted}
use codebase_be_nestjs.Tests.Samples.{
  user_payload, live_world, sample_environment, sample_libraries, sample_session, sample_request,
  known_token,
}

-- The token of the new session.
abbrev new_payload : BaseJwtPayload
new_payload = record user_payload { id = some "u" }

abbrev libraries : Libraries
libraries = sample_libraries new_payload

abbrev hashed : LoginLibrary
hashed = record {
  hashing_sha256 = λ text. "k";
  plain_to_payload = λ key. record user_payload { key = key; id = none };
  plain_to_user_session = λ user_id. sample_session;
  payload_key = λ key. refl;
  payload_id = λ key. refl;
  payload_type = λ key. refl;
}

user_known : token_type_map "USER" ≡ some user_jwt_payload
unfolding token_type_map
user_known = refl

key_literal : is_literal "k:" ≡ true
unfolding is_literal
key_literal = refl

-- The user has one live session, `k:1`, and gets another, `k:u`.
abbrev issuable : IsIssuable (identified live_world (record user_payload { key = "k"; id = none }))
issuable = record {
  token_class = user_jwt_payload;
  known = user_known;
  first = "u";
  rest = "";
  id = refl;
  literal = key_literal;
  apart = (refl, (refl, tt));
}

abbrev later : World memory
later = at_time (settled (login libraries hashed sample_environment 0 "user" live_world).1) 8000

no_token : find live_world.db 5000 "REDIS_SESSION::TOKEN:JWT_SESSION:k:u" ≡ none
unfolding find
no_token = refl

decodes_user : known_token new_payload (jwt_of "Bearer jwt") ≡ some new_payload
unfolding behind_space before_space
decodes_user = refl

abbrev names :
    Names libraries sample_request
      (identified live_world (record user_payload { key = "k"; id = none }))
      8000
names = record {
  text = "Bearer jwt";
  raw = new_payload;
  carries = refl;
  filled = refl;
  decodes = decodes_user;
  key = refl;
  id = refl;
  type = refl;
  current = refl;
}

session_valid :
    SessionAllowed libraries logout_guard.allow_sessions
      (user_session libraries hashed sample_environment "user" live_world 3599 0 refl issuable)
unfolding validate_session SessionType-discrete
session_valid =
    (user_session libraries hashed sample_environment "user" live_world 3599 0 refl issuable, refl)

login-admitted_example :
    ((login libraries hashed sample_environment 0 "user" live_world).0
      ≡ ok (issued_token libraries issuable sample_environment 3599 (drawn_id live_world)))
    × (can_activate libraries logout_guard sample_request later ≡ (
      ok (
          admitted_user libraries hashed sample_environment "user" live_world 3599 0 refl issuable
            new_payload),
      later,
    ))
login-admitted_example =
    login-admitted libraries hashed sample_environment "user" live_world 3599 0 refl issuable
      sample_request 8000 names refl no_token (omega arith) (omega arith) refl session_valid
