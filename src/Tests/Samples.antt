-- ===== src/Tests/Samples.antt =====
-- Concrete inputs: a user and the sessions behind one token.
use codebase_be_nestjs.Common.{
  ℕ, String, ◌==◌, refl, true, Option, none, some, [], ◌∷◌, absent, val, if◌then◌else◌,
}
use codebase_be_nestjs.Common.Int.{pos}
use codebase_be_nestjs.Shared.SessionType.{token, user_session}
use codebase_be_nestjs.Shared.Flow.{BaseFlowSession, FlowSessionData, sign_contract, otp_requested}
use codebase_be_nestjs.Shared.Session.{BaseJwtSession}
use codebase_be_nestjs.Shared.Token.{BaseJwtPayload}
use codebase_be_nestjs.Redis.Server.{session_json, payload_json}
use codebase_be_nestjs.Redis.Storage.{World}
use codebase_be_nestjs.Redis.Memory.{memory}
use codebase_be_nestjs.Auth.{AuthEnvironment}
use codebase_be_nestjs.Auth.External.{Libraries}
use codebase_be_nestjs.Guard.{Request}

abbrev pub web_payload : BaseJwtPayload
web_payload = record {
  iat = val (pos 1);
  exp = val (pos 10);
  key = "k";
  id = some "1";
  session_channel = token;
  type = "OCTO_WEB";
}

abbrev pub user_payload : BaseJwtPayload
user_payload = record web_payload { type = "USER" }

abbrev pub sample_flow : BaseFlowSession
sample_flow = record {
  type = val sign_contract;
  permissions = val (otp_requested ∷ []);
  fields = λ name. absent;
}

abbrev pub sample_flows : FlowSessionData
sample_flows sign_contract = val sample_flow
sample_flows _ = absent

abbrev pub sample_session : BaseJwtSession
sample_session = record {
  key = val "k:1";
  permissions = val [];
  type = val user_session;
  token_ids = absent;
  flow_sessions = val sample_flows;
  exp = val (pos 1000);
  iat = absent;
  fields = λ name. absent;
}

abbrev pub ids : ℕ → String
ids n = "u"

-- Nothing stored yet.
abbrev pub empty_world : World memory
empty_world = record { db = []; now = 5000; uuids = ids; drawn = 0; background = [] }

-- The token session and the authenticated session of `k:1`, until second 1000.
abbrev pub live_world : World memory
live_world = record empty_world {
  db =
      ("REDIS_SESSION::TOKEN:JWT_SESSION:k:1", 1000900, payload_json user_payload)
      ∷ ("REDIS_SESSION::SESSION:JWT_SESSION:k:1", 1000900, session_json sample_session)
      ∷ [];
}

abbrev pub late_world : World memory
late_world = record live_world { now = 1000500 }

abbrev pub sample_environment : AuthEnvironment
sample_environment = record {
  token_expire = 3600;
  token_refresh_time_window = 6000;
  jwt_issuer = "issuer";
}

abbrev pub known_token : BaseJwtPayload → Option String → Option BaseJwtPayload
known_token payload none = none
known_token payload (some text) = if text == "jwt" then some payload else none

-- Library functions for which the one token decodes to the given payload.
abbrev pub sample_libraries : BaseJwtPayload → Libraries
sample_libraries payload = record {
  plain_to_instance = λ c p. p;
  plain_to_public = λ p. p;
  sign = λ now p o. "jwt";
  decode = known_token payload;
  verify = λ now text. known_token payload text;
  plain_to_class = λ c p. p;
  plain_to_session = λ c s. s;
  session_is_valid = λ c s. true;
  is_valid = λ c p. true;
  instance_key = λ c p. refl;
  instance_id = λ c p. refl;
  instance_type = λ c p. refl;
  instance_exp = λ c p. refl;
}

abbrev pub sample_request : Request
sample_request = record { authorization = some "Bearer jwt"; query_token = none }
