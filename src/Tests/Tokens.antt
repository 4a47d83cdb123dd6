-- ===== src/Tests/Tokens.antt =====
-- The tokens of core/auth, the guard and the logout on concrete inputs.
use codebase_be_nestjs.Common.{
  is_some, eq_iff, String, ◌≡◌, ◌≢◌, refl, true, false, none, some, arith, ◌⊎◌,
}
use codebase_be_nestjs.Common.Text.{is_literal}
use codebase_be_nestjs.Common.Effect.{ok, err}
use codebase_be_nestjs.Shared.SystemCode.{code_text, unauthorized, unauthorized_exception}
use codebase_be_nestjs.Shared.SessionType.{token}
use codebase_be_nestjs.Shared.Token.{token_type_map, octo_web_jwt_payload}
use codebase_be_nestjs.Redis.Memory.{memory, find}
use codebase_be_nestjs.Session.{get_session_value}
use codebase_be_nestjs.Session.Keys.{server_key}
use codebase_be_nestjs.Session.Laws.{at_time, answer, serialized}
use codebase_be_nestjs.AuthSession.{auth_session_service, token_session_service}
use codebase_be_nestjs.Auth.{renew_token, create_token}
use codebase_be_nestjs.Auth.External.{Libraries}
use codebase_be_nestjs.Auth.Replacing.{IsIssuable, issued, create_token-single}
use codebase_be_nestjs.Auth.Renewal.{settled, renew_token-loses_session}
use codebase_be_nestjs.Guard.{Admitted, can_activate}
use codebase_be_nestjs.Guard.Admission.{Admits, can_activate_lem}
use codebase_be_nestjs.Common.{arith}
use codebase_be_nestjs.Shared.Token.{token_type_map}
use codebase_be_nestjs.Guard.{Admitted}
use codebase_be_nestjs.SignContract.{user_guard}
use codebase_be_nestjs.Tests.Samples.{
  web_payload, user_payload, live_world, sample_environment, sample_libraries, sample_request,
}

abbrev web : Libraries
web = sample_libraries web_payload

abbrev user : Libraries
user = sample_libraries user_payload

web_known : token_type_map "OCTO_WEB" ≡ some octo_web_jwt_payload
unfolding token_type_map
web_known = refl

web_literal : is_literal "k:" ≡ true
unfolding is_literal
web_literal = refl

abbrev web_issuable : IsIssuable web_payload
web_issuable = record {
  token_class = octo_web_jwt_payload;
  known = web_known;
  first = "1";
  rest = "";
  id = refl;
  literal = web_literal;
  apart = (refl, (refl, tt));
}

web_there :
    is_some
      (memory.find live_world.db live_world.now (server_key token_session_service token "k:1"))
    ≡ true
unfolding find
web_there = refl

renew_token-loses_session_example :
    (jwt : String) × (renew_token web sample_environment web_payload 60 false live_world
      ≡ (ok jwt, issued web web_issuable 59 live_world))
    × ((get_session_value token_session_service token "k:1"
          (at_time (renew_token web sample_environment web_payload 60 false live_world).1 8000)).0
        ≡ answer token_session_service
            (some (serialized token_session_service 5000 59 web_payload)))
    × ((get_session_value auth_session_service token "k:1" (
          at_time
            (settled (renew_token web sample_environment web_payload 60 false live_world).1)
            8000)).0
        ≡ answer auth_session_service none)
renew_token-loses_session_example =
    renew_token-loses_session web sample_environment web_issuable live_world 59 refl refl web_there
      8000 (omega arith) (omega arith)

abbrev second_id : String
second_id = "k:2"

other_id : second_id ≢ "k:1"
other_id h = absurd (ground (arith, (eq_iff "k:2" "k:1").1 h))

create_token-single_example :
    memory.find
      (create_token web sample_environment web_payload false 60 live_world).1.db
      8000
      (server_key token_session_service token "k:2")
    ≡ none
create_token-single_example =
    create_token-single web web_issuable sample_environment 59 live_world 8000 "2" (omega arith)
      other_id

can_activate_lem_example :
    ((admitted : Admitted) × (can_activate user user_guard sample_request live_world
        ≡ (ok admitted, live_world))
      × Admits user user_guard sample_request live_world admitted)
    ⊎ ((can_activate user user_guard sample_request live_world).0
        ≡ err (unauthorized_exception (code_text unauthorized)))
can_activate_lem_example = can_activate_lem user user_guard sample_request live_world
