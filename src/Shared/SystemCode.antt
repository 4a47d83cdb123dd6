-- ===== src/Shared/SystemCode.antt =====
-- shared/dto/code/system-code.ts, and the exceptions of the web framework that carry such a code.
use codebase_be_nestjs.Common.{String}
use codebase_be_nestjs.Common.Effect.{Exception, http}

pub data SystemCode : Type 0 where
  success failed timeout sorry_something_went_wrong please_throw_system_code : SystemCode
  token_is_not_allow_to_refresh token_is_invalid bad_request unauthorized forbidden : SystemCode
  session_not_available insufficient_permission record_not_found user_not_exit : SystemCode
  not_connect_cash cant_verify_permission agent_existing account_invalid icore_problem : SystemCode
  internal_error_occurred fetch_request_failed : SystemCode

abbrev pub code_text : SystemCode → String
code_text success = "SUCCESS"
code_text failed = "FAILED"
code_text timeout = "TIMEOUT"
code_text sorry_something_went_wrong = "SORRY_SOMETHING_WENT_WRONG"
code_text please_throw_system_code = "PLEASE_THROW_SYSTEM_CODE"
code_text token_is_not_allow_to_refresh = "TOKEN_IS_NOT_ALLOW_TO_REFRESH"
code_text token_is_invalid = "TOKEN_IS_INVALID"
code_text bad_request = "BAD_REQUEST"
code_text unauthorized = "UNAUTHORIZED"
code_text forbidden = "FORBIDDEN"
code_text session_not_available = "SESSION_NOT_AVAILABLE"
code_text insufficient_permission = "INSUFFICIENT_PERMISSION"
code_text record_not_found = "RECORD_NOT_FOUND"
code_text user_not_exit = "USER_NOT_EXIT"
code_text not_connect_cash = "NOT_CONNECT_CASH"
code_text cant_verify_permission = "CANT_VERIFY_PERMISSION"
code_text agent_existing = "AGENT_EXISTING"
code_text account_invalid = "ACCOUNT_INVALID"
code_text icore_problem = "ICORE_PROBLEM"
code_text internal_error_occurred = "INTERNAL_ERROR_OCCURRED"
code_text fetch_request_failed = "FETCH_REQUEST_FAILED"

-- `new UnauthorizedException(message)` and its siblings, by their status codes.
abbrev pub unauthorized_exception : String → Exception
unauthorized_exception message = http 401 message

abbrev pub bad_request_exception : String → Exception
bad_request_exception message = http 400 message

abbrev pub internal_server_error_exception : String → Exception
internal_server_error_exception message = http 500 message

abbrev pub service_unavailable_exception : String → Exception
service_unavailable_exception message = http 503 message
