-- ===== src/Response.antt =====
-- core/interceptor/response.interceptor.ts: BaseResponseInterceptor, which turns whatever a handler
-- does into one answer with a system code and a status.
pub mod Codes
use codebase_be_nestjs.Common.{
  ℕ, String, Bool, true, false, ◌&&◌, not, ◌==◌, Option, none, some, List, [], ◌∷◌, if◌then◌else◌,
  ltb, eqb,
}
use codebase_be_nestjs.Common.Effect.{Exception, http, error}
use codebase_be_nestjs.Shared.SystemCode.{
  SystemCode, code_text, success, failed, timeout, sorry_something_went_wrong,
  please_throw_system_code, token_is_not_allow_to_refresh, token_is_invalid, bad_request,
  unauthorized, forbidden, session_not_available, insufficient_permission, record_not_found,
  user_not_exit, not_connect_cash, cant_verify_permission, agent_existing, account_invalid,
  icore_problem, internal_error_occurred, fetch_request_failed,
}
use codebase_be_nestjs.Shared.Response.{ErrorDetailWithParams, ResponseDto}
use codebase_be_nestjs.Redis.Server.{contains}

-- What the handler's observable does: it emits a value or an error. An HttpException may carry an
-- ErrorDetailWithParams for its response.
pub data Handled (D : Type 0) : Type 0 where
  value : D → Handled D
  thrown : Exception → Handled D
  detailed : ℕ → ErrorDetailWithParams D → Handled D

-- `errorDetail: string | ErrorDetailWithParams`
pub data ErrorDetail (D : Type 0) : Type 0 where
  text : String → ErrorDetail D
  detail : ErrorDetailWithParams D → ErrorDetail D

-- What an answer holds: the handler's value, a message, the error itself, or nothing.
pub data Body (D : Type 0) : Type 0 where
  of_value : D → Body D
  of_message : String → Body D
  of_error : Handled D → Body D
  nothing : Body D

-- Object.values(SYSTEM_CODE)
abbrev pub system_codes : List SystemCode
system_codes =
    success ∷ failed ∷ timeout ∷ sorry_something_went_wrong ∷ please_throw_system_code
    ∷ token_is_not_allow_to_refresh ∷ token_is_invalid ∷ bad_request ∷ unauthorized ∷ forbidden
    ∷ session_not_available ∷ insufficient_permission ∷ record_not_found ∷ user_not_exit
    ∷ not_connect_cash ∷ cant_verify_permission ∷ agent_existing ∷ account_invalid ∷ icore_problem
    ∷ internal_error_occurred ∷ fetch_request_failed ∷ []

abbrev pub code_texts : List SystemCode → List String
code_texts [] = []
code_texts (c ∷ cs) = code_text c ∷ code_texts cs

-- A code that is not in the enum is replaced.
unfoldable pub known_code : String → String
known_code code =
    if contains (code_texts system_codes) code then code else code_text please_throw_system_code

abbrev pub detail_code : {D : Type 0} → ErrorDetail D → String
detail_code (text code) = code
detail_code (detail d) = d.code

-- `errorDetail.data || data`
abbrev pub detail_body : {D : Type 0} → ErrorDetail D → Body D → Body D
detail_body (text code) body = body
detail_body (detail d) body = elim d.result_data [ none ↦ body | some given ↦ of_value given ]

abbrev pub message_text : String
message_text = "Yêu cầu của bạn đã được xử lý thành công."

-- `systemCode !== SUCCESS && SHOW_DEBUG_ERROR`
abbrev pub debug_of : {E : Type 0} → Bool → String → Option E → Option E
debug_of show code debug_error =
    if not (code == code_text success) && show then debug_error else none

abbrev pub Answer : Type 0 → Type 0
Answer D = ResponseDto (Body D) (Handled D)

unfoldable pub translate_response :
    {D : Type 0}
    → (show_debug_error : Bool) → ErrorDetail D
    → Body D
    → Option (Handled D)
    → Answer D
translate_response show error_detail given debug_error = record {
  result_data = detail_body error_detail given;
  message = message_text;
  system_code = known_code (detail_code error_detail);
  debug_error = debug_of show (known_code (detail_code error_detail)) debug_error;
}

-- The code for an error that is no HttpException, by the status that the response has.
abbrev pub code_for : ℕ → SystemCode
code_for status =
    if eqb status 400
    then bad_request
    else if eqb status 401
    then unauthorized
    else if eqb status 403
    then forbidden
    else sorry_something_went_wrong

-- The status that is left then: `else if (httpCode < 300) res.status(500)`.
abbrev pub status_for : ℕ → ℕ
status_for status = if ltb status 300 then 500 else status

-- BaseResponseInterceptor.intercept, on what the handler does and the response's status: the answer
-- and the status of the response.
unfoldable pub respond : {D : Type 0} → (show_debug_error : Bool) → ℕ → Handled D → Answer D × ℕ
unfolding translate_response
respond show status (value given) =
    (translate_response show (text (code_text success)) (of_value given) none, status)
respond show status (thrown (http code message)) =
    (translate_response show (text message) (of_error (thrown (http code message))) none, code)
respond show status (thrown (error message)) = (
  translate_response show (text (code_text (code_for status))) (of_message message)
      (some (thrown (error message))),
  status_for status,
)
respond show status (detailed code d) =
    (translate_response show (detail d) (of_error (detailed code d)) none, code)
