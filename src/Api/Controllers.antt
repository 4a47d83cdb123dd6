-- ===== src/Api/Controllers.antt =====
-- The routes of the controllers: the method and the address in the decorator of each handler.
use codebase_be_nestjs.Common.{String, List, [], ◌∷◌}
use codebase_be_nestjs.Api.Dtos.{
  Method, get, post, put, delete, login_endpoint, logout_endpoint, example_add_permission_endpoint,
  example_add_session_local_flow_endpoint, request_otp_endpoint, check_otp_endpoint,
  check_selfie_endpoint, get_user_list_endpoint, get_profile_endpoint, update_profile_endpoint,
  remove_user_endpoint,
}

pub record Route : Type 0 where
  pub method : Method
  pub url : String

abbrev pub get_hello_route : Route
get_hello_route = record { method = get; url = "" }

abbrev pub test_send_rabbitmq_route : Route
test_send_rabbitmq_route = record { method = get; url = "test-send-rabbitmq" }

abbrev pub get_list_user_route : Route
get_list_user_route = record { method = get; url = get_user_list_endpoint.url }

abbrev pub get_profile_route : Route
get_profile_route = record { method = get; url = get_profile_endpoint.url }

abbrev pub update_profile_route : Route
update_profile_route = record { method = put; url = update_profile_endpoint.url }

abbrev pub remove_user_route : Route
remove_user_route = record { method = delete; url = remove_user_endpoint.url }

abbrev pub login_route : Route
login_route = record { method = post; url = login_endpoint.url }

abbrev pub logout_route : Route
logout_route = record { method = post; url = logout_endpoint.url }

abbrev pub example_add_permission_flow_route : Route
example_add_permission_flow_route = record {
  method = get;
  url = example_add_permission_endpoint.url;
}

abbrev pub example_add_session_local_flow_route : Route
example_add_session_local_flow_route = record {
  method = get;
  url = example_add_session_local_flow_endpoint.url;
}

abbrev pub request_otp_route : Route
request_otp_route = record { method = get; url = request_otp_endpoint.url }

abbrev pub check_otp_route : Route
check_otp_route = record { method = get; url = check_otp_endpoint.url }

abbrev pub check_selfie_route : Route
check_selfie_route = record { method = get; url = check_selfie_endpoint.url }

abbrev pub call_raw_test_route : Route
call_raw_test_route = record { method = get; url = "fetch-test/call-raw" }

abbrev pub register_dynamic_module_a_route : Route
register_dynamic_module_a_route = record { method = get; url = "test/register-dynamic-module-a" }

abbrev pub register_dynamic_module_b_route : Route
register_dynamic_module_b_route = record { method = get; url = "test/register-dynamic-module-b" }

abbrev pub stream_data_from_db_route : Route
stream_data_from_db_route = record { method = get; url = "stream" }

pub data Handler : Type 0 where
  get_hello test_send_rabbitmq : Handler
  get_list_user get_profile update_profile remove_user : Handler
  login logout example_add_permission_flow example_add_session_local_flow : Handler
  request_otp check_otp check_selfie : Handler
  call_raw_test register_dynamic_module_a register_dynamic_module_b stream_data_from_db : Handler

abbrev pub handlers : List Handler
handlers =
    get_hello ∷ test_send_rabbitmq ∷ get_list_user ∷ get_profile ∷ update_profile ∷ remove_user
    ∷ login ∷ logout ∷ example_add_permission_flow ∷ example_add_session_local_flow ∷ request_otp
    ∷ check_otp ∷ check_selfie ∷ call_raw_test ∷ register_dynamic_module_a
    ∷ register_dynamic_module_b ∷ stream_data_from_db ∷ []

abbrev pub route : Handler → Route
route get_hello = get_hello_route
route test_send_rabbitmq = test_send_rabbitmq_route
route get_list_user = get_list_user_route
route get_profile = get_profile_route
route update_profile = update_profile_route
route remove_user = remove_user_route
route login = login_route
route logout = logout_route
route example_add_permission_flow = example_add_permission_flow_route
route example_add_session_local_flow = example_add_session_local_flow_route
route request_otp = request_otp_route
route check_otp = check_otp_route
route check_selfie = check_selfie_route
route call_raw_test = call_raw_test_route
route register_dynamic_module_a = register_dynamic_module_a_route
route register_dynamic_module_b = register_dynamic_module_b_route
route stream_data_from_db = stream_data_from_db_route
