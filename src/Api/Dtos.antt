-- ===== src/Api/Dtos.antt =====
-- The classes of shared/dto that extend DTO: where a client sends their requests.
use codebase_be_nestjs.Common.{String, Bool, true, false, List, [], ◌∷◌}

-- METHOD
pub data Method : Type 0 where
  get post put delete : Method

unfoldable pub Method-discrete : Discrete Method
Method-discrete = hlevel

-- The address and the method of a class, the fields of its paramsDTO, and whether it has a queryDTO.
pub record Endpoint : Type 0 where
  pub url : String
  pub method : Method
  pub param_names : List String
  pub has_query : Bool

abbrev pub login_endpoint : Endpoint
login_endpoint = record { url = "login"; method = post; param_names = []; has_query = false }

abbrev pub logout_endpoint : Endpoint
logout_endpoint = record { url = "logout"; method = post; param_names = []; has_query = false }

abbrev pub check_session_endpoint : Endpoint
check_session_endpoint = record {
  url = "check-session";
  method = get;
  param_names = [];
  has_query = false;
}

abbrev pub example_add_permission_endpoint : Endpoint
example_add_permission_endpoint = record {
  url = "add-provide-permission";
  method = get;
  param_names = [];
  has_query = false;
}

abbrev pub example_add_session_local_flow_endpoint : Endpoint
example_add_session_local_flow_endpoint = record {
  url = "add-flow-session";
  method = get;
  param_names = [];
  has_query = false;
}

abbrev pub request_otp_endpoint : Endpoint
request_otp_endpoint = record {
  url = "sign-contract/request-otp";
  method = get;
  param_names = [];
  has_query = false;
}

abbrev pub check_otp_endpoint : Endpoint
check_otp_endpoint = record {
  url = "sign-contract/check-otp";
  method = get;
  param_names = [];
  has_query = false;
}

abbrev pub check_selfie_endpoint : Endpoint
check_selfie_endpoint = record {
  url = "sign-contract/check-selfie";
  method = get;
  param_names = [];
  has_query = false;
}

abbrev pub get_user_list_endpoint : Endpoint
get_user_list_endpoint = record { url = "users"; method = get; param_names = []; has_query = true }

abbrev pub get_profile_endpoint : Endpoint
get_profile_endpoint = record {
  url = "users/:id";
  method = get;
  param_names = "id" ∷ [];
  has_query = false;
}

abbrev pub update_profile_endpoint : Endpoint
update_profile_endpoint = record {
  url = "users/:id";
  method = put;
  param_names = "id" ∷ [];
  has_query = false;
}

abbrev pub remove_user_endpoint : Endpoint
remove_user_endpoint = record {
  url = "users/:id";
  method = delete;
  param_names = "id" ∷ [];
  has_query = false;
}

pub data DtoClass : Type 0 where
  login_dto logout_dto check_session_dto : DtoClass
  example_add_permission_dto example_add_session_local_flow_dto : DtoClass
  request_otp_dto check_otp_dto check_selfie_dto : DtoClass
  get_user_list_dto get_profile_dto update_profile_dto remove_user_dto : DtoClass

abbrev pub endpoint : DtoClass → Endpoint
endpoint login_dto = login_endpoint
endpoint logout_dto = logout_endpoint
endpoint check_session_dto = check_session_endpoint
endpoint example_add_permission_dto = example_add_permission_endpoint
endpoint example_add_session_local_flow_dto = example_add_session_local_flow_endpoint
endpoint request_otp_dto = request_otp_endpoint
endpoint check_otp_dto = check_otp_endpoint
endpoint check_selfie_dto = check_selfie_endpoint
endpoint get_user_list_dto = get_user_list_endpoint
endpoint get_profile_dto = get_profile_endpoint
endpoint update_profile_dto = update_profile_endpoint
endpoint remove_user_dto = remove_user_endpoint
