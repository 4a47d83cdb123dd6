-- ===== src/Api/Dispatch.antt =====
-- Which handler the request of a DTO reaches.
use codebase_be_nestjs.Common.{String, ◌≡◌, refl, ap, ◌∙◌, true, Option, none, some, List, [], ◌∷◌}
use codebase_be_nestjs.Common.Text.{◌<>◌}
use codebase_be_nestjs.Api.{
  path_text, are_segments, Router, matching, target_of, is_segment, params_dto, query_dto,
}
use codebase_be_nestjs.Api.Dtos.{
  Method-discrete, DtoClass, endpoint, login_dto, logout_dto, check_session_dto,
  example_add_permission_dto, example_add_session_local_flow_dto, request_otp_dto, check_otp_dto,
  check_selfie_dto, get_user_list_dto, get_profile_dto, update_profile_dto, remove_user_dto,
}
use codebase_be_nestjs.Api.Controllers.{
  Handler, handlers, get_list_user, get_profile, update_profile, remove_user, login, logout,
  example_add_permission_flow, example_add_session_local_flow, request_otp, check_otp, check_selfie,
}
use codebase_be_nestjs.Dto.Url.{Properties, interpolated_url, pair, joined, defined}
use codebase_be_nestjs.Api.Handlers.{found, matching-found, matching-query}
use codebase_be_nestjs.Api.Targets.{user_target, list_target}

-- What a client names with the DTO: an identifier where the address has a parameter, and a query.
abbrev pub params_of : DtoClass → String → List (String × String)
params_of get_profile_dto id = ("id", id) ∷ []
params_of update_profile_dto id = ("id", id) ∷ []
params_of remove_user_dto id = ("id", id) ∷ []
params_of _ id = []

abbrev pub handler_of : DtoClass → Option Handler
handler_of login_dto = some login
handler_of logout_dto = some logout
handler_of check_session_dto = none
handler_of example_add_permission_dto = some example_add_permission_flow
handler_of example_add_session_local_flow_dto = some example_add_session_local_flow
handler_of request_otp_dto = some request_otp
handler_of check_otp_dto = some check_otp
handler_of check_selfie_dto = some check_selfie
handler_of get_user_list_dto = some get_list_user
handler_of get_profile_dto = some get_profile
handler_of update_profile_dto = some update_profile
handler_of remove_user_dto = some remove_user

abbrev segments_of : DtoClass → String → List String
segments_of login_dto id = "api" ∷ "v1" ∷ "login" ∷ []
segments_of logout_dto id = "api" ∷ "v1" ∷ "logout" ∷ []
segments_of check_session_dto id = "api" ∷ "v1" ∷ "check-session" ∷ []
segments_of example_add_permission_dto id = "api" ∷ "v1" ∷ "add-provide-permission" ∷ []
segments_of example_add_session_local_flow_dto id = "api" ∷ "v1" ∷ "add-flow-session" ∷ []
segments_of request_otp_dto id = "api" ∷ "v1" ∷ "sign-contract" ∷ "request-otp" ∷ []
segments_of check_otp_dto id = "api" ∷ "v1" ∷ "sign-contract" ∷ "check-otp" ∷ []
segments_of check_selfie_dto id = "api" ∷ "v1" ∷ "sign-contract" ∷ "check-selfie" ∷ []
segments_of get_user_list_dto id = "api" ∷ "v1" ∷ "users" ∷ []
segments_of _ id = "api" ∷ "v1" ∷ "users" ∷ id ∷ []

-- The one handler, if there is one.
abbrev pub only : Option Handler → List (String × String) → List (Handler × List (String × String))
only none params = []
only (some h) params = (h, params) ∷ []

found-only :
    (c : DtoClass) (id : String)
    → found handlers (endpoint c).method (segments_of c id) ≡ only (handler_of c) (params_of c id)
unfolding found Method-discrete
found-only login_dto id = refl
found-only logout_dto id = refl
found-only check_session_dto id = refl
found-only example_add_permission_dto id = refl
found-only example_add_session_local_flow_dto id = refl
found-only request_otp_dto id = refl
found-only check_otp_dto id = refl
found-only check_selfie_dto id = refl
found-only get_user_list_dto id = refl
found-only get_profile_dto id = refl
found-only update_profile_dto id = refl
found-only remove_user_dto id = refl

are_segments-segments :
    (c : DtoClass) (id : String) → is_segment id ≡ true → are_segments (segments_of c id) ≡ true
are_segments-segments login_dto id h = refl
are_segments-segments logout_dto id h = refl
are_segments-segments check_session_dto id h = refl
are_segments-segments example_add_permission_dto id h = refl
are_segments-segments example_add_session_local_flow_dto id h = refl
are_segments-segments request_otp_dto id h = refl
are_segments-segments check_otp_dto id h = refl
are_segments-segments check_selfie_dto id h = refl
are_segments-segments get_user_list_dto id h = refl
are_segments-segments get_profile_dto id h = rw h refl
are_segments-segments update_profile_dto id h = rw h refl
are_segments-segments remove_user_dto id h = rw h refl

module _ (router : Router) where
  matched_path :
      (c : DtoClass) (id : String) {target : String}
      → is_segment id ≡ true
      → target ≡ path_text (segments_of c id)
      → matching router handlers (endpoint c).method target ≡ only (handler_of c) (params_of c id)
  matched_path c id h e =
      ap (matching router handlers (endpoint c).method) e
      ∙ matching-found router handlers (endpoint c).method (segments_of c id)
          (are_segments-segments c id h)
      ∙ found-only c id

  -- For every class that extends DTO, of all handlers of the application, in whatever order they
  -- are registered, exactly one matches the method and the target of the request that a client
  -- sends for it to a host name that ends in the prefix, and none for CheckSessionDTO. The handler
  -- is the one of that name, and gets back the identifier that the client gave, where the address
  -- has one. The identifier is a text of lower-case letters, digits and dashes that is not empty,
  -- and the first property of a query is defined.
  pub matching-only :
      (c : DtoClass) (id key value : String) (rest : Properties)
      → is_segment id ≡ true
      → matching router handlers
          (endpoint c).method
          (target_of c (params_dto c id) (query_dto c ((key, some value) ∷ rest)))
        ≡ only (handler_of c) (params_of c id)
  unfolding interpolated_url
  matching-only login_dto id key value rest h = matched_path login_dto id h refl
  matching-only logout_dto id key value rest h = matched_path logout_dto id h refl
  matching-only check_session_dto id key value rest h = matched_path check_session_dto id h refl
  matching-only example_add_permission_dto id key value rest h =
      matched_path example_add_permission_dto id h refl
  matching-only example_add_session_local_flow_dto id key value rest h =
      matched_path example_add_session_local_flow_dto id h refl
  matching-only request_otp_dto id key value rest h = matched_path request_otp_dto id h refl
  matching-only check_otp_dto id key value rest h = matched_path check_otp_dto id h refl
  matching-only check_selfie_dto id key value rest h = matched_path check_selfie_dto id h refl
  matching-only get_user_list_dto id key value rest h =
      ap (matching router handlers (endpoint get_user_list_dto).method) (list_target key value rest)
      ∙ matching-query router handlers (endpoint get_user_list_dto).method
          (segments_of get_user_list_dto id) (pair key value <> joined "&" (defined rest)) refl
      ∙ matched_path get_user_list_dto id h refl
  matching-only get_profile_dto id key value rest h =
      matched_path get_profile_dto id h (user_target id h)
  matching-only update_profile_dto id key value rest h =
      matched_path update_profile_dto id h (user_target id h)
  matching-only remove_user_dto id key value rest h =
      matched_path remove_user_dto id h (user_target id h)
