-- ===== src/Api/Handlers.antt =====
-- The addresses of the handlers of the controllers, part by part.
use codebase_be_nestjs.Api.{
  Part, fixed, param, part_name, pattern_text, path_text, served, meets, are_segments, Router,
  listed, matching,
}
use codebase_be_nestjs.Api.Dtos.{Method, Method-discrete}
use codebase_be_nestjs.Api.Controllers.{
  Handler, route, get_hello, test_send_rabbitmq, get_list_user, get_profile, update_profile,
  remove_user, login, logout, example_add_permission_flow, example_add_session_local_flow,
  request_otp, check_otp, check_selfie, call_raw_test, register_dynamic_module_a,
  register_dynamic_module_b, stream_data_from_db,
}
use codebase_be_nestjs.Common.{String, ◌≡◌, refl, ap, ◌∙◌, true, List, [], ◌∷◌, map, same}
use codebase_be_nestjs.Common.Text.{◌<>◌}

-- The parts of a handler's address behind the prefix.
abbrev own_parts : Handler → List Part
own_parts get_hello = []
own_parts test_send_rabbitmq = fixed "test-send-rabbitmq" ∷ []
own_parts get_list_user = fixed "users" ∷ []
own_parts get_profile = fixed "users" ∷ param "id" ∷ []
own_parts update_profile = fixed "users" ∷ param "id" ∷ []
own_parts remove_user = fixed "users" ∷ param "id" ∷ []
own_parts login = fixed "login" ∷ []
own_parts logout = fixed "logout" ∷ []
own_parts example_add_permission_flow = fixed "add-provide-permission" ∷ []
own_parts example_add_session_local_flow = fixed "add-flow-session" ∷ []
own_parts request_otp = fixed "sign-contract" ∷ fixed "request-otp" ∷ []
own_parts check_otp = fixed "sign-contract" ∷ fixed "check-otp" ∷ []
own_parts check_selfie = fixed "sign-contract" ∷ fixed "check-selfie" ∷ []
own_parts call_raw_test = fixed "fetch-test" ∷ fixed "call-raw" ∷ []
own_parts register_dynamic_module_a = fixed "test" ∷ fixed "register-dynamic-module-a" ∷ []
own_parts register_dynamic_module_b = fixed "test" ∷ fixed "register-dynamic-module-b" ∷ []
own_parts stream_data_from_db = fixed "stream" ∷ []

abbrev parts : Handler → List Part
parts h = fixed "api" ∷ fixed "v1" ∷ own_parts h

-- The parts spell the address, and each is a segment.
abbrev IsAddressed : Handler → Type 0
IsAddressed h =
    (served (route h).url ≡ pattern_text (parts h))
    × (are_segments (map part_name (parts h)) ≡ true)

handler-IsAddressed : (h : Handler) → IsAddressed h
handler-IsAddressed get_hello = (refl, refl)
handler-IsAddressed test_send_rabbitmq = (refl, refl)
handler-IsAddressed get_list_user = (refl, refl)
handler-IsAddressed get_profile = (refl, refl)
handler-IsAddressed update_profile = (refl, refl)
handler-IsAddressed remove_user = (refl, refl)
handler-IsAddressed login = (refl, refl)
handler-IsAddressed logout = (refl, refl)
handler-IsAddressed example_add_permission_flow = (refl, refl)
handler-IsAddressed example_add_session_local_flow = (refl, refl)
handler-IsAddressed request_otp = (refl, refl)
handler-IsAddressed check_otp = (refl, refl)
handler-IsAddressed check_selfie = (refl, refl)
handler-IsAddressed call_raw_test = (refl, refl)
handler-IsAddressed register_dynamic_module_a = (refl, refl)
handler-IsAddressed register_dynamic_module_b = (refl, refl)
handler-IsAddressed stream_data_from_db = (refl, refl)

-- The reference for `matching`, on the segments of the path.
unfoldable pub found : List Handler → Method → List String → List (Handler × List (String × String))
found [] method segments = []
found (h ∷ hs) method segments =
    listed h (same Method-discrete (route h).method method) (meets (parts h) segments)
      (found hs method segments)

module _ (router : Router) where
  pub matching-found :
      (hs : List Handler) (method : Method) (segments : List String)
      → are_segments segments ≡ true
      → matching router hs method (path_text segments) ≡ found hs method segments
  unfolding matching found
  matching-found [] method segments safe = refl
  matching-found (h ∷ hs) method segments safe =
      let (address, are_parts) = handler-IsAddressed h in
      ap
        (λ o.
          listed h (same Method-discrete (route h).method method) o
            (matching router hs method (path_text segments)))
        (ap (λ p. router.matched p (path_text segments)) address
          ∙ router.path (parts h) segments are_parts safe)
      ∙ ap (listed h (same Method-discrete (route h).method method) (meets (parts h) segments))
          (matching-found hs method segments safe)

  -- The query does not change what is matched.
  pub matching-query :
      (hs : List Handler) (method : Method) (segments : List String) (query : String)
      → are_segments segments ≡ true
      → matching router hs method (path_text segments <> ("?" <> query))
        ≡ matching router hs method (path_text segments)
  unfolding matching
  matching-query [] method segments query safe = refl
  matching-query (h ∷ hs) method segments query safe =
      rw
        (
          router.query (served (route h).url) query segments safe,
          matching-query hs method segments query safe,
        )
        refl
