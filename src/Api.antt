-- ===== src/Api.antt =====
-- The addresses of the API: the DTO classes of shared/dto that a client sends, and the handlers that
-- the controllers register under the prefix of main.ts.
pub mod Dtos
pub mod Controllers
mod Handlers
pub mod Targets
pub mod Dispatch
use codebase_be_nestjs.Common.{
  String, ◌==◌, ◌≡◌, Bool, true, false, ◌&&◌, ◌||◌, not, Option, none, some, List, [], ◌∷◌, map,
  if◌then◌else◌, same,
}
use Prim.Native.String.{[] as empty, ◌∷◌ as text_cons}
use codebase_be_nestjs.Common.Text.{◌<>◌}
use codebase_be_nestjs.Api.Dtos.{Method, Method-discrete, DtoClass, endpoint}
use codebase_be_nestjs.Api.Controllers.{Handler, route}
use codebase_be_nestjs.Dto.Url.{Properties, interpolated_url}

-- `setGlobalPrefix("api/v1")`
abbrev pub served : String → String
served empty = "/api/v1"
served (text_cons c url) = "/api/v1/" <> text_cons c url

-- A part of a pattern: a fixed segment, or a parameter.
pub data Part : Type 0 where
  fixed param : String → Part

abbrev pub part_text : Part → String
part_text (fixed segment) = segment
part_text (param name) = ":" <> name

abbrev pub path_text : List String → String
path_text [] = ""
path_text (segment ∷ segments) = ("/" <> segment) <> path_text segments

abbrev pub pattern_text : List Part → String
pattern_text parts = path_text (map part_text parts)

abbrev pub with_param :
    String → String → Option (List (String × String)) → Option (List (String × String))
with_param name value none = none
with_param name value (some params) = some ((name, value) ∷ params)

-- The parameters of a path that a pattern matches.
abbrev pub meets : List Part → List String → Option (List (String × String))
meets [] [] = some []
meets [] (segment ∷ segments) = none
meets (part ∷ parts) [] = none
meets (fixed text ∷ parts) (segment ∷ segments) =
    if text == segment then meets parts segments else none
meets (param name ∷ parts) (segment ∷ segments) = with_param name segment (meets parts segments)

abbrev pub occurs : String → String → Bool
occurs c empty = false
occurs c (text_cons d s) = (c == text_cons d "") || occurs c s

-- Lower-case letters, digits and dashes, as in an identifier of the database.
abbrev pub safe_characters : String
safe_characters = "abcdefghijklmnopqrstuvwxyz0123456789-"

abbrev pub is_safe : String → Bool
is_safe empty = true
is_safe (text_cons c s) = occurs (text_cons c "") safe_characters && is_safe s

abbrev pub is_segment : String → Bool
is_segment s = not (s == "") && is_safe s

abbrev pub are_segments : List String → Bool
are_segments [] = true
are_segments (segment ∷ segments) = is_segment segment && are_segments segments

abbrev pub part_name : Part → String
part_name (fixed segment) = segment
part_name (param name) = name

-- The router of Express: what it matches of paths with safe segments, and that it leaves the query
-- out.
pub record Router : Type 0 where
  pub matched : (pattern target : String) → Option (List (String × String))
  pub path :
      (parts : List Part) (segments : List String)
      → are_segments (map part_name parts) ≡ true
      → are_segments segments ≡ true
      → matched (pattern_text parts) (path_text segments) ≡ meets parts segments
  pub query :
      (pattern query : String) (segments : List String)
      → are_segments segments ≡ true
      → matched pattern (path_text segments <> ("?" <> query))
        ≡ matched pattern (path_text segments)

-- A handler that is for the method is listed with the parameters that it is given.
abbrev pub listed :
    Handler
    → Bool
    → Option (List (String × String))
    → List (Handler × List (String × String))
    → List (Handler × List (String × String))
listed h for_method none rest = rest
listed h for_method (some params) rest = if for_method then (h, params) ∷ rest else rest

-- All handlers that a request is for, in whatever order they are registered.
unfoldable pub matching :
    Router → List Handler → Method → String → List (Handler × List (String × String))
matching router [] method target = []
matching router (h ∷ hs) method target =
    listed h (same Method-discrete (route h).method method)
      (router.matched (served (route h).url) target) (matching router hs method target)

-- The target of the request that a client sends for a DTO to a host name that ends in the prefix.
abbrev pub target_of : DtoClass → Option Properties → Option Properties → String
target_of dto params query = "/api/v1/" <> interpolated_url (endpoint dto).url params query

-- The objects that the constructor is given: the identifier for each field of paramsDTO, and the
-- query.
abbrev pub params_dto : DtoClass → String → Option Properties
params_dto c id = named (endpoint c).param_names
  where
    named : List String → Option Properties
    named [] = none
    named (name ∷ names) = some (map (λ n. (n, some id)) (name ∷ names))

abbrev pub query_dto : DtoClass → Properties → Option Properties
query_dto c query = if (endpoint c).has_query then some query else none
