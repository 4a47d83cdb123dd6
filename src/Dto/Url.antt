-- ===== src/Dto/Url.antt =====
-- interpolatedUrl of shared/dto/base.dto.ts, and shared/dto/url-builder.ts.
use codebase_be_nestjs.Common.{
  ℕ, zero, suc, String, ◌≡◌, sym, ap, ◌∙◌, Option, none, some, List, [], ◌∷◌,
}
use text.Mathlib.TextLemmas.{append_assoc, append-nil}
use codebase_be_nestjs.Common.Text.{◌<>◌, replace_expanded}

-- The own properties of an object, in order; `none` is undefined.
abbrev pub Properties : Type 0
Properties = List (String × Option String)

abbrev pub or_empty : Option String → String
or_empty none = ""
or_empty (some text) = text

abbrev pub interpolate : Properties → String → String
interpolate [] url = url
interpolate ((key, value) ∷ params) url =
    interpolate params (replace_expanded "" url (":" <> key) (or_empty value))

-- `index === 0 ? "?" : "&"`
abbrev pub separator : ℕ → String
separator zero = "?"
separator (suc index) = "&"

abbrev pub pair : String → String → String
pair key value = (key <> "=") <> value

unfoldable pub append_query : ℕ → Properties → String → String
append_query index [] url = url
append_query index ((key, none) ∷ query) url = append_query (suc index) query url
append_query index ((key, some value) ∷ query) url =
    append_query (suc index) query ((url <> separator index) <> pair key value)

abbrev pub query_of : Option Properties → String → String
query_of none url = url
query_of (some query) url = append_query 0 query url

abbrev pub params_of : Option Properties → String → String
params_of none url = url
params_of (some params) url = interpolate params url

-- get interpolatedUrl()
unfoldable pub interpolated_url : String → Option Properties → Option Properties → String
interpolated_url url params query = query_of query (params_of params url)

pub data ApiChannel : Type 0 where
  app web private_external_api private_internal_api protected_org_api protected_user_api :
      ApiChannel
  internal_portal internal_ms core resource : ApiChannel

abbrev pub channel_text : ApiChannel → String
channel_text app = "app"
channel_text web = "web"
channel_text private_external_api = "private-external-api"
channel_text private_internal_api = "private-internal-api"
channel_text protected_org_api = "protected-org-api"
channel_text protected_user_api = "protected-user-api"
channel_text internal_portal = "internal-portal"
channel_text internal_ms = "internal-ms"
channel_text core = "core"
channel_text resource = "resource"

-- apiUrl
abbrev pub api_url : String → ApiChannel → String → String → String
api_url access_modifier channel topic resource_name =
    (((((access_modifier <> "/") <> channel_text channel) <> "/") <> topic) <> "/") <> resource_name

-- The pairs that are there, each behind the given separator.
abbrev pub joined : String → List (String × String) → String
joined sep [] = ""
joined sep ((key, value) ∷ pairs) = (sep <> pair key value) <> joined sep pairs

abbrev pub defined : Properties → List (String × String)
defined [] = []
defined ((key, none) ∷ query) = defined query
defined ((key, some value) ∷ query) = (key, value) ∷ defined query

append_query-suc :
    (n : ℕ) (query : Properties) (url : String)
    → append_query (suc n) query url ≡ url <> joined "&" (defined query)
unfolding append_query
append_query-suc n [] url = sym (append-nil url)
append_query-suc n ((key, none) ∷ query) url = append_query-suc (suc n) query url
append_query-suc n ((key, some value) ∷ query) url =
    append_query-suc (suc n) query ((url <> "&") <> pair key value)
    ∙ ap (λ s. s <> joined "&" (defined query)) (append_assoc url "&" (pair key value))
    ∙ append_assoc url ("&" <> pair key value) (joined "&" (defined query))

-- For a query with at least one property: if the first property is defined, the address gets `?`
-- and that pair, and `&` and the pair of each further property that is defined; if the first is
-- undefined, each pair that is defined gets `&`, and no `?` is added.
pub interpolated_url-query :
    (url key : String) (first : Option String) (rest : Properties) (params : Option Properties)
    → interpolated_url url params (some ((key, first) ∷ rest))
      ≡ params_of params url <> (elim first [
        | none ↦ joined "&" (defined rest)
        | some value ↦ ("?" <> pair key value) <> joined "&" (defined rest)
      ])
unfolding interpolated_url append_query
interpolated_url-query url key none rest params = append_query-suc 0 rest (params_of params url)
interpolated_url-query url key (some value) rest params =
    append_query-suc 0 rest ((params_of params url <> "?") <> pair key value)
    ∙ ap (λ s. s <> joined "&" (defined rest))
        (append_assoc (params_of params url) "?" (pair key value))
    ∙ append_assoc (params_of params url) ("?" <> pair key value) (joined "&" (defined rest))
