-- ===== src/Fetch.antt =====
-- fetch/fetch.service.ts: requests to another service, with `fetch` as a parameter.
pub mod Answers
use codebase_be_nestjs.Common.{
  String, ◌==◌, Bool, true, false, Option, none, some, List, [], ◌∷◌, ◌++◌, if◌then◌else◌,
}
use codebase_be_nestjs.Common.Effect.{Exec, Result, ok, err, error, pure, raise, ◌>>=◌}
use codebase_be_nestjs.Common.Text.{◌<>◌}
use codebase_be_nestjs.Shared.SystemCode.{
  code_text, fetch_request_failed, internal_server_error_exception,
}
use codebase_be_nestjs.Dto.Url.{Properties, interpolated_url}

-- What the service reads of a DTO; `body` is JSON.stringify(bodyDTO), `fields` are the entries of
-- bodyDTO with the text of each value that counts as true.
pub record Dto : Type 0 where
  pub url : String
  pub method : String
  pub params : Option Properties
  pub query : Option Properties
  pub body : String
  pub fields : Option Properties

abbrev pub Headers : Type 0
Headers = List (String × String)

-- The body of a request: a text, or a form.
pub data Body : Type 0 where
  json : String → Body
  form : List (String × String) → Body

pub record FetchRequest : Type 0 where
  pub address : String
  pub method : String
  pub headers : Headers
  pub body : Body

-- `response.json()` is `none` if the text is no JSON.
pub record Response (J : Type 0) : Type 0 where
  pub is_ok : Bool
  pub json : Option J

-- A header of the caller replaces the one before it.
abbrev pub with_header : String × String → Headers → Headers
with_header (name, value) [] = (name, value) ∷ []
with_header (name, value) ((other, old) ∷ headers) =
    let rest = with_header (name, value) headers in
    if other == name then (name, value) ∷ headers else (other, old) ∷ rest

abbrev pub spread_headers : Headers → Headers → Headers
spread_headers headers [] = headers
spread_headers headers (h ∷ more) = spread_headers (with_header h headers) more

-- `formData.append(key, String(value))` for each value that counts as true.
abbrev pub append_fields : List (String × String) → Properties → List (String × String)
append_fields form_data [] = form_data
append_fields form_data ((key, none) ∷ fields) = append_fields form_data fields
append_fields form_data ((key, some value) ∷ fields) =
    append_fields (form_data ++ (key, value) ∷ []) fields

module _ (host_name : String) where
  abbrev pub request_of : Dto → Headers → FetchRequest
  request_of dto headers = record {
    address = (host_name <> "/") <> interpolated_url dto.url dto.params dto.query;
    method = dto.method;
    headers = spread_headers (("Content-Type", "application/json") ∷ []) headers;
    body = json dto.body;
  }

  abbrev pub upload_request_of : Dto → Properties → List (String × String) → Headers → FetchRequest
  upload_request_of dto fields form_data headers = record {
    address = (host_name <> "/") <> dto.url;
    method = dto.method;
    headers = headers;
    body = form (append_fields form_data fields);
  }

-- `Object.entries`, which throws for undefined.
abbrev pub entries : {S : Type 0} → Option Properties → Exec S Properties
entries none = raise (error "Cannot convert undefined or null to object")
entries (some fields) = pure fields

module _ {S J : Type 0} where
  abbrev pub read_json : {A : Type 0} → (J → A) → Option J → Exec S A
  read_json f none = raise (error "SyntaxError")
  read_json f (some j) = pure (f j)

  -- `if (!response.ok) throw …`
  abbrev pub checked : {A : Type 0} → (J → A) → Response J → Exec S A
  checked f response =
      if response.is_ok
      then read_json f response.json
      else raise (internal_server_error_exception (code_text fetch_request_failed))

-- `fetch` on the state `S` of the network, with the JSON values `J`, and plainToInstance.
module _ {S J D : Type 0} (fetch : FetchRequest → Exec S (Response J)) (to_instance : J → D)
    (host_name : String) where
  unfoldable pub call : Dto → Headers → Exec S D
  call dto headers = fetch (request_of host_name dto headers) >>= checked to_instance

  unfoldable pub call_raw : Dto → Headers → Exec S J
  call_raw dto headers =
      fetch (request_of host_name dto headers) >>= λ response. read_json (λ j. j) response.json

  unfoldable pub upload : Dto → List (String × String) → Headers → Exec S J
  upload dto form_data headers = entries dto.fields >>= λ fields.
      fetch (upload_request_of host_name dto fields form_data headers) >>= checked (λ j. j)
