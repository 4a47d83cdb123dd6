-- ===== src/Api/Targets.antt =====
-- The targets of the requests that a client sends for the DTO classes.
use codebase_be_nestjs.Common.{
  String, ◌==◌, ◌≡◌, refl, sym, ap, ◌∙◌, Bool, not, true, false, ◌&&◌, none, some, [], ◌∷◌, arith,
  Bool-cases, inl, inr, eq_iff,
}
use Prim.Native.String.{[] as empty, ◌∷◌ as text_cons}
use text.Mathlib.TextLemmas.{append_assoc, append-nil}
use codebase_be_nestjs.Common.Text.{
  ◌<>◌, replace_expanded-replace, replace-append_right, has_no_dollar,
}
use codebase_be_nestjs.Api.{path_text, is_safe, is_segment, occurs, safe_characters}
use codebase_be_nestjs.Dto.Url.{
  Properties, interpolated_url, interpolated_url-query, pair, joined, defined,
}

pub and-true : (a b : Bool) → a && b ≡ true → (a ≡ true) × (b ≡ true)
and-true a b h = (ground (arith, h), ground (arith, h))

-- A safe character is no other one.
pub safe-ne :
    (x c : String)
    → occurs x safe_characters ≡ false
    → occurs c safe_characters ≡ true
    → (c == x) ≡ false
safe-ne x c unsafe h = elim (Bool-cases (c == x)) [
  | inl e ↦
      absurd
        (ground (arith, unsafe, ap (λ y. occurs y safe_characters) (sym ((eq_iff c x).0 e)) ∙ h))
  | inr e ↦ e
]

safe-no_dollar : (id : String) → is_safe id ≡ true → has_no_dollar id ≡ true
unfolding has_no_dollar
safe-no_dollar empty h = refl
safe-no_dollar (text_cons c s) h =
    let (safe, rest) = and-true (occurs (text_cons c "") safe_characters) (is_safe s) h in
    rw (safe-ne "$" (text_cons c "") refl safe, safe-no_dollar s rest) refl

-- The path of a user.
user_path :
    (id : String) → "/api/v1/" <> ("users/" <> id) ≡ path_text ("api" ∷ "v1" ∷ "users" ∷ id ∷ [])
user_path id =
    sym (append_assoc "/api/v1/" "users/" id)
    ∙ append_assoc "/api/v1/users" "/" id
    ∙ append_assoc "/api/v1" "/users" ("/" <> id)
    ∙ append_assoc "/api" "/v1" ("/users" <> ("/" <> id))
    ∙ ap (λ u. "/api" <> ("/v1" <> ("/users" <> u))) (sym (append-nil ("/" <> id)))

pub user_target :
    (id : String)
    → is_segment id ≡ true
    → "/api/v1/" <> interpolated_url "users/:id" (some (("id", some id) ∷ [])) none
      ≡ path_text ("api" ∷ "v1" ∷ "users" ∷ id ∷ [])
unfolding interpolated_url
user_target id h =
    ap (λ u. "/api/v1/" <> u)
      (replace_expanded-replace "" "users/:id" ":id" id
          (safe-no_dollar id (and-true (not (id == "")) (is_safe id) h).1)
        ∙ replace-append_right "users/" _ "id" id
            (refl, (refl, (refl, (refl, (refl, (refl, tt)))))))
    ∙ user_path id

-- A query whose first property is defined.
pub list_target :
    (key value : String) (rest : Properties)
    → "/api/v1/" <> interpolated_url "users" none (some ((key, some value) ∷ rest))
      ≡ path_text ("api" ∷ "v1" ∷ "users" ∷ [])
        <> ("?" <> (pair key value <> joined "&" (defined rest)))
list_target key value rest =
    ap (λ u. "/api/v1/" <> u)
      (interpolated_url-query "users" key (some value) rest none
        ∙ ap (λ u. "users" <> u) (append_assoc "?" (pair key value) (joined "&" (defined rest))))
    ∙ sym (append_assoc "/api/v1/" "users" _)
