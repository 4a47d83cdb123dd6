-- ===== src/Session/Keys.antt =====
-- The keys of core/session/session.service.ts and core/redis/base-redis.service.ts.

use Prim.Native.Char.{Char}
use Prim.Native.String.{◌∷◌}
use text.Mathlib.TextLemmas.{append_cancel_left, cons-append, head-eq_of_cons-eq}
use codebase_be_nestjs.Common.{
  String, ◌≢◌, ◌==◌, eq_iff, ◌≡◌, sym, ap, ◌∙◌, arith, Bool-cases, inl, inr,
}
use codebase_be_nestjs.Shared.SessionType.{JwtSession, jwt_session_text}
use codebase_be_nestjs.Common.Text.{◌<>◌}
use codebase_be_nestjs.Redis.Storage.{storage_key}
use codebase_be_nestjs.Session.{SessionService, cache_key}

-- The whole key under which the server stores a session.
abbrev pub server_key : {V : Type 0} → SessionService V → JwtSession → String → String
server_key service type id = storage_key (cache_key service type id)

module _ {V : Type 0} (service : SessionService V) (type : JwtSession) where
  pub server_key_inj :
      (i j : String) → server_key service type i ≡ server_key service type j → i ≡ j
  server_key_inj i j e = append_cancel_left _ i j (append_cancel_left _ _ _ e)

  -- Two keys are one exactly when the identifiers are.
  pub server_key-eq :
      (i j : String) → (server_key service type i == server_key service type j) ≡ (i == j)
  server_key-eq i j = elim (Bool-cases (i == j)) [
    | inl e ↦ (eq_iff _ _).1 (ap (server_key service type) ((eq_iff i j).0 e)) ∙ sym e
    | inr e ↦ ground (
      arith,
      eq_iff i j,
      eq_iff (server_key service type i) (server_key service type j),
      server_key_inj i j,
    )
  ]

key-cons :
    {V : Type 0} (s : SessionService V) (c : Char) (m : String) (type : JwtSession) (i : String)
    → s.namespace ≡ c ∷ m
    → cache_key s type i ≡ c ∷ ((((m <> ":") <> jwt_session_text type) <> ":") <> i)
key-cons s c m type i e =
    ap (λ x. (((x <> ":") <> jwt_session_text type) <> ":") <> i) e ∙ simp cons-append

-- Services whose namespaces begin differently share no key.
module _ {V W : Type 0} (s : SessionService V) (t : SessionService W) where
  pub server_key-ne :
      (c d : Char) (m n : String) (type type' : JwtSession) (i j : String)
      → s.namespace ≡ c ∷ m
      → t.namespace ≡ d ∷ n
      → c ≢ d
      → server_key s type i ≢ server_key t type' j
  server_key-ne c d m n type type' i j e f ne same =
      let rest = λ (x : String) (ty : JwtSession) (k : String).
        (((x <> ":") <> jwt_session_text ty) <> ":") <> k in
      ne (
        head-eq_of_cons-eq {x = c} {y = d} {xs = rest m type i} {ys = rest n type' j} (
          sym (key-cons s c m type i e) ∙ append_cancel_left _ _ _ same ∙ key-cons t d n type' j f))
