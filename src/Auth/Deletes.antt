-- ===== src/Auth/Deletes.antt =====
-- What is left on the server after a list of deletes, and which tokens createToken of
-- core/auth/base-auth.service.ts finds before it clears them.
use text.Mathlib.TextLemmas.{nil-append, append_assoc}
use text.Mathlib.TextPositions.{starts_with-append}
use mathlib.Core.Path.{ap₂}
use codebase_be_nestjs.Common.{
  ℕ, String, eq_iff, ◌≡◌, refl, sym, ap, ◌∙◌, true, none, List, [], ◌∷◌, map, arith, is_some,
  if◌then◌else◌,
}
use codebase_be_nestjs.Common.Effect.{ok}
use codebase_be_nestjs.Common.Text.{
  ◌<>◌, is_literal, is_literal-append, replace, replace-append_left,
}
use codebase_be_nestjs.Shared.SessionType.{JwtSession, token}
use codebase_be_nestjs.Redis.Server.{Server, contains}
use codebase_be_nestjs.Redis.Storage.{World, storage_key}
use codebase_be_nestjs.Session.{cache_key, get_keys}
use codebase_be_nestjs.Session.Keys.{server_key}
use codebase_be_nestjs.AuthSession.{token_session_service}
use codebase_be_nestjs.Auth.{del_all}

pub regroup : (a b c d : String) → a <> (b <> (c <> d)) ≡ (a <> (b <> c)) <> d
regroup a b c d = ap (λ x. a <> x) (sym (append_assoc b c d)) ∙ sym (append_assoc a (b <> c) d)

pub cut : (k : String) → replace ("REDIS_SESSION::" <> k) "REDIS_SESSION::" "" ≡ k
cut k = replace-append_left "R" "EDIS_SESSION::" k "" ∙ nil-append k

pub cut_token : (k : String) → replace ("TOKEN:JWT_SESSION:" <> k) "TOKEN:JWT_SESSION:" "" ≡ k
cut_token k = replace-append_left "T" "OKEN:JWT_SESSION:" k "" ∙ nil-append k

-- The key of a token session is literal if the identifier is.
pub literal_key :
    (pre : String)
    → is_literal pre ≡ true
    → is_literal ("REDIS_SESSION::" <> ("TOKEN:JWT_SESSION:" <> pre)) ≡ true
unfolding is_literal
literal_key pre h =
    is_literal-append "REDIS_SESSION::" ("TOKEN:JWT_SESSION:" <> pre) refl
      (is_literal-append "TOKEN:JWT_SESSION:" pre refl h)

pub contains-map :
    (f : String → String) (ks : List String) {k k' : String}
    → f k ≡ k'
    → contains ks k ≡ true
    → contains (map f ks) k' ≡ true
contains-map f [] e h = cc
contains-map f (j ∷ ks) {k} {k'} e h =
    ground (arith, contains-map f ks e, eq_iff j k, eq_iff (f j) k', ap f)

module _ (r : Server) where
  -- The data after the deletes.
  unfoldable pub del_db : List String → ℕ → r.Db → r.Db
  del_db [] now db = db
  del_db (k ∷ ks) now db = del_db ks now (r.del db now (storage_key k)).1

module _ (r : Server) where
  pub find-del_db :
      (ks : List String) (now : ℕ) (db : r.Db) (t : ℕ) (j : String)
      → r.find (del_db r ks now db) t j
        ≡ (if contains (map storage_key ks) j then none else r.find db t j)
  unfolding del_db
  find-del_db [] now db t j = refl
  find-del_db (k ∷ ks) now db t j =
      find-del_db ks now (r.del db now (storage_key k)).1 t j
      ∙ rw (r.find-del db now (storage_key k) t j) (ground arith)

module _ {r : Server} where
  pub del_all_lem :
      (ks : List String) (w : World r)
      → del_all ks w ≡ (ok tt, record w { db = del_db r ks w.now w.db })
  unfolding del_all del_db
  del_all_lem [] w = refl
  del_all_lem (k ∷ ks) w = del_all_lem ks (record w { db = (r.del w.db w.now (storage_key k)).1 })

  -- The identifiers that getKeys lists for the pattern `pre*`.
  abbrev pub listed : JwtSession → String → World r → List String
  listed type pre w =
      map (λ k. replace k (cache_key token_session_service type "") "")
        (map (λ k. replace k (storage_key "") "")
          (r.keys w.db w.now (storage_key (cache_key token_session_service type (pre <> "*")))))

  pub get_keys_lem :
      (type : JwtSession) (pre : String) (w : World r)
      → get_keys token_session_service type (pre <> "*") w ≡ (ok (listed type pre w), w)
  unfolding get_keys
  get_keys_lem type pre w = refl

  listed-prefix :
      (w : World r) (p id : String)
      → is_literal p ≡ true
      → is_some (r.find w.db w.now (p <> id)) ≡ true
      → contains (r.keys w.db w.now (p <> "*")) (p <> id) ≡ true
  listed-prefix w p id literal h =
      r.keys_prefix w.db w.now p (p <> id) literal ∙ rw (starts_with-append p id, h)

  contains-keys :
      (pre id : String) (w : World r)
      → is_literal pre ≡ true
      → is_some (r.find w.db w.now (server_key token_session_service token (pre <> id))) ≡ true
      → contains
          (r.keys w.db w.now (server_key token_session_service token (pre <> "*")))
          (server_key token_session_service token (pre <> id))
        ≡ true
  contains-keys pre id w literal h =
      let a : String = "REDIS_SESSION::" in
      let b : String = "TOKEN:JWT_SESSION:" in
      ap₂ (λ x y. contains (r.keys w.db w.now x) y) (regroup a b pre "*") (regroup a b pre id)
      ∙ listed-prefix w (a <> (b <> pre)) id (literal_key pre literal)
          (ap (λ y. is_some (r.find w.db w.now y)) (sym (regroup a b pre id)) ∙ h)

  -- A token session that is there is listed under its identifier.
  pub contains-listed :
      (type : JwtSession) (pre id : String) (w : World r)
      → is_literal pre ≡ true
      → is_some (r.find w.db w.now (server_key token_session_service type (pre <> id))) ≡ true
      → contains (listed type pre w) (pre <> id) ≡ true
  contains-listed token pre id w literal h =
      contains-map (λ k. replace k (cache_key token_session_service token "") "") _
        {k = cache_key token_session_service token (pre <> id)} (cut_token (pre <> id))
        (contains-map (λ k. replace k (storage_key "") "")
          (r.keys w.db w.now (server_key token_session_service token (pre <> "*")))
          {k = server_key token_session_service token (pre <> id)}
          {k' = cache_key token_session_service token (pre <> id)}
          (cut (cache_key token_session_service token (pre <> id)))
          (contains-keys pre id w literal h))
