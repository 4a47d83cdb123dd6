-- ===== src/Auth/Fresh.antt =====
-- The tokens that createToken of core/auth/base-auth.service.ts does not find.
use text.Mathlib.TextEquality.{starts_with_iff}
use text.Mathlib.Text.{starts_with}
use Prim.Native.String.{◌∷◌ as text_cons}
use codebase_be_nestjs.Common.{
  ℕ, zero, suc, take, drop, ◌≢◌, String, ◌==◌, eq_iff, eq_refl, ◌≡◌, refl, sym, ap, ◌∙◌, true,
  false, none, List, [], ◌∷◌, map, arith, is_some, ◌&&◌, Bool-cases, inl, inr, and_left, and_right,
}
use codebase_be_nestjs.Common.Text.{◌<>◌, is_literal, replace}
use codebase_be_nestjs.Shared.SessionType.{JwtSession, token}
use codebase_be_nestjs.Redis.Server.{Server, contains}
use codebase_be_nestjs.Redis.Storage.{World, storage_key}
use codebase_be_nestjs.Session.{cache_key}
use codebase_be_nestjs.Session.Keys.{server_key, server_key_inj, server_key-ne}
use codebase_be_nestjs.AuthSession.{token_session_service, auth_session_service}
use codebase_be_nestjs.Auth.Deletes.{listed, cut, cut_token, regroup, literal_key}

pub contains-map_inv :
    (f : String → String) (ks : List String) (k' : String)
    → contains (map f ks) k' ≡ true
    → (k : String) × (contains ks k ≡ true) × (f k ≡ k')
contains-map_inv f [] k' h = cc
contains-map_inv f (j ∷ ks) k' h = elim (Bool-cases (f j == k')) [
  | inl e ↦ (j, rw (eq_refl j) refl, (eq_iff (f j) k').0 e)
  | inr e ↦
      let (k, there, same) = contains-map_inv f ks k' (rw e at h) in
      (k, ground (arith, there), same)
]

module _ {r : Server} where
  -- Only a token session that is there is listed.
  pub listed-find :
      (type : JwtSession) (pre id : String) (w : World r)
      → is_literal pre ≡ true
      → contains (listed type pre w) id ≡ true
      → is_some (r.find w.db w.now (server_key token_session_service type id)) ≡ true
  listed-find token pre id w literal h =
      let a : String = "REDIS_SESSION::" in
      let b : String = "TOKEN:JWT_SESSION:" in
      let cut_key : String → String = λ k. replace k (storage_key "") "" in
      let pattern : String = server_key token_session_service token (pre <> "*") in
      let (stripped, stripped_in, id_cut) =
        contains-map_inv _ (map cut_key (r.keys w.db w.now pattern)) id h in
      let (key, key_in, key_cut) =
        contains-map_inv cut_key (r.keys w.db w.now pattern) stripped stripped_in in
      let found : starts_with key (a <> (b <> pre)) && is_some (r.find w.db w.now key) ≡ true =
        sym (r.keys_prefix w.db w.now (a <> (b <> pre)) key (literal_key pre literal))
        ∙ ap (λ x. contains (r.keys w.db w.now x) key) (sym (regroup a b pre "*"))
        ∙ key_in in
      let (u, whole) = (starts_with_iff key (a <> (b <> pre))).0 (and_left _ _ found) in
      let key_lem : key ≡ a <> (b <> (pre <> u)) = sym whole ∙ sym (regroup a b pre u) in
      let stripped_lem : stripped ≡ b <> (pre <> u) =
        sym key_cut ∙ ap cut_key key_lem ∙ cut (b <> (pre <> u)) in
      let id_lem : id ≡ pre <> u =
        sym id_cut
        ∙ ap (λ k. replace k (cache_key token_session_service token "") "") stripped_lem
        ∙ cut_token (pre <> u) in
      ap (λ x. is_some (r.find w.db w.now (a <> (b <> x)))) id_lem
      ∙ ap (λ x. is_some (r.find w.db w.now x)) (sym key_lem)
      ∙ and_right _ _ found

pub contains-take :
    (n : ℕ) (xs : List String) (x : String) → contains (take n xs) x ≡ true → contains xs x ≡ true
contains-take zero xs x h = cc
contains-take (suc n) [] x h = cc
contains-take (suc n) (y ∷ ys) x h = ground (arith, contains-take n ys x)

pub contains-drop :
    (n : ℕ) (xs : List String) (x : String) → contains (drop n xs) x ≡ true → contains xs x ≡ true
contains-drop zero xs x h = h
contains-drop (suc n) [] x h = cc
contains-drop (suc n) (y ∷ ys) x h = ground (arith, contains-drop n ys x)

abbrev text_s : String
text_s = "S"

texts-ne : text_s ≢ "T"
texts-ne h = absurd (ground (arith, (eq_iff "S" "T").1 h))

pub token_key-ne :
    (type : JwtSession) (i j : String)
    → server_key auth_session_service type i ≢ server_key token_session_service type j
token_key-ne type i j =
    server_key-ne auth_session_service token_session_service "S" "T" _ _ type type i j refl refl
      (λ e. texts-ne (ap (λ c. text_cons c "") e))

-- Deletes of the sessions of some of the listed tokens.
abbrev pub Clearing : {r : Server} → JwtSession → String → World r → List String → Type 0
Clearing type pre w keys =
    (key : String)
    → contains keys key ≡ true
    → contains (map (cache_key auth_session_service type) (listed type pre w)) key ≡ true

module _ {r : Server} (type : JwtSession) (pre : String) (w : World r) (keys : List String)
    (clearing : Clearing type pre w keys) (id : String) where
  -- The session of a token that is not there is not among them.
  pub session-not_cleared :
      is_literal pre ≡ true
      → r.find w.db w.now (server_key token_session_service type id) ≡ none
      → contains (map storage_key keys) (server_key auth_session_service type id) ≡ false
  session-not_cleared literal fresh =
      elim (Bool-cases
        (contains (map storage_key keys) (server_key auth_session_service type id))) [
          | inr e ↦ e
          | inl e ↦
              let (key, key_in, same) = contains-map_inv storage_key keys _ e in
              let (j, j_in, j_key) =
                contains-map_inv _ (listed type pre w) key (clearing key key_in) in
              let j_id : j ≡ id =
                server_key_inj auth_session_service type j id (ap storage_key j_key ∙ same) in
              let there : is_some (r.find w.db w.now (server_key token_session_service type id))
                  ≡ true =
                ap (λ i. is_some (r.find w.db w.now (server_key token_session_service type i)))
                  (sym j_id)
                ∙ listed-find type pre j w literal j_in in
              absurd (ground (arith, rw fresh at there))
        ]

  -- No token session is among them.
  pub token-not_cleared :
      (j : String)
      → contains (map storage_key keys) (server_key token_session_service type j) ≡ false
  token-not_cleared j =
      elim (Bool-cases
        (contains (map storage_key keys) (server_key token_session_service type j))) [
          | inr e ↦ e
          | inl e ↦
              let (key, key_in, same) = contains-map_inv storage_key keys _ e in
              let (i, i_in, i_key) =
                contains-map_inv _ (listed type pre w) key (clearing key key_in) in
              absurd (token_key-ne type i j (ap storage_key i_key ∙ same))
        ]
