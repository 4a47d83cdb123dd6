-- ===== src/Auth/Replacing.antt =====
-- createToken of core/auth/base-auth.service.ts where several tokens are not allowed.
use Prim.Native.Char.{Char}
use Prim.Native.String.{◌∷◌}
use mathlib.Core.List.{append-nil}
use text.Mathlib.TextLemmas.{cons≢nil}
use codebase_be_nestjs.Common.{
  ℕ, suc, ◌+◌, ◌*◌, ◌≤◌, ◌<◌, String, ◌==◌, eq_iff, eq_refl, ◌≡◌, refl, sym, ap, ◌∙◌, true, false,
  Option, none, some, List, [], ◌∷◌ as cons, ◌++◌, map, arith, lt→ltb, Bool-cases, Option-cases,
  inl, inr, ◌≢◌,
}
use codebase_be_nestjs.Common.Int.{pos}
use codebase_be_nestjs.Common.Effect.{ok}
use codebase_be_nestjs.Common.Text.{
  ◌<>◌, ==-false, is_literal, replace, Avoids, replace-append_right,
}
use codebase_be_nestjs.Shared.SessionType.{JwtSession}
use codebase_be_nestjs.Shared.Token.{
  BaseJwtPayload, TokenClass, token_type_map, session_bound_id, template,
}
use codebase_be_nestjs.Redis.Server.{Server}
use codebase_be_nestjs.Redis.Storage.{World, storage_key}
use codebase_be_nestjs.Session.{cache_key}
use codebase_be_nestjs.Session.Keys.{server_key, server_key-eq}
use codebase_be_nestjs.Session.Laws.{serialized, add_session-ok}
use codebase_be_nestjs.AuthSession.{token_session_service, auth_session_service}
use codebase_be_nestjs.Auth.{
  AuthEnvironment, clear_existing, with_id, build_token_payload, sign_jwt, create_token,
  public_content,
}
use codebase_be_nestjs.Auth.External.{Libraries}
use codebase_be_nestjs.Auth.Deletes.{
  del_db, del_all_lem, find-del_db, listed, get_keys_lem, contains-listed, contains-map,
}

module _ {r : Server} where
  -- The world after the listed tokens are cleared and the deletes of their sessions are pending.
  abbrev pub cleared : JwtSession → List String → World r → World r
  cleared type keys w = record w {
    db = del_db r (map (cache_key token_session_service type) keys) w.now w.db;
    background = w.background ++ map (cache_key auth_session_service type) keys;
  }

  -- Of the tokens that are there when the pattern is listed, none is left.
  pub find-cleared :
      (type : JwtSession) (pre : String) (w : World r) (t : ℕ) (id : String)
      → is_literal pre ≡ true
      → w.now ≤ t
      → r.find
          (cleared type (listed type pre w) w).db
          t
          (server_key token_session_service type (pre <> id))
        ≡ none
  find-cleared type pre w t id literal le =
      let key : String = server_key token_session_service type (pre <> id) in
      let keys : List String = map (cache_key token_session_service type) (listed type pre w) in
      find-del_db r keys w.now w.db t key ∙ elim (Option-cases (r.find w.db w.now key)) [
        | inl gone ↦ ground (arith, r.find_gone w.db w.now t key le gone)
        | inr (v, there) ↦ rw (
            contains-map storage_key keys {k' = key} refl (
              contains-map (cache_key token_session_service type) (listed type pre w) refl
                (contains-listed type pre id w literal (rw there))))
      ]

  pub clear_existing_lem :
      (type : JwtSession) (keys : List String) (w : World r)
      → clear_existing type false keys w ≡ (ok tt, cleared type keys w)
  unfolding clear_existing del_db
  clear_existing_lem type [] w =
      ap (λ b. (ok tt, record w { background = b })) (sym (append-nil w.background))
  clear_existing_lem type (cons k ks) w =
      rw (del_all_lem (map (cache_key token_session_service type) (cons k ks)) w)

cons-ne_empty : (c : Char) (u : String) → ((c ∷ u) == "") ≡ false
cons-ne_empty c u = elim (Bool-cases ((c ∷ u) == "")) [
  | inl e ↦ absurd (cons≢nil ((eq_iff (c ∷ u) "").0 e))
  | inr e ↦ e
]

-- A payload that createToken can be called with: its type is a known one, it has an identifier that
-- does not begin inside its key, and the key has no special character of a pattern, so that the
-- key's pattern is built as meant.
pub record IsIssuable (payload : BaseJwtPayload) : Type 0 where
  pub token_class : TokenClass
  pub known : token_type_map payload.type ≡ some token_class
  pub first : Char
  pub rest : String
  pub id : payload.id ≡ some (first ∷ rest)
  pub literal : is_literal (payload.key <> ":") ≡ true
  pub apart : Avoids (payload.key <> ":") (first ∷ rest) (first ∷ rest)

abbrev pub owner : BaseJwtPayload → String
owner payload = payload.key <> ":"

module _ (lib : Libraries) {payload : BaseJwtPayload} (issuable : IsIssuable payload) where
  abbrev pub content : BaseJwtPayload
  content = lib.plain_to_instance issuable.token_class payload

  abbrev pub own_id : String
  own_id = owner payload <> (issuable.first ∷ issuable.rest)

  pub bound_id : session_bound_id content ≡ own_id
  bound_id = rw (
    lib.instance_key issuable.token_class payload,
    lib.instance_id issuable.token_class payload,
    issuable.id,
  )

  pub pattern_lem :
      replace (session_bound_id content) (template content.id) "*" ≡ owner payload <> "*"
  pattern_lem =
      rw
        (
          lib.instance_key issuable.token_class payload,
          lib.instance_id issuable.token_class payload,
          issuable.id,
        )
        (replace-append_right (owner payload) issuable.first issuable.rest "*" issuable.apart)

  module _ {r : Server} where
    pub build_token_payload_lem :
        (w : World r) → build_token_payload lib payload w ≡ (ok content, w)
    unfolding build_token_payload
    build_token_payload_lem w = rw issuable.known

    pub with_id_lem : (w : World r) → with_id payload w ≡ (ok payload, w)
    unfolding with_id
    with_id_lem w = rw (issuable.id, cons-ne_empty issuable.first issuable.rest)

    sign_jwt_lem :
        (env : AuthEnvironment) (secret : Option String) (n : ℕ) (w : World r)
        → sign_jwt lib env payload secret n w ≡ (
          ok (
              lib.sign w.now (public_content lib payload) (record {
                audience = env.jwt_issuer;
                subject = payload.key;
                issuer = env.jwt_issuer;
                expires_in = n;
                secret = secret;
              })),
          w,
        )
    unfolding sign_jwt
    sign_jwt_lem env secret n w = rw (with_id_lem w)

    -- The world that createToken leaves.
    abbrev pub issued : ℕ → World r → World r
    issued n w =
        let w' =
          cleared content.session_channel (listed content.session_channel (owner payload) w) w in
        record w' {
          drawn = suc w.drawn;
          db =
              (r.setex w'.db w.now (server_key token_session_service content.session_channel own_id)
                (some (pos (suc n))) (serialized token_session_service w.now n content)).1;
        }

    abbrev pub issued_token : AuthEnvironment → ℕ → World r → String
    issued_token env n w = lib.sign w.now (public_content lib payload) (record {
      audience = env.jwt_issuer;
      subject = payload.key;
      issuer = env.jwt_issuer;
      expires_in = suc n;
      secret = some (w.uuids w.drawn);
    })

    -- For a payload of a known type with an id that does not begin inside its key, which has no
    -- special character of a pattern, createToken without multiple tokens and with a positive
    -- expiry returns the token signed for the payload's public part with the fresh secret; the
    -- token sessions of the key are deleted, the deletes of their authenticated sessions are
    -- pending, and then the new token session is stored.
    pub create_token_lem :
        (env : AuthEnvironment) (n : ℕ) (w : World r)
        → create_token lib env payload false (suc n) w ≡ (ok (issued_token env n w), issued n w)
    unfolding create_token
    create_token_lem env n w = rw (
      build_token_payload_lem w,
      pattern_lem,
      get_keys_lem,
      clear_existing_lem,
      sign_jwt_lem env (some (w.uuids w.drawn)) (suc n),
      bound_id,
      add_session-ok,
    )

    -- In the state that createToken leaves (the one of create_token_lem), at no later time is a
    -- token session stored under the payload's key with another identifier than the new one.
    pub find-issued :
        (n : ℕ) (w : World r) (t : ℕ) (id : String)
        → w.now ≤ t
        → owner payload <> id ≢ own_id
        → r.find
            (issued n w).db
            t
            (server_key token_session_service content.session_channel (owner payload <> id))
          ≡ none
    find-issued n w t id le ne =
        r.find-setex _ w.now _ n _ t _ le
        ∙ rw
            (
              server_key-eq token_session_service content.session_channel own_id
                  (owner payload <> id),
              ==-false own_id (owner payload <> id) (λ e. ne (sym e)),
            )
            (find-cleared content.session_channel (owner payload) w t id issuable.literal le)

    -- The new token is there for its seconds.
    pub find-issued_self :
        (n : ℕ) (w : World r) (t : ℕ)
        → w.now ≤ t
        → t < w.now + 1000 * suc n
        → r.find (issued n w).db t (server_key token_session_service content.session_channel own_id)
          ≡ some (serialized token_session_service w.now n content)
    find-issued_self n w t le lt =
        r.find-setex _ w.now _ n _ t _ le
        ∙ rw (
          eq_refl (server_key token_session_service content.session_channel own_id),
          lt→ltb t (w.now + 1000 * suc n) lt,
        )

    -- For a payload of a known type with an id that does not begin inside its key, which has no
    -- special character of a pattern: after createToken without multiple tokens and with a
    -- positive expiry, no token session is stored under the payload's key with another identifier
    -- than the new one, then or later.
    pub create_token-single :
        (env : AuthEnvironment) (n : ℕ) (w : World r) (t : ℕ) (id : String)
        → w.now ≤ t
        → owner payload <> id ≢ own_id
        → r.find
            (create_token lib env payload false (suc n) w).1.db
            t
            (server_key token_session_service content.session_channel (owner payload <> id))
          ≡ none
    create_token-single env n w t id le ne =
        ap
          (λ p.
            r.find p.1.db t
              (server_key token_session_service content.session_channel (owner payload <> id)))
          (create_token_lem env n w)
        ∙ find-issued n w t id le ne
