-- ===== src/Auth/Renewal.antt =====
-- renewToken and logout of core/auth/base-auth.service.ts.
use Prim.Native.String.{◌∷◌ as text_cons}
use codebase_be_nestjs.Common.{
  ℕ, suc, ◌+◌, ◌*◌, ◌≤◌, ◌<◌, String, ◌≡◌, refl, ap, ◌∙◌, true, false, none, some, List, [], ◌∷◌,
  ◌++◌, arith, is_some, length, take, drop, read,
}
use codebase_be_nestjs.Common.Effect.{ok}
use codebase_be_nestjs.Common.Text.{◌<>◌}
use codebase_be_nestjs.Shared.SessionType.{JwtSession}
use codebase_be_nestjs.Shared.Token.{BaseJwtPayload, refresh_token}
use codebase_be_nestjs.Redis.Server.{Server, contains}
use codebase_be_nestjs.Redis.Storage.{World, storage_key}
use codebase_be_nestjs.Session.{cache_key, get_session_value}
use codebase_be_nestjs.Session.Keys.{server_key}
use codebase_be_nestjs.Session.Laws.{at_time, answer, get_session_value_lem, serialized}
use codebase_be_nestjs.AuthSession.{token_session_service, auth_session_service}
use codebase_be_nestjs.Auth.{
  AuthEnvironment, del_all, run_background, renew_token, create_token, too_early,
}
use codebase_be_nestjs.Auth.External.{Libraries}
use codebase_be_nestjs.Auth.Deletes.{
  del_db, del_all_lem, find-del_db, listed, contains-listed, contains-map,
}
use codebase_be_nestjs.Auth.Replacing.{
  IsIssuable, issued_token, find-issued_self, content, own_id, owner, issued, create_token_lem,
}

contains-append_right :
    (xs ys : List String) (k : String) → contains ys k ≡ true → contains (xs ++ ys) k ≡ true
contains-append_right [] ys k h = h
contains-append_right (x ∷ xs) ys k h = ground (arith, contains-append_right xs ys k h)

take-length {ℓ} : {A : Type ℓ} (xs : List A) → take (length xs) xs ≡ xs
take-length [] = refl
take-length (x ∷ xs) = ap (λ ys. x ∷ ys) (take-length xs)

module _ {r : Server} where
  -- The world when every pending delete has been issued.
  abbrev pub settled : World r → World r
  settled w = (run_background (length w.background) w).1

  pub settled-db : (w : World r) → (settled w).db ≡ del_db r w.background w.now w.db
  unfolding run_background
  settled-db w =
      let rest = record w { background = drop (length w.background) w.background } in
      ap (λ ks. (del_all ks rest).1.db) (take-length w.background)
      ∙ ap (λ p. p.1.db) (del_all_lem w.background rest)

module _ {r : Server} (lib : Libraries) (env : AuthEnvironment) {payload : BaseJwtPayload}
    (issuable : IsIssuable payload) (w : World r) (n : ℕ) where
  abbrev channel : JwtSession
  channel = (content lib issuable).session_channel

  -- Once the deletes that createToken left pending have run, every session of the key whose token
  -- was there is gone.
  find-settled :
      (t : ℕ) (id : String)
      → is_some (r.find w.db w.now (server_key token_session_service channel (owner payload <> id)))
        ≡ true
      → r.find
          (settled (issued lib issuable n w)).db
          t
          (server_key auth_session_service channel (owner payload <> id))
        ≡ none
  find-settled t id there = rw (
    settled-db (issued lib issuable n w),
    find-del_db,
    contains-map storage_key (issued lib issuable n w).background
        {k' = server_key auth_session_service channel (owner payload <> id)} refl
        (contains-append_right w.background _ _ (
          contains-map (cache_key auth_session_service channel) (listed channel (owner payload) w)
            refl (contains-listed channel (owner payload) id w issuable.literal there))),
  )

  module _ (listed_type : contains refresh_token payload.type ≡ true)
      (in_time : too_early w.now env.token_refresh_time_window (read payload.exp) ≡ false)
      (there : is_some
          (r.find w.db w.now (server_key token_session_service channel (own_id lib issuable)))
        ≡ true) where
    renew_token-create_token :
        renew_token lib env payload (suc n) false w ≡ create_token lib env payload false (suc n) w
    unfolding renew_token
    renew_token-create_token = rw (listed_type, in_time)

    -- For a payload of a known, refreshable type, with an id that does not begin inside its key,
    -- which has no special character of a pattern, inside the refresh window and with a live token
    -- session, renewToken without multiple tokens and with a positive expiry returns a token;
    -- until that expiry the token session of its identifier is read back with the content; but
    -- once the deletes that it left running are done, no read finds the authenticated session of
    -- that identifier.
    pub renew_token-loses_session :
        (t : ℕ)
        → w.now ≤ t
        → t < w.now + 1000 * suc n
        → (jwt : String) × (renew_token lib env payload (suc n) false w
            ≡ (ok jwt, issued lib issuable n w))
          × ((get_session_value token_session_service channel
                (own_id lib issuable)
                (at_time (renew_token lib env payload (suc n) false w).1 t)).0
              ≡ answer token_session_service
                  (some (serialized token_session_service w.now n (content lib issuable))))
          × ((get_session_value auth_session_service channel
                (own_id lib issuable)
                (at_time (settled (renew_token lib env payload (suc n) false w).1) t)).0
              ≡ answer auth_session_service none)
    renew_token-loses_session t le lt = (
      _,
      renewed,
      ap
            (λ p.
              (get_session_value token_session_service channel (own_id lib issuable)
                (at_time p.1 t)).0)
            renewed
          ∙ ap (λ p. p.0)
              (get_session_value_lem token_session_service channel (own_id lib issuable)
                (at_time (issued lib issuable n w) t))
          ∙ ap (answer token_session_service) (find-issued_self lib issuable n w t le lt),
      ap
            (λ p.
              (get_session_value auth_session_service channel (own_id lib issuable)
                (at_time (settled p.1) t)).0)
            renewed
          ∙ ap (λ p. p.0)
              (get_session_value_lem auth_session_service channel (own_id lib issuable)
                (at_time (settled (issued lib issuable n w)) t))
          ∙ ap (answer auth_session_service)
              (find-settled t (text_cons issuable.first issuable.rest) there),
    )
      where
        renewed :
            renew_token lib env payload (suc n) false w
            ≡ (ok (issued_token lib issuable env n w), issued lib issuable n w)
        renewed = renew_token-create_token ∙ create_token_lem lib issuable env n w
