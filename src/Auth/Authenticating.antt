-- ===== src/Auth/Authenticating.antt =====
-- authenticate of core/auth/base-auth.service.ts, on every schedule of the deletes that createToken
-- leaves running.
use codebase_be_nestjs.Common.{
  ◌++◌, ℕ, suc, ◌+◌, ◌*◌, ◌≤◌, ◌<◌, eq_refl, ◌≡◌, refl, sym, ap, ◌∙◌, true, false, none, some, [],
  map, take, drop, lt→ltb,
}
use codebase_be_nestjs.Common.Int.{pos}
use codebase_be_nestjs.Common.Effect.{ok}
use codebase_be_nestjs.Common.Text.{==-false}
use codebase_be_nestjs.Shared.SessionType.{JwtSession}
use codebase_be_nestjs.Shared.Session.{BaseJwtSession}
use codebase_be_nestjs.Shared.Token.{BaseJwtPayload}
use codebase_be_nestjs.Redis.Server.{Server, StoredText, contains}
use codebase_be_nestjs.Redis.Storage.{World}
use codebase_be_nestjs.Session.{SessionService, cache_key, get_session_value}
use codebase_be_nestjs.Session.Keys.{server_key}
use codebase_be_nestjs.Session.Laws.{
  at_time, answer, get_session_value_lem, serialized, add_session-ok,
}
use codebase_be_nestjs.AuthSession.{token_session_service, auth_session_service}
use codebase_be_nestjs.Auth.{
  AuthEnvironment, lacks_id, with_id, run_background, authenticate, bound_session,
}
use codebase_be_nestjs.Auth.External.{Libraries}
use codebase_be_nestjs.Auth.Deletes.{del_db, del_all_lem, find-del_db, listed}
use codebase_be_nestjs.Auth.Fresh.{
  Clearing, token_key-ne, contains-take, contains-drop, session-not_cleared, token-not_cleared,
}
use codebase_be_nestjs.Auth.Replacing.{
  IsIssuable, issued_token, find-issued_self, content, own_id, owner, issued, create_token_lem,
  build_token_payload_lem, bound_id,
}
use codebase_be_nestjs.Auth.Renewal.{settled, settled-db}

module _ {r : Server} (w : World r) where
  -- The identifier is drawn.
  abbrev pub drawn_id : World r
  drawn_id = record w { drawn = suc w.drawn }

  abbrev pub identified : BaseJwtPayload → BaseJwtPayload
  identified payload = record payload { id = some (w.uuids w.drawn) }

  with_id-drawn :
      (payload : BaseJwtPayload)
      → lacks_id payload.id ≡ true
      → with_id payload w ≡ (ok (identified payload), drawn_id)
  unfolding with_id
  with_id-drawn payload lacks = rw lacks refl

  run_background_lem :
      (n : ℕ)
      → run_background n w ≡ (
        ok tt,
        record w {
          db = del_db r (take n w.background) w.now w.db;
          background = drop n w.background;
        },
      )
  unfolding run_background
  run_background_lem n =
      del_all_lem (take n w.background) (record w { background = drop n w.background })

module _ {r : Server} (lib : Libraries) (env : AuthEnvironment) (payload : BaseJwtPayload)
    (session : BaseJwtSession) (w : World r) (n k : ℕ) (lacks : lacks_id payload.id ≡ true)
    (issuable : IsIssuable (identified w payload)) where
  abbrev pub channel : JwtSession
  channel = (content lib issuable).session_channel

  abbrev pub token_world : World r
  token_world = issued lib issuable n (drawn_id w)

  abbrev pub added_session : BaseJwtSession
  added_session = bound_session session (content lib issuable)

  -- The world that authenticate leaves, if `k` of the pending deletes run before the session is
  -- added.
  abbrev pub authenticated : World r
  authenticated = record token_world {
    db =
        (r.setex (del_db r (take k token_world.background) w.now token_world.db) w.now
          (server_key auth_session_service channel (own_id lib issuable)) (some (pos (suc n)))
          (serialized auth_session_service w.now n added_session)).1;
    background = drop k token_world.background;
  }

  authenticate_lem :
      authenticate lib env k payload session (suc n) none false w
      ≡ (ok (issued_token lib issuable env n (drawn_id w)), authenticated)
  unfolding authenticate
  authenticate_lem = rw (
    with_id-drawn w payload lacks,
    create_token_lem lib issuable env n (drawn_id w),
    build_token_payload_lem lib issuable,
    run_background_lem token_world k,
    bound_id lib issuable,
    add_session-ok,
  )

  module _ (idle : w.background ≡ [])
      (fresh : r.find w.db w.now (server_key token_session_service channel (own_id lib issuable))
        ≡ none)
      (t : ℕ) (le : w.now ≤ t) (lt : t < w.now + 1000 * suc n) where
    pending-Clearing :
        Clearing channel (owner (identified w payload)) (drawn_id w) token_world.background
    pending-Clearing key there =
        ap
          (λ b.
            contains
              (b
                ++ map (cache_key auth_session_service channel)
                    (listed channel (owner (identified w payload)) (drawn_id w)))
              key)
          (sym idle)
        ∙ there

    first-Clearing :
        Clearing channel (owner (identified w payload)) (drawn_id w) (take k token_world.background)
    first-Clearing key there =
        pending-Clearing key (contains-take k token_world.background key there)

    rest-Clearing :
        Clearing channel (owner (identified w payload)) (drawn_id w) (drop k token_world.background)
    rest-Clearing key there =
        pending-Clearing key (contains-drop k token_world.background key there)

    find-session :
        r.find
          (settled authenticated).db
          t
          (server_key auth_session_service channel (own_id lib issuable))
        ≡ some (serialized auth_session_service w.now n added_session)
    find-session = rw (
      settled-db authenticated,
      find-del_db,
      session-not_cleared channel (owner (identified w payload)) (drawn_id w) _ rest-Clearing
          (own_id lib issuable) issuable.literal fresh,
      r.find-setex _ w.now _ n _ t _ le,
      eq_refl (server_key auth_session_service channel (own_id lib issuable)),
      lt→ltb t (w.now + 1000 * suc n) lt,
    )

    find-token :
        r.find
          (settled authenticated).db
          t
          (server_key token_session_service channel (own_id lib issuable))
        ≡ some (serialized token_session_service w.now n (content lib issuable))
    find-token =
        rw
          (
            settled-db authenticated,
            find-del_db,
            token-not_cleared channel (owner (identified w payload)) (drawn_id w) _ rest-Clearing
                (own_id lib issuable) (own_id lib issuable),
            r.find-setex _ w.now _ n _ t _ le,
            ==-false _ _ (token_key-ne channel (own_id lib issuable) (own_id lib issuable)),
            find-del_db,
            token-not_cleared channel (owner (identified w payload)) (drawn_id w) _ first-Clearing
                (own_id lib issuable) (own_id lib issuable),
          )
          (find-issued_self lib issuable n (drawn_id w) t le lt)

    read-live :
        {V : Type 0} (service : SessionService V) (stored : StoredText)
        → r.find (settled authenticated).db t (server_key service channel (own_id lib issuable))
          ≡ some stored
        → (get_session_value service channel
            (own_id lib issuable)
            (at_time (settled (authenticate lib env k payload session (suc n) none false w).1) t)).0
          ≡ answer service (some stored)
    read-live service stored found =
        ap
          (λ p.
            (get_session_value service channel (own_id lib issuable) (at_time (settled p.1) t)).0)
          authenticate_lem
        ∙ ap (λ p. p.0)
            (get_session_value_lem service channel (own_id lib issuable)
              (at_time (settled authenticated) t))
        ∙ ap (answer service) found

    -- The token comes back, and both sessions of it can be read.
    pub authenticate_live :
        ((authenticate lib env k payload session (suc n) none false w).0
          ≡ ok (issued_token lib issuable env n (drawn_id w)))
        × ((get_session_value token_session_service channel (own_id lib issuable) (
              at_time
                (settled (authenticate lib env k payload session (suc n) none false w).1)
                t)).0
            ≡ answer token_session_service
                (some (serialized token_session_service w.now n (content lib issuable))))
        × ((get_session_value auth_session_service channel (own_id lib issuable) (
              at_time
                (settled (authenticate lib env k payload session (suc n) none false w).1)
                t)).0
            ≡ answer auth_session_service
                (some (serialized auth_session_service w.now n added_session)))
    authenticate_live = (
      ap (λ p. p.0) authenticate_lem,
      read-live token_session_service _ find-token,
      read-live auth_session_service _ find-session,
    )
