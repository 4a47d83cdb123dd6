-- ===== src/Login/Sessions.antt =====
-- The sessions of a user who has just logged in with module/auth/auth.service.ts.
use codebase_be_nestjs.Common.{
  ℕ, suc, ◌+◌, ◌*◌, ◌≤◌, ◌<◌, String, ◌≡◌, refl, ap, ◌∙◌, true, false, none, some, [],
}
use codebase_be_nestjs.Common.Effect.{Result, ok}
use codebase_be_nestjs.Shared.Token.{BaseJwtPayload}
use codebase_be_nestjs.Redis.Server.{Server}
use codebase_be_nestjs.Redis.Storage.{World}
use codebase_be_nestjs.Session.{SessionService, get_session_value}
use codebase_be_nestjs.Session.Keys.{server_key}
use codebase_be_nestjs.Session.Laws.{at_time, answer, serialized}
use codebase_be_nestjs.AuthSession.{token_session_service, auth_session_service}
use codebase_be_nestjs.Auth.{AuthEnvironment, lacks_id, authenticate, bound_session}
use codebase_be_nestjs.Auth.External.{Libraries}
use codebase_be_nestjs.Auth.Replacing.{IsIssuable, issued_token, content, own_id}
use codebase_be_nestjs.Auth.Renewal.{settled}
use codebase_be_nestjs.Auth.Authenticating.{identified, drawn_id, authenticate_live}
use codebase_be_nestjs.Login.{LoginLibrary, login}

module _ {r : Server} (lib : Libraries) (login_lib : LoginLibrary) (env : AuthEnvironment)
    (user_id : String) (w : World r) (n k : ℕ) (expire : env.token_expire ≡ suc n) where
  abbrev pub user_payload : BaseJwtPayload
  user_payload = login_lib.plain_to_payload (login_lib.hashing_sha256 user_id)

  has_no_id : lacks_id user_payload.id ≡ true
  has_no_id = rw (login_lib.payload_id (login_lib.hashing_sha256 user_id)) refl

  login_lem :
      login lib login_lib env k user_id w
      ≡ authenticate lib env k user_payload
          (login_lib.plain_to_user_session user_id)
          (suc n)
          none
          false
          w
  unfolding login
  login_lem =
      ap
        (λ e.
          authenticate lib env k user_payload (login_lib.plain_to_user_session user_id) e none false
            w)
        expire

  module _ (issuable : IsIssuable (identified w user_payload)) where
    -- What a later read finds, once all pending deletes have run.
    abbrev pub read_after : {V : Type 0} → SessionService V → ℕ → Result String × World r → Result V
    read_after service t after =
        (get_session_value service (content lib issuable).session_channel (own_id lib issuable)
          (at_time (settled after.1) t)).0

    -- If no deletes are pending, the drawn identifier is one that no token session is stored under
    -- and that does not begin inside the hashed key, which has no special character of a pattern,
    -- and tokens expire after a positive number of seconds: login returns the token that is signed
    -- for that identifier, and, whichever of the deletes that it started run before the session is
    -- added, once all have run and until the token expires, the token session and the
    -- authenticated session of that identifier are both read back.
    pub login_live :
        w.background ≡ []
        → r.find w.db w.now (
            server_key token_session_service
              (content lib issuable).session_channel
              (own_id lib issuable))
          ≡ none
        → (t : ℕ) → w.now ≤ t
        → t < w.now + 1000 * suc n
        → let after = login lib login_lib env k user_id w in
          (after.0 ≡ ok (issued_token lib issuable env n (drawn_id w)))
          × (read_after token_session_service t after
              ≡ answer token_session_service
                  (some (serialized token_session_service w.now n (content lib issuable))))
          × (read_after auth_session_service t after
              ≡ answer auth_session_service (
                  some (
                    serialized auth_session_service w.now n (
                      bound_session
                        (login_lib.plain_to_user_session user_id)
                        (content lib issuable)))))
    login_live idle fresh t le lt =
        let (token, token_live, session_live) =
          authenticate_live lib env user_payload (login_lib.plain_to_user_session user_id) w n k
            has_no_id issuable idle fresh t le lt in
        (
          ap (λ p. p.0) login_lem ∙ token,
          ap (read_after token_session_service t) login_lem ∙ token_live,
          ap (read_after auth_session_service t) login_lem ∙ session_live,
        )
