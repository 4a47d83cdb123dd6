-- ===== src/Overlap/Logout.antt =====
-- A logout while calls on the authenticated session are under way.
use codebase_be_nestjs.Common.{
  ℕ, ◌≤◌, String, ◌==◌, ◌≡◌, refl, ap, ◌∙◌, false, none, some, List, [], ◌∷◌, arith, inl, inr,
  eq_refl, if◌then◌else◌,
}
use codebase_be_nestjs.Common.Effect.{err, Result-cases}
use codebase_be_nestjs.Common.Text.{==-false}
use codebase_be_nestjs.Shared.SystemCode.{code_text, unauthorized, unauthorized_exception}
use codebase_be_nestjs.Shared.SessionType.{JwtSession, token}
use codebase_be_nestjs.Shared.Session.{BaseJwtSession}
use codebase_be_nestjs.Shared.Token.{BaseJwtPayload, session_bound_id}
use codebase_be_nestjs.Redis.Server.{Server}
use codebase_be_nestjs.Redis.Storage.{World}
use codebase_be_nestjs.Session
use codebase_be_nestjs.Session.Keys.{server_key}
use codebase_be_nestjs.Session.Laws.{
  answer, get_session_value_lem, add_session-ok, add_session-refused,
}
use codebase_be_nestjs.AuthSession.{
  token_session_service, auth_session_service, load, save, time_left,
}
use codebase_be_nestjs.AuthSession.Lifetime.{load-unchanged, Seconds-cases}
use codebase_be_nestjs.Auth.{logout, clear_session}
use codebase_be_nestjs.Auth.Fresh.{token_key-ne}
use codebase_be_nestjs.Auth.External.{Libraries}
use codebase_be_nestjs.Guard.{Request, GuardParams, or_else, jwt_of, can_activate}
use codebase_be_nestjs.Guard.Refusal.{can_activate-no_session}
use codebase_be_nestjs.Overlap.{
  changed, Task, waiting, holding, settled, advance, read_type, Event, advances, passes, clears,
  System, step, run,
}

apart :
    (key id : String)
    → (server_key auth_session_service token key == server_key token_session_service token id)
      ≡ false
apart key id = ==-false _ _ (token_key-ne token key id)

module _ {r : Server} (id : String) where
  -- No token session is found under the identifier, now or later.
  abbrev IsGone : World r → Type 0
  IsGone w = (t : ℕ) → w.now ≤ t → r.find w.db t (server_key token_session_service token id) ≡ none

  save-IsGone :
      (type : JwtSession) (w : World r) (key : String) (session : BaseJwtSession)
      → IsGone w
      → IsGone (save type key session w).1
  unfolding save
  save-IsGone token w key session gone = elim (Seconds-cases (time_left w.now session)) [
    | inl refused ↦
        rw
          (add_session-refused auth_session_service token w key (time_left w.now session) session
            refused)
          gone
    | inr (k, e) ↦
        rw (e, add_session-ok auth_session_service token w key k session)
          (λ t le.
            r.find-setex w.db w.now (server_key auth_session_service token key) k _ t
              (server_key token_session_service token id) le
            ∙ rw (apart key id) (gone t le))
  ]

  clear-IsGone :
      (w : World r) (key : String)
      → IsGone w
      → IsGone (Session.clear_session auth_session_service token key w).1
  unfolding Session.clear_session
  clear-IsGone w key gone t le =
      r.find-del w.db w.now (server_key auth_session_service token key) t
        (server_key token_session_service token id)
      ∙ rw (apart key id) (gone t le)

  advance-IsGone : (task : Task) (w : World r) → IsGone w → IsGone (advance task w).1
  unfolding advance
  advance-IsGone (waiting op) w gone =
      let type = read_type op.change op.session_type in
      elim (Result-cases (load type op.key w).0) [
        | inl (s, h) ↦ rw (load-unchanged type op.key w h) gone
        | inr (e, h) ↦ rw (load-unchanged type op.key w h) gone
      ]
  advance-IsGone (holding op s) w gone = elim (Result-cases (changed op.change s)) [
    | inl (s', h) ↦ rw h (save-IsGone op.session_type w op.key s' gone)
    | inr (e, h) ↦ rw h gone
  ]
  advance-IsGone (settled result) w gone = gone

  run-IsGone : (s : System r) (events : List Event) → IsGone s.world → IsGone (run s events).world
  unfolding run step
  run-IsGone s [] gone = gone
  run-IsGone s (advances i ∷ events) gone =
      run-IsGone (step s (advances i)) events (advance-IsGone (s.tasks i) s.world gone)
  run-IsGone s (passes ms ∷ events) gone =
      run-IsGone (step s (passes ms)) events (λ t le. gone t (omega arith))
  run-IsGone s (clears key ∷ events) gone =
      run-IsGone (step s (clears key)) events (clear-IsGone s.world key gone)

  logout-IsGone :
      (content : BaseJwtPayload) (type : JwtSession) (w : World r)
      → id ≡ session_bound_id content
      → IsGone (logout (record content { session_channel = type }) w).1
  unfolding logout clear_session Session.clear_session
  logout-IsGone content token w path t le =
      r.find-del _ w.now (server_key auth_session_service token (session_bound_id content)) t
        (server_key token_session_service token id)
      ∙ rw (apart (session_bound_id content) id) (
          r.find-del w.db w.now (server_key token_session_service token (session_bound_id content))
            t (server_key token_session_service token id)
          ∙ rw (path, eq_refl (server_key token_session_service token (session_bound_id content)))
              refl)

-- After logout(content), whatever calls of the four methods are under way by then and whatever
-- they still write, with time passing and other sessions being cleared: JwtGuard throws 401
-- UNAUTHORIZED for every request whose token decodes (or verifies, where the route asks for that)
-- to a payload with the key and the id of `content`.
pub can_activate-run :
    {r : Server} (lib : Libraries) (params : GuardParams) (request : Request) (w : World r)
    (content raw : BaseJwtPayload) (tasks : ℕ → Task) (events : List Event) (text : String)
    → let after = run (record { world = (logout content w).1; tasks = tasks }) events in
      or_else request.authorization request.query_token ≡ some text
      → (if params.verify_signature
          then lib.verify after.world.now (jwt_of text)
          else lib.decode (jwt_of text))
        ≡ some raw
      → raw.key ≡ content.key
      → raw.id ≡ content.id
      → (can_activate lib params request after.world).0
        ≡ err (unauthorized_exception (code_text unauthorized))
can_activate-run {r} lib params request w content raw tasks events text carries decodes key id =
    let after = run (record { world = (logout content w).1; tasks = tasks }) events in
    let gone =
      run-IsGone (session_bound_id content) (record { world = (logout content w).1; tasks = tasks })
        events (logout-IsGone (session_bound_id content) content content.session_channel w refl)
        after.world.now (omega arith) in
    can_activate-no_session lib params request after.world text raw content carries decodes key id
      (inr (get_token after.world content.session_channel (session_bound_id content) gone))
  where
    get_token :
        {r : Server} (w : World r) (type : JwtSession) (id : String)
        → r.find w.db w.now (server_key token_session_service token id) ≡ none
        → (Session.get_session_value token_session_service type id w).0
          ≡ answer token_session_service none
    get_token w token id gone =
        ap (λ p. p.0) (get_session_value_lem token_session_service token id w)
        ∙ ap (answer token_session_service) gone
