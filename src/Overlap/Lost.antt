-- ===== src/Overlap/Lost.antt =====
-- Two calls for one session: one after the other, and overlapping.
use codebase_be_nestjs.Common.{
  ℕ, zero, suc, ◌/◌, ◌≤◌, ◌<◌, String, ◌≡◌, refl, ◌∙◌, Bool, ◌||◌, List, [], ◌∷◌, val, includes,
  eq_refl, lt→ltb,
}
use codebase_be_nestjs.Common.Int.{pos}
use codebase_be_nestjs.Common.Effect.{ok}
use codebase_be_nestjs.Shared.SessionType.{token}
use codebase_be_nestjs.Shared.Session.{
  SessionPermission, SessionPermission-discrete, BaseJwtSession,
}
use codebase_be_nestjs.Redis.Server.{Server}
use codebase_be_nestjs.Redis.Storage.{World}
use codebase_be_nestjs.Session.Laws.{at_time}
use codebase_be_nestjs.AuthSession.{load, save, grant}
use codebase_be_nestjs.AuthSession.Lifetime.{
  end_of, saved, save-ok, save-now, load-save, load-save_self,
}
use codebase_be_nestjs.AuthSession.Permissions.{holds, holds-saved-grant}
use codebase_be_nestjs.Overlap.{
  adds_permissions, Operation, Task, waiting, settled, Event, advances, System, advance, step, run,
}

abbrev pub two_calls : Operation → Operation → ℕ → Task
two_calls first second zero = waiting first
two_calls first second (suc _) = waiting second

abbrev pub in_sequence : List Event
in_sequence = advances 0 ∷ advances 0 ∷ advances 1 ∷ advances 1 ∷ []

abbrev pub overlapping : List Event
overlapping = advances 0 ∷ advances 1 ∷ advances 0 ∷ advances 1 ∷ []

-- From a time until the session ends, it is read back, and holds exactly the permissions of the
-- test.
abbrev pub LeavesPermissions :
    {r : Server} → String → ℕ → ℕ → World r → (SessionPermission → Bool) → Type 0
LeavesPermissions key now ends after test =
    (t : ℕ) (p : SessionPermission)
    → now ≤ t
    → t < end_of now ends
    → (new : BaseJwtSession) × ((load token key (at_time after t)).0 ≡ ok new)
      × (holds new p ≡ test p)

module _ {r : Server} (w : World r) (key : String) (session : BaseJwtSession)
    (there : load token key w ≡ (ok session, w)) (ends : ℕ) (exp : session.exp ≡ val (pos ends))
    (alive : w.now / 1000 < ends) (ps qs : List SessionPermission) where
  abbrev adds : List SessionPermission → Operation
  adds permissions = record {
    key = key;
    session_type = token;
    change = adds_permissions permissions;
  }

  abbrev pub started : System r
  started = record { world = w; tasks = two_calls (adds ps) (adds qs) }

  abbrev once : World r
  once = (save token key (grant ps session) w).1

  once-now : once.now ≡ w.now
  once-now = save-now w token key (grant ps session)

  first-ok : (save token key (grant ps session) w).0 ≡ ok (grant ps session)
  first-ok = save-ok w token key (grant ps session) ends exp alive

  second-ok :
      (s : BaseJwtSession)
      → s.exp ≡ val (pos ends)
      → (save token key (grant qs s) once).0 ≡ ok (grant qs s)
  second-ok s exp' = save-ok once token key (grant qs s) ends exp' (rw once-now alive)

  overlapped-world : (run started overlapping).world ≡ (save token key (grant qs session) once).1
  unfolding run step advance
  overlapped-world = rw (there, there) refl

  overlapped-tasks :
      ((run started overlapping).tasks 0 ≡ settled (ok (grant ps session)))
      × ((run started overlapping).tasks 1 ≡ settled (ok (grant qs session)))
  unfolding run step advance
  overlapped-tasks =
      (rw (there, there, first-ok) refl, rw (there, there, second-ok session exp) refl)

  once-there : load token key once ≡ (ok (saved w.now (grant ps session)), once)
  once-there = load-save_self w token key (grant ps session) ends exp alive

  sequence-world :
      (run started in_sequence).world
      ≡ (save token key (grant qs (saved w.now (grant ps session))) once).1
  unfolding run step advance
  sequence-world = rw (there, once-there) refl

  sequence-tasks :
      ((run started in_sequence).tasks 0 ≡ settled (ok (grant ps session)))
      × ((run started in_sequence).tasks 1
          ≡ settled (ok (grant qs (saved w.now (grant ps session)))))
  unfolding run step advance
  sequence-tasks = (
    rw (there, first-ok) refl,
    rw (there, once-there, second-ok (saved w.now (grant ps session)) (rw exp refl)) refl,
  )

  second-Leaves :
      (s : BaseJwtSession)
      → s.exp ≡ val (pos ends)
      → LeavesPermissions key w.now ends
          (save token key (grant qs s) once).1
          (λ p. holds s p || includes SessionPermission-discrete qs p)
  second-Leaves s exp' t p le lt = (
    saved once.now (grant qs s),
    load-save once token key (grant qs s) ends exp' (rw once-now alive) t key (rw once-now le)
        ∙ rw (eq_refl key, once-now, lt→ltb t (end_of w.now ends) lt) refl,
    holds-saved-grant once.now qs s p,
  )

  -- Two calls of addPermissions for a session that can be read and has whole seconds of life left
  -- both return, one after the other and overlapping. After the first, the session holds what it
  -- held and what either call gives, until it ends; but if the second has read before the first
  -- has written, it holds what it held and what the second gives, and nothing else.
  pub run-overlapping :
      ((run started in_sequence).tasks 0 ≡ settled (ok (grant ps session)))
      × ((run started in_sequence).tasks 1
          ≡ settled (ok (grant qs (saved w.now (grant ps session)))))
      × LeavesPermissions key w.now ends (run started in_sequence).world (λ p.
        (holds session p || includes SessionPermission-discrete ps p)
        || includes SessionPermission-discrete qs p)
      × ((run started overlapping).tasks 0 ≡ settled (ok (grant ps session)))
      × ((run started overlapping).tasks 1 ≡ settled (ok (grant qs session)))
      × LeavesPermissions key w.now ends
          (run started overlapping).world
          (λ p. holds session p || includes SessionPermission-discrete qs p)
  run-overlapping = (
    sequence-tasks.0,
    sequence-tasks.1,
    λ t p le lt.
        rw (sequence-world, ← holds-saved-grant w.now ps session p)
          (second-Leaves (saved w.now (grant ps session)) (rw exp refl) t p le lt),
    overlapped-tasks.0,
    overlapped-tasks.1,
    λ t p le lt. rw overlapped-world (second-Leaves session exp t p le lt),
  )
