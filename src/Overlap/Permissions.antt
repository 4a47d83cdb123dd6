-- ===== src/Overlap/Permissions.antt =====
-- The permissions of an authenticated session under overlapping calls.
use codebase_be_nestjs.Common.{
  ℕ, ◌+◌, ◌*◌, ◌/◌, ◌<◌, String, ◌≡◌, refl, sym, ap, ◌∙◌, Bool, true, false, ◌||◌, List, [], val,
  read, read-stored, includes, includes-push_missing, arith, ◌⊎◌, inl, inr,
}
use codebase_be_nestjs.Common.Int.{pos}
use codebase_be_nestjs.Common.Effect.{ok, ok_inj}
use codebase_be_nestjs.Shared.SessionType.{token}
use codebase_be_nestjs.Shared.Session.{
  SessionPermission, SessionPermission-discrete, BaseJwtSession,
}
use codebase_be_nestjs.Redis.Server.{Server}
use codebase_be_nestjs.Redis.Storage.{World}
use codebase_be_nestjs.AuthSession.{load, save, list_or_nil, grant}
use codebase_be_nestjs.AuthSession.Lifetime.{saved, save-now}
use codebase_be_nestjs.AuthSession.Permissions.{holds}
use codebase_be_nestjs.Overlap.{
  Change, adds_permissions, adds_flow, clears_flow, adds_flow_permissions, Operation, changed, Task,
  waiting, Event, System, run,
}
use codebase_be_nestjs.Overlap.Kept.{changed-same, Invariant, save-IsKept, run-Invariant}

-- The permissions that a change gives to the session itself.
abbrev pub given : Change → List SessionPermission
given (adds_permissions ps) = ps
given _ = []

abbrev pub Gives : Operation → String → SessionPermission → Type 0
Gives op key p = (op.key ≡ key) × (includes SessionPermission-discrete (given op.change) p ≡ true)

-- Calls that have not begun yet.
abbrev pub all_waiting : (ℕ → Operation) → ℕ → Task
all_waiting operations i = waiting (operations i)

holds-saved :
    (now : ℕ) (s : BaseJwtSession) (p : SessionPermission) → holds (saved now s) p ≡ holds s p
holds-saved now s p = rw (read-stored s.permissions) refl

or_left : (b c : Bool) → (b || c) ≡ true → (b ≡ true) ⊎ (c ≡ true)
or_left true c h = inl refl
or_left false c h = inr h

flow-holds :
    (change : Change) (s s' : BaseJwtSession) (p : SessionPermission)
    → ((ps : List SessionPermission)
        → change ≡ adds_permissions ps
        → holds (grant ps s) p ≡ holds s p)
    → changed change s ≡ ok s'
    → holds s' p ≡ holds s p
flow-holds change s s' p grants h =
    changed-same (λ x. holds x p) (λ type flow x. refl) s s' change grants h

changed-holds :
    (change : Change) (s s' : BaseJwtSession) (p : SessionPermission)
    → changed change s ≡ ok s'
    → holds s' p ≡ true
    → (holds s p ≡ true) ⊎ (includes SessionPermission-discrete (given change) p ≡ true)
changed-holds (adds_permissions ps) s s' p h has =
    or_left (holds s p) (includes SessionPermission-discrete ps p) (
      sym (includes-push_missing SessionPermission-discrete (list_or_nil (read s.permissions)) ps p)
      ∙ ap (λ x. holds x p) (ok_inj h)
      ∙ has)
changed-holds (adds_flow value type) s s' p h has =
    inl (sym (flow-holds (adds_flow value type) s s' p (λ ps e. cc) h) ∙ has)
changed-holds (clears_flow type) s s' p h has =
    inl (sym (flow-holds (clears_flow type) s s' p (λ ps e. cc) h) ∙ has)
changed-holds (adds_flow_permissions type ps) s s' p h has =
    inl (sym (flow-holds (adds_flow_permissions type ps) s s' p (λ ps e. cc) h) ∙ has)

module _ {r : Server} (w : World r) (key : String) (session : BaseJwtSession) (ends : ℕ)
    (exp : session.exp ≡ val (pos ends)) (alive : w.now / 1000 < ends)
    (operations : ℕ → Operation) where
  -- Had at the start, or given by one of the calls.
  abbrev Accounted : BaseJwtSession → Type 0
  Accounted s =
      (p : SessionPermission)
      → holds s p ≡ true
      → (holds session p ≡ true) ⊎ ((i : ℕ) × Gives (operations i) key p)

  Accounted-saved : (now : ℕ) (s : BaseJwtSession) → Accounted s → Accounted (saved now s)
  Accounted-saved now s accounted p has = accounted p (sym (holds-saved now s p) ∙ has)

  call-Accounted :
      (i : ℕ)
      → (operations i).key ≡ key
      → (s s' : BaseJwtSession) → Accounted s
      → changed (operations i).change s ≡ ok s'
      → Accounted s'
  call-Accounted i path s s' accounted h p has =
      elim (changed-holds (operations i).change s s' p h has) [
        | inl old ↦ accounted p old
        | inr new ↦ inr (i, (path, new))
      ]

  abbrev pub started : System r
  started = record { world = (save token key session w).1; tasks = all_waiting operations }

  started-Invariant : Invariant key ends Accounted started
  started-Invariant = record {
    world = λ t s le found.
        save-IsKept key ends Accounted Accounted-saved w session (λ p has. inl has) exp alive t s
          (rw (save-now w token key session) at le) found;
    tasks = call-Accounted;
  }

  -- After a session with whole seconds of life left is saved, whatever calls of addPermissions,
  -- addFlowSession, clearFlowSession and addFlowPermissions, for any sessions, overlap in any
  -- order, with time passing and authenticated sessions being cleared in between: a session that
  -- is then read under the key has only permissions that it had at the start or that one of the
  -- calls for the key gives, has the old end, and is not read a second or more after that end.
  pub run-accounted :
      (events : List Event) (s : BaseJwtSession)
      → (load token key (run started events).world).0 ≡ ok s
      → ((p : SessionPermission)
          → holds s p ≡ true
          → (holds session p ≡ true) ⊎ ((i : ℕ) × Gives (operations i) key p))
        × (s.exp ≡ val (pos ends))
        × ((run started events).world.now < 1000 * ends + 1000)
  run-accounted events s found =
      let after = run started events in
      let inv = run-Invariant key ends Accounted Accounted-saved started events started-Invariant in
      let good = inv.world after.world.now s (omega arith) found in
      (good.has, good.exp, good.before_end)
