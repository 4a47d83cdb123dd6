-- ===== src/Overlap/Kept.antt =====
-- What every schedule of overlapping calls keeps of an authenticated session.
use codebase_be_nestjs.Common.{
  ℕ, ◌+◌, ◌*◌, ◌/◌, ◌≤◌, ◌<◌, String, ◌==◌, ◌≡◌, refl, sym, ap, ◌∙◌, false, Option, none, some,
  List, [], ◌∷◌, Field, val, read, arith, eq_refl, eq_iff, Bool-cases, inl, inr, ltb, eqb, ltb→lt,
  ◌≢◌,
}
use mathlib.Core.Path.{subst}
use native.Mathlib.Decide.{dec_lt}
use codebase_be_nestjs.Common.Int.{pos}
use codebase_be_nestjs.Common.Effect.{ok, err≢ok, ok_inj, Result-cases}
use codebase_be_nestjs.Shared.SessionType.{JwtSession, token}
use codebase_be_nestjs.Shared.Flow.{FlowType, FlowPermission, BaseFlowSession}
use codebase_be_nestjs.Shared.Session.{SessionPermission, BaseJwtSession}
use codebase_be_nestjs.Redis.Server.{Server}
use codebase_be_nestjs.Redis.Storage.{World}
use codebase_be_nestjs.Session
use codebase_be_nestjs.Session.Laws.{at_time}
use codebase_be_nestjs.AuthSession.{
  auth_session_service, load, save, flows_of, grant, grant_flow, with_flow,
}
use codebase_be_nestjs.AuthSession.Lifetime.{
  end_of, end_of_bounds, saved, load-save, save-refused, load-unchanged, save-now,
  load-save_elsewhere, load-clear_session, no_session,
}
use codebase_be_nestjs.Overlap.{
  Change, adds_permissions, adds_flow, clears_flow, adds_flow_permissions, Operation, changed, Task,
  waiting, holding, settled, advance, read_type, flow_granted, flow_permitted, Event, advances,
  passes, clears, System, step, run,
}

-- What the changes of flows leave alone.
module _ {A : Type 0} (f : BaseJwtSession → A)
    (same : (type : FlowType) (flow : Field BaseFlowSession) (s : BaseJwtSession)
      → f (with_flow type flow s) ≡ f s)
    (s s' : BaseJwtSession) where
  flow_granted-same :
      (type : FlowType) (granted : Option BaseFlowSession)
      → flow_granted type s granted ≡ ok s'
      → f s' ≡ f s
  flow_granted-same type none h = absurd (err≢ok h)
  flow_granted-same type (some g) h = sym (ap f (ok_inj h)) ∙ same type (val g) s

  flow_permitted-same :
      (type : FlowType) (ps : List FlowPermission) (found : Option BaseFlowSession)
      → flow_permitted type ps s found ≡ ok s'
      → f s' ≡ f s
  flow_permitted-same type ps none h = absurd (err≢ok h)
  flow_permitted-same type ps (some flow) h = flow_granted-same type (grant_flow ps flow) h

  pub changed-same :
      (change : Change)
      → ((ps : List SessionPermission) → change ≡ adds_permissions ps → f (grant ps s) ≡ f s)
      → changed change s ≡ ok s'
      → f s' ≡ f s
  changed-same (adds_permissions ps) grants h = sym (ap f (ok_inj h)) ∙ grants ps refl
  changed-same (adds_flow value type) grants h = sym (ap f (ok_inj h)) ∙ same type _ s
  changed-same (clears_flow type) grants h = sym (ap f (ok_inj h)) ∙ same type _ s
  changed-same (adds_flow_permissions type ps) grants h =
      flow_permitted-same type ps (read (flows_of s type)) h

-- No change moves the end of the session.
changed-exp : (change : Change) (s s' : BaseJwtSession) → changed change s ≡ ok s' → s'.exp ≡ s.exp
changed-exp change s s' = changed-same (λ x. x.exp) (λ type flow x. refl) s s' change (λ ps e. refl)

no_session-ne-ok : (s : BaseJwtSession) → no_session ≢ ok s
no_session-ne-ok s = err≢ok

-- A session that has a property and an end, at a time not long after that end.
pub record IsGood (ends : ℕ) (Q : BaseJwtSession → Type 0) (t : ℕ) (s : BaseJwtSession)
    : Type 0 where
  pub has : Q s
  pub exp : s.exp ≡ val (pos ends)
  pub before_end : t < 1000 * ends + 1000

module _ (key : String) (ends : ℕ) (Q : BaseJwtSession → Type 0) where
  -- Whatever is read under the key, now or later, is good.
  abbrev pub IsKept : {r : Server} → World r → Type 0
  IsKept w =
      (t : ℕ) (s : BaseJwtSession)
      → w.now ≤ t
      → (load token key (at_time w t)).0 ≡ ok s
      → IsGood ends Q t s

  abbrev pub KeepsIt : Operation → Type 0
  KeepsIt op = op.key ≡ key → (s s' : BaseJwtSession) → Q s → changed op.change s ≡ ok s' → Q s'

  abbrev HoldsGood : Operation → BaseJwtSession → Type 0
  HoldsGood op s = op.key ≡ key → Q s × (s.exp ≡ val (pos ends))

  abbrev pub TaskKeeps : Task → Type 0
  TaskKeeps (waiting op) = KeepsIt op
  TaskKeeps (holding op s) = KeepsIt op × HoldsGood op s
  TaskKeeps (settled result) = Unit {0}

  pub record Invariant {r : Server} (s : System r) : Type 0 where
    pub world : IsKept s.world
    pub tasks : (i : ℕ) → TaskKeeps (s.tasks i)

module _ {r : Server} (key : String) (ends : ℕ) (Q : BaseJwtSession → Type 0)
    (kept_by_saving : (now : ℕ) (s : BaseJwtSession) → Q s → Q (saved now s)) where
  pub save-IsKept :
      (w : World r) (s : BaseJwtSession)
      → Q s
      → s.exp ≡ val (pos ends)
      → w.now / 1000 < ends
      → ((t : ℕ) (s' : BaseJwtSession)
          → w.now ≤ t
          → (load token key (at_time (save token key s w).1 t)).0 ≡ ok s'
          → IsGood ends Q t s')
  save-IsKept w s good exp alive t s' le found =
      let lem = load-save w token key s ends exp alive t key le in
      elim (Bool-cases (ltb t (end_of w.now ends))) [
        | inl live ↦
            let same : saved w.now s ≡ s' =
              ok_inj (sym (lem ∙ rw (eq_refl key, live) refl) ∙ found) in
            record {
              has = subst Q same (kept_by_saving w.now s good);
              exp = sym (ap (λ x. x.exp) same) ∙ rw exp refl;
              before_end = omega (arith, ltb→lt t (end_of w.now ends), end_of_bounds w.now ends);
            }
        | inr late ↦
            let gone : (load token key (at_time (save token key s w).1 t)).0 ≡ no_session =
              lem ∙ rw (eq_refl key, late) refl in
            absurd (no_session-ne-ok s' (sym gone ∙ found))
      ]

  written :
      (w : World r) (s : BaseJwtSession)
      → IsKept key ends Q w
      → Q s × (s.exp ≡ val (pos ends))
      → IsKept key ends Q (save token key s w).1
  written w s kept (good, exp) t s' le found = elim (dec_lt (w.now / 1000) ends) [
    | yes alive ↦ save-IsKept w s good exp alive t s' (rw (save-now w token key s) at le) found
    | no late ↦
        let same = save-refused w token key s ends exp (omega arith) in
        kept t s' (rw same at le) (rw same at found)
  ]

  elsewhere :
      (w : World r) (op_key : String) (s : BaseJwtSession)
      → (op_key == key) ≡ false
      → IsKept key ends Q w
      → IsKept key ends Q (save token op_key s w).1
  elsewhere w op_key s different kept t s' le found =
      let le' = rw (save-now w token op_key s) at le in
      kept t s' le' (sym (load-save_elsewhere w token op_key s t key le' different) ∙ found)

  write-IsKept :
      (type : JwtSession) (w : World r) (op_key : String) (s : BaseJwtSession)
      → IsKept key ends Q w
      → (op_key ≡ key → Q s × (s.exp ≡ val (pos ends)))
      → IsKept key ends Q (save type op_key s w).1
  write-IsKept token w op_key s kept good = elim (Bool-cases (op_key == key)) [
    | inl same ↦ let path = (eq_iff op_key key).0 same in rw path (written w s kept (good path))
    | inr different ↦ elsewhere w op_key s different kept
  ]

  clear-IsKept :
      (w : World r) (k : String)
      → IsKept key ends Q w
      → IsKept key ends Q (Session.clear_session auth_session_service token k w).1
  unfolding Session.clear_session
  clear-IsKept w k kept t s le found =
      let lem = load-clear_session token w k t key in
      elim (Bool-cases (k == key)) [
        | inl same ↦ absurd (no_session-ne-ok s (sym (lem ∙ rw same refl) ∙ found))
        | inr different ↦ kept t s le (sym (lem ∙ rw different refl) ∙ found)
      ]

  at_once :
      (w : World r) (s : BaseJwtSession)
      → IsKept key ends Q w
      → (type : JwtSession) (k : String) → (load type k w).0 ≡ ok s
      → k ≡ key
      → Q s × (s.exp ≡ val (pos ends))
  at_once w s kept token k found path =
      let good = kept w.now s (omega arith) (rw path at found) in (good.has, good.exp)

  advance-Keeps :
      (task : Task) (w : World r)
      → IsKept key ends Q w
      → TaskKeeps key ends Q task
      → TaskKeeps key ends Q (advance task w).0 × IsKept key ends Q (advance task w).1
  unfolding advance
  advance-Keeps (waiting op) w kept keeps =
      let type = read_type op.change op.session_type in
      elim (Result-cases (load type op.key w).0) [
        | inl (s, h) ↦
            rw (load-unchanged type op.key w h) ((keeps, at_once w s kept type op.key h), kept)
        | inr (e, h) ↦ rw (load-unchanged type op.key w h) (tt, kept)
      ]
  advance-Keeps (holding op s) w kept (keeps, good) = elim (Result-cases (changed op.change s)) [
    | inl (s', h) ↦ rw h (
      tt,
      write-IsKept op.session_type w op.key s' kept
          (λ path. (keeps path s s' (good path).0 h, changed-exp op.change s s' h ∙ (good path).1)),
    )
    | inr (e, h) ↦ rw h (tt, kept)
  ]
  advance-Keeps (settled result) w kept keeps = (tt, kept)

  step-Invariant :
      (s : System r) (e : Event) → Invariant key ends Q s → Invariant key ends Q (step s e)
  unfolding step
  step-Invariant s (advances i) inv =
      let (task, world) = advance-Keeps (s.tasks i) s.world inv.world (inv.tasks i) in
      record {
        world = world;
        tasks = λ j. elim (Bool-cases (eqb i j)) [
          | inl same ↦ rw same task
          | inr other ↦ rw other (inv.tasks j)
        ];
      }
  step-Invariant s (passes ms) inv = record {
    world = λ t x le found. inv.world t x (omega arith) found;
    tasks = inv.tasks;
  }
  step-Invariant s (clears k) inv = record {
    world = clear-IsKept s.world k inv.world;
    tasks = inv.tasks;
  }

  -- If every change of the key's session keeps a property, and saving keeps it, so does every
  -- schedule.
  pub run-Invariant :
      (s : System r) (events : List Event)
      → Invariant key ends Q s
      → Invariant key ends Q (run s events)
  unfolding run
  run-Invariant s [] inv = inv
  run-Invariant s (e ∷ events) inv = run-Invariant (step s e) events (step-Invariant s e inv)
