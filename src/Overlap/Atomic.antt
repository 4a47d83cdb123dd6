-- ===== src/Overlap/Atomic.antt =====
-- A call that is not interrupted is its two steps.
use codebase_be_nestjs.Common.{val, List, String, ◌≡◌, refl, none, some, read, inl, inr, Option}
use codebase_be_nestjs.Common.Effect.{Result, Result-cases, ◌>>=◌}
use codebase_be_nestjs.Shared.SessionType.{JwtSession, token}
use codebase_be_nestjs.Shared.Flow.{FlowType, FlowPermission, BaseFlowSession}
use codebase_be_nestjs.Shared.Session.{BaseJwtSession}
use codebase_be_nestjs.Redis.Server.{Server}
use codebase_be_nestjs.Redis.Storage.{World}
use codebase_be_nestjs.AuthSession.{
  found_flow, granted_flow, with_flow, save, load, add_permissions, add_flow_of, clear_flow_session,
  add_flow_permissions, flows_of, grant_flow,
}
use codebase_be_nestjs.AuthSession.Lifetime.{load-unchanged}
use codebase_be_nestjs.Overlap.{
  flow_granted, flow_permitted, call_change, Change, adds_permissions, adds_flow, clears_flow,
  adds_flow_permissions, Operation, Task, waiting, settled, call, write, after_write, advance,
}

module _ {r : Server} where
  abbrev pub and_advance : Task × World r → Task × World r
  and_advance (task, w) = advance task w

  abbrev pub settles : Result BaseJwtSession × World r → Task × World r
  settles (result, w) = (settled result, w)

  flow_granted_lem :
      (op : Operation) (w : World r) (type : FlowType) (session : BaseJwtSession)
      (granted : Option BaseFlowSession)
      → after_write (write op (flow_granted type session granted) w)
        ≡ settles (
            (granted_flow granted >>= λ flow.
            save op.session_type op.key (with_flow type (val flow) session))
              w)
  flow_granted_lem op w type session none = refl
  flow_granted_lem op w type session (some flow) = refl

  flow_permitted_lem :
      (op : Operation) (w : World r) (type : FlowType) (ps : List FlowPermission)
      (session : BaseJwtSession) (found : Option BaseFlowSession)
      → after_write (write op (flow_permitted type ps session found) w)
        ≡ settles (
            (found_flow found >>= λ flow. granted_flow (grant_flow ps flow) >>= λ granted.
            save op.session_type op.key (with_flow type (val granted) session))
              w)
  flow_permitted_lem op w type ps session none = refl
  flow_permitted_lem op w type ps session (some flow) =
      flow_granted_lem op w type session (grant_flow ps flow)

  advance-change :
      (change : Change) (type : JwtSession) (key : String) (w : World r)
      → and_advance
          (advance (waiting (record { key = key; session_type = type; change = change })) w)
        ≡ settles (call_change change type key w)
  unfolding advance add_permissions add_flow_of clear_flow_session add_flow_permissions
  advance-change (adds_permissions ps) type key w = elim (Result-cases (load token key w).0) [
    | inl (s, h) ↦ rw (load-unchanged token key w h) refl
    | inr (e, h) ↦ rw (load-unchanged token key w h) refl
  ]
  advance-change (adds_flow value flow) type key w = elim (Result-cases (load type key w).0) [
    | inl (s, h) ↦ rw (load-unchanged type key w h) refl
    | inr (e, h) ↦ rw (load-unchanged type key w h) refl
  ]
  advance-change (clears_flow flow) type key w = elim (Result-cases (load type key w).0) [
    | inl (s, h) ↦ rw (load-unchanged type key w h) refl
    | inr (e, h) ↦ rw (load-unchanged type key w h) refl
  ]
  advance-change (adds_flow_permissions flow ps) type key w =
      elim (Result-cases (load type key w).0) [
        | inl (s, h) ↦ rw (load-unchanged type key w h) (
            flow_permitted_lem
              (record { key = key; session_type = type; change = adds_flow_permissions flow ps }) w
              flow ps s (read (flows_of s flow)))
        | inr (e, h) ↦ rw (load-unchanged type key w h) refl
      ]

  -- A call of one of the four methods that is not interrupted reads and writes as its two steps
  -- do, and returns or throws what the second of them settles it with.
  advance-advance :
      (op : Operation) (w : World r) → and_advance (advance (waiting op) w) ≡ settles (call op w)
  advance-advance op w = advance-change op.change op.session_type op.key w
