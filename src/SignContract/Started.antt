-- ===== src/SignContract/Started.antt =====
-- What requestOtp of module/sign-contract leaves in the store.
use codebase_be_nestjs.Common.{
  ℕ, suc, ◌/◌, ◌<◌, String, ◌≡◌, refl, sym, ap, ◌∙◌, true, some, List, [], val, same_refl,
}
use codebase_be_nestjs.Common.Int.{pos}
use codebase_be_nestjs.Common.Effect.{ok}
use codebase_be_nestjs.Shared.SessionType.{token}
use codebase_be_nestjs.Shared.Flow.{
  FlowPermission, FlowType-discrete, BaseFlowSession, sign_contract, spread_flow, stored_flow,
}
use codebase_be_nestjs.Shared.Session.{BaseJwtSession}
use codebase_be_nestjs.Shared.Token.{BaseJwtPayload, session_bound_id}
use codebase_be_nestjs.Redis.Server.{Server}
use codebase_be_nestjs.Redis.Storage.{World, v4}
use codebase_be_nestjs.Session.Laws.{get_session_value_lem}
use codebase_be_nestjs.AuthSession.{
  auth_session_service, load, flow_or_empty, merged_flow, with_flow, save, add_flow_session,
  update_flow_session,
}
use codebase_be_nestjs.AuthSession.Lifetime.{
  saved, save-ok, now-save, load-unchanged, load-save_self,
}
use codebase_be_nestjs.AuthSession.Flows.{flow_at, flow_at-saved-with_flow, add_flow_session-save}
use codebase_be_nestjs.SignContract.{SignContractLibrary, request_otp, check_selfie, selfie_update}

-- A session in the store, at a key, that ends at a second and has whole seconds of life left.
pub record IsStored {r : Server} (w : World r) (key : String) (ends : ℕ) : Type 0 where
  pub session : BaseJwtSession
  pub there : load token key w ≡ (ok session, w)
  pub exp : session.exp ≡ val (pos ends)
  pub alive : w.now / 1000 < ends

-- Such a session with a flow of contract signing that has the permissions.
pub record IsSigning {r : Server} (w : World r) (key : String) (ends : ℕ)
    (held : List FlowPermission) : Type 0 where
  pub stored : IsStored w key ends
  pub flow : BaseFlowSession
  pub here : flow_at stored.session sign_contract ≡ some flow
  pub permissions : flow.permissions ≡ val held

module _ {r : Server} {w : World r} {key : String} {ends : ℕ} (stored : IsStored w key ends) where
  -- Drawing an identifier changes nothing that is stored.
  pub load-v4 : load token key (v4 w).1 ≡ (ok stored.session, (v4 w).1)
  unfolding load
  load-v4 =
      let lem = λ (v : World r). get_session_value_lem auth_session_service token key v in
      load-unchanged token key (v4 w).1
        (ap (λ p. p.0) (lem (v4 w).1) ∙ sym (ap (λ p. p.0) (lem w)) ∙ ap (λ p. p.0) stored.there)

  abbrev pub when_drawn : IsStored (v4 w).1 key ends
  when_drawn = record {
    session = stored.session;
    there = load-v4;
    exp = stored.exp;
    alive = stored.alive;
  }

  -- addFlowSession of a value for contract signing.
  module _ (value : BaseFlowSession) (is : value.type ≡ val sign_contract) where
    abbrev merged : BaseJwtSession
    merged = with_flow sign_contract (merged_flow sign_contract value stored.session) stored.session

    abbrev merged_content : BaseFlowSession
    merged_content =
        stored_flow (spread_flow (flow_or_empty (flow_at stored.session sign_contract)) value)

    abbrev added : World r
    added = (save token key merged w).1

    added-now : added.now ≡ w.now
    added-now = now-save w token key merged ends stored.exp stored.alive

    add_flow_session_lem : add_flow_session key value token w ≡ (ok merged, added)
    add_flow_session_lem =
        add_flow_session-save w key token stored.session stored.there ends stored.exp stored.alive
          value sign_contract is
        ∙ ap (λ x. (x, added)) (save-ok w token key merged ends stored.exp stored.alive)

    added-IsSigning :
        (held : List FlowPermission)
        → merged_content.permissions ≡ val held
        → IsSigning added key ends held
    added-IsSigning held permissions = record {
      stored = record {
        session = saved w.now merged;
        there = load-save_self w token key merged ends stored.exp stored.alive;
        exp = rw stored.exp refl;
        alive = rw added-now stored.alive;
      };
      flow = merged_content;
      here =
          flow_at-saved-with_flow w.now stored.session sign_contract sign_contract
            (merged_flow sign_contract value stored.session)
          ∙ rw (same_refl FlowType-discrete sign_contract) refl;
      permissions = permissions;
    }

module _ {r : Server} (contract : SignContractLibrary) (payload : BaseJwtPayload)
    (channel : payload.session_channel ≡ token) (w : World r) (ends : ℕ)
    (stored : IsStored w (session_bound_id payload) ends) where
  abbrev contract_flow : BaseFlowSession
  contract_flow = contract.plain_to_sign_contract (w.uuids w.drawn) (w.uuids (suc w.drawn))

  abbrev drawn : IsStored (v4 (v4 w).1).1 (session_bound_id payload) ends
  drawn = when_drawn (when_drawn stored)

  abbrev pub after : World r
  after = added drawn contract_flow (contract.instance_type _ _)

  pub request_otp_lem : request_otp contract payload w ≡ (ok (record { is_susses = true }), after)
  unfolding request_otp
  request_otp_lem =
      rw (channel, add_flow_session_lem drawn contract_flow (contract.instance_type _ _)) refl

  pub after-now : after.now ≡ w.now
  after-now = added-now drawn contract_flow (contract.instance_type _ _)

  pub after-IsSigning : IsSigning after (session_bound_id payload) ends []
  after-IsSigning =
      added-IsSigning drawn contract_flow (contract.instance_type _ _) []
        (rw (contract.instance_permissions (w.uuids w.drawn) (w.uuids (suc w.drawn))) refl)

module _ {r : Server} (payload : BaseJwtPayload) (channel : payload.session_channel ≡ token)
    (w : World r) (ends : ℕ) (held : List FlowPermission)
    (signing : IsSigning w (session_bound_id payload) ends held) where
  abbrev selfie : BaseFlowSession
  selfie = selfie_update (w.uuids w.drawn)

  abbrev pub after_selfie : World r
  after_selfie = added (when_drawn signing.stored) selfie refl

  pub check_selfie_lem : check_selfie payload w ≡ (ok (record { is_susses = true }), after_selfie)
  unfolding check_selfie update_flow_session
  check_selfie_lem = rw (channel, add_flow_session_lem (when_drawn signing.stored) selfie refl) refl

  pub after_selfie-now : after_selfie.now ≡ w.now
  after_selfie-now = added-now (when_drawn signing.stored) selfie refl

  -- The update keeps the permissions.
  pub after_selfie-IsSigning : IsSigning after_selfie (session_bound_id payload) ends held
  after_selfie-IsSigning =
      added-IsSigning (when_drawn signing.stored) selfie refl held
        (rw (signing.here, signing.permissions) refl)
