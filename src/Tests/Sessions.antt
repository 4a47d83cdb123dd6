-- ===== src/Tests/Sessions.antt =====
-- The sessions of core/session and core/auth-gateway on concrete inputs.
use codebase_be_nestjs.Common.{
  ℕ, String, List, ◌==◌, ◌≡◌, refl, ◌||◌, none, some, [], ◌∷◌, val, arith, if◌then◌else◌, ltb,
  includes, absent, same,
}
use mathlib.Core.Option
use codebase_be_nestjs.Common.Int.{pos}
use codebase_be_nestjs.Common.Effect.{ok}
use codebase_be_nestjs.Shared.SessionType.{token}
use codebase_be_nestjs.Shared.Flow.{
  BaseFlowSession, sign_contract, FlowType-discrete, spread_flow, stored_flow,
}
use codebase_be_nestjs.Shared.Session.{
  SessionPermission-discrete, otp_verified as user_otp_verified,
}
use codebase_be_nestjs.Redis.Memory.{find}
use codebase_be_nestjs.Session.Refinement.{
  Operation, add, read, clear, wait, Timed, live as still_live, promise, perform, answers,
  answers-promise,
}
use codebase_be_nestjs.Shared.Token.{BaseJwtPayload, stored_payload}
use codebase_be_nestjs.Session.{get_session_value}
use codebase_be_nestjs.Session.Laws.{at_time}
use codebase_be_nestjs.AuthSession.{
  token_session_service, grant, load, add_permissions, add_flow_session, get_flow_session,
  flow_or_empty,
}
use codebase_be_nestjs.AuthSession.Lifetime.{end_of, saved, no_session}
use codebase_be_nestjs.AuthSession.Permissions.{holds, add_permissions_lem}
use codebase_be_nestjs.AuthSession.Flows.{flow_at, flow_answer, get-add_flow_session}
use codebase_be_nestjs.Tests.Samples.{
  user_payload, sample_session, live_world, empty_world, late_world,
}

-- The session of the sample world is read.
live : load token "k:1" live_world ≡ (ok sample_session, live_world)
unfolding load get_session_value find
live = refl

live_late : load token "k:1" late_world ≡ (ok sample_session, late_world)
unfolding load get_session_value find
live_late = refl

abbrev selfie_flow : BaseFlowSession
selfie_flow = record {
  type = val sign_contract;
  permissions = absent;
  fields = λ name. if name == "selfieId" then val "s" else absent;
}

add_permissions_lem_example :
    ((add_permissions "k:1" (user_otp_verified ∷ []) token live_world).0
      ≡ ok (grant (user_otp_verified ∷ []) sample_session))
    × ((load token "k:1"
          (at_time (add_permissions "k:1" (user_otp_verified ∷ []) token live_world).1 8000)).0
        ≡ (if "k:1" == "k:1"
            then (if ltb 8000 (end_of live_world.now 1000)
                then ok (saved live_world.now (grant (user_otp_verified ∷ []) sample_session))
                else no_session)
            else (load token "k:1" (at_time live_world 8000)).0))
    × (holds
          (saved live_world.now (grant (user_otp_verified ∷ []) sample_session))
          user_otp_verified
        ≡ (holds sample_session user_otp_verified
            || includes SessionPermission-discrete (user_otp_verified ∷ []) user_otp_verified))
    × ((saved live_world.now (grant (user_otp_verified ∷ []) sample_session)).exp
        ≡ sample_session.exp)
add_permissions_lem_example =
    add_permissions_lem live_world "k:1" (user_otp_verified ∷ []) sample_session live 1000 refl
      (omega arith) 8000 "k:1" user_otp_verified (omega arith)

get-add_flow_session_example :
    (get_flow_session "k:1" sign_contract token
      (at_time (add_flow_session "k:1" selfie_flow token live_world).1 8000)).0
    ≡ flow_answer (
        Option.map stored_flow (
          if same FlowType-discrete sign_contract sign_contract
          then some (spread_flow (flow_or_empty (flow_at sample_session sign_contract)) selfie_flow)
          else flow_at sample_session sign_contract))
get-add_flow_session_example =
    get-add_flow_session live_world "k:1" token sample_session live 1000 refl (omega arith)
      selfie_flow sign_contract sign_contract 8000 refl (omega arith) (omega arith)

-- A payload is added, read, cleared and read again.
abbrev client : List (Operation BaseJwtPayload)
client =
    add "k:1" (some (pos 60)) user_payload
    ∷ wait 59000
    ∷ read "k:1"
    ∷ wait 2000
    ∷ read "k:1"
    ∷ add "k:2" none user_payload
    ∷ clear "k:1"
    ∷ []

abbrev nothing : Timed BaseJwtPayload
nothing = record { now = 5000; entries = λ id. none }

nothing_stored :
    (t : ℕ) (id : String)
    → (get_session_value token_session_service token id (at_time empty_world t)).0
      ≡ still_live (nothing.entries id) t
unfolding get_session_value find
nothing_stored t id = refl

answers-promise_example :
    answers (perform token_session_service stored_payload token) client empty_world
    ≡ answers (promise token_session_service stored_payload) client nothing
answers-promise_example =
    answers-promise token_session_service stored_payload (λ v. refl) token client empty_world
      nothing (refl, λ t id le. nothing_stored t id)
