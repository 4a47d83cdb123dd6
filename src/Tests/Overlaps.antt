-- ===== src/Tests/Overlaps.antt =====
-- Overlapping calls for one session on concrete inputs.
use codebase_be_nestjs.Common.{
  ℕ, ◌+◌, ◌*◌, ◌<◌, ◌≡◌, refl, true, ◌||◌, List, [], ◌∷◌, val, arith, ◌⊎◌, includes,
}
use codebase_be_nestjs.Common.Int.{pos}
use codebase_be_nestjs.Common.Effect.{ok, err}
use codebase_be_nestjs.Shared.SystemCode.{code_text, unauthorized, unauthorized_exception}
use codebase_be_nestjs.Shared.SessionType.{token}
use codebase_be_nestjs.Shared.Flow.{sign_contract, otp_verified as flow_otp_verified}
use codebase_be_nestjs.Shared.Session.{
  SessionPermission, SessionPermission-discrete, BaseJwtSession, otp_verified, forgot_password,
}
use codebase_be_nestjs.Redis.Memory.{memory, find, setex}
use codebase_be_nestjs.Session.{add_session, get_session_value, clear_session}
use codebase_be_nestjs.AuthSession.{load, grant, save}
use codebase_be_nestjs.AuthSession.Lifetime.{saved}
use codebase_be_nestjs.AuthSession.Permissions.{holds}
use codebase_be_nestjs.Auth.{logout}
use codebase_be_nestjs.Guard.{can_activate, behind_space, before_space}
use codebase_be_nestjs.SignContract.{user_guard}
use codebase_be_nestjs.Overlap.{
  adds_permissions, adds_flow_permissions, Operation, Task, holding, settled, Event, advances,
  passes, clears, System, advance, step, run,
}
use codebase_be_nestjs.Overlap.Permissions.{Gives, all_waiting, run-accounted}
use codebase_be_nestjs.Overlap.Lost.{
  in_sequence, overlapping, two_calls, LeavesPermissions, run-overlapping,
}
use codebase_be_nestjs.Overlap.Logout.{can_activate-run}
use codebase_be_nestjs.Tests.Samples.{user_payload, live_world, sample_request, sample_session}
use codebase_be_nestjs.Tests.Requests.{user, live}

abbrev verify_call : Operation
verify_call = record {
  key = "k:1";
  session_type = token;
  change = adds_flow_permissions sign_contract (flow_otp_verified ∷ []);
}

abbrev permit_call : Operation
permit_call = record {
  key = "k:1";
  session_type = token;
  change = adds_permissions (otp_verified ∷ []);
}

abbrev calls : ℕ → Operation
calls i = permit_call

abbrev events : List Event
events = advances 0 ∷ advances 1 ∷ passes 2000 ∷ advances 0 ∷ clears "k:2" ∷ advances 1 ∷ []

abbrev permitted : System memory
permitted = record {
  world = (save token "k:1" sample_session live_world).1;
  tasks = all_waiting calls;
}

abbrev permitted_session : BaseJwtSession
permitted_session = saved 7000 (grant (otp_verified ∷ []) (saved 5000 sample_session))

read_after : (load token "k:1" (run permitted events).world).0 ≡ ok permitted_session
unfolding run step advance save load get_session_value add_session find setex clear_session
read_after = refl

run-accounted_example :
    ((p : SessionPermission)
      → holds permitted_session p ≡ true
      → (holds sample_session p ≡ true) ⊎ ((i : ℕ) × Gives (calls i) "k:1" p))
    × (permitted_session.exp ≡ val (pos 1000))
    × ((run permitted events).world.now < 1000 * 1000 + 1000)
run-accounted_example =
    run-accounted live_world "k:1" sample_session 1000 refl (omega arith) calls events
      permitted_session read_after

run-overlapping_example :
    let start : System memory = record {
      world = live_world;
      tasks =
          two_calls permit_call
            (record permit_call { change = adds_permissions (forgot_password ∷ []) });
    } in
    ((run start in_sequence).tasks 0 ≡ settled (ok (grant (otp_verified ∷ []) sample_session)))
    × ((run start in_sequence).tasks 1
        ≡ settled (
            ok (
              grant
                (forgot_password ∷ [])
                (saved 5000 (grant (otp_verified ∷ []) sample_session)))))
    × LeavesPermissions "k:1" 5000 1000 (run start in_sequence).world (λ p.
      (holds sample_session p || includes SessionPermission-discrete (otp_verified ∷ []) p)
      || includes SessionPermission-discrete (forgot_password ∷ []) p)
    × ((run start overlapping).tasks 0 ≡ settled (ok (grant (otp_verified ∷ []) sample_session)))
    × ((run start overlapping).tasks 1 ≡ settled (ok (grant (forgot_password ∷ []) sample_session)))
    × LeavesPermissions "k:1" 5000 1000 (run start overlapping).world (λ p.
      holds sample_session p || includes SessionPermission-discrete (forgot_password ∷ []) p)
run-overlapping_example =
    run-overlapping live_world "k:1" sample_session live 1000 refl (omega arith) (otp_verified ∷ [])
      (forgot_password ∷ [])

abbrev under_way : ℕ → Task
under_way i = holding permit_call sample_session

can_activate-run_example :
    (can_activate user user_guard sample_request
      (run
        (record { world = (logout user_payload live_world).1; tasks = under_way })
        events).world).0
    ≡ err (unauthorized_exception (code_text unauthorized))
unfolding behind_space before_space
can_activate-run_example =
    can_activate-run user user_guard sample_request live_world user_payload user_payload under_way
      events "Bearer jwt" refl refl refl refl
