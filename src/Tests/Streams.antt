-- ===== src/Tests/Streams.antt =====
-- Streams on concrete inputs.
use codebase_be_nestjs.Common.{String, ◌≡◌, refl, Bool, true, false, [], ◌⊎◌, ℕ}
use codebase_be_nestjs.Common.Effect.{Exception, ok, err, error}
use codebase_be_nestjs.Stream.{
  QueryRunner, read_in_transaction, get_read_stream_data, Streaming, opened, on_data, on_handled,
  Step, Reach,
}
use codebase_be_nestjs.Stream.Transaction.{RolledBack, RollbackFailed, get_read_stream_data_lem}
use codebase_be_nestjs.Stream.Chunks.{InOrder, Failed, Reach-InOrder}

-- A connection: whether a transaction is active, and whether the runner is released.
record Connection : Type 0 where
  active : Bool
  released : Bool

-- A runner whose commit is refused.
abbrev read_only : QueryRunner Connection String
read_only = record {
  start_transaction = λ d. (ok tt, record d { active = true });
  stream = λ query d. (ok query, d);
  commit_transaction = λ d. (err (error "refused"), d);
  rollback_transaction = λ d. (ok tt, record d { active = false });
  release = λ d. (ok tt, record d { released = true });
  is_transaction_active = λ d. d.active;
  is_released = λ d. d.released;
  commit_ends = λ d d' h. cc;
  rollback_ends = λ d d' h. cc;
  release_ok = λ d. refl;
  release_releases = λ d. refl;
  release_keeps = λ d. refl;
}

abbrev fresh : Connection
fresh = record { active = false; released = false }

get_read_stream_data_lem_example :
    (read_only.is_released (get_read_stream_data read_only "select" fresh).1 ≡ true)
    × (((stream : String) × ((read_in_transaction read_only "select" fresh).0 ≡ ok stream)
          × ((get_read_stream_data read_only "select" fresh).0 ≡ ok stream)
          × (read_only.is_transaction_active (get_read_stream_data read_only "select" fresh).1
              ≡ false))
        ⊎ ((e : Exception) × ((read_in_transaction read_only "select" fresh).0 ≡ err e)
            × (RolledBack read_only (get_read_stream_data read_only "select" fresh)
                ⊎ RollbackFailed read_only
                    (read_in_transaction read_only "select" fresh).1
                    (get_read_stream_data read_only "select" fresh))))
get_read_stream_data_lem_example = get_read_stream_data_lem read_only "select" fresh

-- Two chunks; the second cannot be handled.
abbrev stopped : Streaming ℕ
stopped =
    on_handled 2 [] (err (error "bad row")) (on_data 2 (on_handled 1 [] (ok tt) (on_data 1 opened)))

stopped_reached : Reach stopped
unfolding on_data on_handled
stopped_reached =
    Reach.after
      (Reach.after
        (Reach.after (Reach.after Reach.start (Step.data_step 1 refl refl))
          (Step.handled_step 1 [] (ok tt) refl))
        (Step.data_step 2 refl refl))
      (Step.handled_step 2 [] (err (error "bad row")) refl)

Reach-InOrder_example : InOrder stopped ⊎ Failed stopped
Reach-InOrder_example = Reach-InOrder stopped_reached
