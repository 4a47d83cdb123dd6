-- ===== src/Stream/Transaction.antt =====
-- The transaction and the query runner of getReadStreamData in module/stream/stream.service.ts.
use codebase_be_nestjs.Common.{String, ◌≡◌, refl, ap, ◌∙◌, true, false, ◌⊎◌, inl, inr, Bool-cases}
use codebase_be_nestjs.Common.Effect.{
  Exception, Exec, Result, ok, err, error, pure, catch, ◌>>◌, Result-cases,
}
use codebase_be_nestjs.Stream.{
  QueryRunner, finally, read_in_transaction, get_read_stream_data, after_error,
}

module _ {D S : Type 0} (runner : QueryRunner D S) where
  finally-released :
      {A : Type 0} (m : Exec D A) (d : D)
      → finally m runner.release d ≡ ((m d).0, (runner.release (m d).1).1)
  finally-released m d = rw (runner.release_ok (m d).1) refl

  abbrev pub Returned : Result S × D → Type 0
  Returned (r, d) = (stream : S) × (r ≡ ok stream) × (runner.is_transaction_active d ≡ false)

  abbrev pub Threw : Result S × D → Type 0
  Threw (r, d) = (e : Exception) × (r ≡ err e)

  commit_then-cases :
      (stream : S) (d : D)
      → let committed = (runner.commit_transaction >> pure stream) d in
        Returned committed ⊎ Threw committed
  commit_then-cases stream d = elim (Result-cases (runner.commit_transaction d).0) [
    | inr (e, h) ↦ inr (rw h (e, refl))
    | inl (_, h) ↦ inl (
        rw h (
          stream,
          refl,
          runner.commit_ends d (runner.commit_transaction d).1
              (ap (λ r. (r, (runner.commit_transaction d).1)) h),
        ))
  ]

  read_in_transaction-cases :
      (query : String) (d : D)
      → Returned (read_in_transaction runner query d) ⊎ Threw (read_in_transaction runner query d)
  unfolding read_in_transaction
  read_in_transaction-cases query d = elim (Result-cases (runner.start_transaction d).0) [
    | inr (e, h) ↦ inr (rw h (e, refl))
    | inl (_, h) ↦
        rw h (elim (Result-cases (runner.stream query (runner.start_transaction d).1).0) [
          | inr (e, h) ↦ inr (rw h (e, refl))
          | inl (stream, h) ↦
              rw h (commit_then-cases stream (runner.stream query (runner.start_transaction d).1).1)
        ])
  ]

  -- The rollback works or is not needed, or it throws.
  abbrev pub RolledBack : Result S × D → Type 0
  RolledBack (r, d) = (r ≡ err (error "")) × (runner.is_transaction_active d ≡ false)

  abbrev pub RollbackFailed : D → Result S × D → Type 0
  RollbackFailed before (r, d) =
      (e : Exception) × ((runner.rollback_transaction before).0 ≡ err e) × (r ≡ err e)

  after_error-cases :
      (d : D) → RolledBack (after_error runner d) ⊎ RollbackFailed d (after_error runner d)
  after_error-cases d = elim (Bool-cases (runner.is_transaction_active d)) [
    | inr inactive ↦ inl (rw inactive (refl, inactive))
    | inl active ↦ rw active (elim (Result-cases (runner.rollback_transaction d).0) [
      | inr (e, h) ↦ inr (rw h (e, refl, refl))
      | inl (_, h) ↦ inl (
          rw h (
            refl,
            runner.rollback_ends d (runner.rollback_transaction d).1
                (ap (λ r. (r, (runner.rollback_transaction d).1)) h),
          ))
    ])
  ]

  released_error :
      (d : D)
      → RolledBack ((after_error runner d).0, (runner.release (after_error runner d).1).1)
        ⊎ RollbackFailed d ((after_error runner d).0, (runner.release (after_error runner d).1).1)
  released_error d = elim (after_error-cases d) [
    | inl (r, inactive) ↦ inl (r, runner.release_keeps (after_error runner d).1 ∙ inactive)
    | inr failure ↦ inr failure
  ]

  -- However reading the stream ends, the runner is released. If starting the transaction, the
  -- query and the commit work, the stream is returned and no transaction is active. If one of them
  -- throws, an error with no message is thrown, and no transaction is active, unless the rollback
  -- throws too: then its error is thrown.
  pub get_read_stream_data_lem :
      (query : String) (d : D)
      → let done = read_in_transaction runner query d in
        let after = get_read_stream_data runner query d in
        (runner.is_released after.1 ≡ true)
        × (((stream : S) × (done.0 ≡ ok stream)
              × (after.0 ≡ ok stream)
              × (runner.is_transaction_active after.1 ≡ false))
            ⊎ ((e : Exception) × (done.0 ≡ err e)
                × (RolledBack after ⊎ RollbackFailed done.1 after)))
  unfolding get_read_stream_data
  get_read_stream_data_lem query d =
      rw (finally-released (catch (read_in_transaction runner query) (λ e. after_error runner)) d) (
        runner.release_releases _,
        elim (read_in_transaction-cases query d) [
          | inl (stream, h, inactive) ↦
              inl (stream, h, rw h refl, rw h (runner.release_keeps _ ∙ inactive))
          | inr (e, h) ↦ inr (e, h, rw h (released_error (read_in_transaction runner query d).1))
        ],
      )
