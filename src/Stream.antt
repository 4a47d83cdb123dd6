-- ===== src/Stream.antt =====
-- module/stream/stream.service.ts: reading the rows of a query as a stream, with the query runner
-- of TypeORM as a parameter and the events of a stream as steps.
pub mod Transaction
pub mod Chunks
use codebase_be_nestjs.Common.{
  String, ◌≡◌, Bool, true, false, Option, none, some, List, [], ◌∷◌, ◌++◌, if◌then◌else◌,
}
use codebase_be_nestjs.Common.Effect.{
  Exception, Exec, Result, ok, err, error, pure, raise, catch, continue, ◌>>=◌, ◌>>◌,
}

-- What a query runner does on its state `D`, with streams `S`. Ending a transaction leaves none
-- that is active, and releasing the runner does not touch the transaction.
pub record QueryRunner (D S : Type 0) : Type 0 where
  pub start_transaction : Exec D (Unit {0})
  pub stream : String → Exec D S
  pub commit_transaction : Exec D (Unit {0})
  pub rollback_transaction : Exec D (Unit {0})
  pub release : Exec D (Unit {0})
  pub is_transaction_active : D → Bool
  pub is_released : D → Bool
  pub commit_ends :
      (d d' : D) → commit_transaction d ≡ (ok tt, d') → is_transaction_active d' ≡ false
  pub rollback_ends :
      (d d' : D) → rollback_transaction d ≡ (ok tt, d') → is_transaction_active d' ≡ false
  pub release_ok : (d : D) → (release d).0 ≡ ok tt
  pub release_releases : (d : D) → is_released (release d).1 ≡ true
  pub release_keeps : (d : D) → is_transaction_active (release d).1 ≡ is_transaction_active d

-- `try { m } finally { f }`: an error of `f` replaces the result.
abbrev pub finally : {D A : Type 0} → Exec D A → Exec D (Unit {0}) → Exec D A
finally m f d = let (r, d') = m d in (f >>= λ _ d''. (r, d'')) d'

module _ {D S : Type 0} (runner : QueryRunner D S) where
  -- `queryRunner.isTransactionActive && (await queryRunner.rollbackTransaction())`
  abbrev pub rollback_if_active : Exec D (Unit {0})
  rollback_if_active d =
      if runner.is_transaction_active d then runner.rollback_transaction d else (ok tt, d)

  unfoldable pub read_in_transaction : String → Exec D S
  read_in_transaction query = do
    runner.start_transaction
    stream ← runner.stream query
    runner.commit_transaction
    pure stream

  -- The `catch` block.
  abbrev pub after_error : Exec D S
  after_error = do rollback_if_active; raise (error "")

  unfoldable pub get_read_stream_data : String → Exec D S
  unfolding read_in_transaction
  get_read_stream_data query =
      finally (catch (read_in_transaction query) (λ e. after_error)) runner.release

-- The stream in handleDataStream, with chunks `T`: `emitted` are the chunks that it gave, `handled`
-- those whose handleData has returned, `handling` those whose handleData still runs. `settled` is
-- the promise that waits for the end or an error.
pub record Streaming (T : Type 0) : Type 0 where
  pub paused : Bool
  pub destroyed : Bool
  pub emitted : List T
  pub handled : List T
  pub handling : List T
  pub settled : Option (Result (Unit {0}))

-- The first call of `rs` or `rj` counts.
abbrev pub settle : Option (Result (Unit {0})) → Result (Unit {0}) → Option (Result (Unit {0}))
settle none r = some r
settle (some first) r = some first

module _ {T : Type 0} where
  abbrev pub opened : Streaming T
  opened = record {
    paused = false;
    destroyed = false;
    emitted = [];
    handled = [];
    handling = [];
    settled = none;
  }

  -- The listener of "data": `stream.pause(); handleData(chunk)`
  unfoldable pub on_data : T → Streaming T → Streaming T
  on_data chunk s = record s {
    paused = true;
    emitted = s.emitted ++ chunk ∷ [];
    handling = s.handling ++ chunk ∷ [];
  }

  -- The listener of "error": `stream.destroy(); rj(err)`
  unfoldable pub on_error : Exception → Streaming T → Streaming T
  on_error e s = record s { destroyed = true; settled = settle s.settled (err e) }

  -- The listener of "end".
  unfoldable pub on_end : Streaming T → Streaming T
  on_end s = record s { settled = settle s.settled (ok tt) }

  -- handleData returns for the chunk that was given first, or throws: `stream.emit("error", err)`.
  unfoldable pub on_handled : T → List T → Result (Unit {0}) → Streaming T → Streaming T
  unfolding on_error
  on_handled chunk rest (ok _) s = record s {
    paused = false;
    handled = s.handled ++ chunk ∷ [];
    handling = rest;
  }
  on_handled chunk rest (err e) s = on_error e (record s { handling = rest })

  -- A stream that is paused gives no chunk, and one that is destroyed gives no chunk and no end.
  -- An end or an error of the source may come at any other time.
  pub data Step : Streaming T → Streaming T → Type 0 where
    data_step :
        {s : Streaming T} (chunk : T)
        → s.paused ≡ false
        → s.destroyed ≡ false
        → Step s (on_data chunk s)
    end_step : {s : Streaming T} → s.destroyed ≡ false → Step s (on_end s)
    error_step : {s : Streaming T} (e : Exception) → s.destroyed ≡ false → Step s (on_error e s)
    handled_step :
        {s : Streaming T} (chunk : T) (rest : List T) (r : Result (Unit {0}))
        → s.handling ≡ chunk ∷ rest
        → Step s (on_handled chunk rest r s)

  pub data Reach : Streaming T → Type 0 where
    start : Reach opened
    after : {s t : Streaming T} → Reach s → Step s t → Reach t

  -- What follows the promise: the stream is destroyed, and an error is replaced by one with no
  -- message.
  abbrev pub stream_result : Result (Unit {0}) → Streaming T → Result (Streaming T)
  stream_result (ok _) s = ok (record s { destroyed = true })
  stream_result (err e) s = err (error "")

module _ {D S T : Type 0} (runner : QueryRunner D S) where
  -- handleDataStream, where `run` is what the stream comes to: its state when the promise is
  -- settled, with the promise. Opening the stream is outside the `try`.
  unfoldable pub handle_data_stream :
      String → (S → Streaming T × Result (Unit {0})) → Exec D (Streaming T)
  handle_data_stream query run = runner.stream query >>= λ stream.
      let (s, promise) = run stream in finally (λ d. (stream_result promise s, d)) runner.release
