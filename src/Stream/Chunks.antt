-- ===== src/Stream/Chunks.antt =====
-- The chunks of handleDataStream in module/stream/stream.service.ts.
use mathlib.Core.List.{append-nil}
use codebase_be_nestjs.Common.{
  String, ◌≡◌, refl, sym, ap, ◌∙◌, Bool, true, false, List, [], ◌∷◌, ◌++◌, ◌⊎◌, inl, inr,
}
use codebase_be_nestjs.Common.Effect.{Exception, Result, ok, err, Result-cases}
use codebase_be_nestjs.Stream.{
  Streaming, on_data, on_error, on_end, on_handled, Step, Reach, QueryRunner, stream_result,
  handle_data_stream,
}

module _ {T : Type 0} where
  -- What is being handled: nothing, or one chunk while the stream is paused.
  abbrev pub Busy : Bool → List T → Type 0
  Busy paused handling = (handling ≡ []) ⊎ ((chunk : T) × (handling ≡ chunk ∷ []) × (paused ≡ true))

  -- Every chunk that was given is handled, or being handled.
  abbrev pub InOrder : Streaming T → Type 0
  InOrder s = (s.emitted ≡ s.handled ++ s.handling) × Busy s.paused s.handling

  -- The last chunk that was given could not be handled: the stream is destroyed.
  abbrev pub Failed : Streaming T → Type 0
  Failed s =
      (chunk : T) × (s.emitted ≡ s.handled ++ chunk ∷ []) × (s.handling ≡ []) × (s.destroyed ≡ true)

  handled-InOrder :
      (s : Streaming T) (chunk : T) (rest : List T) (r : Result (Unit {0}))
      → s.handling ≡ chunk ∷ []
      → rest ≡ []
      → s.emitted ≡ s.handled ++ s.handling
      → InOrder (on_handled chunk rest r s) ⊎ Failed (on_handled chunk rest r s)
  unfolding on_handled on_error
  handled-InOrder s chunk rest (ok x) e none_left order = inl (
    order
        ∙ ap (λ l. s.handled ++ l) e
        ∙ sym (append-nil (s.handled ++ chunk ∷ []))
        ∙ ap (λ l. (s.handled ++ chunk ∷ []) ++ l) (sym none_left),
    inl none_left,
  )
  handled-InOrder s chunk rest (err x) e none_left order =
      inr (chunk, order ∙ ap (λ l. s.handled ++ l) e, none_left, refl)

  given-InOrder :
      (s : Streaming T) (chunk : T) → s.paused ≡ false → InOrder s → InOrder (on_data chunk s)
  unfolding on_data
  given-InOrder s chunk p (order, inl empty) = (
    ap (λ l. l ++ chunk ∷ []) (order ∙ ap (λ l. s.handled ++ l) empty ∙ append-nil s.handled)
        ∙ ap (λ l. s.handled ++ (l ++ chunk ∷ [])) (sym empty),
    inr (chunk, ap (λ l. l ++ chunk ∷ []) empty, refl),
  )
  given-InOrder s chunk p (order, inr (c, e, q)) = cc

  Step-InOrder : {s t : Streaming T} → Step s t → InOrder s ⊎ Failed s → InOrder t ⊎ Failed t
  unfolding on_data on_error on_end
  Step-InOrder {s = s} (Step.data_step chunk p d) (inl h) = inl (given-InOrder s chunk p h)
  Step-InOrder (Step.data_step chunk p d) (inr (c, o, e, d')) = cc
  Step-InOrder (Step.end_step d) h = h
  Step-InOrder (Step.error_step e d) (inl h) = inl h
  Step-InOrder (Step.error_step e d) (inr (c, o, e', d')) = inr (c, o, e', refl)
  Step-InOrder (Step.handled_step chunk rest r e) (inl (order, inl f)) = cc
  Step-InOrder {s = s} (Step.handled_step chunk rest r e) (inl (order, inr (c, f, q))) =
      handled-InOrder s chunk rest r (e ∙ ap (λ l. chunk ∷ l) (same_rest (sym f ∙ e)))
        (same_rest (sym f ∙ e)) order
    where
      same_rest : c ∷ [] ≡ chunk ∷ rest → rest ≡ []
      same_rest g = cc
  Step-InOrder (Step.handled_step chunk rest r e) (inr (c, o, f, d')) = cc

  -- Whatever happens to the stream: the chunks that it gave are, in their order, those that were
  -- handled and at most one that is being handled while the stream is paused; or the stream is
  -- destroyed, and they are those that were handled and one that could not be.
  pub Reach-InOrder : {s : Streaming T} → Reach s → InOrder s ⊎ Failed s
  Reach-InOrder Reach.start = inl (refl, inl refl)
  Reach-InOrder (Reach.after r st) = Step-InOrder st (Reach-InOrder r)

module _ {D S T : Type 0} (runner : QueryRunner D S) where
  -- If opening the stream throws, handleDataStream throws that error and does nothing else: the
  -- runner is not released. Otherwise the runner is released, and the result is the stream,
  -- destroyed, if its promise was resolved, and an error with no message if it was rejected.
  pub handle_data_stream_lem :
      (query : String) (run : S → Streaming T × Result (Unit {0})) (d : D)
      → ((e : Exception) × ((runner.stream query d).0 ≡ err e)
          × (handle_data_stream runner query run d ≡ (err e, (runner.stream query d).1)))
        ⊎ ((stream : S) × ((runner.stream query d).0 ≡ ok stream)
            × ((handle_data_stream runner query run d).0
                ≡ stream_result (run stream).1 (run stream).0)
            × (runner.is_released (handle_data_stream runner query run d).1 ≡ true))
  unfolding handle_data_stream
  handle_data_stream_lem query run d = elim (Result-cases (runner.stream query d).0) [
    | inl (stream, h) ↦ inr (
      stream,
      h,
      rw (h, runner.release_ok _) refl,
      rw (h, runner.release_ok _) (runner.release_releases _),
    )
    | inr (e, h) ↦ inl (e, h, rw h refl)
  ]
