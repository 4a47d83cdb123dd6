-- ===== src/Amqp/Unheard.antt =====
-- A close of a receiver of core/amqp/amqp.service.ts that its listener makes nothing of.
use codebase_be_nestjs.Common.{ℕ, ◌≡◌, Bool, true, false, some, List, [], ◌∷◌, if◌then◌else◌}
use codebase_be_nestjs.Amqp.Receiver.{
  Receivers, ReceiverOptions, connection_open, Event, started, closed, shut, reopened, arrived,
  finished,
}

-- Whether the connection was opened.
abbrev pub has_reopened : List Event → Bool
has_reopened [] = false
has_reopened (reopened ∷ events) = true
has_reopened (started ∷ events) = has_reopened events
has_reopened (shut ∷ events) = has_reopened events
has_reopened (arrived ∷ events) = has_reopened events
has_reopened (closed r answer ∷ events) = has_reopened events
has_reopened (finished processing ∷ events) = has_reopened events

-- Nothing listens for a close, and the receivers are those that there were.
abbrev pub IsDeaf : Receivers → Receivers → Type 0
IsDeaf s t =
    ((r : ℕ) → t.watched r ≡ false)
    × (t.opened ≡ s.opened)
    × (t.subject ≡ s.subject)
    × (t.receiver ≡ s.receiver)

module _ (options : ReceiverOptions) where
  -- What the next opening of the connection does then.
  abbrev Opens : Receivers → Receivers → Type 0
  Opens t s =
      ((connection_open options t).subject ≡ (if t.is_closed then some s.opened else s.subject))
      × ((connection_open options t).watched s.opened ≡ t.is_closed)
      × ((connection_open options t).credit
          ≡ (if t.is_closed then options.concurrent_limit else t.credit))
