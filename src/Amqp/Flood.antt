-- ===== src/Amqp/Flood.antt =====
-- How much credit the receivers of a subscription of core/amqp/amqp.service.ts get.
use codebase_be_nestjs.Common.{
  ℕ, zero, suc, ◌+◌, ◌*◌, ◌≤◌, ◌≡◌, refl, false, not, ◌&&◌, List, [], ◌∷◌, ◌-◌, ◌∙◌, arith, inl,
  inr, ◌||◌, eqb,
}
use codebase_be_nestjs.Amqp.Delivery.{no_reply, replied, reply_waiting, reply_failed, failed}
use codebase_be_nestjs.Amqp.Credit.{credit_back}
use codebase_be_nestjs.Amqp.Receiver.{
  Receivers, ReceiverOptions, create_receiver, start, receiver_close, shut_down, connection_open,
  message, finish, is_unset, Event, started, closed, shut, reopened, arrived, finished, Step, Run,
  Reach,
}
use codebase_be_nestjs.Amqp.Replacement.{
  replaced, asserted, or_true, create_receiver-new, create_receiver-cases, connection_open_lem,
  receive_message_lem,
}

-- The most credit that the closures and `start` give for an event, or that a new receiver gets.
abbrev pub granted : ReceiverOptions → Event → ℕ
granted options started = options.concurrent_limit
granted options (closed r answer) = options.concurrent_limit
granted options shut = 0
granted options reopened = options.concurrent_limit
granted options arrived = 0
granted options (finished processing) = credit_back processing - 1

abbrev pub grants : ReceiverOptions → List Event → ℕ
grants options [] = options.concurrent_limit
grants options (e ∷ events) = granted options e + grants options events

abbrev pub arrive : ℕ → List Event → List Event
arrive zero events = events
arrive (suc n) events = arrive n (arrived ∷ events)

-- Messages to the limit, then the receiver is closed, and then the connection opens, `n` times.
abbrev pub flood : ReceiverOptions → ℕ → List Event
flood options zero = []
flood options (suc n) = reopened ∷ shut ∷ arrive options.concurrent_limit (flood options n)

module _ (options : ReceiverOptions) where
  create_receiver-credit :
      (s : Receivers)
      → (create_receiver options s).credit + (create_receiver options s).in_flight
        ≤ options.concurrent_limit + (s.credit + s.in_flight)
  create_receiver-credit s = elim (create_receiver-cases options s) [
    | inl e ↦ rw e (omega arith)
    | inr e ↦ rw e (omega arith)
  ]

  Step-credit :
      {e : Event} {s t : Receivers}
      → Step options e s t
      → t.credit + t.in_flight ≤ granted options e + (s.credit + s.in_flight)
  unfolding start message finish receiver_close
  Step-credit Step.start_step = omega arith
  Step-credit {s = s} (Step.close_step r answer w) =
      create_receiver-credit (record s {
        is_closed = s.is_closed || answer;
        watched = λ q. not (eqb q r) && s.watched q;
      })
  Step-credit Step.shut_step = omega arith
  Step-credit {s = s} Step.open_step =
      rw (connection_open_lem options s) (create_receiver-credit (asserted options s))
  Step-credit (Step.message_step live lt) = omega arith
  Step-credit (Step.finish_step no_reply lt) = omega arith
  Step-credit (Step.finish_step replied lt) = omega arith
  Step-credit (Step.finish_step reply_waiting lt) = omega arith
  Step-credit (Step.finish_step reply_failed lt) = omega arith
  Step-credit (Step.finish_step failed lt) = omega arith

  -- After receiveMessage, whatever happens: the credit that is left and the messages in flight are
  -- together at most the limit, once for receiveMessage, once for each `start`, each close that is
  -- heard and each opening of the connection, and one for each message whose reply could not be
  -- sent.
  pub Reach-credit :
      {events : List Event} {s : Receivers}
      → Reach options events s
      → s.credit + s.in_flight ≤ grants options events
  Reach-credit Run.stays = rw (receive_message_lem options) (omega arith)
  Reach-credit (Run.after r step) = omega (arith, Reach-credit r, Step-credit step)

  -- Messages come, as many as there is credit.
  arrivals :
      (n : ℕ) {events : List Event} {s : Receivers}
      → Reach options events s
      → s.is_closed ≡ false
      → n ≤ s.credit
      → (t : Receivers) × Reach options (arrive n events) t
        × (t.in_flight ≡ n + s.in_flight)
        × (t.receiver ≡ s.receiver)
  unfolding message
  arrivals zero {s = s} r live le = (s, r, omega arith, refl)
  arrivals (suc n) {s = s} r live le =
      let (t, r', f, same) =
        arrivals n (Run.after r (Step.message_step live (omega arith))) live (omega arith) in
      (t, r', omega (arith, f), same)

  reopened_lem :
      (s : Receivers)
      → connection_open options (shut_down s) ≡ replaced options (asserted options (shut_down s))
  reopened_lem s =
      connection_open_lem options (shut_down s)
      ∙ create_receiver-new options (asserted options (shut_down s)) (or_true (is_unset s.receiver))

  -- If as many messages come as the receiver has credit for, the receiver is closed, and then the
  -- connection opens, and this happens `n` times before any message is handled, then `n` times the
  -- limit are in flight, and the newest receiver is not closed and has credit for as many again as
  -- the limit.
  pub flood_in_flight :
      (n : ℕ)
      → (s : Receivers) × Reach options (flood options n) s
        × (s.in_flight ≡ n * options.concurrent_limit)
        × (s.credit ≡ options.concurrent_limit)
        × (s.is_closed ≡ false)
  flood_in_flight zero = (
    _,
    Run.stays,
    rw (receive_message_lem options) (omega arith),
    rw (receive_message_lem options) refl,
    rw (receive_message_lem options) refl,
  )
  flood_in_flight (suc n) =
      let (s, r, f, c, live) = flood_in_flight n in
      let (t, r', f', _) = arrivals options.concurrent_limit r live (omega (arith, c)) in
      (
        _,
        Run.after (Run.after r' Step.shut_step) Step.open_step,
        rw (reopened_lem t) (omega (arith, f, f')),
        rw (reopened_lem t) refl,
        rw (reopened_lem t) refl,
      )
