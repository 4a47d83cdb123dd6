-- ===== src/Amqp/Reply.antt =====
-- The listener of core/amqp/example.ts and of module/rabbitmq-test/rabbitmq.service.ts with the
-- reply that it sends, over the link of the message and the senders.
use codebase_be_nestjs.Common.{
  ℕ, ◌+◌, String, ◌==◌, ◌≡◌, refl, Bool, true, false, not, ◌&&◌, Option, none, some, List, [], ◌∷◌,
  ◌++◌, if◌then◌else◌, Bool-cases, inl, inr, ap, ◌∙◌, sym, arith,
}
use codebase_be_nestjs.Common.Effect.{Exec, Result, ok, err, error}
use codebase_be_nestjs.Common.Text.{◌<>◌}
use codebase_be_nestjs.Amqp.Address.{Broker, queue_address}
use codebase_be_nestjs.Amqp.Delivery
use codebase_be_nestjs.Amqp.Delivery.{
  Processing, no_reply, replied, reply_waiting, reply_failed, failed, accept_if, add_credit,
  release, elapsed, run_timers,
}
use codebase_be_nestjs.Amqp.Credit.{fresh, credit_back, settlements_of}
use codebase_be_nestjs.Amqp.Sender
use codebase_be_nestjs.Amqp.Sender.{
  Ending, returned, thrown, waiting, Awaited, and_then, recover, SendMessage, Sending, Sent,
  send_message, expected, send_message_lem,
}

-- What the reply reads of a message.
pub record Replying : Type 0 where
  pub message_id : String
  pub reply_to : Option String
  pub correlation_id : Option String

-- The link of the message, and the senders.
pub record Handling : Type 0 where
  pub link : Delivery.Link
  pub sending : Sending

-- Whether a text that may be missing counts as true.
abbrev pub is_truthy : Option String → Bool
is_truthy none = false
is_truthy (some s) = not (s == "")

abbrev pub text_of : Option String → String
text_of none = "undefined"
text_of (some s) = s

abbrev pub reply_message : Replying → String → SendMessage
reply_message msg reply_data = record {
  address = text_of msg.reply_to;
  message = reply_data;
  trace_id = text_of msg.correlation_id;
  durable = false;
  has_session = false;
  close_session = false;
}

append_nil : {A : Type 0} (xs : List A) → xs ++ [] ≡ xs
append_nil [] = refl
append_nil (x ∷ xs) = ap (λ ys. x ∷ ys) (append_nil xs)

if_appended :
    {A : Type 0} (b : Bool) (xs ys : List A)
    → (if b then xs ++ ys else xs) ≡ xs ++ (if b then ys else [])
if_appended true xs ys = refl
if_appended false xs ys = sym (append_nil xs)

module _ (broker : Broker) (connection : Sender.Link) (name : String) where
  -- `reply`, for reply data that is not null; `name` is that of the class.
  unfoldable pub reply : Replying → String → Awaited Sending (Unit {0})
  unfolding send_message
  reply msg reply_data =
      if is_truthy msg.reply_to && not (is_truthy msg.correlation_id)
      then (λ sending. (
        thrown (
            error (
              ((("Message " <> msg.message_id) <> " for ") <> name)
              <> " has reply_to but missing correlation_id")),
        sending,
      ))
      else if is_truthy msg.reply_to && is_truthy msg.correlation_id
      then send_message broker connection (reply_message msg reply_data)
      else λ sending. (returned tt, sending)

  -- What never throws.
  abbrev on_link : Exec Delivery.Link (Unit {0}) → Awaited Handling (Unit {0})
  on_link m s = (returned tt, record s { link = (m s.link).1 })

  abbrev with_sending : Handling → Ending (Unit {0}) × Sending → Ending (Unit {0}) × Handling
  with_sending s (ending, sending) = (ending, record s { sending = sending })

  -- `if (reply) await this.reply(msg, reply)`
  abbrev reply_if : Replying → Option String → Awaited Handling (Unit {0})
  reply_if msg none s = (returned tt, s)
  reply_if msg (some reply_data) s = with_sending s (reply msg reply_data s.sending)

  abbrev processed : Result (Option String) → Awaited Handling (Option String)
  processed (ok reply_data) s = (returned reply_data, s)
  processed (err e) s = (thrown e, s)

  -- The callback of `source.forEach`; `result` is what `onMessage` returns or throws.
  unfoldable pub handle_message :
      (eager_accept_message : Bool)
      → Result (Option String)
      → Replying
      → Awaited Handling (Unit {0})
  unfolding reply
  handle_message eager result msg =
      recover
        (and_then (on_link (accept_if eager)) (λ _. and_then (processed result) (λ reply_data.
          and_then (on_link (accept_if (not eager)))
            (λ _. and_then (on_link add_credit) (λ _. reply_if msg reply_data)))))
        (λ e. on_link release)

  -- What sending a reply comes to, from what the message has and what the connection does.
  abbrev reply_comes_to : (has_reply_to has_correlation_id : Bool) → Sent → Sent
  reply_comes_to false correlated sent = record {
    ending = returned tt;
    left_open = 0;
    handed = false;
    closes = false;
  }
  reply_comes_to true false sent = record {
    ending = thrown (error "");
    left_open = 0;
    handed = false;
    closes = false;
  }
  reply_comes_to true true sent = sent

  abbrev pub sending_of : Replying → Sent
  sending_of msg =
      reply_comes_to (is_truthy msg.reply_to) (is_truthy msg.correlation_id)
        (expected false connection)

  abbrev pub processing_by : Ending (Unit {0}) → Processing
  processing_by (returned _) = replied
  processing_by (thrown e) = reply_failed
  processing_by waiting = reply_waiting

  -- What the listener's code comes to.
  abbrev pub processing_of : Result (Option String) → Replying → Processing
  processing_of (err e) msg = failed
  processing_of (ok none) msg = no_reply
  processing_of (ok (some reply_data)) msg = processing_by (sending_of msg).ending

  abbrev pub sent_for : Result (Option String) → Replying → List (String × String)
  sent_for (err e) msg = []
  sent_for (ok none) msg = []
  sent_for (ok (some reply_data)) msg =
      if (sending_of msg).handed
      then (queue_address broker (text_of msg.reply_to), reply_data) ∷ []
      else []

  -- Whether the callback is done: only a reply can keep it waiting.
  abbrev pub ends_for : Processing → Ending (Unit {0})
  ends_for no_reply = returned tt
  ends_for replied = returned tt
  ends_for reply_waiting = waiting
  ends_for reply_failed = returned tt
  ends_for failed = returned tt

  reply-processing :
      (msg : Replying) (d : String) (sending : Sending)
      → processing_by (reply msg d sending).0 ≡ processing_by (sending_of msg).ending
  unfolding reply
  reply-processing msg d sending = elim (Bool-cases (is_truthy msg.reply_to)) [
    | inr a ↦ rw a refl
    | inl a ↦ elim (Bool-cases (is_truthy msg.correlation_id)) [
      | inr b ↦ rw (a, b) refl
      | inl b ↦
          rw (a, b)
            (ap processing_by (send_message_lem broker connection (reply_message msg d) sending).0)
    ]
  ]

  reply-sent :
      (msg : Replying) (d : String) (sending : Sending)
      → (reply msg d sending).1.sent ≡ sending.sent ++ sent_for (ok (some d)) msg
  unfolding reply
  reply-sent msg d sending = elim (Bool-cases (is_truthy msg.reply_to)) [
    | inr a ↦ rw a (sym (append_nil sending.sent))
    | inl a ↦ elim (Bool-cases (is_truthy msg.correlation_id)) [
      | inr b ↦ rw (a, b) (sym (append_nil sending.sent))
      | inl b ↦
          rw (a, b)
            ((send_message_lem broker connection (reply_message msg d) sending).2
              ∙ if_appended (expected false connection).handed sending.sent
                  ((queue_address broker (text_of msg.reply_to), d) ∷ []))
    ]
  ]

  -- The callback on a message that has just been handed over, when the timer of a release has run.
  abbrev Settles : Bool → Processing → ℕ → Ending (Unit {0}) × Handling → Type 0
  Settles eager processing credit after =
      (after.0 ≡ ends_for processing)
      × ((elapsed after.1.link).credit ≡ credit + credit_back processing)
      × ((elapsed after.1.link).settlements ≡ settlements_of eager processing)

  handled-reply :
      (eager : Bool) (credit : ℕ) (msg : Replying) (d : String) (sending : Sending)
      (after : Ending (Unit {0}) × Sending)
      → reply msg d sending ≡ after
      → Settles eager (processing_by after.0) credit (
          handle_message eager
            (ok (some d))
            msg
            (record { link = fresh credit; sending = sending }))
        × ((handle_message eager
              (ok (some d))
              msg
              (record { link = fresh credit; sending = sending })).1.sending
            ≡ after.1)
  unfolding handle_message run_timers
  handled-reply true credit msg d sending (returned _, after) h = rw h ((refl, refl, refl), refl)
  handled-reply true credit msg d sending (thrown e, after) h =
      rw h ((refl, omega arith, refl), refl)
  handled-reply true credit msg d sending (waiting, after) h = rw h ((refl, refl, refl), refl)
  handled-reply false credit msg d sending (returned _, after) h = rw h ((refl, refl, refl), refl)
  handled-reply false credit msg d sending (thrown e, after) h =
      rw h ((refl, omega arith, refl), refl)
  handled-reply false credit msg d sending (waiting, after) h = rw h ((refl, refl, refl), refl)

  -- For a message that was just handed to the callback, whatever onMessage returns or throws and
  -- whatever the connection does, when the timer of a release has run: the callback never throws,
  -- and waits without an end only if its reply does. One credit was given back, or two if sending
  -- the reply threw, a reply_to without a correlation_id included. The message is accepted, and
  -- then released too if sending the reply threw; if onMessage threw it is released, and accepted
  -- before only where accepting is eager. One reply is handed over, to the queue of reply_to, if
  -- there is a reply, a reply_to and a correlation_id and the connection lets the message go, and
  -- nothing otherwise.
  pub handle_message-settles :
      (eager : Bool) (result : Result (Option String)) (msg : Replying) (credit : ℕ)
      (sending : Sending)
      → let (ending, after) =
          handle_message eager result msg (record { link = fresh credit; sending = sending }) in
        let processing = processing_of result msg in
        (ending ≡ ends_for processing)
        × ((elapsed after.link).credit ≡ credit + credit_back processing)
        × ((elapsed after.link).settlements ≡ settlements_of eager processing)
        × (after.sending.sent ≡ sending.sent ++ sent_for result msg)
  unfolding handle_message run_timers
  handle_message-settles true (err e) msg credit sending =
      (refl, refl, refl, sym (append_nil sending.sent))
  handle_message-settles false (err e) msg credit sending =
      (refl, refl, refl, sym (append_nil sending.sent))
  handle_message-settles true (ok none) msg credit sending =
      (refl, refl, refl, sym (append_nil sending.sent))
  handle_message-settles false (ok none) msg credit sending =
      (refl, refl, refl, sym (append_nil sending.sent))
  handle_message-settles eager (ok (some d)) msg credit sending =
      let (settles, same) = handled-reply eager credit msg d sending (reply msg d sending) refl in
      let lem = rw (reply-processing msg d sending) at settles in
      (lem.0, lem.1, lem.2, ap (λ t. t.sent) same ∙ reply-sent msg d sending)

-- RabbitMQService.onMessage
abbrev pub on_message : Result (Option String)
on_message = ok none

-- RabbitMQService: `eagerAcceptMessage` is true.
unfoldable pub rabbitmq_listener : Broker → Sender.Link → Replying → Awaited Handling (Unit {0})
rabbitmq_listener broker connection =
    handle_message broker connection "RabbitMQService" true on_message

-- RabbitMQService.sendMessage
unfoldable pub rabbitmq_send_message : Broker → Sender.Link → Awaited Sending String
unfolding send_message
rabbitmq_send_message broker connection =
    and_then
      (send_message broker connection (record {
        address = "test";
        message = "{\"content\":\"Hello World!\"}";
        trace_id = "123tuhlkjfdnasdiu3yr";
        durable = false;
        has_session = false;
        close_session = false;
      }))
      (λ _ sending. (returned "Ok", sending))
