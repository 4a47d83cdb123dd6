-- ===== src/Amqp/Receiver.antt =====
-- The receivers of receiveMessage in core/amqp/amqp.service.ts: the one that messages come from is
-- replaced when it is found to be closed, and the closures of the messages give credit to the
-- variable `receiver`, which is the newest one. What `receiver.is_closed()` answers while the event
-- of a close is handled is up to the library and comes with the event.
use codebase_be_nestjs.Common.{
  zero, ℕ, suc, ◌+◌, ◌-◌, ◌<◌, ◌≡◌, Bool, true, false, not, ◌&&◌, ◌||◌, Option, none, some, List,
  [], ◌∷◌, if◌then◌else◌, eqb,
}
use codebase_be_nestjs.Common.Effect.{Result, ok, err, error}
use codebase_be_nestjs.Amqp.Delivery.{Processing}
use codebase_be_nestjs.Amqp.Credit.{credit_back}

-- Receivers are numbered in the order in which they were opened. `is_closed` is that of the
-- variable `receiver`, `subject` the value of the BehaviorSubject, `watched` tells which receivers
-- have a listener of their close that was not called yet, `credit` what the variable's receiver has left, `in_flight` the messages
-- that a listener has and has not settled, and `assertions` how often the temporary queue was
-- asserted.
pub record Receivers : Type 0 where
  pub opened : ℕ
  pub receiver : Option ℕ
  pub is_closed : Bool
  pub subject : Option ℕ
  pub watched : ℕ → Bool
  pub credit : ℕ
  pub in_flight : ℕ
  pub assertions : ℕ

-- The options of receiveMessage that matter here.
pub record ReceiverOptions : Type 0 where
  pub concurrent_limit : ℕ
  pub durable : Bool

-- `!receiver`
abbrev pub is_unset : Option ℕ → Bool
is_unset none = true
is_unset (some r) = false

-- `createReceiver`
unfoldable pub create_receiver : ReceiverOptions → Receivers → Receivers
create_receiver options s =
    if is_unset s.receiver || s.is_closed
    then record s {
      opened = suc s.opened;
      receiver = some s.opened;
      is_closed = false;
      subject = some s.opened;
      watched = λ r. eqb r s.opened || s.watched r;
      credit = options.concurrent_limit;
    }
    else s

abbrev pub assert_if_temporary : ReceiverOptions → Receivers → Receivers
assert_if_temporary options s =
    if options.durable then s else record s { assertions = suc s.assertions }

-- receiveMessage, up to its return.
unfoldable pub receive_message : ReceiverOptions → Receivers
unfolding create_receiver
receive_message options = create_receiver options (
    assert_if_temporary options (record {
      opened = 0;
      receiver = none;
      is_closed = false;
      subject = none;
      watched = λ r. false;
      credit = 0;
      in_flight = 0;
      assertions = 0;
    }))

-- `start`
unfoldable pub start : ReceiverOptions → Receivers → Receivers
start options s = record s { credit = s.credit + options.concurrent_limit }

-- AbstractMessaging.listen, up to the listener: a limit of redeliveries that is 0 counts as missing.
unfoldable pub listen : (max_retry : ℕ) → ReceiverOptions → Result Receivers
unfolding receive_message start
listen zero options = err (error "Missing max retry config")
listen (suc n) options = ok (start options (receive_message options))

-- RabbitMQService.onModuleInit
unfoldable pub rabbitmq_init : Result Receivers
unfolding listen
rabbitmq_init = listen 5 (record { concurrent_limit = 10; durable = false })

-- The close of a receiver is raised, for any reason: its listener, which is called once, calls
-- createReceiver; `closed` is what is_closed() of the variable's receiver answers by then, unless it
-- was closed before.
unfoldable pub receiver_close : ReceiverOptions → ℕ → Bool → Receivers → Receivers
unfolding create_receiver
receiver_close options r closed s =
    create_receiver options
      (record s { is_closed = s.is_closed || closed; watched = λ q. not (eqb q r) && s.watched q })

-- The receiver is closed at both ends; no code of the program runs then.
abbrev pub shut_down : Receivers → Receivers
shut_down s = record s { is_closed = true }

-- The two listeners of an opened connection: the queue of a temporary address is asserted again,
-- and a receiver is created if there is none.
unfoldable pub connection_open : ReceiverOptions → Receivers → Receivers
unfolding create_receiver
connection_open options s = create_receiver options (assert_if_temporary options s)

-- A message comes from the broker and is handed to the listener.
unfoldable pub message : Receivers → Receivers
message s = record s { credit = s.credit - 1; in_flight = suc s.in_flight }

-- The listener and the timer of a release are done with a message.
unfoldable pub finish : Processing → Receivers → Receivers
finish processing s = record s {
  credit = s.credit + credit_back processing;
  in_flight = s.in_flight - 1;
}

pub data Event : Type 0 where
  started shut reopened arrived : Event
  closed : ℕ → Bool → Event
  finished : Processing → Event

-- The close of a receiver is heard only by a listener that was not called yet; a message comes only
-- while the receiver is not closed and has credit, and is finished only while it is in flight.
pub data Step (options : ReceiverOptions) : Event → Receivers → Receivers → Type 0 where
  start_step : {s : Receivers} → Step options started s (start options s)
  close_step :
      {s : Receivers} (r : ℕ) (answer : Bool)
      → s.watched r ≡ true
      → Step options (closed r answer) s (receiver_close options r answer s)
  shut_step : {s : Receivers} → Step options shut s (shut_down s)
  open_step : {s : Receivers} → Step options reopened s (connection_open options s)
  message_step :
      {s : Receivers} → s.is_closed ≡ false → 0 < s.credit → Step options arrived s (message s)
  finish_step :
      {s : Receivers} (processing : Processing)
      → 0 < s.in_flight
      → Step options (finished processing) s (finish processing s)

-- What a subscription comes to, with the events, the last one first.
pub data Run (options : ReceiverOptions) : List Event → Receivers → Receivers → Type 0 where
  stays : {s : Receivers} → Run options [] s s
  after :
      {events : List Event} {s t u : Receivers} {e : Event}
      → Run options events s t
      → Step options e t u
      → Run options (e ∷ events) s u

-- What it can have come to since receiveMessage.
abbrev pub Reach : ReceiverOptions → List Event → Receivers → Type 0
Reach options events s = Run options events (receive_message options) s
