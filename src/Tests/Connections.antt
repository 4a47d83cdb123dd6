-- ===== src/Tests/Connections.antt =====
-- Connections to the broker, receivers and replies on concrete inputs.
use codebase_be_nestjs.Common.{
  ℕ, zero, suc, ◌+◌, ◌≤◌, ◌≡◌, refl, true, false, none, some, List, [], ◌∷◌, arith,
}
use codebase_be_nestjs.Common.Effect.{ok, error}
use codebase_be_nestjs.Amqp.Address.{Broker}
use codebase_be_nestjs.Amqp.Delivery.{reply_failed, accepted, released, elapsed}
use codebase_be_nestjs.Amqp.Management.{
  Attempt, refuses, no_channel, accepts, Management, connect, retry_connection,
}
use codebase_be_nestjs.Amqp.Reconnect.{Recovers, retry_connection_ends}
use codebase_be_nestjs.Amqp.Receiver.{
  Receivers, ReceiverOptions, receive_message, receiver_close, shut_down, message, finish, Event,
  closed, arrived, finished, Step, Run, Reach,
}
use codebase_be_nestjs.Amqp.Replacement.{IsListening, Reach-IsListening}
use codebase_be_nestjs.Amqp.Flood.{grants, flood, Reach-credit, flood_in_flight}
use codebase_be_nestjs.Amqp.Credit.{fresh}
use codebase_be_nestjs.Amqp.Reply.{Replying, handle_message, handle_message-settles}
use codebase_be_nestjs.Amqp.Sender
use codebase_be_nestjs.Amqp.Sender.{Sending, returned, send_throws}

-- The broker refuses, then gives no channel, and accepts the third attempt.
abbrev attempts : ℕ → Attempt
attempts zero = refuses
attempts (suc zero) = no_channel
attempts (suc (suc n)) = accepts

-- A service that was connected once.
abbrev served : Management
served = record {
  opened = 1;
  connection = some 0;
  channel = some 0;
  on_error = 0 ∷ [];
  on_close = 0 ∷ [];
  waited = 0;
}

retry_connection_ends_example : Recovers (retry_connection 5 attempts 0 served) 6000
retry_connection_ends_example = retry_connection_ends attempts 5 2 0 served (omega arith) refl

connected_again : (retry_connection 5 attempts 0 served).1.connection ≡ some 2
unfolding retry_connection connect
connected_again = refl

abbrev options : ReceiverOptions
options = record { concurrent_limit = 10; durable = false }

-- A message comes, the receiver is closed, which its listener sees, and the message's reply cannot
-- be sent.
abbrev replaced_once : Receivers
replaced_once =
    finish reply_failed (receiver_close options 0 true (message (receive_message options)))

abbrev events : List Event
events = finished reply_failed ∷ closed 0 true ∷ arrived ∷ []

replaced_once_reached : Reach options events replaced_once
unfolding receive_message message receiver_close
replaced_once_reached =
    Run.after
      (Run.after (Run.after Run.stays (Step.message_step refl (omega arith)))
        (Step.close_step 0 true refl))
      (Step.finish_step reply_failed (omega arith))

Reach-IsListening_example : IsListening events replaced_once
Reach-IsListening_example = Reach-IsListening options replaced_once_reached

Reach-credit_example : replaced_once.credit + replaced_once.in_flight ≤ grants options events
Reach-credit_example = Reach-credit options replaced_once_reached

over_the_limit : replaced_once.credit ≡ 12
unfolding receive_message message receiver_close finish
over_the_limit = refl

flood_in_flight_example :
    (s : Receivers) × Reach options (flood options 3) s
    × (s.in_flight ≡ 30)
    × (s.credit ≡ 10)
    × (s.is_closed ≡ false)
flood_in_flight_example = flood_in_flight options 3

abbrev first_receivers : Receivers
first_receivers = receive_message options

-- The close is raised while is_closed() answers no; then the receiver is closed.
abbrev closed_unheard : Receivers
closed_unheard = shut_down (receiver_close options 0 false first_receivers)

closed_unheard_opened : first_receivers.opened ≡ 1
unfolding receive_message
closed_unheard_opened = refl

abbrev broker : Broker
broker = record { queue_of = λ name. name; exchange_of = λ name. name }

-- The call of `send` throws.
abbrev unreliable : Sender.Link
unreliable = record {
  asserts = none;
  opens = true;
  sendable = true;
  transfer = send_throws (error "closed");
}

abbrev question : Replying
question = record { message_id = "m"; reply_to = some "answers"; correlation_id = some "t" }

abbrev no_senders : Sending
no_senders = record { commands = []; open_senders = 0; sent = []; closed_sessions = 0 }

handle_message-settles_example :
    let (ending, after) =
      handle_message broker unreliable "RabbitMQService" true
        (ok (some "{}"))
        question
        (record { link = fresh 9; sending = no_senders }) in
    (ending ≡ returned tt)
    × ((elapsed after.link).credit ≡ 11)
    × ((elapsed after.link).settlements ≡ accepted ∷ released ∷ [])
    × (after.sending.sent ≡ [])
handle_message-settles_example =
    handle_message-settles broker unreliable "RabbitMQService" true (ok (some "{}")) question 9
      no_senders
