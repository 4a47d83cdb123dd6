-- ===== src/Tests/Messages.antt =====
-- Messages and answers on concrete inputs.
use codebase_be_nestjs.Common.{
  ℕ, suc, ◌+◌, ◌≤◌, String, ◌==◌, ◌≡◌, ◌↔◌, refl, true, false, Option, none, some, [], ◌∷◌,
  if◌then◌else◌, ltb, eq_refl, ◌*◌,
}
use codebase_be_nestjs.Common.Text.{◌<>◌}
use codebase_be_nestjs.Common.Effect.{ok, error}
use codebase_be_nestjs.Shared.SystemCode.{code_text, success}
use codebase_be_nestjs.Amqp.Cache.{
  Counters, is_valid_delivery_count, increase_times, is_valid-increase_times,
}
use codebase_be_nestjs.Amqp.Delivery.{Message, reply_failed, deliver}
use codebase_be_nestjs.Amqp.Credit.{
  arrived, taken, credit_back, settlements_of, refused_credit, refused_settlements, counted_in,
  deliver-credit,
}
use codebase_be_nestjs.Amqp.Address.{
  Broker, assert_queue, assert_exchange, bind_queue, workflow_variant, enqueue_address,
  topic_routing, exchange_address, binding_of, durable_queue, queue_address, enqueue-bound,
}
use codebase_be_nestjs.Amqp.Sender.{
  SendMessage, Sending, Link, send_message, send_message_lem, waiting, not_accepted,
}
use codebase_be_nestjs.Response.{Handled, thrown, respond}
use codebase_be_nestjs.Response.Codes.{Succeeds, respond-success}

-- Counters as a function of the time and the key.
abbrev table : Counters
table = record {
  Db = ℕ → String → ℕ;
  count = λ db t k. db t k;
  incr = λ db now k. (λ t j. if k == j then suc (db now j) else db t j);
  expire = λ db now k n.
      (λ t j. if k == j then (if ltb t (now + 1000 * n) then db now k else 0) else db t j);
  count-incr = λ db now k. rw (eq_refl k) refl;
  count-incr_other = λ db now k t j h. rw h refl;
  count-expire = λ db now k n t j le. refl;
}

abbrev no_counts : ℕ → String → ℕ
no_counts t k = 0

is_valid-increase_times_example :
    (is_valid_delivery_count table "m" 5 1000 (increase_times table 6 "m" 1000 no_counts) ≡ true)
    ↔ (6 ≤ 6)
is_valid-increase_times_example = is_valid-increase_times table 6 5 "m" 1000 no_counts refl

abbrev first_delivery : Option Message
first_delivery =
    some (record { message_id = "m"; is_json = true; annotated = true; first_acquirer = true })

deliver-credit_example :
    let after =
      deliver true 5 first_delivery reply_failed (arrived {c = table} no_counts 1000 9 true true) in
    let is_taken = taken table 5 no_counts 1000 9 true true first_delivery in
    (after.link.credit
      ≡ 9 + (if is_taken then credit_back reply_failed else refused_credit first_delivery))
    × (after.link.settlements ≡ (
        if is_taken then settlements_of true reply_failed else refused_settlements first_delivery))
    × (after.db
        ≡ (if is_taken then counted_in table first_delivery 1000 true no_counts else no_counts))
deliver-credit_example =
    deliver-credit table true 5 first_delivery reply_failed no_counts 1000 9 true true

abbrev broker : Broker
broker = record { queue_of = λ name. name; exchange_of = λ name. name }

abbrev variant : Option String
variant = some "b"

enqueue-bound_example :
    (enqueue_address (some (topic_routing "orders")) (some "flow") variant false
      ≡ ok (exchange_address ("flow" <> workflow_variant variant) "orders"))
    × (binding_of broker (some (topic_routing "orders")) "flow" variant
        ≡ assert_exchange "flow" "topic" none
          ∷ assert_queue (("flow" <> "_") <> ("orders" <> workflow_variant variant)) durable_queue
          ∷ bind_queue
              (("flow" <> "_") <> ("orders" <> workflow_variant variant))
              "flow"
              ("orders" <> workflow_variant variant)
          ∷ [])
    × (("flow" <> workflow_variant variant ≡ "flow") ↔ (workflow_variant variant ≡ ""))
    × (("orders" <> workflow_variant variant ≡ "orders") ↔ (workflow_variant variant ≡ ""))
enqueue-bound_example = enqueue-bound broker "orders" "flow" variant refl refl

abbrev hello : SendMessage
hello = record {
  address = "test";
  message = "hello";
  trace_id = "t";
  durable = false;
  has_session = false;
  close_session = false;
}

abbrev idle : Sending
idle = record { commands = []; open_senders = 0; sent = []; closed_sessions = 0 }

-- The broker rejects what it is sent.
abbrev rejecting : Link
rejecting = record { asserts = none; opens = true; sendable = true; transfer = not_accepted }

send_message_lem_example :
    let after = send_message broker rejecting hello idle in
    (after.0 ≡ waiting)
    × (after.1.open_senders ≡ 1)
    × (after.1.sent ≡ (queue_address broker "test", "hello") ∷ [])
    × (after.1.closed_sessions ≡ 0)
send_message_lem_example = send_message_lem broker rejecting hello idle

abbrev failure : Handled ℕ
failure = thrown (error "no such record")

respond-success_example :
    ((respond false 200 failure).0.system_code ≡ code_text success) ↔ Succeeds failure
respond-success_example = respond-success false 200 failure
