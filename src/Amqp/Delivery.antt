-- ===== src/Amqp/Delivery.antt =====
-- The receiving side of core/amqp/amqp.service.ts and the listeners of core/amqp/example.ts and
-- module/rabbitmq-test/rabbitmq.service.ts: how each message is settled, and the credit of the link.
use codebase_be_nestjs.Common.{
  ℕ, zero, suc, ◌+◌, String, Bool, true, false, not, ◌&&◌, ◌||◌, Option, none, some, List, [], ◌∷◌,
  ◌++◌, if◌then◌else◌,
}
use codebase_be_nestjs.Common.Effect.{Exec, ok, error, pure, raise, catch, ◌>>=◌, ◌>>◌}
use codebase_be_nestjs.Amqp.Cache.{Counters, is_valid_delivery_count, increase_delivery_count}

pub data Settlement : Type 0 where
  accepted rejected released : Settlement

-- The receiver: its outstanding credit, what was done with the delivery, and the timers of release
-- that have not run. `credit_pending` is the flag that the event's addCredit closes over.
pub record Link : Type 0 where
  pub credit : ℕ
  pub settlements : List Settlement
  pub timers : ℕ
  pub credit_pending : Bool

-- `reads` and `counts` are whether the cache answers when the count of a message is read, and when
-- it is increased.
pub record Receiving (c : Counters) : Type 0 where
  pub db : c.Db
  pub now : ℕ
  pub link : Link
  pub reads : Bool
  pub counts : Bool

-- A message: its id, whether the body is JSON, whether there are annotations to take apart, and
-- whether this is its first delivery.
pub record Message : Type 0 where
  pub message_id : String
  pub is_json : Bool
  pub annotated : Bool
  pub first_acquirer : Bool

abbrev pub settle : Settlement → Exec Link (Unit {0})
settle s link = (ok tt, record link { settlements = link.settlements ++ s ∷ [] })

abbrev pub receiver_add_credit : ℕ → Exec Link (Unit {0})
receiver_add_credit n link = (ok tt, record link { credit = link.credit + n })

-- `accept`
abbrev pub accept : Exec Link (Unit {0})
accept = settle accepted

-- `addCredit`: one credit, at most once.
abbrev pub add_credit : Exec Link (Unit {0})
add_credit link =
    if link.credit_pending
    then (ok tt, record link { credit = link.credit + 1; credit_pending = false })
    else (ok tt, record link { credit_pending = false })

-- `release`: a timer of one second is started.
abbrev pub release : Exec Link (Unit {0})
release link = (ok tt, record link { timers = suc link.timers })

-- What a timer does, for each of the timers.
unfoldable pub run_timers : ℕ → Link → Link
run_timers zero link = link
run_timers (suc n) link =
    run_timers n
      (record link { credit = link.credit + 1; settlements = link.settlements ++ released ∷ [] })

-- All timers of the link have run.
abbrev pub elapsed : Link → Link
elapsed link = run_timers link.timers (record link { timers = 0 })

-- `reject`, and rejectDLQ
abbrev pub reject_dlq : Exec Link (Unit {0})
reject_dlq = settle rejected >> receiver_add_credit 1

-- The catch block: the message is rejected, and the receiver gets a credit.
abbrev reject_failed : Exec Link (Unit {0})
reject_failed = settle rejected >> receiver_add_credit 1

-- `void increaseDeliveryCount`: nothing waits for it, and nothing here sees it fail.
abbrev pub counted : (c : Counters) → Bool → String → ℕ → c.Db → c.Db
counted c counts id now db = if counts then increase_delivery_count c id now db else db

module _ {c : Counters} where
  abbrev pub on_link : Exec Link (Unit {0}) → Receiving c → Receiving c
  on_link m s = record s { link = (m s.link).1 }

  -- The mapper of `concatMap` in receiveMessage: whether the message is handed to the listener. An
  -- event without a message is passed over; a body that is no JSON, annotations that are not there
  -- and a count that cannot be read throw.
  unfoldable pub receive : ℕ → Option Message → Receiving c → Bool × Receiving c
  receive max_redeliver_count none s = (false, s)
  receive max_redeliver_count (some msg) s =
      if not msg.is_json || not msg.annotated
      then (false, on_link reject_failed s)
      else if not msg.first_acquirer && not s.reads
      then (false, on_link reject_failed s)
      else if not msg.first_acquirer
          && not (is_valid_delivery_count c msg.message_id max_redeliver_count s.now s.db)
      then (false, on_link reject_dlq s)
      else (
        true,
        record s {
          db = counted c s.counts msg.message_id s.now s.db;
          link = record s.link { credit_pending = true };
        },
      )

-- What the listener's own code does with the message: onMessage returns a reply, nothing, or
-- throws; sending the reply works, is waited for without an end, or throws. After a wait the
-- listener does nothing more, and after a reply that works neither.
pub data Processing : Type 0 where
  no_reply : Processing
  replied : Processing
  reply_waiting : Processing
  reply_failed : Processing
  failed : Processing

abbrev pub on_message : Processing → Exec Link Bool
on_message no_reply = pure false
on_message replied = pure true
on_message reply_waiting = pure true
on_message reply_failed = pure true
on_message failed = raise (error "Error")

abbrev pub send_reply : Processing → Bool → Exec Link (Unit {0})
send_reply reply_failed true = raise (error "Error")
send_reply no_reply reply = pure tt
send_reply replied reply = pure tt
send_reply reply_waiting reply = pure tt
send_reply failed reply = pure tt
send_reply reply_failed false = pure tt

abbrev pub accept_if : Bool → Exec Link (Unit {0})
accept_if true = accept
accept_if false = pure tt

-- The callback of `source.forEach`.
unfoldable pub listener : (eager_accept_message : Bool) → Processing → Exec Link (Unit {0})
listener eager processing =
    catch
      (do
        accept_if eager
        reply ← on_message processing
        accept_if (not eager)
        add_credit
        send_reply processing reply)
      (λ e. release)

module _ {c : Counters} where
  -- A message from its arrival to the end of the last timer. The broker takes one credit for it.
  unfoldable pub deliver :
      (eager : Bool) → ℕ → Option Message → Processing → Receiving c → Receiving c
  unfolding receive listener
  deliver eager max msg processing s =
      let (handed, s) = receive max msg s in
      let handled = if handed then on_link (listener eager processing) s else s in
      record handled { link = elapsed handled.link }
