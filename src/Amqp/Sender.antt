-- ===== src/Amqp/Sender.antt =====
-- sendMessage of core/amqp/amqp.service.ts.
use codebase_be_nestjs.Common.{
  ℕ, zero, suc, ◌+◌, String, ◌≡◌, refl, Bool, true, false, ◌&&◌, Option, none, some, List, [], ◌∷◌,
  ◌++◌, arith, if◌then◌else◌,
}
use codebase_be_nestjs.Common.Effect.{Exception}
use codebase_be_nestjs.Shared.SystemCode.{service_unavailable_exception}
use codebase_be_nestjs.Amqp.Address.{
  Command, Broker, assert_temporary_queue, temporary_queue_lifetime, queue_address,
}

-- How a promise ends, if it does.
pub data Ending (A : Type 0) : Type 0 where
  returned : A → Ending A
  thrown : Exception → Ending A
  waiting : Ending A

-- Code that awaits, over a state.
abbrev pub Awaited : Type 0 → Type 0 → Type 0
Awaited S A = S → Ending A × S

module _ {S A : Type 0} where
  abbrev continue : {B : Type 0} → (A → Awaited S B) → Ending A × S → Ending B × S
  continue f (returned a, s) = f a s
  continue f (thrown e, s) = (thrown e, s)
  continue f (waiting, s) = (waiting, s)

  abbrev pub and_then : {B : Type 0} → Awaited S A → (A → Awaited S B) → Awaited S B
  and_then m f s = continue f (m s)

  abbrev closing : (S → S) → Ending A × S → Ending A × S
  closing close (returned a, s) = (returned a, close s)
  closing close (thrown e, s) = (thrown e, close s)
  closing close (waiting, s) = (waiting, s)

  -- try and finally
  abbrev finally : Awaited S A → (S → S) → Awaited S A
  finally m close s = closing close (m s)

  abbrev recovered : (Exception → Awaited S A) → Ending A × S → Ending A × S
  recovered f (returned a, s) = (returned a, s)
  recovered f (thrown e, s) = f e s
  recovered f (waiting, s) = (waiting, s)

  -- try and catch
  abbrev pub recover : Awaited S A → (Exception → Awaited S A) → Awaited S A
  recover m f s = recovered f (m s)

pub record SendMessage : Type 0 where
  pub address : String
  pub message : String
  pub trace_id : String
  pub durable : Bool
  pub has_session : Bool
  pub close_session : Bool

-- The commands to the channel, the senders that are open, the sessions that were closed, and what
-- was handed to the broker.
pub record Sending : Type 0 where
  pub commands : List Command
  pub open_senders : ℕ
  pub sent : List (String × String)
  pub closed_sessions : ℕ

-- What comes of `sender.send`: the broker accepts the delivery; the event `accepted` never comes,
-- since the delivery is rejected or released or not answered; or the call itself throws.
pub data Transfer : Type 0 where
  accepts : Transfer
  not_accepted : Transfer
  send_throws : Exception → Transfer

-- What the connection does: whether asserting a queue throws, whether the event that the sender is
-- open comes, whether the new sender may send, and what comes of sending.
pub record Link : Type 0 where
  pub asserts : Option Exception
  pub opens : Bool
  pub sendable : Bool
  pub transfer : Transfer

module _ (broker : Broker) (link : Link) where
  abbrev asserted : Option Exception → Ending (Unit {0})
  asserted none = returned tt
  asserted (some e) = thrown e

  abbrev assert_if_temporary : SendMessage → Awaited Sending (Unit {0})
  assert_if_temporary e s = if e.durable then (returned tt, s) else (
    asserted link.asserts,
    record s {
      commands =
          (assert_temporary_queue broker (queue_address broker e.address) temporary_queue_lifetime
            s.commands).1;
    },
  )

  -- The sender is opened, and the event that it is open is waited for.
  abbrev open_sender : Awaited Sending (Unit {0})
  open_sender s =
      (if link.opens then returned tt else waiting, record s { open_senders = suc s.open_senders })

  abbrev quota : Awaited Sending (Unit {0})
  quota s = (
    if link.sendable
        then returned tt
        else thrown (service_unavailable_exception "Message quota exceeded. Please retry later ok"),
    s,
  )

  abbrev hand_over : SendMessage → Sending → Sending
  hand_over e s = record s { sent = s.sent ++ (queue_address broker e.address, e.message) ∷ [] }

  abbrev transferred : Transfer → SendMessage → Awaited Sending (Unit {0})
  transferred accepts e s = (returned tt, hand_over e s)
  transferred not_accepted e s = (waiting, hand_over e s)
  transferred (send_throws x) e s = (thrown x, s)

  -- The finally block.
  abbrev close_sender : SendMessage → Sending → Sending
  close_sender e s = record s {
    open_senders = elim s.open_senders [ zero ↦ zero | suc n ↦ n ];
    closed_sessions =
        if e.close_session && e.has_session then suc s.closed_sessions else s.closed_sessions;
  }

  unfoldable pub send_message : SendMessage → Awaited Sending (Unit {0})
  send_message e = and_then (assert_if_temporary e) (λ _.
      and_then open_sender
        (λ _. and_then quota (λ _. finally (transferred link.transfer e) (close_sender e))))

-- What a call comes to: how it ends, how many senders it leaves open, whether the message is handed
-- over, and whether the finally block runs.
pub record Sent : Type 0 where
  pub ending : Ending (Unit {0})
  pub left_open : ℕ
  pub handed : Bool
  pub closes : Bool

abbrev sent_or_not : Transfer → Sent
sent_or_not accepts = record { ending = returned tt; left_open = 0; handed = true; closes = true }
sent_or_not not_accepted = record { ending = waiting; left_open = 1; handed = true; closes = false }
sent_or_not (send_throws x) = record {
  ending = thrown x;
  left_open = 0;
  handed = false;
  closes = true;
}

abbrev opened_or_not : Bool → Bool → Transfer → Sent
opened_or_not false sendable transfer = record {
  ending = waiting;
  left_open = 1;
  handed = false;
  closes = false;
}
opened_or_not true false transfer = record {
  ending = thrown (service_unavailable_exception "Message quota exceeded. Please retry later ok");
  left_open = 1;
  handed = false;
  closes = false;
}
opened_or_not true true transfer = sent_or_not transfer

abbrev pub expected : (durable : Bool) → Link → Sent
expected durable link = elim (if durable then none else link.asserts) as (λ _. Sent) [
  | some x ↦ record { ending = thrown x; left_open = 0; handed = false; closes = false }
  | none ↦ opened_or_not link.opens link.sendable link.transfer
]

abbrev pub IsSent : Broker → Link → SendMessage → Sending → Type 0
IsSent broker link e s =
    let after = send_message broker link e s in
    let sent = expected e.durable link in
    (after.0 ≡ sent.ending)
    × (after.1.open_senders ≡ s.open_senders + sent.left_open)
    × (after.1.sent ≡ (
        if sent.handed then s.sent ++ (queue_address broker e.address, e.message) ∷ [] else s.sent))
    × (after.1.closed_sessions ≡ (
        if sent.closes && (e.close_session && e.has_session)
        then suc s.closed_sessions
        else s.closed_sessions))

opened-IsSent :
    (broker : Broker) (asserts : Option Exception) (opens sendable : Bool) (transfer : Transfer)
    (e : SendMessage) (s : Sending) (durable : Bool)
    → IsSent broker
        (record { asserts = asserts; opens = opens; sendable = sendable; transfer = transfer })
        (record e { durable = durable })
        s
unfolding send_message
opened-IsSent broker (some x) opens sendable transfer e s false = (refl, omega arith, refl, refl)
opened-IsSent broker none false sendable transfer e s false = (refl, omega arith, refl, refl)
opened-IsSent broker none true false transfer e s false = (refl, omega arith, refl, refl)
opened-IsSent broker none true true accepts e s false = (refl, omega arith, refl, refl)
opened-IsSent broker none true true not_accepted e s false = (refl, omega arith, refl, refl)
opened-IsSent broker none true true (send_throws x) e s false = (refl, omega arith, refl, refl)
opened-IsSent broker asserts false sendable transfer e s true = (refl, omega arith, refl, refl)
opened-IsSent broker asserts true false transfer e s true = (refl, omega arith, refl, refl)
opened-IsSent broker asserts true true accepts e s true = (refl, omega arith, refl, refl)
opened-IsSent broker asserts true true not_accepted e s true = (refl, omega arith, refl, refl)
opened-IsSent broker asserts true true (send_throws x) e s true = (refl, omega arith, refl, refl)

-- If asserting the queue of a message that is not durable throws, the call throws that, and opens
-- and hands over nothing. Otherwise a sender is opened. If it does not open, the call waits
-- without an end; if it may not send, the call throws a 503; in both cases nothing is handed over
-- and the sender stays open. If send throws, the call throws that, nothing is handed over, and the
-- sender is closed. If the broker accepts the message, it was handed over once, at the address
-- with its prefix, the call returns, and the sender is closed. If it does not accept it, the
-- message was handed over, but the call waits without an end and the sender stays open. The
-- session is closed, where there is one and that is asked for, exactly with the sender.
pub send_message_lem :
    (broker : Broker) (link : Link) (e : SendMessage) (s : Sending)
    → let after = send_message broker link e s in
      let sent = expected e.durable link in
      (after.0 ≡ sent.ending)
      × (after.1.open_senders ≡ s.open_senders + sent.left_open)
      × (after.1.sent ≡ (
          if sent.handed
          then s.sent ++ (queue_address broker e.address, e.message) ∷ []
          else s.sent))
      × (after.1.closed_sessions ≡ (
          if sent.closes && (e.close_session && e.has_session)
          then suc s.closed_sessions
          else s.closed_sessions))
send_message_lem broker link e s =
    opened-IsSent broker link.asserts link.opens link.sendable link.transfer e s e.durable
