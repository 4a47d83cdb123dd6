-- ===== src/Amqp/Replacement.antt =====
-- The receiver of a subscription of core/amqp/amqp.service.ts over everything that can happen to it.
use codebase_be_nestjs.Common.{
  ℕ, suc, ◌+◌, ◌≡◌, refl, ap, Bool, true, false, not, ◌&&◌, Option, none, some, List, [], ◌∷◌, ◌∙◌,
  arith, inl, inr, Bool-cases, ◌||◌, ◌⊎◌, if◌then◌else◌, eqb,
}
use codebase_be_nestjs.Amqp.Receiver.{
  Receivers, ReceiverOptions, create_receiver, receive_message, start, receiver_close,
  connection_open, message, finish, assert_if_temporary, is_unset, Event, started, closed, shut,
  reopened, arrived, finished, Step, Run, Reach,
}

-- Whether the close of a receiver was raised while is_closed() still answered no.
abbrev pub unnoticed : ℕ → List Event → Bool
unnoticed n [] = false
unnoticed n (closed r false ∷ events) = eqb n r || unnoticed n events
unnoticed n (closed r true ∷ events) = unnoticed n events
unnoticed n (started ∷ events) = unnoticed n events
unnoticed n (shut ∷ events) = unnoticed n events
unnoticed n (reopened ∷ events) = unnoticed n events
unnoticed n (arrived ∷ events) = unnoticed n events
unnoticed n (finished processing ∷ events) = unnoticed n events

-- The variable and the subject have the newest receiver, and its close is listened for, unless the
-- listener was called while is_closed() answered no.
pub record Listening (events : List Event) (opened : ℕ) (receiver : Option ℕ) (subject : Option ℕ)
    (watched : ℕ → Bool) : Type 0 where
  pub newest : ℕ
  pub counted : opened ≡ suc newest
  pub current : receiver ≡ some newest
  pub source : subject ≡ some newest
  pub attended : (watched newest ≡ true) ⊎ (unnoticed newest events ≡ true)

abbrev pub IsListening : List Event → Receivers → Type 0
IsListening events s = Listening events s.opened s.receiver s.subject s.watched

-- Before the first receiver.
abbrev pub unset : Receivers
unset = record {
  opened = 0;
  receiver = none;
  is_closed = false;
  subject = none;
  watched = λ r. false;
  credit = 0;
  in_flight = 0;
  assertions = 0;
}

abbrev pub replaced : ReceiverOptions → Receivers → Receivers
replaced options s = record s {
  opened = suc s.opened;
  receiver = some s.opened;
  is_closed = false;
  subject = some s.opened;
  watched = λ r. eqb r s.opened || s.watched r;
  credit = options.concurrent_limit;
}

pub eqb_refl : (n : ℕ) → eqb n n ≡ true
eqb_refl n = ground arith

pub or_true : (b : Bool) → (b || true) ≡ true
or_true true = refl
or_true false = refl

last_false : (a b c : Bool) → (a || (b || c)) ≡ false → c ≡ false
last_false a b c h = ground (arith, h)

module _ (options : ReceiverOptions) where
  replaced-IsListening :
      (events : List Event) (s : Receivers) → IsListening events (replaced options s)
  replaced-IsListening events s = record {
    newest = s.opened;
    counted = refl;
    current = refl;
    source = refl;
    attended = inl (rw (eqb_refl s.opened) refl);
  }

  pub create_receiver-new :
      (s : Receivers)
      → (is_unset s.receiver || s.is_closed) ≡ true
      → create_receiver options s ≡ replaced options s
  unfolding create_receiver
  create_receiver-new s e = ap (λ b. if b then replaced options s else s) e

  pub create_receiver-same :
      (s : Receivers) → (is_unset s.receiver || s.is_closed) ≡ false → create_receiver options s ≡ s
  unfolding create_receiver
  create_receiver-same s e = ap (λ b. if b then replaced options s else s) e

  pub create_receiver-cases :
      (s : Receivers)
      → (create_receiver options s ≡ replaced options s) ⊎ (create_receiver options s ≡ s)
  create_receiver-cases s = elim (Bool-cases (is_unset s.receiver || s.is_closed)) [
    | inl e ↦ inl (create_receiver-new s e)
    | inr e ↦ inr (create_receiver-same s e)
  ]

  create_receiver-IsListening :
      (events : List Event) (s : Receivers)
      → IsListening events s
      → IsListening events (create_receiver options s)
  create_receiver-IsListening events s h = elim (create_receiver-cases s) [
    | inl e ↦ rw e (replaced-IsListening events s)
    | inr e ↦ rw e h
  ]

  abbrev pub asserted : Receivers → Receivers
  asserted s = record s { assertions = s.assertions + (if options.durable then 0 else 1) }

  asserted_lem : (s : Receivers) → assert_if_temporary options s ≡ asserted s
  asserted_lem s = elim (Bool-cases options.durable) [
    | inl e ↦ rw e (ap (λ n. record s { assertions = n }) (omega arith))
    | inr e ↦ rw e (ap (λ n. record s { assertions = n }) (omega arith))
  ]

  pub connection_open_lem :
      (s : Receivers) → connection_open options s ≡ create_receiver options (asserted s)
  unfolding connection_open
  connection_open_lem s = ap (create_receiver options) (asserted_lem s)

  -- A receiver whose own listener is called while is_closed() answers no is left without one.
  unheard :
      (watched : ℕ → Bool) (n r : ℕ) (events : List Event)
      → (watched n ≡ true) ⊎ (unnoticed n events ≡ true)
      → ((not (eqb n r) && watched n) ≡ true) ⊎ (unnoticed n (closed r false ∷ events) ≡ true)
  unheard watched n r events (inl h) = elim (Bool-cases (eqb n r)) [
    | inl e ↦ inr (rw e refl)
    | inr e ↦ inl (rw (e, h) refl)
  ]
  unheard watched n r events (inr h) = inr (rw h (or_true (eqb n r)))

  pub receive_message_lem : receive_message options ≡ replaced options (asserted unset)
  unfolding receive_message
  receive_message_lem =
      ap (create_receiver options) (asserted_lem unset) ∙ create_receiver-new (asserted unset) refl

  close-IsListening :
      (events : List Event) (s : Receivers) (r : ℕ) (answer : Bool)
      → IsListening events s
      → IsListening (closed r answer ∷ events) (receiver_close options r answer s)
  unfolding receiver_close
  close-IsListening events s r answer h =
      let heard : Receivers = record s {
        is_closed = s.is_closed || answer;
        watched = λ q. not (eqb q r) && s.watched q;
      } in
      elim (Bool-cases (is_unset s.receiver || (s.is_closed || answer))) [
        | inl e ↦ rw (create_receiver-new heard e) (replaced-IsListening _ heard)
        | inr e ↦ rw (create_receiver-same heard e) (record {
          newest = h.newest;
          counted = h.counted;
          current = h.current;
          source = h.source;
          attended =
              rw (last_false (is_unset s.receiver) s.is_closed answer e)
                (unheard s.watched h.newest r events h.attended);
        })
      ]

  -- What is no close changes nothing of the receivers' listeners.
  later :
      {events : List Event} {e : Event} {opened : ℕ} {receiver subject : Option ℕ}
      {watched : ℕ → Bool}
      → ((n : ℕ) → unnoticed n (e ∷ events) ≡ unnoticed n events)
      → Listening events opened receiver subject watched
      → Listening (e ∷ events) opened receiver subject watched
  later same h = record {
    newest = h.newest;
    counted = h.counted;
    current = h.current;
    source = h.source;
    attended = elim h.attended [ inl w ↦ inl w | inr u ↦ inr (same h.newest ∙ u) ];
  }

  Step-IsListening :
      {e : Event} {s t : Receivers} (events : List Event)
      → Step options e s t
      → IsListening events s
      → IsListening (e ∷ events) t
  unfolding start message finish
  Step-IsListening events Step.start_step h = later (λ n. refl) h
  Step-IsListening {s = s} events (Step.close_step r answer w) h =
      close-IsListening events s r answer h
  Step-IsListening events Step.shut_step h = later (λ n. refl) h
  Step-IsListening {s = s} events Step.open_step h =
      rw (connection_open_lem s)
        (create_receiver-IsListening (reopened ∷ events) (asserted s) (later (λ n. refl) h))
  Step-IsListening events (Step.message_step live lt) h = later (λ n. refl) h
  Step-IsListening events (Step.finish_step processing lt) h = later (λ n. refl) h

  -- After receiveMessage, whatever happens and whatever is_closed() answers in the events of a
  -- close: the variable and the subject have the newest receiver, which is the one that messages
  -- come from, and the listener of its close was not called yet, unless it was called while
  -- is_closed() answered no.
  pub Reach-IsListening :
      {events : List Event} {s : Receivers} → Reach options events s → IsListening events s
  Reach-IsListening Run.stays = rw receive_message_lem (replaced-IsListening [] (asserted unset))
  Reach-IsListening (Run.after {events = events} r step) =
      Step-IsListening events step (Reach-IsListening r)
