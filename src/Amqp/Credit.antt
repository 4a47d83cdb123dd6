-- ===== src/Amqp/Credit.antt =====
-- The credit that core/amqp/amqp.service.ts and its listeners give back for each message.
use codebase_be_nestjs.Common.{
  ℕ, ◌+◌, ◌≡◌, refl, ap, Bool, true, false, ◌&&◌, ◌||◌, Option, none, some, List, [], ◌∷◌, arith,
  if◌then◌else◌, Bool-cases, inl, inr,
}
use codebase_be_nestjs.Amqp.Cache.{Counters, is_valid_delivery_count}
use codebase_be_nestjs.Amqp.Delivery.{
  Link, Receiving, Message, Processing, no_reply, replied, reply_waiting, reply_failed, failed,
  Settlement, counted, accepted, rejected, released, receive, listener, deliver, elapsed,
  run_timers,
}

-- Whether the message is handed to the listener.
abbrev pub handed : {c : Counters} → ℕ → Option Message → Receiving c → Bool
handed max none s = false
handed {c} max (some msg) s =
    (msg.is_json && msg.annotated)
    && (msg.first_acquirer || (s.reads && is_valid_delivery_count c msg.message_id max s.now s.db))

-- What becomes of a message that is not handed to the listener.
abbrev pub refused_credit : Option Message → ℕ
refused_credit none = 0
refused_credit (some msg) = 1

abbrev pub refused_settlements : Option Message → List Settlement
refused_settlements none = []
refused_settlements (some msg) = rejected ∷ []

-- The credit that a message gives back, and what is done with it.
abbrev pub credit_back : Processing → ℕ
credit_back no_reply = 1
credit_back replied = 1
credit_back reply_waiting = 1
credit_back reply_failed = 2
credit_back failed = 1

abbrev pub settlements_of : Bool → Processing → List Settlement
settlements_of eager no_reply = accepted ∷ []
settlements_of eager replied = accepted ∷ []
settlements_of eager reply_waiting = accepted ∷ []
settlements_of eager reply_failed = accepted ∷ released ∷ []
settlements_of true failed = accepted ∷ released ∷ []
settlements_of false failed = released ∷ []

-- A link with nothing to do for the message yet.
abbrev pub fresh : ℕ → Link
fresh credit = record { credit = credit; settlements = []; timers = 0; credit_pending = true }

listener-elapsed :
    (eager : Bool) (processing : Processing) (credit : ℕ)
    → (elapsed (listener eager processing (fresh credit)).1).credit
      ≡ credit + credit_back processing
unfolding listener run_timers
listener-elapsed true no_reply credit = refl
listener-elapsed true replied credit = refl
listener-elapsed true reply_waiting credit = refl
listener-elapsed true reply_failed credit = omega arith
listener-elapsed true failed credit = refl
listener-elapsed false no_reply credit = refl
listener-elapsed false replied credit = refl
listener-elapsed false reply_waiting credit = refl
listener-elapsed false reply_failed credit = omega arith
listener-elapsed false failed credit = refl

listener-settlements :
    (eager : Bool) (processing : Processing) (credit : ℕ)
    → (elapsed (listener eager processing (fresh credit)).1).settlements
      ≡ settlements_of eager processing
unfolding listener run_timers
listener-settlements true no_reply credit = refl
listener-settlements true replied credit = refl
listener-settlements true reply_waiting credit = refl
listener-settlements true reply_failed credit = refl
listener-settlements true failed credit = refl
listener-settlements false no_reply credit = refl
listener-settlements false replied credit = refl
listener-settlements false reply_waiting credit = refl
listener-settlements false reply_failed credit = refl
listener-settlements false failed credit = refl

-- A receiver with `credit` left when a message has arrived.
abbrev pub arrived : {c : Counters} → c.Db → ℕ → ℕ → Bool → Bool → Receiving c
arrived db now credit reads counts = record {
  db = db;
  now = now;
  link = fresh credit;
  reads = reads;
  counts = counts;
}

-- The link once an event was not handed on.
abbrev pub refused : ℕ → Option Message → Link
refused credit msg = record {
  credit = credit + refused_credit msg;
  settlements = refused_settlements msg;
  timers = 0;
  credit_pending = true;
}

-- The counters once a message was handed on.
abbrev pub counted_in : (c : Counters) → Option Message → ℕ → Bool → c.Db → c.Db
counted_in c none now counts db = db
counted_in c (some msg) now counts db = counted c counts msg.message_id now db

same_credit : (n : ℕ) → n ≡ n + 0
same_credit n = omega arith

module _ (c : Counters) (max : ℕ) (db : c.Db) (now credit : ℕ) (reads counts : Bool) where
  abbrev pub taken : Option Message → Bool
  taken msg = handed max msg (arrived {c = c} db now credit reads counts)

  receive-handed :
      (msg : Option Message)
      → receive max msg (arrived {c = c} db now credit reads counts) ≡ (
        taken msg,
        record {
          db = if taken msg then counted_in c msg now counts db else db;
          now = now;
          link = if taken msg then fresh credit else refused credit msg;
          reads = reads;
          counts = counts;
        },
      )
  unfolding receive
  receive-handed none =
      ap
        (λ n.
          (false, record { db = db; now = now; link = fresh n; reads = reads; counts = counts }))
        (same_credit credit)
  receive-handed (some msg) = elim (Bool-cases msg.is_json) [
    | inr e ↦ rw e refl
    | inl e ↦ elim (Bool-cases msg.annotated) [
      | inr a ↦ rw (e, a) refl
      | inl a ↦ elim (Bool-cases msg.first_acquirer) [
        | inl f ↦ rw (e, a, f) refl
        | inr f ↦ elim (Bool-cases reads) [
          | inr r ↦ rw (e, a, f, r) refl
          | inl r ↦ elim (Bool-cases (is_valid_delivery_count c msg.message_id max now db)) [
            | inl g ↦ rw (e, a, f, r, g) refl
            | inr g ↦ rw (e, a, f, r, g) refl
          ]
        ]
      ]
    ]
  ]

module _ (c : Counters) (eager : Bool) (max : ℕ) (msg : Option Message) (processing : Processing)
    (db : c.Db) (now credit : ℕ) (reads counts : Bool) where
  -- For each event that a receiver gets, when the listener is done or waits for its reply and the
  -- timer of a release has run: an event without a message gives nothing back and nothing is
  -- settled. A message that is no JSON, that has no annotations, or that is a redelivery whose
  -- count cannot be read or is over the limit, is rejected, gives one credit back and is not
  -- counted. Any other is counted, if the cache answers, and gives back one credit, or two if
  -- sending its reply threw, and it is accepted, released, or accepted and then released.
  pub deliver-credit :
      let after = deliver eager max msg processing (arrived {c = c} db now credit reads counts) in
      let is_taken = taken c max db now credit reads counts msg in
      (after.link.credit
        ≡ credit + (if is_taken then credit_back processing else refused_credit msg))
      × (after.link.settlements
          ≡ (if is_taken then settlements_of eager processing else refused_settlements msg))
      × (after.db ≡ (if is_taken then counted_in c msg now counts db else db))
  unfolding deliver run_timers
  deliver-credit =
      rw (receive-handed c max db now credit reads counts msg)
        (elim (Bool-cases (taken c max db now credit reads counts msg)) [
          | inl e ↦ rw e (
            listener-elapsed eager processing credit,
            listener-settlements eager processing credit,
            refl,
          )
          | inr e ↦ rw e (refl, refl, refl)
        ])
