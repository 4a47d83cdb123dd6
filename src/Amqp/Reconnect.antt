-- ===== src/Amqp/Reconnect.antt =====
-- The loop that replaces a closed connection in core/amqp/amqp-management.service.ts.
use codebase_be_nestjs.Common.{
  ℕ, zero, suc, ◌+◌, ◌*◌, ◌≤◌, ◌<◌, ◌≡◌, refl, ap, ◌∙◌, Bool, true, some, List, ◌∷◌, arith, ◌≢◌,
  ◌⊎◌, inl, inr,
}
use codebase_be_nestjs.Amqp.Management.{
  Attempt, refuses, no_channel, accepts, Management, connect, after_attempt, delay,
  retry_connection,
}

-- The service has a connection with its channel, and a listener that waits for its end.
pub record IsConnected (m : Management) : Type 0 where
  pub current : ℕ
  pub others : List ℕ
  pub connection : m.connection ≡ some current
  pub channel : m.channel ≡ some current
  pub watched : m.on_close ≡ current ∷ others

connect-IsConnected : (m : Management) → IsConnected (connect accepts m).1
unfolding connect
connect-IsConnected m = record {
  current = m.opened;
  others = m.on_close;
  connection = refl;
  channel = refl;
  watched = refl;
}

accepted-cases : (a : Attempt) → (a ≡ accepts) ⊎ (a ≢ accepts)
accepted-cases accepts = inl refl
accepted-cases refuses = inr λ e. cc
accepted-cases no_channel = inr λ e. cc

connect_waited : (a : Attempt) (m : Management) → (connect a m).1.waited ≡ m.waited
unfolding connect
connect_waited refuses m = refl
connect_waited no_channel m = refl
connect_waited accepts m = refl

-- The loop ends well within the given wait.
abbrev pub Recovers : Bool × Management → ℕ → Type 0
Recovers (ended, after) limit = (ended ≡ true) × IsConnected after × (after.waited ≤ limit)

retry_connection-fails :
    (attempts : ℕ → Attempt) (fuel i : ℕ) (m : Management) (a : Attempt)
    → attempts i ≡ a
    → a ≢ accepts
    → retry_connection (suc fuel) attempts i m
      ≡ retry_connection fuel attempts (suc i) (delay 3000 (connect a m).1)
unfolding retry_connection connect
retry_connection-fails attempts fuel i m refuses e h =
    ap (λ a. after_attempt (connect a m) (retry_connection fuel attempts (suc i))) e
retry_connection-fails attempts fuel i m no_channel e h =
    ap (λ a. after_attempt (connect a m) (retry_connection fuel attempts (suc i))) e
retry_connection-fails attempts fuel i m accepts e h = absurd (h refl)

retry_connection-accepts :
    (attempts : ℕ → Attempt) (fuel i : ℕ) (m : Management)
    → attempts i ≡ accepts
    → retry_connection (suc fuel) attempts i m ≡ (true, (connect accepts m).1)
unfolding retry_connection connect
retry_connection-accepts attempts fuel i m e =
    ap (λ a. after_attempt (connect a m) (retry_connection fuel attempts (suc i))) e

after_failure :
    (attempts : ℕ → Attempt) (fuel i : ℕ) (m : Management)
    → ((k i : ℕ) (m : Management)
        → k < fuel
        → attempts (i + k) ≡ accepts
        → Recovers (retry_connection fuel attempts i m) (m.waited + 3000 * k))
    → (k : ℕ) → k < suc fuel
    → attempts (i + k) ≡ accepts
    → attempts i ≢ accepts
    → Recovers (retry_connection (suc fuel) attempts i m) (m.waited + 3000 * k)
after_failure attempts fuel i m rest zero lt e h = absurd (h (ap attempts (omega arith) ∙ e))
after_failure attempts fuel i m rest (suc k) lt e h =
    let m' : Management = delay 3000 (connect (attempts i) m).1 in
    let (ended, connected, waited) =
      rest k (suc i) m' (omega arith) (ap attempts (omega arith) ∙ e) in
    rw (retry_connection-fails attempts fuel i m (attempts i) refl h)
      (ended, connected, omega (arith, waited, connect_waited (attempts i) m))

-- Whatever state the loop starts in: if the attempt `k` after the one it starts with is accepted,
-- the loop ends within `suc k` rounds, and whatever more rounds it is allowed, with a connection
-- that has its channel and is watched, after waiting at most three seconds for each attempt
-- before.
pub retry_connection_ends :
    (attempts : ℕ → Attempt) (fuel k i : ℕ) (m : Management)
    → k < fuel
    → attempts (i + k) ≡ accepts
    → Recovers (retry_connection fuel attempts i m) (m.waited + 3000 * k)
retry_connection_ends attempts zero k i m lt e = absurd (omega arith)
retry_connection_ends attempts (suc fuel) k i m lt e = elim (accepted-cases (attempts i)) [
  | inl now ↦
      rw (retry_connection-accepts attempts fuel i m now)
        (refl, connect-IsConnected m, rw (connect_waited accepts m) (omega arith))
  | inr later ↦ after_failure attempts fuel i m (retry_connection_ends attempts fuel) k lt e later
]
