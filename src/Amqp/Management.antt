-- ===== src/Amqp/Management.antt =====
-- core/amqp/amqp-management.service.ts: the connection to the broker, and the loop that replaces it
-- when it is closed.
use codebase_be_nestjs.Common.{
  ℕ, zero, suc, ◌+◌, Bool, true, false, Option, none, some, List, [], ◌∷◌,
}
use codebase_be_nestjs.Common.Effect.{Exec, Result, ok, err, error, ◌>>=◌, ◌>>◌}

-- What the broker does with an attempt: it refuses, it takes the connection but no channel, or it
-- takes both.
pub data Attempt : Type 0 where
  refuses no_channel accepts : Attempt

-- Connections are numbered in the order in which they were opened. `channel` is the connection that
-- the channel belongs to; `on_close` and `on_error` are the connections with a listener of that
-- event. `waited` is the time spent in `delay`, in milliseconds.
pub record Management : Type 0 where
  pub opened : ℕ
  pub connection : Option ℕ
  pub channel : Option ℕ
  pub on_error : List ℕ
  pub on_close : List ℕ
  pub waited : ℕ

-- `connect(host)` of amqplib
abbrev pub open_connection : Attempt → Exec Management ℕ
open_connection refuses m = (err (error "ECONNREFUSED"), m)
open_connection no_channel m = (ok m.opened, record m { opened = suc m.opened })
open_connection accepts m = (ok m.opened, record m { opened = suc m.opened })

abbrev pub set_connection : ℕ → Exec Management (Unit {0})
set_connection c m = (ok tt, record m { connection = some c })

-- `this.channel = await this.connection.createChannel()`
abbrev pub create_channel : Attempt → Exec Management (Unit {0})
create_channel accepts m = (ok tt, record m { channel = m.connection })
create_channel no_channel m = (err (error "ResourceError"), m)
create_channel refuses m = (err (error "ResourceError"), m)

-- `this.connection.on(event, …)`
abbrev pub listen : Option ℕ → List ℕ → List ℕ
listen none listeners = listeners
listen (some c) listeners = c ∷ listeners

abbrev pub on_error_event : Exec Management (Unit {0})
on_error_event m = (ok tt, record m { on_error = listen m.connection m.on_error })

unfoldable pub handle_new_connection : Attempt → ℕ → Exec Management (Unit {0})
handle_new_connection attempt connection = do
  set_connection connection
  create_channel attempt
  on_error_event

unfoldable pub handle_disconnect : Exec Management (Unit {0})
handle_disconnect m = (ok tt, record m { on_close = listen m.connection m.on_close })

-- `AmqpManagementService.connect`
unfoldable pub connect : Attempt → Exec Management (Unit {0})
unfolding handle_new_connection handle_disconnect
connect attempt = do
  connection ← open_connection attempt
  handle_new_connection attempt connection
  handle_disconnect

-- `delay(3000)`
abbrev pub delay : ℕ → Management → Management
delay ms m = record m { waited = m.waited + ms }

-- One round: `connected = true`, or the catch block and the next round.
abbrev pub after_attempt :
    Result (Unit {0}) × Management → (Management → Bool × Management) → Bool × Management
after_attempt (ok _, m) next_round = (true, m)
after_attempt (err _, m) next_round = next_round (delay 3000 m)

-- The loop of the listener of "close": the attempts, from the one with number `i`, until one
-- succeeds. With the fuel used up the flag is false: the loop is still running.
unfoldable pub retry_connection : (fuel : ℕ) → (ℕ → Attempt) → ℕ → Management → Bool × Management
unfolding connect
retry_connection zero attempts i m = (false, m)
retry_connection (suc fuel) attempts i m =
    after_attempt (connect (attempts i) m) (retry_connection fuel attempts (suc i))

-- A service that has not connected yet.
abbrev pub disconnected : Management
disconnected = record {
  opened = 0;
  connection = none;
  channel = none;
  on_error = [];
  on_close = [];
  waited = 0;
}
