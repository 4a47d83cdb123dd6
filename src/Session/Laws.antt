-- ===== src/Session/Laws.antt =====
-- Adding, reading and clearing sessions with core/session/session.service.ts.
use codebase_be_nestjs.Common.{
  ℕ, suc, ◌+◌, ◌*◌, ◌/◌, ◌≤◌, String, ◌==◌, ◌≡◌, sym, ap, ◌∙◌, Option, none, some, val, arith,
  eq_iff, ltb, if◌then◌else◌,
}
use codebase_be_nestjs.Common.Int.{pos}
use codebase_be_nestjs.Common.Effect.{error, Result, ok, err, ◌>>=◌}
use codebase_be_nestjs.Shared.SystemCode.{unauthorized_exception}
use codebase_be_nestjs.Shared.SessionType.{JwtSession}
use codebase_be_nestjs.Redis.Server.{Server, Seconds, NotPositive, StoredText}
use codebase_be_nestjs.Redis.Storage.{World, setex_reply}
use codebase_be_nestjs.Session.{
  SessionService, expiry, added, add_session, get_session_value, clear_session,
}
use codebase_be_nestjs.Session.Keys.{server_key, server_key-eq}

abbrev pub at_time : {r : Server} → World r → ℕ → World r
at_time w t = record w { now = t }

-- What a read returns for what the server finds.
abbrev pub answer : {V : Type 0} → SessionService V → Option StoredText → Result V
answer service none = err (unauthorized_exception "Failed to get session value")
answer service (some text) = elim (service.value_deserializer text) [
  | none ↦ err (unauthorized_exception "Failed to get session value")
  | some value ↦ ok value
]

-- What the server is given for a value.
abbrev pub serialized : {V : Type 0} → SessionService V → ℕ → ℕ → V → StoredText
serialized service now n value =
    service.value_serializer
      (service.stamp (expiry now (some (pos (suc n)))) (val (pos (now / 1000))) value)

setex_reply-added :
    {r : Server} {V : Type 0} (value : V) (reply : Option String × r.Db) (w : World r)
    → reply.0 ≡ some "OK"
    → (setex_reply reply >>= added value) w ≡ (ok value, record w { db = reply.1 })
setex_reply-added value (none, db) w e = cc
setex_reply-added value (some res, db) w e = ground (arith, eq_iff res "OK")

module _ {r : Server} {V : Type 0} (service : SessionService V) (type : JwtSession) where
  pub get_session_value_lem :
      (id : String) (w : World r)
      → get_session_value service type id w
        ≡ (answer service (r.find w.db w.now (server_key service type id)), w)
  unfolding get_session_value
  get_session_value_lem id w = ground arith

  -- Reading changes nothing.
  pub get_session_value_unchanged :
      (id : String) (w : World r) {x : Result V}
      → (get_session_value service type id w).0 ≡ x
      → get_session_value service type id w ≡ (x, w)
  get_session_value_unchanged id w h =
      let lem = get_session_value_lem id w in lem ∙ ap (λ a. (a, w)) (sym (ap (λ p. p.0) lem) ∙ h)

  -- With a positive number of seconds a session is always added.
  pub add_session-ok :
      (w : World r) (id : String) (n : ℕ) (value : V)
      → add_session service type id (some (pos (suc n))) value w ≡ (
        ok value,
        record w {
          db =
              (r.setex w.db w.now
                (server_key service type id)
                (some (pos (suc n)))
                (serialized service w.now n value)).1;
        },
      )
  unfolding add_session
  add_session-ok w id n value =
      setex_reply-added value
        (r.setex w.db w.now (server_key service type id) (some (pos (suc n)))
          (serialized service w.now n value))
        w (r.setex_ok w.db w.now (server_key service type id) n (serialized service w.now n value))

  -- After addSession with a positive number of seconds, a read at a time that is not earlier
  -- returns, for the same identifier, what deserializing the stamped and serialized value gives
  -- until the seconds have passed and throws afterwards; for every other identifier it returns
  -- what it returned before.
  pub get-add_session :
      (w : World r) (id : String) (n : ℕ) (value : V) (t : ℕ) (j : String)
      → w.now ≤ t
      → (get_session_value service type j
          (at_time (add_session service type id (some (pos (suc n))) value w).1 t)).0
        ≡ (if id == j
            then (if ltb t (w.now + 1000 * suc n)
                then answer service (some (serialized service w.now n value))
                else answer service none)
            else (get_session_value service type j (at_time w t)).0)
  get-add_session w id n value t j h =
      rw
        (
          add_session-ok w id n value,
          get_session_value_lem,
          get_session_value_lem,
          r.find-setex w.db w.now (server_key service type id) n (serialized service w.now n value)
              t (server_key service type j) h,
          server_key-eq service type id j,
        )
        (ground arith)

  -- addSession with zero, a negative number or NaN for its seconds throws the error of the SETEX
  -- command and changes nothing.
  pub add_session-refused :
      (w : World r) (id : String) (seconds : Seconds) (value : V)
      → NotPositive seconds
      → add_session service type id seconds value w ≡ (err (error "ReplyError"), w)
  unfolding add_session
  add_session-refused w id seconds value h =
      rw (r.setex_invalid w.db w.now (server_key service type id) seconds _ h)

  -- After clearSession a read of that identifier throws at any time, and a read of every other
  -- identifier returns what it returned before.
  pub get-clear_session :
      (w : World r) (id : String) (t : ℕ) (j : String)
      → (get_session_value service type j (at_time (clear_session service type id w).1 t)).0 ≡ (
          if id == j
          then answer service none
          else (get_session_value service type j (at_time w t)).0)
  unfolding clear_session
  get-clear_session w id t j =
      rw
        (
          get_session_value_lem,
          get_session_value_lem,
          r.find-del w.db w.now (server_key service type id) t (server_key service type j),
          server_key-eq service type id j,
        )
        (ground arith)
