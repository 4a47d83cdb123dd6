-- ===== src/Redis/Storage.antt =====
-- core/redis/base-redis.service.ts and core/session/session-storage.service.ts: the commands of
-- AbstractRedisService that the session services call, over a state that holds the data, the
-- clock and the random identifiers that have been drawn.
use codebase_be_nestjs.Common.{ℕ, suc, String, ◌==◌, Bool, Option, none, some, List, map}
use codebase_be_nestjs.Common.Effect.{error, Exec, ok, err}
use codebase_be_nestjs.Common.Text.{◌<>◌, replace}
use codebase_be_nestjs.Redis.Server.{Server, Seconds, StoredText}

-- `now` is Date.now(), in milliseconds. `background` are the deletes that an un-awaited call has
-- still to issue.
pub record World (r : Server) : Type 0 where
  pub db : r.Db
  pub now : ℕ
  pub uuids : ℕ → String
  pub drawn : ℕ
  pub background : List String

-- `NAMESPACE = "REDIS_SESSION:"`
abbrev pub storage_namespace : String
storage_namespace = "REDIS_SESSION:"

-- `${this.nsKey()}:${key}`
abbrev pub storage_key : String → String
storage_key key = (storage_namespace <> ":") <> key

module _ {r : Server} where
  -- `res == "OK"`, or the rejected promise
  abbrev pub setex_reply : Option String × r.Db → Exec (World r) Bool
  setex_reply (none, db) w = (err (error "ReplyError"), record w { db = db })
  setex_reply (some res, db) w = (ok (res == "OK"), record w { db = db })

  abbrev pub set_ex : String → Seconds → StoredText → Exec (World r) Bool
  set_ex key expire_in_seconds value w =
      setex_reply (r.setex w.db w.now (storage_key key) expire_in_seconds value) w

  abbrev pub get : String → Exec (World r) (Option StoredText)
  get key w = (ok (r.find w.db w.now (storage_key key)), w)

  abbrev pub del : String → Exec (World r) ℕ
  del key w =
      let (count, db) = r.del w.db w.now (storage_key key) in (ok count, record w { db = db })

  abbrev pub get_keys : String → Exec (World r) (List String)
  get_keys sub_pattern w = (
    ok (map (λ k. replace k (storage_key "") "") (r.keys w.db w.now (storage_key sub_pattern))),
    w,
  )

  -- uuid.v4()
  abbrev pub v4 : Exec (World r) String
  v4 w = (ok (w.uuids w.drawn), record w { drawn = suc w.drawn })
