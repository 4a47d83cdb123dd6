-- ===== src/Redis/Commands.antt =====
-- The commands of core/redis/base-redis.service.ts that no session uses: plain values, counters,
-- sets and hashes, and the scan and the flush of a namespace.
use codebase_be_nestjs.Common.{
  ℕ, zero, suc, ◌+◌, String, ◌==◌, ◌≡◌, Bool, true, false, ◌||◌, Option, none, some, List, [], ◌∷◌,
  if◌then◌else◌, is_empty, length,
}
use codebase_be_nestjs.Common.Int.{ℤ}
use codebase_be_nestjs.Common.Effect.{Exec, ok, pure, ◌>>=◌}
use codebase_be_nestjs.Common.Text.{◌<>◌}
use codebase_be_nestjs.Redis.Server.{Seconds}

-- The fields and values of a hash.
abbrev pub Fields : Type 0
Fields = List (String × String)

-- The commands on the data `Db`, with the documented behaviour that is relied on. `sscan` is what
-- sscanStream gives for a key and a pattern: the members of the set under that key, in parts.
pub record Commands : Type 1 where
  pub Db : Type 0
  pub has : Db → String → Bool
  pub set : Db → String → String → Option String × Db
  pub setnx : Db → String → String → ℕ × Db
  pub exists : Db → List String → ℕ
  pub incr : Db → String → ℕ × Db
  pub sadd : Db → String → List String → ℕ × Db
  pub srem : Db → String → List String → ℕ × Db
  pub smembers : Db → String → List String
  pub hset : Db → String → Fields → ℕ × Db
  pub hget : Db → String → String → Option String
  pub hgetall : Db → String → Fields
  pub expire : Db → String → Seconds → ℕ × Db
  pub hincrby : Db → String → String → ℤ → ℤ × Db
  pub hdel : Db → String → List String → ℕ × Db
  pub sscan : Db → String → String → List (List String)
  pub unlink : Db → List String → ℕ × Db
  -- SET writes its key and no other.
  pub has-set : (db : Db) (k v j : String) → has (set db k v).1 j ≡ (k == j) || has db j
  -- EXISTS counts the keys that are there.
  pub exists_one : (db : Db) (k : String) → exists db (k ∷ []) ≡ (if has db k then 1 else 0)
  -- A set that is not there has no members.
  pub sscan_missing : (db : Db) (k pattern : String) → has db k ≡ false → sscan db k pattern ≡ []

module _ (c : Commands) (namespace : String) where
  -- `${this.nsKey()}:${key}`
  abbrev pub cache_key : String → String
  cache_key key = (namespace <> ":") <> key

  abbrev pub returning : {A : Type 0} → A × c.Db → Exec c.Db A
  returning (a, db) _ = (ok a, db)

  abbrev pub is_ok : Option String → Bool
  is_ok none = false
  is_ok (some res) = res == "OK"

  abbrev pub is_nonzero : ℕ → Bool
  is_nonzero zero = false
  is_nonzero (suc n) = true

  unfoldable pub set : String → String → Exec c.Db Bool
  set key value db = let (res, db') = c.set db (cache_key key) value in (ok (is_ok res), db')

  unfoldable pub set_nx : String → String → Exec c.Db Bool
  set_nx key value db =
      let (res, db') = c.setnx db (cache_key key) value in (ok (is_nonzero res), db')

  -- The keys are passed on as they are.
  unfoldable pub exists : List String → Exec c.Db ℕ
  exists keys db = (ok (c.exists db keys), db)

  -- The key is passed on as it is.
  unfoldable pub incr : String → Exec c.Db ℕ
  incr key db = returning (c.incr db key) db

  unfoldable pub set_add : String → List String → Exec c.Db ℕ
  set_add set_name members db = returning (c.sadd db (cache_key set_name) members) db

  unfoldable pub set_remove : String → List String → Exec c.Db ℕ
  set_remove set_name members db = returning (c.srem db (cache_key set_name) members) db

  unfoldable pub set_get : String → Exec c.Db (List String)
  set_get set_name db = (ok (c.smembers db (cache_key set_name)), db)

  unfoldable pub h_set : String → Fields → Exec c.Db ℕ
  h_set hash_name field db = returning (c.hset db (cache_key hash_name) field) db

  unfoldable pub h_get : String → String → Exec c.Db (Option String)
  h_get hash_name field_name db = (ok (c.hget db (cache_key hash_name) field_name), db)

  unfoldable pub h_get_all : String → Exec c.Db Fields
  h_get_all hash_name db = (ok (c.hgetall db (cache_key hash_name)), db)

  -- `multi().hset(…).expire(…).exec()`: the replies of both.
  unfoldable pub h_set_with_expire : String → Seconds → Fields → Exec c.Db (ℕ × ℕ)
  h_set_with_expire hash_name expire_in_seconds field db =
      let (added, db') = c.hset db (cache_key hash_name) field in
      let (set, db'') = c.expire db' (cache_key hash_name) expire_in_seconds in
      (ok (added, set), db'')

  unfoldable pub h_incr_by : String → String → ℤ → Exec c.Db ℤ
  h_incr_by hash_name field_name increment db =
      returning (c.hincrby db (cache_key hash_name) field_name increment) db

  unfoldable pub h_del : String → List String → Exec c.Db ℕ
  h_del hash_name field_names db = returning (c.hdel db (cache_key hash_name) field_names) db

  -- `filter((keys) => keys && keys.length)`
  abbrev pub not_empty : List (List String) → List (List String)
  not_empty [] = []
  not_empty (keys ∷ parts) = if is_empty keys then not_empty parts else keys ∷ not_empty parts

  -- `defaultIfEmpty([])`
  abbrev pub or_one_empty : List (List String) → List (List String)
  or_one_empty [] = [] ∷ []
  or_one_empty (keys ∷ parts) = keys ∷ parts

  unfoldable pub scan : String → c.Db → List (List String)
  scan sub_pattern db =
      or_one_empty (not_empty (c.sscan db (cache_key sub_pattern) (cache_key sub_pattern)))

  -- "All keys in this service's namespace"
  unfoldable pub keys : c.Db → List (List String)
  unfolding scan
  keys = scan "*"

  -- The parts of the scan, one after the other; the number is `count`.
  unfoldable pub unlink_all : List (List String) → ℕ → Exec c.Db ℕ
  unlink_all [] count db = (ok count, db)
  unlink_all ([] ∷ parts) count db = unlink_all parts count db
  unlink_all ((key ∷ more) ∷ parts) count db =
      unlink_all parts (count + length (key ∷ more)) (c.unlink db (key ∷ more)).1

  unfoldable pub flush : Exec c.Db Bool
  unfolding keys unlink_all
  flush db = (unlink_all (keys db) 0 >>= λ count. pure true) db
