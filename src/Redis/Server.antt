-- ===== src/Redis/Server.antt =====
-- The Redis server that core/redis/base-redis.service.ts talks to, with the documented behaviour
-- of the commands that the services rely on. A text in the store is represented by what it
-- denotes: JSON of a session, JSON of a token payload, or any other text.
use codebase_be_nestjs.Common.{
  ℕ, zero, suc, ◌+◌, ◌*◌, ◌≤◌, String, ◌==◌, ◌≡◌, Bool, true, false, ◌&&◌, ◌||◌, Option, none, some,
  List, [], ◌∷◌, ltb, if◌then◌else◌, is_some,
}
use text.Mathlib.Text.{starts_with}
use codebase_be_nestjs.Common.Int.{ℤ, pos, negsuc}
use codebase_be_nestjs.Common.Text.{◌<>◌, is_literal}
use codebase_be_nestjs.Shared.Session.{BaseJwtSession}
use codebase_be_nestjs.Shared.Token.{BaseJwtPayload}

pub data StoredText : Type 0 where
  session_json : BaseJwtSession → StoredText
  payload_json : BaseJwtPayload → StoredText
  plain : String → StoredText

-- The number of seconds of an expiry; `none` is the text NaN.
abbrev pub Seconds : Type 0
Seconds = Option ℤ

abbrev pub NotPositive : Seconds → Type 0
NotPositive none = Unit {0}
NotPositive (some (pos zero)) = Unit {0}
NotPositive (some (pos (suc n))) = ⊥
NotPositive (some (negsuc n)) = Unit {0}

abbrev pub contains : List String → String → Bool
contains [] key = false
contains (k ∷ ks) key = k == key || contains ks key

-- A record of the commands. The first argument of each is the data, the second the time in
-- milliseconds at which it runs. A reply `none` is an error, which rejects the promise.
pub record Server : Type 1 where
  pub Db : Type 0
  pub find : Db → ℕ → String → Option StoredText
  pub setex : Db → ℕ → String → Seconds → StoredText → Option String × Db
  pub del : Db → ℕ → String → ℕ × Db
  pub keys : Db → ℕ → String → List String
  -- SETEX with a positive number of seconds answers OK, and the value stays for so long.
  pub setex_ok :
      (db : Db) (now : ℕ) (k : String) (n : ℕ) (v : StoredText)
      → (setex db now k (some (pos (suc n))) v).0 ≡ some "OK"
  pub find-setex :
      (db : Db) (now : ℕ) (k : String) (n : ℕ) (v : StoredText) (t : ℕ) (j : String)
      → now ≤ t
      → find (setex db now k (some (pos (suc n))) v).1 t j
        ≡ (if k == j then (if ltb t (now + 1000 * suc n) then some v else none) else find db t j)
  -- Any other expiry is refused, and nothing is written.
  pub setex_invalid :
      (db : Db) (now : ℕ) (k : String) (n : Seconds) (v : StoredText)
      → NotPositive n
      → setex db now k n v ≡ (none, db)
  pub find-del :
      (db : Db) (now : ℕ) (k : String) (t : ℕ) (j : String)
      → find (del db now k).1 t j ≡ (if k == j then none else find db t j)
  -- A key that is not there does not come back by waiting.
  pub find_gone :
      (db : Db) (now t : ℕ) (j : String) → now ≤ t → find db now j ≡ none → find db t j ≡ none
  -- A pattern with a star behind characters that stand for themselves lists the keys with that
  -- prefix.
  pub keys_prefix :
      (db : Db) (now : ℕ) (p k : String)
      → is_literal p ≡ true
      → contains (keys db now (p <> "*")) k ≡ (starts_with k p && is_some (find db now k))
