-- ===== src/Amqp/Cache.antt =====
-- core/amqp/amqp-cache.service.ts: how often a message has been delivered.
use codebase_be_nestjs.Common.{
  ℕ, zero, suc, ◌+◌, ◌*◌, ◌≤◌, ◌<◌, String, ◌==◌, ◌≡◌, ◌↔◌, refl, ◌∙◌, ap, Bool, true, false, arith,
  leb, ltb, if◌then◌else◌, eq_refl, lt→ltb,
}
use codebase_be_nestjs.Common.Text.{◌<>◌}

-- The counters of the Redis server, with the documented behaviour that is relied on: the number
-- that a key holds at a time (0 if it is not there), INCR, and EXPIRE with a number of seconds.
pub record Counters : Type 1 where
  pub Db : Type 0
  pub count : Db → ℕ → String → ℕ
  pub incr : Db → ℕ → String → Db
  pub expire : Db → ℕ → String → ℕ → Db
  pub count-incr :
      (db : Db) (now : ℕ) (k : String) → count (incr db now k) now k ≡ suc (count db now k)
  pub count-incr_other :
      (db : Db) (now : ℕ) (k : String) (t : ℕ) (j : String)
      → (k == j) ≡ false
      → count (incr db now k) t j ≡ count db t j
  pub count-expire :
      (db : Db) (now : ℕ) (k : String) (n t : ℕ) (j : String)
      → now ≤ t
      → count (expire db now k (suc n)) t j ≡ (
          if k == j
          then (if ltb t (now + 1000 * suc n) then count db now k else 0)
          else count db t j)

-- `this.cacheKey(`dlvr-count-${key}`)`, in the namespace AMQP
abbrev pub key_delivery_count : String → String
key_delivery_count key = "AMQP:" <> ("dlvr-count-" <> key)

-- `3600 * 12`
abbrev pub count_life : ℕ
count_life = 43200

zero_plus : (n : ℕ) → n ≡ 0 + n
zero_plus n = omega arith

plus_zero : (n : ℕ) → n + 0 ≡ n
plus_zero n = omega arith

suc_plus : (m n : ℕ) → suc (m + n) ≡ suc m + n
suc_plus m n = omega arith

module _ (c : Counters) where
  unfoldable pub increase_delivery_count : String → ℕ → c.Db → c.Db
  increase_delivery_count id now db =
      c.expire (c.incr db now (key_delivery_count id)) now (key_delivery_count id) count_life

  -- `current ? current - 1 <= max : true`, for `current` the number, or 0
  abbrev pub is_valid_count : ℕ → ℕ → Bool
  is_valid_count zero max = true
  is_valid_count (suc n) max = leb n max

  unfoldable pub is_valid_delivery_count : String → ℕ → ℕ → c.Db → Bool
  is_valid_delivery_count id max now db =
      is_valid_count (c.count db now (key_delivery_count id)) max

  -- The message's number right after its count was increased, and the twelve hours after that.
  pub count-increase :
      (id : String) (now t : ℕ) (db : c.Db)
      → now ≤ t
      → t < now + 1000 * count_life
      → c.count (increase_delivery_count id now db) t (key_delivery_count id)
        ≡ suc (c.count db now (key_delivery_count id))
  unfolding increase_delivery_count
  count-increase id now t db le lt =
      c.count-expire (c.incr db now (key_delivery_count id)) now (key_delivery_count id) 43199 t
        (key_delivery_count id) le
      ∙ rw (eq_refl (key_delivery_count id), lt→ltb t (now + 1000 * count_life) lt)
          (c.count-incr db now (key_delivery_count id))

  -- `n` deliveries, all counted at one moment.
  unfoldable pub increase_times : ℕ → String → ℕ → c.Db → c.Db
  increase_times zero id now db = db
  increase_times (suc n) id now db = increase_delivery_count id now (increase_times n id now db)

  count-increase_times :
      (n : ℕ) (id : String) (now : ℕ) (db : c.Db)
      → c.count (increase_times n id now db) now (key_delivery_count id)
        ≡ n + c.count db now (key_delivery_count id)
  unfolding increase_times
  count-increase_times zero id now db = zero_plus _
  count-increase_times (suc n) id now db =
      count-increase id now now (increase_times n id now db) (omega arith) (omega arith)
      ∙ ap suc (count-increase_times n id now db)
      ∙ suc_plus n _

  valid-count : (n max : ℕ) → (is_valid_count n max ≡ true) ↔ (n ≤ suc max)
  valid-count zero max = ((λ _. omega arith), (λ _. refl))
  valid-count (suc n) max = ((λ h. ground (arith, h)), (λ h. ground (arith, h)))

  -- For a message that was not counted before, after `n` deliveries are counted at one moment a
  -- redelivery at that moment is valid exactly if `n` is at most one more than the limit.
  pub is_valid-increase_times :
      (n max : ℕ) (id : String) (now : ℕ) (db : c.Db)
      → c.count db now (key_delivery_count id) ≡ 0
      → (is_valid_delivery_count id max now (increase_times n id now db) ≡ true) ↔ (n ≤ suc max)
  unfolding is_valid_delivery_count
  is_valid-increase_times n max id now db fresh =
      rw (count-increase_times n id now db, fresh, plus_zero n) (valid-count n max)
