-- ===== src/Redis/Namespace.antt =====
-- The namespace of core/redis/base-redis.service.ts: what flush deletes and what exists sees.
use text.Mathlib.TextPositions.{len-append}
use Prim.Native.String.{len}
use codebase_be_nestjs.Common.{
  ℕ, ◌+◌, String, ◌≡◌, ◌≢◌, refl, sym, ap, ◌∙◌, true, false, [], ◌∷◌, arith, if◌then◌else◌,
}
use codebase_be_nestjs.Common.Effect.{ok}
use codebase_be_nestjs.Common.Text.{◌<>◌, ==-false}
use codebase_be_nestjs.Redis.Commands.{
  Commands, cache_key, set, exists, scan, keys, unlink_all, flush,
}

module _ (c : Commands) (namespace : String) where
  -- If nothing is stored under the key of the namespace that ends in a star, flush returns true
  -- and deletes nothing, whatever keys of the namespace there are.
  pub flush_unchanged :
      (db : c.Db)
      → c.has db (cache_key c namespace "*") ≡ false
      → flush c namespace db ≡ (ok true, db)
  unfolding flush keys scan unlink_all
  flush_unchanged db gone = rw (c.sscan_missing db _ (cache_key c namespace "*") gone) refl

  cache_key-ne : (key : String) → cache_key c namespace key ≢ key
  cache_key-ne key e =
      longer _ _ _ _ (len-append (namespace <> ":") key) (len-append namespace ":") (ap len e)
    where
      longer : (a b c d : ℕ) → a ≡ b + c → b ≡ d + 1 → a ≡ c → ⊥
      longer a b c d p q same = omega arith

  -- A key that was just set is not seen by exists under its own name: the answer is the one from
  -- before.
  exists-set :
      (db : c.Db) (key value : String)
      → (exists c namespace (key ∷ []) (set c namespace key value db).1).0
        ≡ (exists c namespace (key ∷ []) db).0
  unfolding exists set
  exists-set db key value = ap ok (
      c.exists_one (c.set db (cache_key c namespace key) value).1 key
      ∙ ap (λ b. if b then 1 else 0)
          (c.has-set db (cache_key c namespace key) value key
            ∙ rw (==-false (cache_key c namespace key) key (cache_key-ne key)) refl)
      ∙ sym (c.exists_one db key))
