-- ===== src/Redis/Memory.antt =====
-- A server in memory: the assumptions on the Redis server can be met, and the models run on it.
use Prim.Native.String.{len, slice}
use text.Mathlib.Text.{starts_with}
use text.Mathlib.TextPositions.{len-append, slice-append_left}
use codebase_be_nestjs.Common.{
  ℕ, zero, suc, ◌+◌, ◌-◌, ◌*◌, ◌≤◌, String, ◌==◌, eq_iff, ◌≡◌, refl, ap, ◌∙◌, Bool, true, false,
  ◌&&◌, Option, none, some, List, [], ◌∷◌, ltb, if◌then◌else◌, is_some, arith,
}
use codebase_be_nestjs.Common.Int.{pos, negsuc}
use codebase_be_nestjs.Common.Text.{◌<>◌, is_literal}
use codebase_be_nestjs.Redis.Server.{Server, Seconds, NotPositive, StoredText, contains}

-- Each entry has its key, the millisecond at which it goes away, and its value.
abbrev pub Entries : Type 0 → Type 0
Entries A = List (String × ℕ × A)

star_prefix : (p : String) → slice (p <> "*") 0 (len (p <> "*") - 1) ≡ p
star_prefix p =
    ap (λ n. slice (p <> "*") 0 n) (shorter _ _ (len-append p "*")) ∙ slice-append_left p "*"
  where
    shorter : (n m : ℕ) → n ≡ m + 1 → n - 1 ≡ m
    shorter n m e = omega arith

module _ {A : Type 0} where
  unfoldable pub find : Entries A → ℕ → String → Option A
  find [] t k = none
  find ((j, end, v) ∷ m) t k = if j == k then (if ltb t end then some v else none) else find m t k

  unfoldable pub without : Entries A → String → Entries A
  without [] k = []
  without ((j, end, v) ∷ m) k =
      let rest = without m k in if j == k then rest else (j, end, v) ∷ rest

  unfoldable pub setex : Entries A → ℕ → String → Seconds → A → Option String × Entries A
  setex db now k (some (pos (suc n))) v = (some "OK", (k, now + 1000 * suc n, v) ∷ db)
  setex db now k none v = (none, db)
  setex db now k (some (pos zero)) v = (none, db)
  setex db now k (some (negsuc n)) v = (none, db)

  -- The keys among `m` that begin with `p` and are there.
  unfoldable pub scan : Entries A → ℕ → String → Entries A → List String
  unfolding find
  scan db t p [] = []
  scan db t p ((j, end, v) ∷ m) =
      let rest = scan db t p m in
      if starts_with j p && is_some (find db t j) then j ∷ rest else rest

  unfoldable pub keys : Entries A → ℕ → String → List String
  unfolding scan
  keys db t pattern = scan db t (slice pattern 0 (len pattern - 1)) db

  pub occurs : Entries A → String → Bool
  occurs [] k = false
  occurs ((j, end, v) ∷ m) k = let rest = occurs m k in if j == k then true else rest

  pub find-without :
      (m : Entries A) (k : String) (t : ℕ) (j : String)
      → find (without m k) t j ≡ (if k == j then none else find m t j)
  unfolding find without
  find-without [] k t j = ground arith
  find-without ((i, end, v) ∷ m) k t j =
      ground (arith, find-without m k t j, eq_iff i k, eq_iff i j, eq_iff k j)

  pub find_gone :
      (m : Entries A) (now t : ℕ) (j : String) → now ≤ t → find m now j ≡ none → find m t j ≡ none
  unfolding find
  find_gone [] now t j le e = refl
  find_gone ((i, end, v) ∷ m) now t j le e = ground (arith, find_gone m now t j le)

  pub occurs_of_find :
      (m : Entries A) (t : ℕ) (k : String) → is_some (find m t k) ≡ true → occurs m k ≡ true
  unfolding find occurs
  occurs_of_find [] t k h = cc
  occurs_of_find ((i, end, v) ∷ m) t k h = ground (arith, occurs_of_find m t k)

  pub contains-scan :
      (db : Entries A) (t : ℕ) (p : String) (m : Entries A) (k : String)
      → contains (scan db t p m) k ≡ (occurs m k && (starts_with k p && is_some (find db t k)))
  unfolding scan occurs
  contains-scan db t p [] k = refl
  contains-scan db t p ((j, end, v) ∷ m) k = ground (arith, contains-scan db t p m k, eq_iff j k)

  pub keys_prefix :
      (db : Entries A) (t : ℕ) (p k : String)
      → is_literal p ≡ true
      → contains (keys db t (p <> "*")) k ≡ (starts_with k p && is_some (find db t k))
  unfolding keys
  keys_prefix db t p k literal =
      ap (λ q. contains (scan db t q db) k) (star_prefix p)
      ∙ contains-scan db t p db k
      ∙ ground (arith, occurs_of_find db t k)

  pub setex_invalid :
      (db : Entries A) (now : ℕ) (k : String) (n : Seconds) (v : A)
      → NotPositive n
      → setex db now k n v ≡ (none, db)
  unfolding setex
  setex_invalid db now k none v h = refl
  setex_invalid db now k (some (pos zero)) v h = refl
  setex_invalid db now k (some (pos (suc n))) v h = absurd h
  setex_invalid db now k (some (negsuc n)) v h = refl

  pub setex_ok :
      (db : Entries A) (now : ℕ) (k : String) (n : ℕ) (v : A)
      → (setex db now k (some (pos (suc n))) v).0 ≡ some "OK"
  unfolding setex
  setex_ok db now k n v = refl

  pub find-setex :
      (db : Entries A) (now : ℕ) (k : String) (n : ℕ) (v : A) (t : ℕ) (j : String)
      → now ≤ t
      → find (setex db now k (some (pos (suc n))) v).1 t j
        ≡ (if k == j then (if ltb t (now + 1000 * suc n) then some v else none) else find db t j)
  unfolding find setex
  find-setex db now k n v t j le = refl

abbrev pub memory : Server
memory = record {
  Db = Entries StoredText;
  find = find;
  setex = setex;
  del = λ db now k. (1, without db k);
  keys = keys;
  setex_ok = setex_ok;
  find-setex = find-setex;
  setex_invalid = setex_invalid;
  find-del = λ db now k t j. find-without db k t j;
  find_gone = find_gone;
  keys_prefix = keys_prefix;
}
