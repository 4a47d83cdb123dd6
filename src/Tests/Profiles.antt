-- ===== src/Tests/Profiles.antt =====
-- The profile of a user who is updated and removed while it is cached.
use codebase_be_nestjs.Common.{
  Bool, ℕ, ◌+◌, ◌≤◌, ◌<◌, String, ◌==◌, eq_refl, ◌≡◌, refl, sym, ap, ◌∙◌, Option, none, some, List,
  [], ◌∷◌, true, false, arith, ltb, if◌then◌else◌, ◌≢◌, lt→ltb,
}
use codebase_be_nestjs.Common.Effect.{Result, err, ok, err≢ok, ok_inj}
use codebase_be_nestjs.Common.Text.{==-false}
use codebase_be_nestjs.Sql.{TypeOrm, merge_transaction}
use codebase_be_nestjs.Sql
use codebase_be_nestjs.Users.Profile.{Held, get_profile-recent}
use codebase_be_nestjs.Users.Stale.{get_profile_again}
use codebase_be_nestjs.Users.{
  QueryCache, World, UserLibrary, get_profile, ask, update, remove, pause, Run, start, after, apply,
}

-- One user with a number, or none; a stored result with the time until which it is recalled.
abbrev Store : Type 0
Store = List (String × ℕ × Option ℕ)

-- A transaction that throws leaves no trace.
abbrev kept_result : {A D : Type 0} → D → Result A × D → Result A × D
kept_result s (ok a, s') = (ok a, s')
kept_result s (err e, s') = (err e, s)

some_inj : {A : Type 0} {a b : A} → some a ≡ some b → a ≡ b
some_inj h = cc

abbrev table : TypeOrm (Option ℕ) ℕ String ℕ ℕ
table = record {
  transaction = λ m s. kept_result s (m s);
  find_one = λ c d. (ok d, d);
  find = λ c d. (ok [], d);
  find_and_count = λ c n size d. (ok ([], 0), d);
  save = λ e d. (ok e, some e);
  update = λ c u d. (ok (some 1), some u);
  upsert = λ e options d. (ok e, some e);
  count = λ c d. (ok 1, d);
  soft_delete = λ c d. (ok (some 1), none);
  transaction_ok = λ m s s' a h. ap (kept_result s) h;
  transaction_err = λ m s s' e h. ap (kept_result s) h;
}

abbrev recall : Store → ℕ → String → Option (Option ℕ)
recall [] t id = none
recall ((key, until, r) ∷ rest) t id =
    if key == id then (if ltb t until then some r else none) else recall rest t id

abbrev answer : Option (Option ℕ) → String → ℕ → Option ℕ → Store → Result (Option ℕ) × Store
answer (some r) id until d k = (ok r, k)
answer none id until d k = (ok d, (id, until, d) ∷ k)

abbrev find_one_cached : String → String → ℕ → ℕ → Option ℕ → Store → Result (Option ℕ) × Store
find_one_cached c id ms now d k = answer (recall k now id) id (now + ms) d k

recall-own :
    (id : String) (until t : ℕ) (d : Option ℕ) (k : Store)
    → recall ((id, until, d) ∷ k) t id ≡ (if ltb t until then some d else none)
recall-own id until t d k = rw (eq_refl id) refl

forgotten :
    (id : String) (until t : ℕ) (d r : Option ℕ) (k : Store)
    → recall ((id, until, d) ∷ k) t id ≡ some r
    → (r ≡ d) × (t ≤ until)
forgotten id until t d r k h =
    if-some (ltb t until) (sym (recall-own id until t d k) ∙ h) (λ e. ground (arith, e))
  where
    if-some :
        (b : Bool)
        → (if b then some d else none) ≡ some r
        → (b ≡ true → t ≤ until)
        → (r ≡ d) × (t ≤ until)
    if-some true h le = (sym (some_inj h), le refl)
    if-some false h le = cc

other :
    (id j : String) (found : Option (Option ℕ)) (until t : ℕ) (d : Option ℕ) (k : Store)
    → id ≢ j
    → recall (answer found id until d k).1 t j ≡ recall k t j
other id j (some r) until t d k ne = refl
other id j none until t d k ne = rw (==-false id j ne) refl

abbrev memory : QueryCache table Store
memory = record {
  recall = recall;
  find_one_cached = find_one_cached;
  hit = λ c id ms now d k h. rw h;
  miss = λ c id ms now d k h. rw h;
  failed = λ c id ms now d k miss failed. absurd (err≢ok (sym failed));
  kept = λ c id ms now d k t miss found le lt.
      rw (miss, recall-own, lt→ltb t (now + ms) lt) (ap some (ok_inj found));
  forgotten = λ c id ms now d k {r} {r'} t miss found le h.
      let (same, age) = forgotten id (now + ms) t d r' k (rw miss at h) in
      (same ∙ ok_inj found, age);
  others = λ c id ms now d k t j ne. other id j (recall k now id) (now + ms) t d k ne;
}

abbrev library : UserLibrary ℕ String String
library = record {
  Profile = Option ℕ;
  Item = ℕ;
  Affected = ℕ;
  by_id = λ id. id;
  by_email = λ query. "";
  to_profile = λ r. r;
  to_item = λ n. n;
  to_affected = λ n. n;
  original_name = λ file. file;
  parse_file = ok;
  parse_file_none = refl;
}

abbrev cold : World (Option ℕ) Store
cold = record { db = some 7; cache = []; now = 5000 }

-- Meanwhile the user is updated and removed.
abbrev changes : World (Option ℕ) Store → World (Option ℕ) Store
changes w =
    apply memory library (pause 10000)
      (apply memory library (remove "1") (apply memory library (update "1" 8 (some "photo")) w))

abbrev changing :
    (w : World (Option ℕ) Store) {u : World (Option ℕ) Store}
    → Run memory library w u
    → Run memory library w (changes u)
changing w run = after (after (after run (update "1" 8 (some "photo"))) (remove "1")) (pause 10000)

abbrev first : World (Option ℕ) Store
first = (get_profile memory library "1" cold).1

removed : (changes first).db ≡ none
unfolding get_profile Sql.update_profile Sql.remove_user merge_transaction
removed = refl

answers : (get_profile memory library "1" cold).0 ≡ ok (some 7)
unfolding get_profile
answers = refl

again_later : (changes first).now < 25000
unfolding get_profile
again_later = omega arith

get_profile_again_example :
    get_profile memory library "1" (changes first) ≡ (ok (some 7), changes first)
get_profile_again_example =
    get_profile_again memory library cold "1" refl answers (changing first start) again_later

abbrev served : Run memory library cold (changes first)
served = changing cold (after start (ask "1"))

still_seven : (get_profile memory library "1" (changes first)).0 ≡ ok (some 7)
still_seven =
    ap (λ p. p.0)
      (get_profile_again memory library cold "1" refl answers (changing first start) again_later)

get_profile-recent_example :
    (r : Option ℕ) × (some 7 ≡ r) × Held memory library served "1" (changes first).now r
get_profile-recent_example = get_profile-recent memory library served "1" (λ id t. refl) still_seven
