-- ===== src/Users/Cached.antt =====
-- What a request of module/user/user.service.ts does to the query cache.
use text.Mathlib.TextLemmas.{append_cancel_left}
use codebase_be_nestjs.Common.{
  ℕ, ◌≤◌, String, ◌≡◌, ◌≢◌, refl, ap, ◌∙◌, Option, none, some, arith, inl, inr, ◌⊎◌, Option-cases,
}
use codebase_be_nestjs.Common.Effect.{Result, ok, err, pure, continue, Result-cases}
use codebase_be_nestjs.Dto.Paging.{PagingRequest, skip, new_paging_response}
use codebase_be_nestjs.Sql.{TypeOrm}
use codebase_be_nestjs.Users.{
  QueryCache, World, UserLibrary, cache_key_for_profile, get_profile, get_user_list, update_profile,
  Event, ask, list, update, remove, pause, outside, apply,
}

-- The key of a profile is no other profile's.
pub key-ne : (i j : String) → i ≢ j → cache_key_for_profile i ≢ cache_key_for_profile j
key-ne i j ne e = ne (append_cancel_left "profile:" i j e)

pub some≢none : {A : Type 0} {a : A} → some a ≢ none
some≢none h = cc

continue-pure :
    {A B S : Type 0} (f : A → B) (r : Result A) (s : S) → (continue r (λ a. pure (f a)) s).1 ≡ s
continue-pure f (ok a) s = refl
continue-pure f (err e) s = refl

abbrev pub answered : {A B : Type 0} → (A → B) → Result A → Result B
answered f (ok a) = ok (f a)
answered f (err e) = err e

continue-answered :
    {A B S : Type 0} (f : A → B) (r : Result A) (s : S)
    → (continue r (λ a. pure (f a)) s).0 ≡ answered f r
continue-answered f (ok a) s = refl
continue-answered f (err e) s = refl

module _ {D E C U I K File : Type 0} {orm : TypeOrm D E C U I} (cache : QueryCache orm K)
    (lib : UserLibrary E C File) where
  -- The world after getProfile.
  abbrev pub asked : String → World D K → World D K
  asked j w = record w {
    cache =
        (cache.find_one_cached (lib.by_id j) (cache_key_for_profile j) 20000 w.now w.db w.cache).1;
  }

  abbrev pub recalled : World D K → ℕ → String → Option (Option E)
  recalled w t id = cache.recall w.cache t (cache_key_for_profile id)

  -- getProfile reads the user from the database.
  abbrev pub Reads : String → Option E → World D K → Type 0
  Reads j r w = (recalled w w.now j ≡ none) × ((orm.find_one (lib.by_id j) w.db).0 ≡ ok r)

  pub get_profile-asked : (j : String) (w : World D K) → (get_profile cache lib j w).1 ≡ asked j w
  unfolding get_profile
  get_profile-asked j w = continue-pure lib.to_profile _ (asked j w)

  pub get_profile-hit :
      (j : String) (w : World D K) (r : Option E)
      → recalled w w.now j ≡ some r
      → get_profile cache lib j w ≡ (ok (lib.to_profile r), w)
  unfolding get_profile
  get_profile-hit j w r h =
      rw (cache.hit (lib.by_id j) (cache_key_for_profile j) 20000 w.now w.db w.cache h)

  pub get_profile-miss :
      (j : String) (w : World D K)
      → recalled w w.now j ≡ none
      → (get_profile cache lib j w).0 ≡ answered lib.to_profile (orm.find_one (lib.by_id j) w.db).0
  unfolding get_profile
  get_profile-miss j w h =
      continue-answered lib.to_profile _ (asked j w)
      ∙ ap (answered lib.to_profile)
          (cache.miss (lib.by_id j) (cache_key_for_profile j) 20000 w.now w.db w.cache h)

  -- The cache is left alone and the time is not turned back.
  abbrev pub IsQuiet : World D K → World D K → Type 0
  IsQuiet u v = (v.cache ≡ u.cache) × (u.now ≤ v.now)

  ask-cases : (j : String) (u : World D K) → IsQuiet u (asked j u) ⊎ ((r : Option E) × Reads j r u)
  ask-cases j u = elim (Option-cases (recalled u u.now j)) [
    | inr (a, hit) ↦ inl (ap (λ p. p.1) (cache.hit _ _ _ _ _ _ hit), omega arith)
    | inl miss ↦ elim (Result-cases (orm.find_one (lib.by_id j) u.db).0) [
      | inr (x, failed) ↦ inl (cache.failed _ _ _ _ _ _ miss failed, omega arith)
      | inl (a, found) ↦ inr (a, (miss, found))
    ]
  ]

  update-IsQuiet :
      (w : World D K) (id : String) (body : U) (file : Option File)
      → IsQuiet w (update_profile cache lib id body file w).1
  update-IsQuiet w id body file = elim (Result-cases (lib.parse_file file)) [
    | inl (a, e) ↦ rw e (refl, omega arith)
    | inr (x, e) ↦ rw e (refl, omega arith)
  ]

  list-IsQuiet :
      (w : World D K) (query : PagingRequest) → IsQuiet w (get_user_list cache lib query w).1
  unfolding get_user_list new_paging_response
  list-IsQuiet w query =
      elim (Result-cases
        (orm.find_and_count (lib.by_email query) (skip query) query.page_size w.db).0) [
          | inl (a, e) ↦ rw e (refl, omega arith)
          | inr (x, e) ↦ rw e (refl, omega arith)
        ]

  -- Every event is quiet, unless it is a getProfile that reads the database.
  pub apply-cases :
      (e : Event cache lib) (u : World D K)
      → IsQuiet u (apply cache lib e u)
        ⊎ ((j : String) × (r : Option E) × (apply cache lib e u ≡ asked j u) × Reads j r u)
  apply-cases (ask j) u = elim (ask-cases j u) [
    | inl quiet ↦ inl (rw (get_profile-asked j u) quiet)
    | inr (r, reads) ↦ inr (j, r, get_profile-asked j u, reads)
  ]
  apply-cases (list query) u = inl (list-IsQuiet u query)
  apply-cases (update id body file) u = inl (update-IsQuiet u id body file)
  apply-cases (remove id) u = inl (refl, omega arith)
  apply-cases (pause ms) u = inl (refl, omega arith)
  apply-cases (outside change) u = inl (refl, omega arith)
