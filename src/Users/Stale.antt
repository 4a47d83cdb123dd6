-- ===== src/Users/Stale.antt =====
-- Updates and removals in module/user/user.service.ts do not reach what getProfile answers until 20
-- seconds have passed.
use codebase_be_nestjs.Common.{
  ℕ, ◌+◌, ◌≤◌, ◌<◌, ◌==◌, String, ◌≡◌, sym, ap, ◌∙◌, Option, none, some, arith, inl, inr,
  Bool-cases, eq_iff,
}
use codebase_be_nestjs.Common.Effect.{ok, Result-cases, err≢ok}
use codebase_be_nestjs.Sql.{TypeOrm}
use codebase_be_nestjs.Users.{
  QueryCache, World, UserLibrary, cache_key_for_profile, get_profile, apply, Run, start, after,
}
use codebase_be_nestjs.Users.Cached.{
  key-ne, asked, recalled, Reads, IsQuiet, apply-cases, get_profile-hit, get_profile-miss,
  get_profile-asked, answered, some≢none,
}

module _ {D E C U I K File : Type 0} {orm : TypeOrm D E C U I} (cache : QueryCache orm K)
    (lib : UserLibrary E C File) (id : String) (r : Option E) (end : ℕ) where
  abbrev IsKept : World D K → Type 0
  IsKept u = (t : ℕ) → u.now ≤ t → t < end → recalled cache lib u t id ≡ some r

  IsQuiet-IsKept : (u v : World D K) → IsQuiet cache lib u v → IsKept u → IsKept v
  IsQuiet-IsKept u v quiet kept t le lt =
      ap (λ k. cache.recall k t (cache_key_for_profile id)) quiet.0
      ∙ kept t (omega (arith, quiet, le)) lt

  -- Only a profile of another identifier can be read meanwhile.
  Reads-IsKept :
      (u : World D K) (j : String) (a : Option E)
      → Reads cache lib j a u
      → IsKept u
      → IsKept (asked cache lib j u)
  Reads-IsKept u j a (miss, found) kept t le lt = elim (Bool-cases (j == id)) [
    | inl e ↦ absurd (
        some≢none (
          sym (kept u.now (omega arith) (omega (arith, le, lt)))
          ∙ ap (recalled cache lib u u.now) (sym ((eq_iff j id).0 e))
          ∙ miss))
    | inr e ↦
        cache.others _ _ _ _ _ _ t _ (key-ne j id (λ same. ground (arith, e, eq_iff j id, same)))
        ∙ kept t le lt
  ]

  Run-IsKept : {w u : World D K} → Run cache lib w u → IsKept w → IsKept u
  Run-IsKept start kept = kept
  Run-IsKept (after {u = u} run e) kept = elim (apply-cases cache lib e u) [
    | inl quiet ↦ IsQuiet-IsKept u (apply cache lib e u) quiet (Run-IsKept run kept)
    | inr (j, a, same, reads) ↦ rw same (Reads-IsKept u j a reads (Run-IsKept run kept))
  ]

module _ {D E C U I K File : Type 0} {orm : TypeOrm D E C U I} (cache : QueryCache orm K)
    (lib : UserLibrary E C File) where
  -- If getProfile has read a profile from the database, then in any run from there that has not
  -- reached 20 seconds, whatever profile is updated or removed in it, getProfile of that
  -- identifier returns the same answer and changes nothing.
  pub get_profile_again :
      (w : World D K) (id : String) {a : lib.Profile} {u : World D K}
      → recalled cache lib w w.now id ≡ none
      → (get_profile cache lib id w).0 ≡ ok a
      → Run cache lib (get_profile cache lib id w).1 u
      → u.now < w.now + 20000
      → get_profile cache lib id u ≡ (ok a, u)
  get_profile_again w id {a} {u} miss h run lt =
      elim (Result-cases (orm.find_one (lib.by_id id) w.db).0) [
        | inr (x, failed) ↦ absurd (
            err≢ok (
              sym (ap (answered lib.to_profile) failed)
              ∙ sym (get_profile-miss cache lib id w miss)
              ∙ h))
        | inl (r, found) ↦
            let answer =
              sym h ∙ get_profile-miss cache lib id w miss ∙ ap (answered lib.to_profile) found in
            let first : IsKept cache lib id r (w.now + 20000) (get_profile cache lib id w).1 =
              rw (get_profile-asked cache lib id w)
                (λ t le lt. cache.kept _ _ _ _ _ _ t miss found le lt) in
            let kept = Run-IsKept cache lib id r (w.now + 20000) run first in
            get_profile-hit cache lib id u r (kept u.now (omega arith) lt)
            ∙ ap (λ b. (b, u)) (sym answer)
      ]
