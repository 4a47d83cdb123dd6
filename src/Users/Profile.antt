-- ===== src/Users/Profile.antt =====
-- How old an answer of getProfile (module/user/user.service.ts) can be.
use codebase_be_nestjs.Common.{
  ℕ, ◌+◌, ◌≤◌, ◌==◌, String, ◌≡◌, sym, ap, ◌∙◌, Option, none, some, arith, inl, inr, Option-cases,
  Bool-cases, eq_iff,
}
use codebase_be_nestjs.Common.Effect.{ok, Result-cases, err≢ok, ok_inj}
use codebase_be_nestjs.Sql.{TypeOrm}
use codebase_be_nestjs.Users.{
  QueryCache, World, UserLibrary, cache_key_for_profile, get_profile, Event, apply, Run, start,
  after, Passed, here, earlier,
}
use codebase_be_nestjs.Users.Cached.{
  key-ne, asked, recalled, Reads, IsQuiet, apply-cases, get_profile-hit, get_profile-miss, answered,
  some≢none,
}

module _ {D E C U I K File : Type 0} {orm : TypeOrm D E C U I} (cache : QueryCache orm K)
    (lib : UserLibrary E C File) where
  -- What the database held, at most 20 seconds before `t`, in a world of the run.
  pub record Held {w u : World D K} (run : Run cache lib w u) (id : String) (t : ℕ) (r : Option E)
      : Type 0 where
    pub world : World D K
    pub passed : Passed cache lib u run world
    pub found : (orm.find_one (lib.by_id id) world.db).0 ≡ ok r
    pub age : t ≤ world.now + 20000

  abbrev IsRecent : {w u : World D K} → Run cache lib w u → Type 0
  IsRecent {w} {u} run =
      (id : String) (t : ℕ) (r : Option E)
      → u.now ≤ t
      → recalled cache lib u t id ≡ some r
      → Held run id t r

  Held-earlier :
      {w u : World D K} {run : Run cache lib w u} (e : Event cache lib) {id : String} {t : ℕ}
      {r : Option E}
      → Held run id t r
      → Held (after run e) id t r
  Held-earlier e h = record {
    world = h.world;
    passed = earlier {e = e} h.passed;
    found = h.found;
    age = h.age;
  }

  IsQuiet-Held :
      {w u : World D K} (run : Run cache lib w u) (e : Event cache lib)
      → IsQuiet cache lib u (apply cache lib e u)
      → IsRecent run
      → IsRecent (after run e)
  IsQuiet-Held run e quiet recent id t r le h = Held-earlier e (
      recent id t r (omega (arith, quiet, le))
        (ap (λ k. cache.recall k t (cache_key_for_profile id)) (sym quiet.0) ∙ h))

  -- A result that getProfile has just read.
  Reads-Held :
      {w u : World D K} (run : Run cache lib w u) (j : String) (a r : Option E) (id : String)
      (t : ℕ)
      → Reads cache lib j a u
      → IsRecent run
      → u.now ≤ t
      → recalled cache lib (asked cache lib j u) t id ≡ some r
      → Held run id t r
  Reads-Held {u = u} run j a r id t (miss, found) recent le h = elim (Bool-cases (j == id)) [
    | inl e ↦
        let j_id = (eq_iff j id).0 e in
        let (same, age) =
          cache.forgotten (lib.by_id j) (cache_key_for_profile j) 20000 u.now u.db u.cache t miss
            found le (ap (λ i. recalled cache lib (asked cache lib j u) t i) j_id ∙ h) in
        record {
          world = u;
          passed = here;
          found =
              ap (λ i. (orm.find_one (lib.by_id i) u.db).0) (sym j_id) ∙ found ∙ ap ok (sym same);
          age = age;
        }
    | inr e ↦ recent id t r le (
        sym (
          cache.others _ _ _ _ _ _ t _ (key-ne j id (λ same. ground (arith, e, eq_iff j id, same))))
        ∙ h)
  ]

  Run-Held :
      {w u : World D K} (run : Run cache lib w u)
      → ((id : String) (t : ℕ) → recalled cache lib w t id ≡ none)
      → IsRecent run
  Run-Held start cold id t r le h = absurd (some≢none (sym h ∙ cold id t))
  Run-Held (after {u = u} run e) cold id t r le h = elim (apply-cases cache lib e u) [
    | inl quiet ↦ IsQuiet-Held run e quiet (Run-Held run cold) id t r le h
    | inr (j, a, same, reads) ↦ Held-earlier e (
        Reads-Held run j a r id t reads (Run-Held run cold) (rw same at le)
          (sym (ap (λ v. recalled cache lib v t id) same) ∙ h))
  ]

  -- From a cache with no profiles on, in any run of getProfile, getUserList, updateProfile,
  -- removeUser, passing time and changes of the database from elsewhere: what getProfile answers
  -- with is what the database held for that identifier in a world that the run passed at most 20
  -- seconds before, the last included.
  pub get_profile-recent :
      {w u : World D K} (run : Run cache lib w u) (id : String) {a : lib.Profile}
      → ((id : String) (t : ℕ) → recalled cache lib w t id ≡ none)
      → (get_profile cache lib id u).0 ≡ ok a
      → (r : Option E) × (a ≡ lib.to_profile r) × Held run id u.now r
  get_profile-recent {u = u} run id cold h = elim (Option-cases (recalled cache lib u u.now id)) [
    | inr (r, hit) ↦ (
      r,
      ok_inj (sym h ∙ ap (λ p. p.0) (get_profile-hit cache lib id u r hit)),
      Run-Held run cold id u.now r (omega arith) hit,
    )
    | inl miss ↦ elim (Result-cases (orm.find_one (lib.by_id id) u.db).0) [
      | inl (r, found) ↦
          let e = get_profile-miss cache lib id u miss ∙ ap (answered lib.to_profile) found in
          (
            r,
            ok_inj (sym h ∙ e),
            record { world = u; passed = here; found = found; age = omega arith },
          )
      | inr (x, failed) ↦ absurd (
          err≢ok (
            sym (ap (answered lib.to_profile) failed)
            ∙ sym (get_profile-miss cache lib id u miss)
            ∙ h))
    ]
  ]
