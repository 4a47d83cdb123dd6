-- ===== src/Sql/Atomic.antt =====
-- The transactions of db-example/sql-service/common-abstract-sql-service.ts and of
-- module/user/user.service.ts.
use codebase_be_nestjs.Common.{ℕ, String, ◌≡◌, refl, sym, ap, ◌∙◌, true, false, some, inl, inr}
use codebase_be_nestjs.Common.Effect.{
  Exception, Exec, Result, ok, err, pure, continue, ◌>>=◌, Result-cases,
}
use codebase_be_nestjs.Sql.{
  TypeOrm, merge_transaction, sql_insert, update_rows, delete_rows, update_profile, remove_user,
}

-- The state after a run that may throw: the old one if it threw.
abbrev kept : {A D : Type 0} → D → Result A × D → D
kept s (ok a, s') = s'
kept s (err e, s') = s

module _ {D E C U I : Type 0} (orm : TypeOrm D E C U I) where
  merge_transaction-kept :
      {A : Type 0} (m : Exec D A) (s : D)
      → merge_transaction orm false m s ≡ ((m s).0, kept s (m s))
  unfolding merge_transaction
  merge_transaction-kept m s = elim (Result-cases (m s).0) [
    | inl (a, h) ↦
        orm.transaction_ok m s (m s).1 a (ap (λ x. (x, (m s).1)) h)
        ∙ ap (λ x. (x, kept s (x, (m s).1))) (sym h)
    | inr (e, h) ↦
        orm.transaction_err m s (m s).1 e (ap (λ x. (x, (m s).1)) h)
        ∙ ap (λ x. (x, kept s (x, (m s).1))) (sym h)
  ]

  then_pure :
      {A R : Type 0} (f : A → R) (r : Result A) (s : D) → (continue r (λ a. pure (f a)) s).1 ≡ s
  then_pure f (ok a) s = refl
  then_pure f (err e) s = refl

  -- After updateProfile with an uploaded file the database is the one that the update of the rows
  -- left if that returned, and the old one if it threw, even if rows were written before.
  update_profile-atomic :
      {R : Type 0} (by_id : String → C) (to_response : ℕ → R) (id : String) (body : U)
      (file : String) (s : D)
      → (update_profile orm by_id to_response id body (some file) s).1
        ≡ kept s (update_rows orm (by_id id) body s)
  unfolding update_profile
  update_profile-atomic by_id to_response id body file s =
      ap (λ p. (continue p.0 (λ a. pure (to_response a)) p.1).1)
        (merge_transaction-kept (update_rows orm (by_id id) body) s)
      ∙ then_pure to_response (update_rows orm (by_id id) body s).0 _

  remove_user-atomic :
      {R : Type 0} (by_id : String → C) (to_response : ℕ → R) (id : String) (s : D)
      → (remove_user orm by_id to_response id s).1 ≡ kept s (delete_rows orm (by_id id) s)
  unfolding remove_user
  remove_user-atomic by_id to_response id s =
      ap (λ p. (continue p.0 (λ a. pure (to_response a)) p.1).1)
        (merge_transaction-kept (delete_rows orm (by_id id)) s)
      ∙ then_pure to_response (delete_rows orm (by_id id) s).0 _

  -- If two sqlInsert inside a transaction that mergeTransaction starts end with an error, the
  -- transaction throws it and the database is the old one: the first insert is not kept without
  -- the second.
  sql_insert-together :
      (a b : E) (s s' : D) (e : Exception)
      → (sql_insert orm true a >>= λ _. sql_insert orm true b) s ≡ (err e, s')
      → merge_transaction orm false (sql_insert orm true a >>= λ _. sql_insert orm true b) s
        ≡ (err e, s)
  sql_insert-together a b s s' e h =
      merge_transaction-kept (sql_insert orm true a >>= λ _. sql_insert orm true b) s
      ∙ ap (λ p. (p.0, kept s p)) h
