-- ===== src/Sql.antt =====
-- core/entity/base-sql-service.ts, db-example/sql-service/common-abstract-sql-service.ts, the user
-- repository, and module/user/user.service.ts over it.
pub mod Atomic
use codebase_be_nestjs.Common.{ℕ, zero, String, ◌≡◌, Bool, true, false, Option, none, some, List}
use codebase_be_nestjs.Common.Effect.{Exception, error, Exec, ok, err, pure, raise, ◌>>=◌}
use codebase_be_nestjs.Dto.Paging.{PagingRequest, PagingResponse, skip, new_paging_response}

-- What TypeORM does on a database `D` of entities `E`, with conditions `C`, updates `U` and
-- identifiers `I`. A transaction keeps what it did if it returns, and undoes it if it throws.
pub record TypeOrm (D E C U I : Type 0) : Type 1 where
  pub transaction : {A : Type 0} → Exec D A → Exec D A
  pub find_one : C → Exec D (Option E)
  pub find : C → Exec D (List E)
  pub find_and_count : C → (skip take : ℕ) → Exec D (List E × ℕ)
  pub save : E → Exec D I
  -- `affected`, which may be undefined
  pub update : C → U → Exec D (Option ℕ)
  pub upsert : E → List String → Exec D I
  pub count : C → Exec D ℕ
  pub soft_delete : C → Exec D (Option ℕ)
  pub transaction_ok :
      {A : Type 0} (m : Exec D A) (s s' : D) (a : A)
      → m s ≡ (ok a, s')
      → transaction m s ≡ (ok a, s')
  pub transaction_err :
      {A : Type 0} (m : Exec D A) (s s' : D) (e : Exception)
      → m s ≡ (err e, s')
      → transaction m s ≡ (err e, s)

-- `affected ?? 0`
abbrev pub or_zero : Option ℕ → ℕ
or_zero none = 0
or_zero (some n) = n

module _ {D E C U I : Type 0} (orm : TypeOrm D E C U I) where
  -- `manager.queryRunner?.isTransactionActive`
  unfoldable pub merge_transaction : {A : Type 0} → (active : Bool) → Exec D A → Exec D A
  merge_transaction true run = run
  merge_transaction false run = orm.transaction run

  abbrev pub sql_find_one : C → Exec D (Option E)
  sql_find_one find_condition = orm.find_one find_condition

  abbrev pub sql_find : C → Exec D (List E)
  sql_find find_condition = orm.find find_condition

  abbrev pub sql_insert : Bool → E → Exec D I
  sql_insert active data_create = merge_transaction active (orm.save data_create)

  abbrev pub update_rows : C → U → Exec D ℕ
  update_rows find_condition data_update =
      orm.update find_condition data_update >>= λ affected. pure (or_zero affected)

  abbrev pub sql_update : Bool → C → U → Exec D ℕ
  sql_update active find_condition data_update =
      merge_transaction active (update_rows find_condition data_update)

  abbrev pub sql_upsert : Bool → E → List String → Exec D I
  sql_upsert active data_create conflict_options =
      merge_transaction active (orm.upsert data_create conflict_options)

  abbrev pub sql_count : C → Exec D ℕ
  sql_count find_condition = orm.count find_condition

  abbrev pub delete_rows : C → Exec D ℕ
  delete_rows find_condition =
      orm.soft_delete find_condition >>= λ affected. pure (or_zero affected)

  abbrev pub sql_soft_delete : Bool → C → Exec D ℕ
  sql_soft_delete active find_condition = merge_transaction active (delete_rows find_condition)

  -- UserRepository.findAndCount
  abbrev pub repository_find_and_count : C → ℕ → ℕ → Exec D (List E × ℕ)
  repository_find_and_count find_condition n size = orm.find_and_count find_condition n size

  module _ (by_id : String → C) where
    -- The name of the uploaded file is logged first, which throws without a file.
    unfoldable pub update_profile : {R : Type 0} → (ℕ → R) → String → U → Option String → Exec D R
    update_profile to_response id body none = raise (error "TypeError")
    update_profile to_response id body (some original_name) =
        sql_update false (by_id id) body >>= λ rows. pure (to_response rows)

    unfoldable pub remove_user : {R : Type 0} → (ℕ → R) → String → Exec D R
    remove_user to_response id =
        sql_soft_delete false (by_id id) >>= λ rows. pure (to_response rows)
