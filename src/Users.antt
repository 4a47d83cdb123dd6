-- ===== src/Users.antt =====
-- module/user: user.service.ts over the database and the query cache that app.module.ts sets up, and
-- the routes of user.controller.ts.
pub mod Cached
pub mod Profile
pub mod Stale
use codebase_be_nestjs.Common.{ℕ, ◌+◌, ◌≤◌, ◌<◌, String, ◌≡◌, ◌≢◌, Option, none, some, map}
use codebase_be_nestjs.Common.Effect.{Exception, Exec, Result, ok, err, pure, ◌>>=◌}
use codebase_be_nestjs.Common.Text.{◌<>◌}
use codebase_be_nestjs.Dto.Paging.{PagingRequest, PagingResponse, skip, new_paging_response}
use codebase_be_nestjs.Sql.{TypeOrm, repository_find_and_count}
use codebase_be_nestjs.Sql

-- TypeORM's cache of query results, in a store `K` beside the database. A query with a cache
-- identifier and a duration answers with the result that is recalled under the identifier, or reads
-- the database and keeps what it read for the duration, which both leave the database as it is.
pub record QueryCache {D E C U I : Type 0} (orm : TypeOrm D E C U I) (K : Type 0) : Type 0 where
  pub recall : K → (now : ℕ) → (id : String) → Option (Option E)
  pub find_one_cached : C → (id : String) → (milliseconds now : ℕ) → D → K → Result (Option E) × K
  pub hit :
      (c : C) (id : String) (ms now : ℕ) (d : D) (k : K) {r : Option E}
      → recall k now id ≡ some r
      → find_one_cached c id ms now d k ≡ (ok r, k)
  pub miss :
      (c : C) (id : String) (ms now : ℕ) (d : D) (k : K)
      → recall k now id ≡ none
      → (find_one_cached c id ms now d k).0 ≡ (orm.find_one c d).0
  pub failed :
      (c : C) (id : String) (ms now : ℕ) (d : D) (k : K) {e : Exception}
      → recall k now id ≡ none
      → (orm.find_one c d).0 ≡ err e
      → (find_one_cached c id ms now d k).1 ≡ k
  -- What was read is recalled for the duration, and neither anything else nor later.
  pub kept :
      (c : C) (id : String) (ms now : ℕ) (d : D) (k : K) {r : Option E} (t : ℕ)
      → recall k now id ≡ none
      → (orm.find_one c d).0 ≡ ok r
      → now ≤ t
      → t < now + ms
      → recall (find_one_cached c id ms now d k).1 t id ≡ some r
  pub forgotten :
      (c : C) (id : String) (ms now : ℕ) (d : D) (k : K) {r r' : Option E} (t : ℕ)
      → recall k now id ≡ none
      → (orm.find_one c d).0 ≡ ok r
      → now ≤ t
      → recall (find_one_cached c id ms now d k).1 t id ≡ some r'
      → (r' ≡ r) × (t ≤ now + ms)
  pub others :
      (c : C) (id : String) (ms now : ℕ) (d : D) (k : K) (t : ℕ) (j : String)
      → id ≢ j
      → recall (find_one_cached c id ms now d k).1 t j ≡ recall k t j

-- The database, the store of the cache, and the time in milliseconds.
pub record World (D K : Type 0) : Type 0 where
  pub db : D
  pub cache : K
  pub now : ℕ

-- What the service and the controller take from elsewhere: the conditions `{ where: { id } }` and
-- `{ where: { email }, order }`, plainToInstance, and the ParseFilePipe of the upload with its
-- validators, which lets a request without a file pass since none is required.
pub record UserLibrary (E C File : Type 0) : Type 1 where
  pub Profile : Type 0
  pub Item : Type 0
  pub Affected : Type 0
  pub by_id : String → C
  pub by_email : PagingRequest → C
  pub to_profile : Option E → Profile
  pub to_item : E → Item
  pub to_affected : ℕ → Affected
  pub original_name : File → String
  pub parse_file : Option File → Result (Option File)
  pub parse_file_none : parse_file none ≡ ok none

-- cacheKeyForProfile
abbrev pub cache_key_for_profile : String → String
cache_key_for_profile id = "profile:" <> id

-- A method that does not use the cache.
abbrev pub on_db : {D K A : Type 0} → Exec D A → Exec (World D K) A
on_db run w = let (r, d) = run w.db in (r, record w { db = d })

-- sqlFindOne with a `cache`
abbrev pub sql_find_one_cached :
    {D E C U I K : Type 0} {orm : TypeOrm D E C U I}
    → QueryCache orm K
    → C
    → String
    → ℕ
    → Exec (World D K) (Option E)
sql_find_one_cached cache find_condition id milliseconds w =
    let (r, k) = cache.find_one_cached find_condition id milliseconds w.now w.db w.cache in
    (r, record w { cache = k })

module _ {D E C U I K File : Type 0} {orm : TypeOrm D E C U I} (cache : QueryCache orm K)
    (lib : UserLibrary E C File) where
  abbrev pub get_user_list : PagingRequest → Exec (World D K) (PagingResponse lib.Item)
  unfolding new_paging_response
  get_user_list query = do
    found ← on_db (repository_find_and_count orm (lib.by_email query) (skip query) query.page_size)
    pure (new_paging_response (map lib.to_item found.0) query.page found.1 query.page_size)

  unfoldable pub get_profile : String → Exec (World D K) lib.Profile
  get_profile id = do
    user ← sql_find_one_cached cache (lib.by_id id) (cache_key_for_profile id) 20000
    pure (lib.to_profile user)

  abbrev parsed : Option File → Exec (World D K) (Option File)
  parsed file w = (lib.parse_file file, w)

  abbrev name_of : Option File → Option String
  name_of none = none
  name_of (some file) = some (lib.original_name file)

  -- The route of updateProfile: the pipe, then the service.
  abbrev pub update_profile : String → U → Option File → Exec (World D K) lib.Affected
  update_profile id body file = do
    file ← parsed file
    on_db (Sql.update_profile orm lib.by_id lib.to_affected id body (name_of file))

  abbrev pub remove_user : String → Exec (World D K) lib.Affected
  remove_user id = on_db (Sql.remove_user orm lib.by_id lib.to_affected id)

  -- What happens beside getProfile's answers: a request, time that passes, or a change of the
  -- database from elsewhere.
  pub data Event : Type 0 where
    ask : String → Event
    list : PagingRequest → Event
    update : String → U → Option File → Event
    remove : String → Event
    pause : ℕ → Event
    outside : (D → D) → Event

  abbrev pub apply : Event → World D K → World D K
  apply (ask id) w = (get_profile id w).1
  apply (list query) w = (get_user_list query w).1
  apply (update id body file) w = (update_profile id body file w).1
  apply (remove id) w = (remove_user id w).1
  apply (pause ms) w = record w { now = w.now + ms }
  apply (outside change) w = record w { db = change w.db }

  -- A run, and the worlds that it passed.
  pub data Run (w : World D K) : World D K → Type 0 where
    start : Run w w
    after : {u : World D K} → Run w u → (e : Event) → Run w (apply e u)

  pub data Passed {w : World D K} : (u : World D K) → Run w u → World D K → Type 0 where
    here : {u : World D K} {run : Run w u} → Passed u run u
    earlier :
        {u v : World D K} {run : Run w u} {e : Event}
        → Passed u run v
        → Passed (apply e u) (after run e) v
