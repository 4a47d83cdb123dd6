-- ===== src/Tests/Services.antt =====
-- The Redis commands and the requests to other services on concrete inputs.
use codebase_be_nestjs.Common.{
  ℕ, suc, String, ◌==◌, ◌≡◌, ◌↔◌, refl, Bool, true, false, ◌||◌, none, some, List, [], ◌∷◌,
  if◌then◌else◌,
}
use codebase_be_nestjs.Common.Effect.{Exec, ok}
use codebase_be_nestjs.Redis.Commands.{Commands, flush}
use codebase_be_nestjs.Redis.Namespace.{flush_unchanged}
use codebase_be_nestjs.Dto.Url.{Properties}
use codebase_be_nestjs.Fetch.{
  Dto, FetchRequest, Response, request_of, upload_request_of, call, call_raw, upload,
}
use codebase_be_nestjs.Fetch.Answers.{Answers, AnswersAny, call-Answers}

-- A store of keys; every key that is there holds a plain value.
abbrev member : List String → String → Bool
member [] k = false
member (j ∷ js) k = j == k || member js k

abbrev how_many : List String → List String → ℕ
how_many db [] = 0
how_many db (k ∷ ks) = let rest = how_many db ks in if member db k then suc rest else rest

how_many_one :
    (db : List String) (k : String) → how_many db (k ∷ []) ≡ (if member db k then 1 else 0)
how_many_one db k = refl

abbrev plain_store : Commands
plain_store = record {
  Db = List String;
  has = member;
  set = λ db k v. (some "OK", k ∷ db);
  setnx = λ db k v. if member db k then (0, db) else (1, k ∷ db);
  exists = how_many;
  incr = λ db k. (1, k ∷ db);
  sadd = λ db k members. (1, k ∷ db);
  srem = λ db k members. (0, db);
  smembers = λ db k. [];
  hset = λ db k fields. (1, k ∷ db);
  hget = λ db k field. none;
  hgetall = λ db k. [];
  expire = λ db k seconds. (1, db);
  hincrby = λ db k field n. (n, k ∷ db);
  hdel = λ db k fields. (0, db);
  sscan = λ db k pattern. [];
  unlink = λ db keys. (0, db);
  has-set = λ db k v j. refl;
  exists_one = how_many_one;
  sscan_missing = λ db k pattern h. refl;
}

abbrev stored_keys : List String
stored_keys = "app:a" ∷ "app:b" ∷ []

flush_unchanged_example : flush plain_store "app" stored_keys ≡ (ok true, stored_keys)
flush_unchanged_example = flush_unchanged plain_store "app" stored_keys refl

-- A service that answers every request with a failure, in JSON.
abbrev failing : FetchRequest → Exec ℕ (Response String)
failing request n = (ok (record { is_ok = false; json = some "no" }), suc n)

abbrev profile : Dto
profile = record {
  url = "user/:id";
  method = "GET";
  params = some (("id", some "7") ∷ []);
  query = none;
  body = "";
  fields = some [];
}

call-Answers_example :
    ((call failing (λ j. j) "http://localhost" profile [] 0 ≡ (ok "no", 1))
      ↔ Answers (λ j. j) (failing (request_of "http://localhost" profile []) 0) "no" 1)
    × ((call_raw failing (λ (j : String). j) "http://localhost" profile [] 0 ≡ (ok "no", 1))
        ↔ AnswersAny (λ j. j) (failing (request_of "http://localhost" profile []) 0) "no" 1)
    × ((upload failing (λ (j : String). j) "http://localhost" profile [] [] 0 ≡ (ok "no", 1)) ↔ (
        (fields : Properties) × (some [] ≡ some fields)
        × Answers
            (λ j. j)
            (failing (upload_request_of "http://localhost" profile fields [] []) 0)
            "no"
            1))
call-Answers_example = call-Answers failing (λ j. j) "http://localhost" profile [] 0 1 [] "no" "no"

raw_failure : call_raw failing (λ (j : String). j) "http://localhost" profile [] 0 ≡ (ok "no", 1)
unfolding call_raw
raw_failure = refl
