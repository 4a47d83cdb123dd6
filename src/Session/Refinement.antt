-- ===== src/Session/Refinement.antt =====
-- What core/session/session.service.ts promises its clients: a map from identifiers to values that
-- go away at their time. The operations of the service answer as those of the map.
use codebase_be_nestjs.Common.{
  ℕ, zero, suc, ◌+◌, ◌*◌, ◌/◌, ◌≤◌, String, ◌==◌, ◌≡◌, refl, sym, ap, ◌∙◌, Option, none, some, List,
  [], ◌∷◌, val, arith, ltb, if◌then◌else◌, Bool-cases, inl, inr,
}
use codebase_be_nestjs.Common.Int.{pos, negsuc}
use codebase_be_nestjs.Common.Effect.{Result, ok, err, error, pure, continue, ◌>>=◌}
use codebase_be_nestjs.Shared.SystemCode.{unauthorized_exception}
use codebase_be_nestjs.Shared.SessionType.{JwtSession}
use codebase_be_nestjs.Redis.Server.{Server, Seconds, NotPositive, StoredText}
use codebase_be_nestjs.Redis.Storage.{World}
use codebase_be_nestjs.Session.{
  SessionService, expiry, add_session, get_session_value, clear_session,
}
use codebase_be_nestjs.Session.Laws.{
  at_time, answer, serialized, add_session-ok, add_session-refused, get_session_value_lem,
  get-add_session, get-clear_session,
}

-- What a client does; `wait` lets milliseconds pass.
pub data Operation (V : Type 0) : Type 0 where
  add : String → Seconds → V → Operation V
  read : String → Operation V
  clear : String → Operation V
  wait : ℕ → Operation V

-- The answer to an operation, with the value of those that return one.
abbrev pub Answer : Type 0 → Type 0
Answer V = Result (Option V)

-- The map: the values with the millisecond at which they go away, and the time.
pub record Timed (V : Type 0) : Type 0 where
  pub now : ℕ
  pub entries : String → Option (V × ℕ)

module _ {V : Type 0} where
  abbrev pub live : Option (V × ℕ) → ℕ → Result V
  live none t = err (unauthorized_exception "Failed to get session value")
  live (some (v, end)) t =
      if ltb t end then ok v else err (unauthorized_exception "Failed to get session value")

  abbrev pub put : String → Option (V × ℕ) → Timed V → Timed V
  put id entry m = record m { entries = λ j. if id == j then entry else m.entries j }

  abbrev pub some_value : Result V → Answer V
  some_value (ok v) = ok (some v)
  some_value (err e) = err e

module _ {V : Type 0} (service : SessionService V) (stored : V → V) where
  abbrev pub stamped : ℕ → ℕ → V → V
  stamped now n value =
      stored (service.stamp (expiry now (some (pos (suc n)))) (val (pos (now / 1000))) value)

  -- An operation on the map.
  unfoldable pub promise : Operation V → Timed V → Answer V × Timed V
  promise (add id (some (pos (suc n))) value) m =
      (ok (some value), put id (some (stamped m.now n value, m.now + 1000 * suc n)) m)
  promise (add id (some (pos zero)) value) m = (err (error "ReplyError"), m)
  promise (add id (some (negsuc n)) value) m = (err (error "ReplyError"), m)
  promise (add id none value) m = (err (error "ReplyError"), m)
  promise (read id) m = (some_value (live (m.entries id) m.now), m)
  promise (clear id) m = (ok none, put id none m)
  promise (wait ms) m = (ok none, record m { now = m.now + ms })

  -- The operation of the service.
  unfoldable pub perform : {r : Server} → JwtSession → Operation V → World r → Answer V × World r
  perform type (add id seconds value) w =
      (add_session service type id seconds value >>= λ v. pure (some v)) w
  perform type (read id) w = (get_session_value service type id >>= λ v. pure (some v)) w
  perform type (clear id) w = (clear_session service type id >>= λ _. pure none) w
  perform type (wait ms) w = (ok none, at_time w (w.now + ms))

-- The answers to a list of operations.
abbrev pub answers : {O A S : Type 0} → (O → S → A × S) → List O → S → List A
answers step [] s = []
answers step (o ∷ os) s = let (a, s') = step o s in a ∷ answers step os s'

answer-some :
    {V : Type 0} (service : SessionService V) (text : StoredText) {v : V}
    → service.value_deserializer text ≡ some v
    → answer service (some text) ≡ ok v
answer-some service text h =
    ap
      (λ o. elim o [
        | none ↦ err (unauthorized_exception "Failed to get session value")
        | some value ↦ ok value
      ])
      h

some_value-continue :
    {V S : Type 0} (result : Result V) (s : S)
    → continue result (λ v. pure (some v)) s ≡ (some_value result, s)
some_value-continue (ok v) s = refl
some_value-continue (err e) s = refl

module _ {r : Server} {V : Type 0} (service : SessionService V) (stored : V → V)
    (round : (v : V) → service.value_deserializer (service.value_serializer v) ≡ some (stored v))
    (type : JwtSession) where
  -- The server has what the map has, now and later.
  abbrev pub Simulates : World r → Timed V → Type 0
  Simulates w m =
      (w.now ≡ m.now)
      × ((t : ℕ) (id : String)
          → w.now ≤ t
          → (get_session_value service type id (at_time w t)).0 ≡ live (m.entries id) t)

  abbrev Agree : Operation V → World r → Timed V → Type 0
  Agree o w m =
      ((perform service stored type o w).0 ≡ (promise service stored o m).0)
      × Simulates (perform service stored type o w).1 (promise service stored o m).1

  later-put :
      (id : String) (n : ℕ) (value : V) (w : World r) (m : Timed V) (t : ℕ) (j : String)
      → w.now ≡ m.now
      → (get_session_value service type j (at_time w t)).0 ≡ live (m.entries j) t
      → (if id == j
          then (if ltb t (w.now + 1000 * suc n)
              then answer service (some (serialized service w.now n value))
              else answer service none)
          else (get_session_value service type j (at_time w t)).0)
        ≡ live
            (if id == j
              then some (stamped service stored m.now n value, m.now + 1000 * suc n)
              else m.entries j)
            t
  later-put id n value w m t j now same = elim (Bool-cases (id == j)) [
    | inr e ↦ rw e same
    | inl e ↦
        rw (e, sym now)
          (elim (Bool-cases (ltb t (w.now + 1000 * suc n))) [
            | inr late ↦ rw late refl
            | inl early ↦ rw early (answer-some service _ (round _))
          ])
  ]

  perform-add :
      (id : String) (n : ℕ) (value : V) (w : World r)
      → perform service stored type (add id (some (pos (suc n))) value) w
        ≡ (ok (some value), (add_session service type id (some (pos (suc n))) value w).1)
  unfolding perform
  perform-add id n value w = rw (add_session-ok service type w id n value) refl

  added-Agree :
      (id : String) (n : ℕ) (value : V) (w : World r) (m : Timed V)
      → Simulates w m
      → Agree (add id (some (pos (suc n))) value) w m
  unfolding promise
  added-Agree id n value w m (now, same) =
      let still : (add_session service type id (some (pos (suc n))) value w).1.now ≡ w.now =
        ap (λ p. p.1.now) (add_session-ok service type w id n value) in
      rw (perform-add id n value w) (
        refl,
        (
          still ∙ now,
          λ t j le.
              let le' : w.now ≤ t = omega (arith, still) in
              get-add_session service type w id n value t j le'
              ∙ later-put id n value w m t j now (same t j le'),
        ),
      )

  cleared-Agree : (id : String) (w : World r) (m : Timed V) → Simulates w m → Agree (clear id) w m
  unfolding perform promise clear_session
  cleared-Agree id w m (now, same) = (
    refl,
    (
      now,
      λ t j le.
          get-clear_session service type w id t j
          ∙ elim (Bool-cases (id == j)) [ inl e ↦ rw e refl | inr e ↦ rw e (same t j le) ],
    ),
  )

  read-Agree : (id : String) (w : World r) (m : Timed V) → Simulates w m → Agree (read id) w m
  unfolding perform promise
  read-Agree id w m (now, same) = rw found (refl, (now, same))
    where
      found : perform service stored type (read id) w ≡ (some_value (live (m.entries id) m.now), w)
      found =
          ap (λ p. continue p.0 (λ v. pure (some v)) p.1) (get_session_value_lem service type id w)
          ∙ some_value-continue _ w
          ∙ ap (λ x. (some_value x, w))
              (sym (ap (λ p. p.0) (get_session_value_lem service type id w))
                ∙ same w.now id (omega arith)
                ∙ ap (live (m.entries id)) now)

  waited-Agree : (ms : ℕ) (w : World r) (m : Timed V) → Simulates w m → Agree (wait ms) w m
  unfolding perform promise
  waited-Agree ms w m (now, same) =
      (refl, (ap (λ n. n + ms) now, λ t id le. same t id (omega arith)))

  perform-refused :
      (id : String) (seconds : Seconds) (value : V) (w : World r)
      → NotPositive seconds
      → (perform service stored type (add id seconds value) w ≡ (err (error "ReplyError"), w))
  unfolding perform
  perform-refused id seconds value w h =
      rw (add_session-refused service type w id seconds value h) refl

  Operation-Agree : (o : Operation V) (w : World r) (m : Timed V) → Simulates w m → Agree o w m
  unfolding promise
  Operation-Agree (add id (some (pos (suc n))) value) w m h = added-Agree id n value w m h
  Operation-Agree (add id (some (pos zero)) value) w m h =
      rw (perform-refused id (some (pos zero)) value w tt) (refl, h)
  Operation-Agree (add id (some (negsuc n)) value) w m h =
      rw (perform-refused id (some (negsuc n)) value w tt) (refl, h)
  Operation-Agree (add id none value) w m h = rw (perform-refused id none value w tt) (refl, h)
  Operation-Agree (read id) w m h = read-Agree id w m h
  Operation-Agree (clear id) w m h = cleared-Agree id w m h
  Operation-Agree (wait ms) w m h = waited-Agree ms w m h

  -- For a service whose serialization of each value can be read back: whatever a client does, the
  -- answers of the service are those of the map: if the server has at first what the map has, then
  -- for every list of additions, reads, clearings and waits.
  pub answers-promise :
      (os : List (Operation V)) (w : World r) (m : Timed V)
      → Simulates w m
      → answers (perform service stored type) os w ≡ answers (promise service stored) os m
  answers-promise [] w m h = refl
  answers-promise (o ∷ os) w m h =
      let (same, later) = Operation-Agree o w m h in
      ap (λ a. a ∷ answers (perform service stored type) os (perform service stored type o w).1)
        same
      ∙ ap (λ rest. (promise service stored o m).0 ∷ rest)
          (answers-promise os (perform service stored type o w).1 (promise service stored o m).1
            later)
