-- ===== src/AuthSession/Lifetime.antt =====
-- Saving an authenticated session again: the calls of super.addSession in
-- core/auth-gateway/auth-session.service.ts.
use codebase_be_nestjs.Common.{
  ℕ, zero, suc, ◌⊎◌, false, ◌+◌, ◌-◌, ◌*◌, ◌/◌, ◌≤◌, ◌<◌, String, ◌==◌, ◌≡◌, refl, ap, ◌∙◌, none,
  some, val, arith, leb, Bool-cases, inl, inr, ltb, eq_refl, lt→ltb, if◌then◌else◌,
}
use codebase_be_nestjs.Common.Int.{pos, negsuc, sub_ℕ}
use codebase_be_nestjs.Common.Effect.{Result, ok, err, error}
use codebase_be_nestjs.Shared.SessionType.{JwtSession}
use codebase_be_nestjs.Shared.Session.{BaseJwtSession, stamp_session, stored_session}
use codebase_be_nestjs.Redis.Server.{Server, Seconds, NotPositive}
use codebase_be_nestjs.Redis.Storage.{World}
use codebase_be_nestjs.Session.{expiry, get_session_value, clear_session}
use codebase_be_nestjs.Session.Laws.{
  at_time, answer, get_session_value_unchanged, add_session-ok, add_session-refused,
  get-add_session, get-clear_session,
}
use codebase_be_nestjs.AuthSession.{auth_session_service, time_left, save, load}

-- The millisecond at which a session that is saved at `now` goes away, if it ends at second `e`.
abbrev pub end_of : ℕ → ℕ → ℕ
end_of now e = now + 1000 * (e - now / 1000)

-- The end is within a second of the one that the session carries.
pub end_of_bounds :
    (now e : ℕ) → now / 1000 < e → (1000 * e ≤ end_of now e) × (end_of now e < 1000 * e + 1000)
end_of_bounds now e h = omega arith

pub end_of_after : (now e : ℕ) → now / 1000 < e → now < end_of now e
end_of_after now e h = omega arith

sub_ℕ-NotPositive : (a b : ℕ) → a ≤ b → NotPositive (some (sub_ℕ a b))
sub_ℕ-NotPositive a b h = elim (Bool-cases (leb b a)) [
  | inl e ↦ rw (e, sub-zero a b h) tt
  | inr e ↦ rw e tt
]
  where
    sub-zero : (a b : ℕ) → a ≤ b → a - b ≡ 0
    sub-zero a b h = omega arith

sub-pos : (a b : ℕ) → b < a → a - b ≡ suc (a - b - 1)
sub-pos a b h = omega arith

-- The session as it is read back.
abbrev pub saved : ℕ → BaseJwtSession → BaseJwtSession
saved now session =
    stored_session
      (stamp_session (expiry now (time_left now session)) (val (pos (now / 1000))) session)

abbrev pub no_session : Result BaseJwtSession
no_session = answer auth_session_service none

-- Reading changes nothing.
pub load-unchanged :
    {r : Server} (type : JwtSession) (key : String) (w : World r) {x : Result BaseJwtSession}
    → (load type key w).0 ≡ x
    → load type key w ≡ (x, w)
unfolding load
load-unchanged type key w h = get_session_value_unchanged auth_session_service type key w h

module _ {r : Server} (w : World r) (type : JwtSession) (key : String)
    (session : BaseJwtSession) where
  module _ (e : ℕ) (exp : session.exp ≡ val (pos e)) where
    time_left-lem :
        w.now / 1000 < e → time_left w.now session ≡ some (pos (suc (e - w.now / 1000 - 1)))
    time_left-lem h = rw exp (ground arith)

    time_left-NotPositive : e ≤ w.now / 1000 → NotPositive (time_left w.now session)
    time_left-NotPositive h = rw exp (sub_ℕ-NotPositive e (w.now / 1000) h)

    -- The rest of a life that has seconds left is a positive expiry, so saving works.
    pub save-ok : w.now / 1000 < e → (save type key session w).0 ≡ ok session
    unfolding save
    save-ok h = rw (
      time_left-lem h,
      add_session-ok auth_session_service type w key (e - w.now / 1000 - 1) session,
    )

    pub load-save :
        w.now / 1000 < e
        → (t : ℕ) (j : String) → w.now ≤ t
        → (load type j (at_time (save type key session w).1 t)).0 ≡ (
            if key == j
            then (if ltb t (end_of w.now e) then ok (saved w.now session) else no_session)
            else (load type j (at_time w t)).0)
    unfolding save load
    load-save h t j le = rw (
      time_left-lem h,
      get-add_session auth_session_service type w key (e - w.now / 1000 - 1) session t j le,
      ← sub-pos e (w.now / 1000) h,
    )

    pub now-save : w.now / 1000 < e → (save type key session w).1.now ≡ w.now
    unfolding save
    now-save h =
        rw
          (
            time_left-lem h,
            add_session-ok auth_session_service type w key (e - w.now / 1000 - 1) session,
          )
          refl

    -- A session that was just saved is read back.
    pub load-save_self :
        w.now / 1000 < e
        → load type key (save type key session w).1
          ≡ (ok (saved w.now session), (save type key session w).1)
    load-save_self h = load-unchanged type key (save type key session w).1 (
        ap (λ n. (load type key (at_time (save type key session w).1 n)).0) (now-save h)
        ∙ load-save h w.now key (omega arith)
        ∙ rw (eq_refl key, lt→ltb w.now (end_of w.now e) (end_of_after w.now e h)) refl)

    pub save-refused : e ≤ w.now / 1000 → save type key session w ≡ (err (error "ReplyError"), w)
    unfolding save
    save-refused h =
        add_session-refused auth_session_service type w key (time_left w.now session) session
          (time_left-NotPositive h)

-- After a session is cleared.
pub load-clear_session :
    {r : Server} (type : JwtSession) (w : World r) (key : String) (t : ℕ) (j : String)
    → (load type j (at_time (clear_session auth_session_service type key w).1 t)).0
      ≡ (if key == j then no_session else (load type j (at_time w t)).0)
unfolding load
load-clear_session type w key t j = get-clear_session auth_session_service type w key t j

pub Seconds-cases : (n : Seconds) → NotPositive n ⊎ ((k : ℕ) × (n ≡ some (pos (suc k))))
Seconds-cases none = inl tt
Seconds-cases (some (pos zero)) = inl tt
Seconds-cases (some (pos (suc k))) = inr (k, refl)
Seconds-cases (some (negsuc k)) = inl tt

-- Whatever the life of the session that is saved.
module _ {r : Server} (w : World r) (type : JwtSession) (key : String)
    (session : BaseJwtSession) where
  pub save-now : (save type key session w).1.now ≡ w.now
  unfolding save
  save-now = elim (Seconds-cases (time_left w.now session)) [
    | inl refused ↦
        ap (λ p. p.1.now)
          (add_session-refused auth_session_service type w key (time_left w.now session) session
            refused)
    | inr (k, e) ↦ rw (e, add_session-ok auth_session_service type w key k session) refl
  ]

  pub load-save_elsewhere :
      (t : ℕ) (j : String)
      → w.now ≤ t
      → (key == j) ≡ false
      → (load type j (at_time (save type key session w).1 t)).0 ≡ (load type j (at_time w t)).0
  unfolding save load
  load-save_elsewhere t j le different = elim (Seconds-cases (time_left w.now session)) [
    | inl refused ↦
        ap (λ p. (get_session_value auth_session_service type j (at_time p.1 t)).0)
          (add_session-refused auth_session_service type w key (time_left w.now session) session
            refused)
    | inr (k, e) ↦
        rw (e, get-add_session auth_session_service type w key k session t j le, different) refl
  ]
