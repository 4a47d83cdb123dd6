-- ===== src/Response/Codes.antt =====
-- The codes and the statuses of core/interceptor/response.interceptor.ts.
use codebase_be_nestjs.Common.{
  ℕ, ◌≢◌, String, ◌==◌, ◌≡◌, ◌↔◌, refl, Bool, true, false, arith, eq_iff, if◌then◌else◌, Bool-cases,
  inl, inr, eqb,
}
use codebase_be_nestjs.Common.Effect.{http, error}
use codebase_be_nestjs.Shared.SystemCode.{SystemCode, code_text, success, please_throw_system_code}
use codebase_be_nestjs.Redis.Server.{contains}
use codebase_be_nestjs.Response.{
  Handled, value, thrown, detailed, system_codes, code_texts, known_code, code_for, respond,
}

-- What makes a handler's outcome a success: a value, or an HttpException whose message, or the
-- code of whose details, is the text of SUCCESS.
abbrev pub Succeeds : {D : Type 0} → Handled D → Type 0
Succeeds (value x) = Unit {0}
Succeeds (thrown (http code message)) = message ≡ code_text success
Succeeds (thrown (error message)) = ⊥
Succeeds (detailed code d) = d.code ≡ code_text success

literal≢ : {s t : String} → (s == t) ≡ false → s ≢ t
literal≢ {s} {t} different h = absurd (ground (arith, different, (eq_iff s t).1 h))

if-elim : {A : Type 0} (P : A → Type 0) (b : Bool) {x y : A} → P x → P y → P (if b then x else y)
if-elim P true p q = p
if-elim P false p q = q

code_text-success_known : known_code (code_text success) ≡ code_text success
unfolding known_code
code_text-success_known = refl

known_code-success :
    (code : String) → (known_code code ≡ code_text success) ↔ (code ≡ code_text success)
unfolding known_code
known_code-success code = (
  (λ h. elim (Bool-cases (contains (code_texts system_codes) code)) [
    | inl e ↦ rw e at h
    | inr e ↦ absurd (please≢success (rw e at h))
  ]),
  (λ h. rw h (code_text-success_known)),
)
  where
    please≢success : code_text please_throw_system_code ≢ code_text success
    please≢success = literal≢ refl

error≢success : (status : ℕ) → code_text (code_for status) ≢ code_text success
error≢success status =
    let Other = λ (c : SystemCode). code_text c ≢ code_text success in
    if-elim Other (eqb status 400) (literal≢ refl) (
      if-elim Other (eqb status 401) (literal≢ refl)
        (if-elim Other (eqb status 403) (literal≢ refl) (literal≢ refl)))

code_for-success : (status : ℕ) → known_code (code_text (code_for status)) ≢ code_text success
code_for-success status h =
    error≢success status ((known_code-success (code_text (code_for status))).0 h)

-- An answer has the system code SUCCESS exactly if the handler returned a value, or threw an
-- HttpException whose message, or the code of whose details, is that text.
pub respond-success :
    {D : Type 0} (show : Bool) (status : ℕ) (handled : Handled D)
    → ((respond show status handled).0.system_code ≡ code_text success) ↔ Succeeds handled
unfolding respond
respond-success show status (value x) =
    ((λ _. tt), (λ _. (known_code-success (code_text success)).1 refl))
respond-success show status (thrown (http code message)) = known_code-success message
respond-success show status (thrown (error message)) = (code_for-success status, (λ h. absurd h))
respond-success show status (detailed code d) = known_code-success d.code
