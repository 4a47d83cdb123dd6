-- ===== src/Common/Effect.antt =====
-- Asynchronous methods that change a state and may throw: what was written before the throw stays
-- written, so the state comes back beside the error too.
use Prim.Native.Nat.{ℕ}
use Prim.Native.String.{String}
use mathlib.Core.Path.{◌≡◌, refl, ap}
use mathlib.Core.Logic.{◌≢◌, ◌⊎◌, inl, inr}

-- An HttpException with its status and message, or any other Error.
pub data Exception : Type 0 where
  http : ℕ → String → Exception
  error : String → Exception

pub data Result {ℓ} (A : Type ℓ) : Type ℓ where
  ok : A → Result A
  err : Exception → Result A

abbrev pub Exec {ℓ} : Type ℓ → Type ℓ → Type ℓ
Exec S A = S → Result A × S

module _ {ℓ} {S A : Type ℓ} where
  abbrev pub pure : A → Exec S A
  pure a s = (ok a, s)

  abbrev pub raise : Exception → Exec S A
  raise e s = (err e, s)

  abbrev pub gets : (S → A) → Exec S A
  gets f s = (ok (f s), s)

  -- `try { m } catch (e) { h e }`
  abbrev pub handle : Result A → (Exception → Exec S A) → Exec S A
  handle (ok a) h s = (ok a, s)
  handle (err e) h s = h e s

  abbrev pub catch : Exec S A → (Exception → Exec S A) → Exec S A
  catch m h s = let (r, s') = m s in handle r h s'

module _ {ℓ} {S A B : Type ℓ} where
  abbrev pub continue : Result A → (A → Exec S B) → Exec S B
  continue (ok a) f s = f a s
  continue (err e) f s = (err e, s)

  infixl 5 ◌>>=◌ ◌>>◌
  abbrev pub ◌>>=◌ : Exec S A → (A → Exec S B) → Exec S B
  ◌>>=◌ m f s = let (r, s') = m s in continue r f s'

  abbrev pub ◌>>◌ : Exec S A → Exec S B → Exec S B
  m >> n = m >>= λ _. n

-- A chain that returns has returned at each step.
pub ok_inj {ℓ} : {A : Type ℓ} {a b : A} → ok a ≡ ok b → a ≡ b
ok_inj h = cc

pub err≢ok {ℓ} : {A : Type ℓ} {e : Exception} {a : A} → err e ≢ ok a
err≢ok h = cc

module _ {ℓ} {S A B : Type ℓ} where
  pub continue-ok :
      (r : Result A) (f : A → Exec S B) (s : S) {b : B} {s'' : S}
      → continue r f s ≡ (ok b, s'')
      → (a : A) × (r ≡ ok a) × (f a s ≡ (ok b, s''))
  continue-ok (ok a) f s h = (a, refl, h)
  continue-ok (err e) f s h = absurd (err≢ok (ap (λ p. p.0) h))

pub Result-cases {ℓ} :
    {A : Type ℓ} (r : Result A) → ((a : A) × (r ≡ ok a)) ⊎ ((e : Exception) × (r ≡ err e))
Result-cases (ok a) = inl (a, refl)
Result-cases (err e) = inr (e, refl)
