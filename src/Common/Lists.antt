-- ===== src/Common/Lists.antt =====
-- Lists: measures over the native numbers, and the array methods `includes`, `every` and `push`
-- over a type with decidable equality.
use Prim.Native.Nat.{ℕ, zero, suc, ◌+◌}
use mathlib.Core.Path.{◌≡◌, refl}
use mathlib.Core.Logic.{inl, inr}
use mathlib.Core.Bool.{Bool, true, false, ◌||◌, ◌&&◌}
use mathlib.Core.List.{List, [], ◌∷◌, ◌++◌}
use native.Mathlib.Omega.{arith}
use codebase_be_nestjs.Common.Tests.{if◌then◌else◌, Bool-cases}

module _ {ℓ} {A : Type ℓ} where
  abbrev pub length : List A → ℕ
  length [] = 0
  length (x ∷ xs) = suc (length xs)

  abbrev pub is_empty : List A → Bool
  is_empty [] = true
  is_empty (x ∷ xs) = false

  abbrev pub all : (A → Bool) → List A → Bool
  all p [] = true
  all p (x ∷ xs) = p x && all p xs

  abbrev pub take : ℕ → List A → List A
  take zero xs = []
  take (suc n) [] = []
  take (suc n) (x ∷ xs) = x ∷ take n xs

  abbrev pub drop : ℕ → List A → List A
  drop zero xs = xs
  drop (suc n) [] = []
  drop (suc n) (x ∷ xs) = drop n xs

  pub length-append : (xs ys : List A) → length (xs ++ ys) ≡ length xs + length ys
  length-append [] ys = omega arith
  length-append (x ∷ xs) ys = omega (arith, length-append xs ys)

  pub take-append-drop : (n : ℕ) (xs : List A) → take n xs ++ drop n xs ≡ xs
  take-append-drop zero xs = refl
  take-append-drop (suc n) [] = refl
  take-append-drop (suc n) (x ∷ xs) = rw (take-append-drop n xs)

-- `a === b`, by a decision.
abbrev pub same {ℓ} : {A : Type ℓ} → Discrete A → A → A → Bool
same d a b = elim (d a b) [ yes _ ↦ true | no _ ↦ false ]

module _ {ℓ} {A : Type ℓ} (d : Discrete A) where
  unfoldable pub includes : List A → A → Bool
  includes [] a = false
  includes (x ∷ xs) a = same d x a || includes xs a

pub same_refl {ℓ} : {A : Type ℓ} (d : Discrete A) (a : A) → same d a a ≡ true
same_refl d a =
    elim (d a a) as (λ t. elim t as (λ _. Bool) [ yes _ ↦ true | no _ ↦ false ] ≡ true) [
      | yes _ ↦ refl
      | no n ↦ absurd (n refl)
    ]

pub same→eq {ℓ} : {A : Type ℓ} (d : Discrete A) (a b : A) → same d a b ≡ true → a ≡ b
same→eq d a b h = ground arith

module _ {ℓ} {A : Type ℓ} (d : Discrete A) where
  pub includes-append :
      (xs ys : List A) (a : A) → includes d (xs ++ ys) a ≡ (includes d xs a || includes d ys a)
  unfolding includes
  includes-append [] ys a = refl
  includes-append (x ∷ xs) ys a = ground (arith, includes-append xs ys a)

  -- `permissions.forEach((p) => { if (!xs.includes(p)) xs.push(p); })`
  unfoldable pub push_missing : List A → List A → List A
  push_missing xs [] = xs
  push_missing xs (p ∷ ps) = push_missing (if includes d xs p then xs else xs ++ p ∷ []) ps

  pub includes-push_missing :
      (xs ps : List A) (a : A)
      → includes d (push_missing xs ps) a ≡ (includes d xs a || includes d ps a)
  unfolding push_missing includes
  includes-push_missing xs [] a = ground arith
  includes-push_missing xs (p ∷ ps) a = elim (Bool-cases (includes d xs p)) [
    | inl old ↦ rw (old, includes-push_missing xs ps a) (ground (arith, same→eq d p a))
    | inr new ↦
        rw (new, includes-push_missing (xs ++ p ∷ []) ps a, includes-append xs (p ∷ []) a)
          (ground arith)
  ]
