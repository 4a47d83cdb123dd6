-- ===== src/Environment/Loading.antt =====
-- Which variables core/environment/environment.service.ts accepts, and what becomes of the settings
-- that it writes to env-template.sh.
use codebase_be_nestjs.Common.{
  String, ◌==◌, ◌≡◌, refl, ap, ◌∙◌, Bool, true, false, not, ◌&&◌, ◌||◌, Option, none, some, List,
  [], ◌∷◌, ◌++◌, all, arith, if◌then◌else◌, Option-cases, inl, inr, and_left, and_right,
}
use codebase_be_nestjs.Common.Effect.{Exception, Result, ok, err}
use codebase_be_nestjs.Common.Text.{is_any_case}
use codebase_be_nestjs.Environment.{
  Numbers, Setting, missing, text, number, boolean, Kind, string, numeric, optional_flag, flag,
  Property, is_true, convert, overridden, setting, has_kind, is_not_empty, is_missing, is_valid,
  load, show_setting,
}
use codebase_be_nestjs.Environment.Settings.{
  core_properties, db_example_properties, throttle_properties, example_properties,
}

abbrev pub is_ok : {A : Type 0} → Result A → Bool
is_ok (ok a) = true
is_ok (err e) = false

is_ok-if : {A : Type 0} (a : A) (e : Exception) (b : Bool) → is_ok (if b then ok a else err e) ≡ b
is_ok-if a e true = refl
is_ok-if a e false = refl

module _ (numbers : Numbers) where
  -- What a variable that is set has to be.
  abbrev pub is_acceptable : Kind → (is_required : Bool) → String → Bool
  is_acceptable string is_required s = not (is_required && s == "")
  is_acceptable numeric is_required s = numbers.is_finite (numbers.to_number s)
  is_acceptable optional_flag is_required s = true
  is_acceptable flag is_required s = true

  -- A variable that is not set needs a default, unless the property is optional.
  abbrev pub is_met : Property numbers.Number → Option String → Bool
  is_met p none = not (is_missing numbers p.default) || (p.is_optional && not p.is_required)
  is_met p (some s) = is_acceptable p.kind p.is_required s

  -- A default is of the property's kind, and nothing that is required is optional.
  abbrev pub is_sound : Property numbers.Number → Bool
  is_sound p =
      ((is_missing numbers p.default && not (is_flag p.kind))
        || (has_kind numbers p.kind p.default
            && (not p.is_required || is_not_empty numbers p.default)))
      && not (p.is_required && p.is_optional)
    where
      is_flag : Kind → Bool
      is_flag string = false
      is_flag numeric = false
      is_flag optional_flag = true
      is_flag flag = false

  abbrev of_kind : Kind → Setting numbers.Number → Property numbers.Number → Property numbers.Number
  of_kind kind default p = record p { kind = kind; default = default }

  abbrev Agrees : Property numbers.Number → Option String → Type 0
  Agrees p o =
      is_sound p ≡ true
      → is_valid numbers p (convert numbers p.kind (overridden numbers o p.default)) ≡ is_met p o

  given-Agrees :
      (kind : Kind) (p : Property numbers.Number) (s : String)
      → Agrees (of_kind kind p.default p) (some s)
  unfolding is_valid
  given-Agrees string p s h = ground arith
  given-Agrees numeric p s h = ground arith
  given-Agrees optional_flag p s h = ground arith
  given-Agrees flag p s h = ground arith

  default-Agrees :
      (kind : Kind) (default : Setting numbers.Number) (p : Property numbers.Number)
      → Agrees (of_kind kind default p) none
  unfolding is_valid
  default-Agrees string missing p h = ground arith
  default-Agrees string (text s) p h = ground arith
  default-Agrees string (number n) p h = ground arith
  default-Agrees string (boolean b) p h = ground arith
  default-Agrees numeric missing p h = ground arith
  default-Agrees numeric (text s) p h = ground arith
  default-Agrees numeric (number n) p h = ground arith
  default-Agrees numeric (boolean b) p h = ground arith
  default-Agrees optional_flag missing p h = ground arith
  default-Agrees optional_flag (text s) p h = ground arith
  default-Agrees optional_flag (number n) p h = ground arith
  default-Agrees optional_flag (boolean b) p h = ground arith
  default-Agrees flag missing p h = ground arith
  default-Agrees flag (text s) p h = ground arith
  default-Agrees flag (number n) p h = ground arith
  default-Agrees flag (boolean b) p h = ground arith

  is_valid_lem :
      (process_env : String → Option String) (p : Property numbers.Number)
      → is_sound p ≡ true
      → is_valid numbers p (setting numbers process_env p) ≡ is_met p (process_env p.name)
  unfolding setting
  is_valid_lem process_env p h = elim (Option-cases (process_env p.name)) [
    | inl e ↦ rw e (default-Agrees p.kind p.default p h)
    | inr (s, e) ↦ rw e (given-Agrees p.kind p s h)
  ]

  all_valid_lem :
      (process_env : String → Option String) (ps : List (Property numbers.Number))
      → all is_sound ps ≡ true
      → all (λ p. is_valid numbers p (setting numbers process_env p)) ps
        ≡ all (λ p. is_met p (process_env p.name)) ps
  all_valid_lem process_env [] h = refl
  all_valid_lem process_env (p ∷ ps) h =
      rw
        (
          is_valid_lem process_env p (and_left (is_sound p) (all is_sound ps) h),
          all_valid_lem process_env ps (and_right (is_sound p) (all is_sound ps) h),
        )
        refl

  core_properties_sound :
      (more : List (Property numbers.Number))
      → all is_sound more ≡ true
      → all is_sound (core_properties numbers ++ more) ≡ true
  core_properties_sound more h =
      rw
        (
          numbers.finite_ℕ 6379,
          numbers.finite_ℕ 1000,
          numbers.finite_ℕ 5000,
          numbers.finite_ℕ 10000,
          numbers.finite_ℕ 600,
          numbers.finite_ℕ 1200000,
          numbers.finite_ℕ 30000,
        )
        h

  -- What is loaded is what every variable meets.
  abbrev pub LoadsWhatIsMet : List (Property numbers.Number) → (String → Option String) → Type 0
  LoadsWhatIsMet properties process_env =
      is_ok (load numbers properties process_env)
      ≡ all (λ p. is_met p (process_env p.name)) properties

  load_sound :
      (properties : List (Property numbers.Number)) (process_env : String → Option String)
      → all is_sound properties ≡ true
      → LoadsWhatIsMet properties process_env
  unfolding load
  load_sound properties process_env sound =
      is_ok-if _ _ (all (λ p. is_valid numbers p (setting numbers process_env p)) properties)
      ∙ all_valid_lem process_env properties sound

  -- The settings of CoreEnvironment, and those of ExampleEnvironment, are loaded exactly if each
  -- of their variables that is set is acceptable, a text that is not empty where one is required
  -- and a finite number where a number is asked for, and each that is not set has a default or is
  -- optional.
  pub load-accepts :
      (process_env : String → Option String)
      → LoadsWhatIsMet (core_properties numbers) process_env
        × LoadsWhatIsMet (example_properties numbers) process_env
  load-accepts process_env = (
    load_sound (core_properties numbers) process_env (core_properties_sound [] refl),
    load_sound (example_properties numbers) process_env
        (core_properties_sound (db_example_properties numbers ++ throttle_properties numbers) refl),
  )

  convert-show_setting :
      (kind : Kind) (v : Setting numbers.Number)
      → has_kind numbers kind v ≡ true
      → convert numbers kind (text (show_setting numbers v)) ≡ v
  unfolding is_true is_any_case
  convert-show_setting string (text s) h = refl
  convert-show_setting numeric (number n) h = ap number (numbers.to_number-show_number n h)
  convert-show_setting optional_flag (boolean true) h = refl
  convert-show_setting optional_flag (boolean false) h = refl
  convert-show_setting flag (boolean true) h = refl
  convert-show_setting flag (boolean false) h = refl
  convert-show_setting _ _ h = cc

  convert-shown :
      (p : Property numbers.Number) (v : Setting numbers.Number)
      → is_valid numbers p v ≡ true
      → convert numbers p.kind (text (show_setting numbers v))
        ≡ (if is_missing numbers v then convert numbers p.kind (text "undefined") else v)
  unfolding is_valid
  convert-shown p missing h = refl
  convert-shown p (text s) h = convert-show_setting p.kind (text s) (ground arith)
  convert-shown p (number n) h = convert-show_setting p.kind (number n) (ground arith)
  convert-shown p (boolean b) h = convert-show_setting p.kind (boolean b) (ground arith)

  -- If a property is valid and, when the settings are loaded again, its variable has the value
  -- that the template has for it, the property is the same again; but one that was undefined
  -- becomes what the text `undefined` is converted to.
  pub setting-show_setting :
      (p : Property numbers.Number) (process_env again : String → Option String)
      → is_valid numbers p (setting numbers process_env p) ≡ true
      → again p.name ≡ some (show_setting numbers (setting numbers process_env p))
      → setting numbers again p ≡ (
          if is_missing numbers (setting numbers process_env p)
          then convert numbers p.kind (text "undefined")
          else setting numbers process_env p)
  unfolding setting
  setting-show_setting p process_env again valid shown =
      ap (λ o. convert numbers p.kind (overridden numbers o p.default)) shown
      ∙ convert-shown p (setting numbers process_env p) valid
