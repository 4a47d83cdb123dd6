-- ===== src/Environment.antt =====
-- core/environment/environment.service.ts and shared/utils/class-transformer.ts: the settings that
-- are read from the variables of the process, checked, and written to a template.
pub mod Settings
pub mod Loading
use codebase_be_nestjs.Common.{
  ℕ, String, ◌==◌, ◌≡◌, Bool, true, false, not, ◌&&◌, ◌||◌, Option, none, some, List, [], ◌∷◌, map,
  all, if◌then◌else◌,
}
use codebase_be_nestjs.Common.Effect.{Result, ok, err, error}
use codebase_be_nestjs.Common.Text.{◌<>◌, is_any_case}

-- JavaScript's numbers: `Number(text)`, the text of a number, and whether it is neither NaN nor
-- infinite. The text of a finite number reads as that number.
pub record Numbers : Type 1 where
  pub Number : Type 0
  pub of_ℕ : ℕ → Number
  pub to_number : String → Number
  pub show_number : Number → String
  pub is_finite : Number → Bool
  pub finite_ℕ : (n : ℕ) → is_finite (of_ℕ n) ≡ true
  pub to_number-show_number : (n : Number) → is_finite n ≡ true → to_number (show_number n) ≡ n

-- A property of the settings; `missing` is undefined.
pub data Setting (N : Type 0) : Type 0 where
  missing : Setting N
  text : String → Setting N
  number : N → Setting N
  boolean : Bool → Setting N

-- How a variable becomes the property: as it is, with `Type(() => Number)`, with
-- optionalStringToBoolean or with stringToBoolean.
pub data Kind : Type 0 where
  string numeric optional_flag flag : Kind

-- A property of the class, with its decorators: `is_required` is @IsNotEmpty, `is_optional` is
-- @IsOptional.
pub record Property (N : Type 0) : Type 0 where
  pub name : String
  pub kind : Kind
  pub default : Setting N
  pub is_required : Bool
  pub is_optional : Bool

-- `value.toLowerCase() === "true"`
unfoldable pub is_true : String → Bool
unfolding is_any_case
is_true s = is_any_case s "true" "TRUE"

module _ {N : Type 0} where
  abbrev pub string_to_boolean : Setting N → Setting N
  string_to_boolean missing = missing
  string_to_boolean (text s) = boolean (is_true s)
  string_to_boolean (number n) = number n
  string_to_boolean (boolean b) = boolean b

module _ (numbers : Numbers) where
  -- `if (!data.value) return false`; of the numbers only texts and defaults that are flags come here.
  abbrev pub optional_string_to_boolean : Setting numbers.Number → Setting numbers.Number
  optional_string_to_boolean missing = boolean false
  optional_string_to_boolean (text s) =
      if s == "" then boolean false else string_to_boolean (text s)
  optional_string_to_boolean (number n) = number n
  optional_string_to_boolean (boolean b) = boolean b

  -- `@Type(() => Number)`
  abbrev pub as_number : Setting numbers.Number → Setting numbers.Number
  as_number missing = missing
  as_number (text s) = number (numbers.to_number s)
  as_number (number n) = number n
  as_number (boolean b) = boolean b

  abbrev pub convert : Kind → Setting numbers.Number → Setting numbers.Number
  convert string v = v
  convert numeric v = as_number v
  convert optional_flag v = optional_string_to_boolean v
  convert flag v = string_to_boolean v

  -- `{ ...new envClass(), ...process.env }` at one property
  abbrev pub overridden : Option String → Setting numbers.Number → Setting numbers.Number
  overridden none default = default
  overridden (some s) default = text s

  unfoldable pub setting :
      (String → Option String) → Property numbers.Number → Setting numbers.Number
  unfolding is_true
  setting process_env p = convert p.kind (overridden (process_env p.name) p.default)

  -- @IsString, @IsNumber and @IsBoolean
  abbrev pub has_kind : Kind → Setting numbers.Number → Bool
  has_kind string (text s) = true
  has_kind numeric (number n) = numbers.is_finite n
  has_kind optional_flag (boolean b) = true
  has_kind flag (boolean b) = true
  has_kind _ _ = false

  -- @IsNotEmpty
  abbrev pub is_not_empty : Setting numbers.Number → Bool
  is_not_empty missing = false
  is_not_empty (text s) = not (s == "")
  is_not_empty (number n) = true
  is_not_empty (boolean b) = true

  abbrev pub is_missing : Setting numbers.Number → Bool
  is_missing missing = true
  is_missing (text s) = false
  is_missing (number n) = false
  is_missing (boolean b) = false

  -- What validateSync finds of one property: nothing of an optional one that is missing.
  unfoldable pub is_valid : Property numbers.Number → Setting numbers.Number → Bool
  is_valid p v =
      (p.is_optional && is_missing v)
      || (has_kind p.kind v && (not p.is_required || is_not_empty v))

  -- The settings of a class, or the errors of the validation.
  unfoldable pub load :
      List (Property numbers.Number)
      → (String → Option String)
      → Result (List (String × Setting numbers.Number))
  unfolding setting is_valid
  load properties process_env =
      if all (λ p. is_valid p (setting process_env p)) properties
      then ok (map (λ p. (p.name, setting process_env p)) properties)
      else err (error "ValidationError")

  -- `${value}`
  abbrev pub show_setting : Setting numbers.Number → String
  show_setting missing = "undefined"
  show_setting (text s) = s
  show_setting (number n) = numbers.show_number n
  show_setting (boolean true) = "true"
  show_setting (boolean false) = "false"

  abbrev pub template_line : String × Setting numbers.Number → String
  template_line (name, value) = ((("export " <> name) <> "=") <> show_setting value) <> " \n"

  -- The content of env-template.sh.
  unfoldable pub template :
      (node_env : String) → List (String × Setting numbers.Number) → List String
  template node_env settings = if node_env == "production" then [] else map template_line settings
