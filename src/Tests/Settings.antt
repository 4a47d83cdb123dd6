-- ===== src/Tests/Settings.antt =====
-- Settings on concrete variables.
use codebase_be_nestjs.Common.{
  String, ◌==◌, ◌≡◌, refl, true, false, not, Option, none, some, if◌then◌else◌,
}
use codebase_be_nestjs.Common.Text.{is_any_case}
use codebase_be_nestjs.Environment.{
  Numbers, missing, text, string, Property, convert, is_true, setting, is_valid, is_missing, load,
  show_setting,
}
use codebase_be_nestjs.Environment.Settings.{core_properties, example_properties, optional}
use codebase_be_nestjs.Environment.Loading.{
  is_ok, LoadsWhatIsMet, load-accepts, setting-show_setting,
}

-- Numbers as their texts.
abbrev texts : Numbers
texts = record {
  Number = String;
  of_ℕ = λ n. "1";
  to_number = λ s. s;
  show_number = λ s. s;
  is_finite = λ s. not (s == "NaN");
  finite_ℕ = λ n. refl;
  to_number-show_number = λ n h. refl;
}

-- Every required variable but the host of the log database.
abbrev variables : String → Option String
variables name = if name == "DB_LOG_HOST" then none else some "1"

load-accepts_example :
    LoadsWhatIsMet texts (core_properties texts) variables
    × LoadsWhatIsMet texts (example_properties texts) variables
load-accepts_example = load-accepts texts variables

not_loaded : is_ok (load texts (core_properties texts) variables) ≡ false
unfolding load setting is_valid
not_loaded = refl

abbrev username : Property String
username = optional "REDIS_USERNAME" string missing

abbrev unset : String → Option String
unset name = none

abbrev from_template : String → Option String
from_template name = some "undefined"

username_valid : is_valid texts username (setting texts unset username) ≡ true
unfolding is_valid setting
username_valid = refl

username_shown :
    from_template "REDIS_USERNAME" ≡ some (show_setting texts (setting texts unset username))
unfolding setting
username_shown = refl

setting-show_setting_example : setting texts from_template username ≡ (
    if is_missing texts (setting texts unset username)
    then convert texts string (text "undefined")
    else setting texts unset username)
setting-show_setting_example =
    setting-show_setting texts username unset from_template username_valid username_shown

shouted : is_true "TRUE" ≡ true
unfolding is_true is_any_case
shouted = refl
