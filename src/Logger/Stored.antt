-- ===== src/Logger/Stored.antt =====
-- What core/logger hands to insertLog and prints for each thing that it logs.
use codebase_be_nestjs.Common.{String, ◌≡◌, Option, none, some, List, [], ◌∷◌, ◌++◌, if◌then◌else◌}
use codebase_be_nestjs.Logger.{
  CustomLogging, Line, debug, SqlLoggerPayload, Logs, LogEnvironment, pointer, error_line,
  bare_line,
}

-- One payload more, with a fresh identifier and the message, and the lines that follow.
abbrev pub Keeps : Logs → Logs → String → List Line → Type 0
Keeps before after message lines =
    ((payload : SqlLoggerPayload) × (after.stored ≡ before.stored ++ payload ∷ [])
      × (payload.id ≡ before.uuids before.drawn)
      × (payload.message ≡ message))
    × (after.lines ≡ before.lines ++ lines)

-- The content, if the debug mode is on, then the line that names the payload.
abbrev pub mentioned : LogEnvironment → Line → Line → List Line → List Line
mentioned env content named more =
    if env.log_debug_mode then content ∷ named ∷ more else named ∷ more

abbrev pub errors : CustomLogging → Option String → List Line
errors custom none = []
errors custom (some text) = error_line custom text ∷ []

module _ (env : LogEnvironment) (s : Logs) where
  abbrev id : String
  id = s.uuids s.drawn

  -- The line that names a payload of SqlLogger.
  abbrev pub named_line : String → String → Line
  named_line own context = record (bare_line debug (pointer "Debug" id)) {
    context = some context;
    parent_context = some own;
  }
