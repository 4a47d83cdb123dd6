-- ===== src/Logger.antt =====
-- core/logger: what is printed, and what is handed to the log database.
pub mod Queries
pub mod Stored
pub mod Service
use codebase_be_nestjs.Common.{
  ℕ, zero, suc, String, ◌==◌, Bool, true, false, Option, none, some, List, [], ◌∷◌, ◌++◌,
  if◌then◌else◌,
}
use codebase_be_nestjs.Common.Text.{◌<>◌}

-- SQL_LOGGER_TYPE
pub data SqlLoggerType : Type 0 where
  debug_type info_type warn_type error_type : SqlLoggerType

pub data Level : Type 0 where
  trace debug info warn error : Level

-- A message: a text, or the text that `inspect` makes of anything else.
pub data Content : Type 0 where
  plain : String → Content
  inspected : String → Content

abbrev pub text_of : Content → String
text_of (plain text) = text
text_of (inspected text) = text

-- ICustomLogging; `none` is a property that is absent.
pub record CustomLogging : Type 0 where
  pub trace_id : Option String
  pub context : Option String
  pub name : Option String

-- A line that pino prints, with the properties that go with it. For anything but a text, or for an
-- error alone, `message` is the text that is made of that property.
pub record Line : Type 0 where
  pub level : Level
  pub name : Option String
  pub trace_id : Option String
  pub context : Option String
  pub parent_context : Option String
  pub message : String

-- ISqlLoggerPayload
pub record SqlLoggerPayload : Type 0 where
  pub id : String
  pub instance_id : String
  pub name : Option String
  pub context : Option String
  pub type : SqlLoggerType
  pub trace_id : String
  pub message : String

-- What was printed, what insertLog was called with, and the identifiers that are drawn. insertLog
-- is not awaited, and nothing that is printed depends on whether the insertion succeeds.
pub record Logs : Type 0 where
  pub lines : List Line
  pub stored : List SqlLoggerPayload
  pub uuids : ℕ → String
  pub drawn : ℕ

-- LOG_DEBUG_MODE and INSTANCE_ID
pub record LogEnvironment : Type 0 where
  pub log_debug_mode : Bool
  pub instance_id : String

abbrev pub print : Line → Logs → Logs
print line s = record s { lines = s.lines ++ line ∷ [] }

-- `a || b`
abbrev pub or_text : Option String → String → String
or_text none b = b
or_text (some a) b = if a == "" then b else a

-- `traceId || v4()`: the identifier, and how many were drawn for it.
abbrev pub trace_or : Option String → (ℕ → String) → ℕ → String × ℕ
trace_or none uuids n = (uuids n, suc n)
trace_or (some t) uuids n = if t == "" then (uuids n, suc n) else (t, n)

-- BaseSqlLoggerService.log; the abstract insertLog is given the payload.
unfoldable pub sql_log :
    LogEnvironment → SqlLoggerType → CustomLogging → Content → Logs → SqlLoggerPayload × Logs
sql_log env type custom message s =
    let (trace_id, drawn) = trace_or custom.trace_id s.uuids (suc s.drawn) in
    let payload : SqlLoggerPayload = record {
      id = s.uuids s.drawn;
      instance_id = env.instance_id;
      name = custom.name;
      context = custom.context;
      type = type;
      trace_id = trace_id;
      message = text_of message;
    } in
    (payload, record s { stored = s.stored ++ payload ∷ []; drawn = drawn })

-- `[[[… content storing in db with id: ${sqlLog.id}]]]`
abbrev pub pointer : String → String → String
pointer what id = (("[[[" <> what) <> " content storing in db with id: ") <> (id <> "]]]")

-- `{ name, ...customLogging }`
abbrev pub or_name : Option String → String → Option String
or_name none name = some name
or_name (some own) name = some own

-- `{ ...customLogging, error }`
abbrev pub error_line : CustomLogging → String → Line
error_line custom error_text = record {
  level = error;
  name = custom.name;
  trace_id = custom.trace_id;
  context = custom.context;
  parent_context = none;
  message = error_text;
}

abbrev pub print_error : CustomLogging → Option String → Logs → Logs
print_error custom none s = s
print_error custom (some error_text) s = print (error_line custom error_text) s

module _ (context : String) where
  -- The line of ContextLogger for a text.
  abbrev pub context_line : Level → CustomLogging → String → Line
  context_line level custom message = record {
    level = level;
    name = none;
    trace_id = custom.trace_id;
    context = some (or_text custom.context context);
    parent_context = some context;
    message = message;
  }

  -- ContextLogger.info, and log: for anything but a text only customLogging goes with the message.
  unfoldable pub context_info : CustomLogging → Content → Logs → Logs
  context_info custom (plain text) = print (context_line trace custom text)
  context_info custom (inspected text) = print (record {
    level = trace;
    name = custom.name;
    trace_id = custom.trace_id;
    context = custom.context;
    parent_context = none;
    message = text;
  })

  -- ContextLogger.error; `error_text` is the JSON of the error.
  unfoldable pub context_error : CustomLogging → String → (error_text : String) → Logs → Logs
  context_error custom message error_text =
      print (context_line error custom ((message <> " __ Error ") <> error_text))

  unfoldable pub context_warn : CustomLogging → String → Logs → Logs
  context_warn custom message = print (context_line warn custom message)

  -- ContextLogger.debug of the logger service with the given name.
  unfoldable pub context_debug :
      LogEnvironment → String → CustomLogging → Content → Option String → Logs → Logs
  unfolding sql_log
  context_debug env name custom message error_text s =
      let s =
        if env.log_debug_mode then print (context_line debug custom (text_of message)) s else s in
      let (payload, s) =
        sql_log env debug_type (record custom { name = or_name custom.name name }) message s in
      print_error custom error_text
        (print (context_line debug custom (pointer "Debug" payload.id)) s)

-- `this.context + [context] + message`
abbrev pub bracketed : String → String → String → String
bracketed own context message = ((own <> "[") <> context) <> ("]" <> message)

abbrev pub bare_line : Level → String → Line
bare_line level message = record {
  level = level;
  name = none;
  trace_id = none;
  context = none;
  parent_context = none;
  message = message;
}

module _ (own : String) where
  -- CommonLogger.log
  abbrev pub common_line : CustomLogging → String → Line
  common_line custom message = record {
    level = trace;
    name = none;
    trace_id = custom.trace_id;
    context = custom.context;
    parent_context = some own;
    message = message;
  }

  abbrev pub common_info_line : String → String → Line
  common_info_line context message = bare_line info (bracketed own context message)

  -- CommonLogger.error, with no stack, warn and debug
  abbrev pub common_error_line : String → String → Line
  common_error_line context message =
      bare_line error (bracketed own context message <> "---undefined")

  abbrev pub common_warn_line : String → String → Line
  common_warn_line context message = bare_line warn (bracketed own context message)

  abbrev pub common_debug_line : String → String → Line
  common_debug_line context message = bare_line debug (bracketed own context message)

  -- SqlLogger.debug with a service for the database; CommonLogger.debug tests the mode once more.
  unfoldable pub sql_logger_debug : LogEnvironment → String → Content → Logs → Logs
  unfolding sql_log
  sql_logger_debug env context message s =
      let s =
        if env.log_debug_mode
        then (if env.log_debug_mode
            then print (common_debug_line context (text_of message)) s
            else s)
        else s in
      let (payload, s) =
        sql_log env debug_type (record { trace_id = none; context = some context; name = some own })
          (plain (text_of message)) s in
      print
        (record (bare_line debug (pointer "Debug" payload.id)) {
          context = some context;
          parent_context = some own;
        })
        s
