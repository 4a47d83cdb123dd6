-- ===== src/Logger/Queries.antt =====
-- core/logger/db-logger.ts: the queries that TypeORM reports.
use codebase_be_nestjs.Common.{String, none, some, if◌then◌else◌}
use codebase_be_nestjs.Common.Text.{◌<>◌}
use codebase_be_nestjs.Logger.{
  SqlLoggerType, info_type, warn_type, error_type, plain, Line, Logs, LogEnvironment, print,
  sql_log, pointer, common_line, common_error_line, common_warn_line,
}

-- The three kinds of queries that DBLogger logs, with the texts of their parts.
pub data Query : Type 0 where
  query : (query parameters : String) → Query
  query_error : (error query parameters : String) → Query
  query_slow : (time query parameters : String) → Query

abbrev pub query_message : Query → String
query_message (query q p) = (q <> " _______ ") <> p
query_message (query_error e q p) = (((e <> " ------ ") <> q) <> " _______ ") <> p
query_message (query_slow t q p) = (((("SLOW " <> t) <> " ----- ") <> q) <> " _______ ") <> p

abbrev pub query_type : Query → SqlLoggerType
query_type (query q p) = info_type
query_type (query_error e q p) = error_type
query_type (query_slow t q p) = warn_type

module _ (own connection_name : String) where
  -- The line that DBLogger prints for a kind of query: log, error or warn.
  abbrev pub query_line : Query → String → Line
  query_line (query q p) message =
      common_line own (record { trace_id = none; context = some connection_name; name = none })
        message
  query_line (query_error e q p) message = common_error_line own connection_name message
  query_line (query_slow t q p) message = common_warn_line own connection_name message

  -- logQuery, logQueryError and logQuerySlow
  unfoldable pub log_query : LogEnvironment → Query → Logs → Logs
  unfolding sql_log
  log_query env q s =
      let s = if env.log_debug_mode then print (query_line q (query_message q)) s else s in
      let (payload, s) =
        sql_log env (query_type q)
          (record { trace_id = none; context = some connection_name; name = some own })
          (plain (query_message q)) s in
      print (query_line q (pointer "Log" payload.id)) s

  -- logSchemaBuild and logMigration
  abbrev schema_line : String → Line
  schema_line message =
      common_line own (record { trace_id = none; context = some connection_name; name = none })
        message

  unfoldable pub log_schema_build : String → Logs → Logs
  log_schema_build message = print (schema_line message)

  unfoldable pub log_migration : String → Logs → Logs
  log_migration message = print (schema_line message)
