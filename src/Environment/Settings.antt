-- ===== src/Environment/Settings.antt =====
-- The properties of CoreEnvironment in core/environment/environment.service.ts, and of
-- ExampleEnvironment in module/environment/environment.ts, which adds to it.
use codebase_be_nestjs.Common.{String, true, false, List, [], ◌∷◌, ◌++◌}
use codebase_be_nestjs.Environment.{
  Numbers, Setting, missing, text, number, boolean, Kind, string, numeric, optional_flag, flag,
  Property,
}

-- A property that must be given, and one with a default.
module _ {N : Type 0} where
  abbrev pub required : String → Kind → Property N
  required name kind = record {
    name = name;
    kind = kind;
    default = missing;
    is_required = true;
    is_optional = false;
  }

  abbrev pub property : String → Kind → Setting N → Property N
  property name kind default = record {
    name = name;
    kind = kind;
    default = default;
    is_required = false;
    is_optional = false;
  }

  abbrev pub optional : String → Kind → Setting N → Property N
  optional name kind default = record {
    name = name;
    kind = kind;
    default = default;
    is_required = false;
    is_optional = true;
  }

module _ (numbers : Numbers) where
  abbrev pub core_properties : List (Property numbers.Number)
  core_properties =
      property "NODE_ENV" string (text "dev")
      ∷ property "SHOW_DEBUG_ERROR" optional_flag (boolean false)
      ∷ property "INSTANCE_ID" string (text "unset instanceId")
      ∷ required "PORT" numeric
      ∷ record (property "LOG_DEBUG_MODE" flag (boolean false)) { is_required = true }
      ∷ required "DB_LOG_HOST" string
      ∷ required "DB_LOG_PORT" numeric
      ∷ required "DB_LOG_DATABASE" string
      ∷ required "DB_LOG_SCHEMA" string
      ∷ required "DB_LOG_USERNAME" string
      ∷ required "DB_LOG_PASSWORD" string
      ∷ property "MQ_HOSTNAME" string (text "amqp:5672")
      ∷ property "MQ_USERNAME" string (text "guest")
      ∷ property "MQ_PASSWORD" string (text "guest")
      ∷ property "REDIS_HOST" string (text "localhost")
      ∷ property "REDIS_PORT" numeric (number (numbers.of_ℕ 6379))
      ∷ optional "REDIS_USERNAME" string missing
      ∷ optional "REDIS_PASSWORD" string missing
      ∷ optional "REDIS_SLOTS_REFRESH_TIMEOUT" numeric (number (numbers.of_ℕ 1000))
      ∷ optional "REDIS_SLOTS_REFRESH_INTERVAL" numeric (number (numbers.of_ℕ 5000))
      ∷ optional "REDIS_SSL_ENABLED" optional_flag (boolean false)
      ∷ optional "REDIS_SSL_CA_CERT_PATH" string (text "")
      ∷ optional "REDIS_SSL_CERT_PATH" string (text "")
      ∷ optional "REDIS_SSL_KEY_PATH" string (text "")
      ∷ optional "REDIS_TIMEOUT" numeric (number (numbers.of_ℕ 10000))
      ∷ optional "REDIS_SSL_REJECT_UNAUTHORIZED" optional_flag (boolean true)
      ∷ property "JWT_SECRET" string missing
      ∷ property "JWT_ISSUER" string (text "CIMB")
      ∷ property "TOKEN_EXPIRE" numeric (number (numbers.of_ℕ 600))
      ∷ property "TOKEN_LIFETIME" numeric (number (numbers.of_ℕ 1200000))
      ∷ property "TOKEN_REFRESH_TIME_WINDOW" numeric (number (numbers.of_ℕ 30000))
      ∷ []

  -- ExampleDBEnvironmentClass
  abbrev pub db_example_properties : List (Property numbers.Number)
  db_example_properties =
      property "DB_EXAMPLE_HOST" string missing
      ∷ property "DB_EXAMPLE_PORT" numeric missing
      ∷ property "DB_EXAMPLE_USERNAME" string missing
      ∷ property "DB_EXAMPLE_PASSWORD" string missing
      ∷ property "DB_EXAMPLE_DATABASE" string missing
      ∷ property "DB_EXAMPLE_SCHEMA" string missing
      ∷ []

  abbrev pub throttle_properties : List (Property numbers.Number)
  throttle_properties =
      property "THROTTLE_TTL" numeric missing ∷ property "THROTTLE_LIMIT" numeric missing ∷ []

  abbrev pub example_properties : List (Property numbers.Number)
  example_properties = core_properties ++ (db_example_properties ++ throttle_properties)
