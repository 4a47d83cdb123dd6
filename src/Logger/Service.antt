-- ===== src/Logger/Service.antt =====
-- The logger service that core/logger/logger.service.ts keeps for the whole process, and the loggers
-- of contexts that refer to it.
use codebase_be_nestjs.Common.{
  ℕ, zero, suc, String, ◌==◌, ◌≡◌, refl, ap, ◌∙◌, Option, none, some, List, [], ◌∷◌, ◌++◌, length,
  if◌then◌else◌,
}
use codebase_be_nestjs.Logger.{CustomLogging, Content, Logs, LogEnvironment, context_debug}

-- LoggerService: which service of the log database it was given, its name, and the name that pino
-- was set up with.
pub record LoggerService : Type 0 where
  pub sql_logger_service : ℕ
  pub name : String
  pub pino_name : String

-- The variable `instance`, and the objects that there are, each at its place.
pub record Services : Type 0 where
  pub instance_ref : Option ℕ
  pub objects : List LoggerService

-- The default of a missing argument.
abbrev pub given : Option String → String
given none = "Unset"
given (some name) = name

-- `name || "Unset"`
abbrev pub or_unset : Option String → String
or_unset none = "Unset"
or_unset (some name) = if name == "" then "Unset" else name

abbrev pub at_place : ℕ → (LoggerService → LoggerService) → List LoggerService → List LoggerService
at_place n f [] = []
at_place zero f (o ∷ os) = f o ∷ os
at_place (suc n) f (o ∷ os) = o ∷ at_place n f os

abbrev pub place : ℕ → List LoggerService → Option LoggerService
place n [] = none
place zero (o ∷ os) = some o
place (suc n) (o ∷ os) = place n os

-- The constructor, which sets pino up.
abbrev pub new_logger_service : ℕ → Option String → Services → ℕ × Services
new_logger_service sql name s = (
  length s.objects,
  record s {
    objects =
        s.objects
        ++ record { sql_logger_service = sql; name = given name; pino_name = given name } ∷ [];
  },
)

-- setName
abbrev pub set_name : String → LoggerService → LoggerService
set_name name service = record service { name = name; pino_name = name }

-- LoggerService.getInstance
unfoldable pub get_instance : ℕ → Option String → Services → ℕ × Services
get_instance sql name s = elim s.instance_ref [
  | none ↦
      let (ref, s') = new_logger_service sql name s in (ref, record s' { instance_ref = some ref })
  | some ref ↦ (ref, record s { objects = at_place ref (set_name (or_unset name)) s.objects })
]

-- ContextLogger.debug of a logger that newContextLogger made for the service at a place.
abbrev pub debug_of :
    LogEnvironment
    → String
    → CustomLogging
    → Content
    → Option String
    → Logs
    → Option LoggerService
    → Logs
debug_of env context custom message error_text logs none = logs
debug_of env context custom message error_text logs (some service) =
    context_debug context env service.name custom message error_text logs

abbrev pub debug_at :
    LogEnvironment → Services → ℕ → String → CustomLogging → Content → Option String → Logs → Logs
debug_at env s ref context custom message error_text logs =
    debug_of env context custom message error_text logs (place ref s.objects)

-- Several calls of getInstance, one after the other.
abbrev pub get_instances : List (ℕ × Option String) → Services → List ℕ × Services
get_instances [] s = ([], s)
get_instances ((sql, name) ∷ calls) s =
    let (ref, s') = get_instance sql name s in
    let (refs, s'') = get_instances calls s' in (ref ∷ refs, s'')

-- The name that the calls leave.
abbrev pub last_name : String → List (ℕ × Option String) → String
last_name name [] = name
last_name name ((sql, other) ∷ calls) = last_name (or_unset other) calls

abbrev pub repeated : ℕ → List (ℕ × Option String) → List ℕ
repeated ref [] = []
repeated ref (call ∷ calls) = ref ∷ repeated ref calls

at_place-last :
    (os : List LoggerService) (f : LoggerService → LoggerService) (o : LoggerService)
    → at_place (length os) f (os ++ o ∷ []) ≡ os ++ f o ∷ []
at_place-last [] f o = refl
at_place-last (x ∷ os) f o = ap (λ ys. x ∷ ys) (at_place-last os f o)

place-last :
    (os : List LoggerService) (o : LoggerService) → place (length os) (os ++ o ∷ []) ≡ some o
place-last [] o = refl
place-last (x ∷ os) o = place-last os o

-- The one object, behind those that were made without getInstance.
abbrev pub holding : List LoggerService → ℕ → String → Services
holding os sql name = record {
  instance_ref = some (length os);
  objects = os ++ record { sql_logger_service = sql; name = name; pino_name = name } ∷ [];
}

again :
    (os : List LoggerService) (sql : ℕ) (name : String) (calls : List (ℕ × Option String))
    → get_instances calls (holding os sql name)
      ≡ (repeated (length os) calls, holding os sql (last_name name calls))
unfolding get_instance
again os sql name [] = refl
again os sql name ((other, next) ∷ calls) =
    let rename =
      at_place-last os (set_name (or_unset next))
        (record { sql_logger_service = sql; name = name; pino_name = name }) in
    let rest =
      ap
        (λ objects.
          get_instances calls (record { instance_ref = some (length os); objects = objects }))
        rename
      ∙ again os sql (or_unset next) calls in
    ap (λ p. (length os ∷ p.0, p.1)) rest

-- Before the first call of getInstance.
abbrev pub unset : List LoggerService → Services
unset os = record { instance_ref = none; objects = os }

-- However often getInstance is called, and with whatever services and names: if it was not called
-- before, all calls give the one object that the first makes, which keeps the first call's service
-- and has the name of the last call; for a missing name it has the text Unset, and so for an empty
-- one that is not the first call's. And ContextLogger.debug stores and prints with that name,
-- whichever call its logger service came from. Services that were made without getInstance are
-- left alone.
pub get_instance-shared :
    (os : List LoggerService) (sql : ℕ) (first : Option String) (calls : List (ℕ × Option String))
    (env : LogEnvironment) (context : String) (custom : CustomLogging) (message : Content)
    (error_text : Option String) (logs : Logs)
    → let (refs, after) = get_instances ((sql, first) ∷ calls) (unset os) in
      let name = last_name (given first) calls in
      (refs ≡ length os ∷ repeated (length os) calls)
      × (after ≡ holding os sql name)
      × (debug_at env after (length os) context custom message error_text logs
          ≡ context_debug context env name custom message error_text logs)
unfolding get_instance
get_instance-shared os sql first calls env context custom message error_text logs =
    let e = again os sql (given first) calls in
    let name : String = last_name (given first) calls in
    (
      ap (λ p. length os ∷ p.0) e,
      ap (λ p. p.1) e,
      ap (λ p. debug_at env p.1 (length os) context custom message error_text logs) e
          ∙ ap (debug_of env context custom message error_text logs)
              (place-last os (record { sql_logger_service = sql; name = name; pino_name = name })),
    )
