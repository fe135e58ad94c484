-- ===== src/Log.antt =====
-- lib/cddb_log.c: the handler, the level and what is written. A message is the text that vsnprintf
-- would give with room for all of it.
use libcddb.Base.{
  ℕ, ◌-◌, ◌≡◌, ◌↔◌, refl, arith, leb, true, if◌then◌else◌, get_elem?, take, Option, none, some,
  List, [], ◌∷◌, ◌++◌, Bytes, codes, Run, value, fault,
}

-- A level of the enumeration, or CDDB_LOG_NONE.
pub data Level : Type 0 where
  debug info warn error critical : Level
  no_messages : Level

abbrev pub level_number : Level → ℕ
level_number debug = 1
level_number info = 2
level_number warn = 3
level_number error = 4
level_number critical = 5
level_number no_messages = 99

abbrev pub level_str : List Bytes
level_str = codes "debug" ∷ codes "info" ∷ codes "warning" ∷ codes "error" ∷ codes "critical" ∷ []

-- The default handler, or one of the client, by a number.
pub data Handler : Type 0 where
  default_handler : Handler
  client_handler : ℕ → Handler

-- The globals, what is on the standard error, and the calls of the client's handlers.
pub record Log : Type 0 where
  pub min_level : Level
  pub handler : Handler
  pub written : Bytes
  pub calls : List (ℕ × Level × Bytes)

unfoldable pub log_set_level : Log → Level → Log
log_set_level log level = record log { min_level = level }

-- NULL, as `none`, is for the default one.
abbrev pub handler_or_default : Option Handler → Handler
handler_or_default none = default_handler
handler_or_default (some handler) = handler

unfoldable pub log_set_handler : Log → Option Handler → Log × Handler
log_set_handler log handler = (record log { handler = handler_or_default handler }, log.handler)

-- `_level_str[level - 1]` outside the array is a fault.
abbrev pub level_line : Option Bytes → Log → Bytes → Run Log
level_line none log message = fault
level_line (some name) log message =
    value (record log { written = log.written ++ name ++ codes ": " ++ message ++ codes "\n" })

unfoldable pub default_log_handler : Log → Level → Bytes → Run Log
default_log_handler log level message =
    if leb (level_number log.min_level) (level_number level)
    then level_line (get_elem? level_str (level_number level - 1)) log message
    else value log

abbrev pub handle : Handler → Log → Level → Bytes → Run Log
handle default_handler log level message = default_log_handler log level message
handle (client_handler n) log level message =
    value (record log { calls = log.calls ++ (n, level, message) ∷ [] })

-- `char buf[1024]`, of which vsnprintf is told all but the last byte.
unfoldable pub log_message : Log → Level → Bytes → Run Log
log_message log level message = handle log.handler log level (take (1023 - 1) message)

level_number_le : (level : Level) → leb (level_number level) 99 ≡ true
level_number_le debug = refl
level_number_le info = refl
level_number_le warn = refl
level_number_le error = refl
level_number_le critical = refl
level_number_le no_messages = refl

-- The array of names is only left for a message that has the level CDDB_LOG_NONE.
log_message-fault :
    (least : Level) (handler : Handler) (log : Log) (level : Level) (message : Bytes)
    → (log_message (record log { min_level = least; handler = handler }) level message ≡ fault)
      ↔ ((handler ≡ default_handler) × (level ≡ no_messages))
unfolding log_message default_log_handler
log_message-fault least (client_handler n) log level message = ground arith
log_message-fault least default_handler log no_messages message =
    (λ h. (refl, refl), λ h. rw (level_number_le least) refl)
log_message-fault least default_handler log debug message = ground arith
log_message-fault least default_handler log info message = ground arith
log_message-fault least default_handler log warn message = ground arith
log_message-fault least default_handler log error message = ground arith
log_message-fault least default_handler log critical message = ground arith
