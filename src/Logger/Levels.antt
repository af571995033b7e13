-- ===== src/Logger/Levels.antt =====
-- Which messages get through at each of the four levels.
mod Tests
use newtmq_server.Base.{
  ℕ, ◌≡◌, refl, ap, ◌∙◌, sym, Bool, true, false, List, [], ◌∷◌, ◌++◌, some, Bytes, codes,
  append_assoc, append-nil,
}
use newtmq_server.Base.Text.{strncmp_eq, strlen}
use newtmq_server.Common.{success}
use newtmq_server.Logger.{
  Logger, set_logger, debug, info, warn, err, do_logger, printed, show_loglevel, is_level,
  with_level, log_debug, log_info, log_warn, log_error,
}

pub data Level : Type 0 where
  at_debug at_info at_warn at_error : Level

-- the name in the configuration
abbrev pub name : Level → Bytes
name at_debug = codes "DEBUG"
name at_info = codes "INFO"
name at_warn = codes "WARN"
name at_error = codes "ERROR"

-- one call of the logger: the level, the time of day, and the text
pub record Call : Type 0 where
  pub level : Level
  pub time : Bytes
  pub text : Bytes

abbrev pub call : Level → Bytes → Bytes → Logger → Logger
call at_debug = debug
call at_info = info
call at_warn = warn
call at_error = err

abbrev pub log_all : List Call → Logger → Logger
log_all [] logger = logger
log_all (c ∷ cs) logger = log_all cs (call c.level c.time c.text logger)

-- Is a message of the second level printed at the first?
abbrev pub shows : Level → Level → Bool
shows at_debug l = true
shows at_info at_debug = false
shows at_info l = true
shows at_warn at_debug = false
shows at_warn at_info = false
shows at_warn l = true
shows at_error at_error = true
shows at_error l = false

abbrev pub tag : Level → Bytes
tag at_debug = codes "[DEBUG] "
tag at_info = codes "[ INFO] "
tag at_warn = codes "[ WARN] "
tag at_error = codes "[ERROR] "

abbrev pub line : Bool → Call → Bytes
line true c = tag c.level ++ c.time ++ codes " > " ++ c.text ++ b'\n' ∷ []
line false c = []

abbrev pub lines : Level → List Call → Bytes
lines l [] = []
lines l (c ∷ cs) = line (shows l c.level) c ++ lines l cs

abbrev rank : Level → ℕ
rank at_debug = log_debug
rank at_info = log_info
rank at_warn = log_warn
rank at_error = log_error

abbrev logger_at : Level → Bytes → Logger
logger_at l output = record { curr_level = rank l; output = output }

set_logger-name :
    (l : Level) (logger : Logger)
    → set_logger (some (name l)) logger ≡ (success, logger_at l logger.output)
unfolding set_logger is_level with_level strncmp_eq strlen
set_logger-name at_debug logger = refl
set_logger-name at_info logger = refl
set_logger-name at_warn logger = refl
set_logger-name at_error logger = refl

call_lem :
    (l k : Level) (time text output : Bytes)
    → call k time text (logger_at l output)
      ≡ logger_at l (output ++ line (shows l k) (record { level = k; time = time; text = text }))
unfolding debug info warn err do_logger printed show_loglevel
call_lem at_debug at_debug time text o = refl
call_lem at_debug at_info time text o = refl
call_lem at_debug at_warn time text o = refl
call_lem at_debug at_error time text o = refl
call_lem at_info at_debug time text o = ap (logger_at at_info) (sym (append-nil o))
call_lem at_info at_info time text o = refl
call_lem at_info at_warn time text o = refl
call_lem at_info at_error time text o = refl
call_lem at_warn at_debug time text o = ap (logger_at at_warn) (sym (append-nil o))
call_lem at_warn at_info time text o = ap (logger_at at_warn) (sym (append-nil o))
call_lem at_warn at_warn time text o = refl
call_lem at_warn at_error time text o = refl
call_lem at_error at_debug time text o = ap (logger_at at_error) (sym (append-nil o))
call_lem at_error at_info time text o = ap (logger_at at_error) (sym (append-nil o))
call_lem at_error at_warn time text o = ap (logger_at at_error) (sym (append-nil o))
call_lem at_error at_error time text o = refl

log_all_lem :
    (l : Level) (cs : List Call) (output : Bytes)
    → log_all cs (logger_at l output) ≡ logger_at l (output ++ lines l cs)
log_all_lem l [] o = ap (logger_at l) (sym (append-nil o))
log_all_lem l (c ∷ cs) o =
    ap (log_all cs) (call_lem l c.level c.time c.text o)
    ∙ log_all_lem l cs (o ++ line (shows l c.level) c)
    ∙ ap (logger_at l) (append_assoc o (line (shows l c.level) c) (lines l cs))

-- The name of a level is accepted, whatever the level was, and then of any calls exactly those at
-- that level or above it print a line each, in their order: the tag of the level, the time and the
-- text.
pub set_logger-levels :
    (l : Level) (logger : Logger) (cs : List Call)
    → ((set_logger (some (name l)) logger).0 ≡ success)
      × ((log_all cs (set_logger (some (name l)) logger).1).output ≡ logger.output ++ lines l cs)
set_logger-levels l logger cs = (
  ap (λ r. r.0) (set_logger-name l logger),
  ap (λ r. (log_all cs r.1).output) (set_logger-name l logger)
      ∙ ap (λ s. s.output) (log_all_lem l cs logger.output),
)
