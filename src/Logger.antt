-- ===== src/Logger.antt =====
-- lib/logger.c: which messages the logger prints, and how. The time of day and the text that `vprintf`
-- makes of a format are arguments.
pub mod Levels
use newtmq_server.Base.{
  ℕ, suc, ◌==◌, ltb, if◌then◌else◌, Bool, [], ◌∷◌, ◌++◌, Option, none, some, Bytes, codes, strlen,
  strncmp_eq,
}
use newtmq_server.Common.{Ret, success, error}

abbrev pub log_debug : ℕ
log_debug = 1

abbrev pub log_info : ℕ
log_info = 2

abbrev pub log_warn : ℕ
log_warn = 3

abbrev pub log_error : ℕ
log_error = 4

abbrev pub default_log_level : ℕ
default_log_level = log_info

-- `curr_level`, and what has been printed
pub record Logger : Type 0 where
  pub curr_level : ℕ
  pub output : Bytes

unfoldable pub show_loglevel : ℕ → Bytes
show_loglevel level =
    if level == log_debug
    then codes "[DEBUG] "
    else if level == log_info
    then codes "[ INFO] "
    else if level == log_warn
    then codes "[ WARN] "
    else if level == log_error
    then codes "[ERROR] "
    else []

-- `strcmp(level, name) == 0`, for a `name` without a byte 0
unfoldable pub is_level : Bytes → Bytes → Bool
is_level level name = strncmp_eq level name (suc (strlen name))

unfoldable pub with_level : ℕ → Logger → Ret × Logger
with_level level logger = (success, record logger { curr_level = level })

-- `none` is NULL.
unfoldable pub set_logger : Option Bytes → Logger → Ret × Logger
unfolding is_level with_level
set_logger none logger = (error, logger)
set_logger (some level) logger =
    if is_level level (codes "DEBUG")
    then with_level log_debug logger
    else if is_level level (codes "INFO")
    then with_level log_info logger
    else if is_level level (codes "WARN")
    then with_level log_warn logger
    else if is_level level (codes "ERROR")
    then with_level log_error logger
    else (error, logger)

-- what is printed of a message, from `show_loglevel` on
unfoldable pub printed : ℕ → Bytes → Bytes → Bytes
unfolding show_loglevel
printed level timebuf text = show_loglevel level ++ timebuf ++ codes " > " ++ text ++ b'\n' ∷ []

unfoldable pub do_logger : ℕ → Bytes → Bytes → Logger → Logger
unfolding printed
do_logger level timebuf text logger =
    if ltb level logger.curr_level
    then logger
    else record logger { output = logger.output ++ printed level timebuf text }

unfoldable pub debug : Bytes → Bytes → Logger → Logger
unfolding do_logger
debug timebuf text logger = do_logger log_debug timebuf text logger

unfoldable pub info : Bytes → Bytes → Logger → Logger
unfolding do_logger
info timebuf text logger = do_logger log_info timebuf text logger

unfoldable pub warn : Bytes → Bytes → Logger → Logger
unfolding do_logger
warn timebuf text logger = do_logger log_warn timebuf text logger

unfoldable pub err : Bytes → Bytes → Logger → Logger
unfolding do_logger
err timebuf text logger = do_logger log_error timebuf text logger
