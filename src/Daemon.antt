-- ===== src/Daemon.antt =====
-- newtd.c and lib/daemon.c: the start of the server, up to the threads, whose steps are those of System.
pub mod Options
use newtmq_server.Base.{ℕ, false, List, [], ◌∷◌, Option, none, some, Bytes}
use newtmq_server.Common.{Ret, success, error, Env}
use newtmq_server.Logger.{Logger, set_logger, default_log_level}
use newtmq_server.Persistence.{Disk}
use newtmq_server.Restart.{
  Start, Directory, Result, restarted, aborted, corrupted, running, unpersist,
}
use newtmq_server.Signal.{set_signal_handler}
use newtmq_server.Signal.Shutdown.{cleanup}
use newtmq_server.Signal.Starting.{Startup, PathKind, initialize_persistent_worker}
use newtmq_server.System.{at_start}
use newtmq_server.Daemon.Options.{Config, Confuse, load_config, parse_opt}

-- What the process finds: its options, the memory where `args.config_path` will be, the library and the
-- files, and the addresses of the two handlers.
pub record Machine : Type 0 where
  pub options : List (ℕ × Option Bytes)
  pub stack : Option Bytes
  pub confuse : Confuse
  pub stat : Bytes → PathKind
  pub env : Env
  pub disk : Disk
  pub memory : Bytes
  pub entries : Bytes → List Directory
  pub stomp_handler : ℕ
  pub worker_handler : ℕ

-- the state of the process before `daemon_initialize`
abbrev pub fresh : Startup
fresh = record { datadir = none; initialized = false; books = []; handlers = []; made = [] }

-- after `stomp_init`; `transaction_init` and `initialize_sending_worker` set what is empty already
unfoldable pub stomp_init : Machine → Startup
unfolding set_signal_handler cleanup
stomp_init m = record fresh { handlers = set_signal_handler m.stomp_handler cleanup [] }

-- the directory that `unpersist` opens
unfoldable pub entries_of : Machine → Option Bytes → List Directory
entries_of m none = []
entries_of m (some dir) = m.entries dir

-- `daemon_initialize`: the return code, the handlers and the directory, and what `unpersist` leaves. Its
-- return code is not looked at.
unfoldable pub initialized : Machine → Ret × Startup → Ret × Startup × Result
unfolding entries_of
initialized m (error, s) = (error, s, restarted at_start)
initialized m (success, s) =
    (success, s, unpersist m.env m.disk m.memory (entries_of m s.datadir) at_start)

unfoldable pub daemon_initialize : Machine → Config → Ret × Startup × Result
unfolding stomp_init initialized
daemon_initialize m config =
    initialized m
      (initialize_persistent_worker m.stat m.worker_handler config.datadir (stomp_init m))

-- The logger of `daemon_start`; the code of `set_logger` is not looked at.
unfoldable pub logger_of : Option Bytes → Logger
logger_of none = record { curr_level = default_log_level; output = [] }
logger_of (some level) =
    (set_logger (some level) (record { curr_level = default_log_level; output = [] })).1

-- How far `main` gets: it exits with 1, dies or hangs in `unpersist`, or starts the threads.
pub data Run : Type 0 where
  exited crashed hung : Run
  threads : Config → Logger → Startup → Start → Run

unfoldable pub started : Config → Startup → Result → Run
unfolding logger_of
started config s (restarted st) = threads config (logger_of config.loglevel) s st
started config s aborted = crashed
started config s corrupted = crashed
started config s running = hung

unfoldable pub with_daemon : Config → Ret × Startup × Result → Run
unfolding started
with_daemon config (error, s, r) = exited
with_daemon config (success, s, r) = started config s r

unfoldable pub with_config : Machine → Option Config → Run
unfolding with_daemon daemon_initialize
with_config m none = exited
with_config m (some config) = with_daemon config (daemon_initialize m config)

unfoldable pub with_path : Machine → Option Bytes → Run
unfolding with_config load_config
with_path m none = exited
with_path m (some path) = with_config m (load_config m.confuse path)

-- `main` of newtd.c
unfoldable pub main : Machine → Run
unfolding with_path parse_opt
main m = with_path m (parse_opt m.options m.stack)
