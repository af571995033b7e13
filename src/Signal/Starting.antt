-- ===== src/Signal/Starting.antt =====
-- `initialize_persistent_worker` of lib/persistent_worker.c. What lies at the path of the data
-- directory is an argument; whether `mkdir` succeeds is not looked at.
use newtmq_server.Base.{
  ℕ, Bool, true, List, [], ◌∷◌, ◌++◌, Option, none, some, Bytes, ◌≡◌, ap, arith,
}
use newtmq_server.Common.{Ret, success, error}
use newtmq_server.Persistence.{Persistent}
use newtmq_server.Signal.{Handlers, set_signal_handler}
use newtmq_server.Signal.Shutdown.{Process, cleanup, cleanup_persistent_worker, initial_handlers}

-- what `stat` says of a path
pub data PathKind : Type 0 where
  missing directory other_file : PathKind

-- `pm`, `h_signal`, and the directories that `mkdir` was asked for
pub record Startup : Type 0 where
  pub datadir : Option Bytes
  pub initialized : Bool
  pub books : Persistent
  pub handlers : Handlers Process
  pub made : List Bytes

-- the state of `pm` before `stat`
unfoldable pub initialize_manager : Bytes → Startup → Startup
initialize_manager dir s = record s { datadir = some dir; initialized = true; books = [] }

-- `addr` is the address of the new handler.
unfoldable pub add_cleanup : ℕ → Startup → Ret × Startup
unfolding set_signal_handler cleanup_persistent_worker
add_cleanup addr s =
    (success, record s { handlers = set_signal_handler addr cleanup_persistent_worker s.handlers })

unfoldable pub check_datadir : PathKind → ℕ → Bytes → Startup → Ret × Startup
unfolding add_cleanup
check_datadir missing addr dir s = add_cleanup addr (record s { made = s.made ++ dir ∷ [] })
check_datadir directory addr dir s = add_cleanup addr s
check_datadir other_file addr dir s = (error, s)

-- `none` is NULL.
unfoldable pub initialize_persistent_worker :
    (Bytes → PathKind) → ℕ → Option Bytes → Startup → Ret × Startup
unfolding check_datadir initialize_manager
initialize_persistent_worker stat addr none s = (error, s)
initialize_persistent_worker stat addr (some dir) s =
    check_datadir (stat dir) addr dir (initialize_manager dir s)

abbrev Accepts : Ret × Startup → ℕ → ℕ → Type 0
Accepts r a b = r.0 ≡ success → r.1.handlers ≡ initial_handlers a b

check_datadir-handlers :
    (kind : PathKind) (a b : ℕ) (dir : Bytes) (s : Startup)
    → s.handlers ≡ set_signal_handler a cleanup []
    → Accepts (check_datadir kind b dir s) a b
unfolding check_datadir add_cleanup initial_handlers
check_datadir-handlers missing a b dir s h e = ap (set_signal_handler b cleanup_persistent_worker) h
check_datadir-handlers directory a b dir s h e =
    ap (set_signal_handler b cleanup_persistent_worker) h
check_datadir-handlers other_file a b dir s h e = ground arith

-- Where `stomp_init` has set its handler and the start of the persistent worker succeeds, the handlers
-- are those of a running server, whatever lies at the path.
initialize_persistent_worker-handlers :
    (stat : Bytes → PathKind) (a b : ℕ) (dir : Option Bytes) (s : Startup)
    → s.handlers ≡ set_signal_handler a cleanup []
    → Accepts (initialize_persistent_worker stat b dir s) a b
unfolding initialize_persistent_worker initialize_manager
initialize_persistent_worker-handlers stat a b none s h e = ground arith
initialize_persistent_worker-handlers stat a b (some dir) s h e =
    check_datadir-handlers (stat dir) a b dir (initialize_manager dir s) h e
