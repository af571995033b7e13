-- ===== src/Logger/Levels/Tests.antt =====
-- A server that logs from WARN on.
use newtmq_server.Base.{List, [], ◌∷◌, ◌++◌, codes, some, ◌≡◌, refl}
use newtmq_server.Common.{success}
use newtmq_server.Logger.{Logger, default_log_level, set_logger}
use newtmq_server.Logger.Levels.{
  Call, at_debug, at_warn, at_error, lines, log_all, set_logger-levels,
}

abbrev at_start : Logger
at_start = record { curr_level = default_log_level; output = [] }

abbrev calls : List Call
calls =
    record { level = at_warn; time = codes "2020/01/01"; text = codes "no client" }
    ∷ record { level = at_debug; time = codes "2020/01/01"; text = codes "a line" }
    ∷ record { level = at_error; time = codes "2020/01/02"; text = codes "no memory" }
    ∷ []

lines_of_calls :
    lines at_warn calls
    ≡ codes "[ WARN] 2020/01/01 > no client\n" ++ codes "[ERROR] 2020/01/02 > no memory\n"
lines_of_calls = refl

set_logger-levels_example :
    ((set_logger (some (codes "WARN")) at_start).0 ≡ success)
    × ((log_all calls (set_logger (some (codes "WARN")) at_start).1).output
        ≡ [] ++ lines at_warn calls)
set_logger-levels_example = set_logger-levels at_warn at_start calls
