-- ===== src/Signal/Shutdown/Tests.antt =====
-- An interrupt while a frame waits, and handlers that come and go.
use newtmq_server.Base.{ℕ, ◌+◌, false, [], ◌∷◌, List, some, ◌≡◌, map}
use newtmq_server.Common.{success}
use newtmq_server.Frame.{alloc_frame}
use newtmq_server.Persistence.{worker_turn}
use newtmq_server.Persistence.Tests.{behind, behind-IsAccounted}
use newtmq_server.Signal.{set_signal_handler, del_signal_handler, int_handle, run_all}
use newtmq_server.Signal.Order.{Life, set, del, after, int_handle-deleted}
use newtmq_server.Signal.Shutdown.{
  Process, Port, port_handlers, initial_handlers, stopped_with, file_of, complete_file,
  int_handle-unwritten,
}

abbrev busy : Process
busy = record {
  stopped = false;
  books = behind ∷ [];
  bucket = alloc_frame 9 ∷ [];
  closed = [];
  shut = [];
  freed = [];
}

-- one port, where 5 lies when its handler runs
abbrev ports : List Port
ports = (3, 5) ∷ []

int_handle-unwritten_example :
    (int_handle (port_handlers ports (initial_handlers 1 2)) busy
      ≡ ([], stopped_with (record busy { shut = 5 ∷ [] }) (map file_of busy.books)))
    × (int_handle
          (port_handlers ports (initial_handlers 1 2))
          (record busy { books = worker_turn busy.books })
        ≡ ([], stopped_with (record busy { shut = 5 ∷ [] }) (map complete_file busy.books)))
int_handle-unwritten_example = int_handle-unwritten 1 2 ports busy (behind-IsAccounted, tt)

abbrev counting : ℕ → ℕ → ℕ
counting k n = n + k

abbrev others : List (Life ℕ)
others = set 5 (counting 3) ∷ del 8 ∷ []

int_handle-deleted_example :
    (del_signal_handler (some 7) (after others (set_signal_handler 7 (counting 1) []))
      ≡ (success, after others []))
    × (int_handle
          (del_signal_handler (some 7) (after others (set_signal_handler 7 (counting 1) []))).1
          0
        ≡ ([], run_all (after others []) 0))
int_handle-deleted_example =
    int_handle-deleted 7 (counting 1) others [] 0 ((λ e. cc), ((λ e. cc), tt))
