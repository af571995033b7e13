-- ===== src/Signal/Shutdown.antt =====
-- What the server's own handlers do at an interrupt: `cleanup_persistent_worker` of
-- lib/persistent_worker.c, `cleanup` of lib/stomp.c, and `cleanup_connection` of lib/connection.c.
-- `daemon_initialize` sets the one of the bucket first. A connection that is open has set
-- `cleanup_worker`, with the address of a local variable of another type: what that does is not
-- defined, and an interrupt is modelled while no connection is open.
mod Tests
use newtmq_server.Base.{
  ℕ, ◌≡◌, refl, ap, ◌∙◌, sym, Bool, true, false, List, [], ◌∷◌, ◌++◌, Option, none, some, Bytes,
  All, map, append_assoc, append-nil,
}
use newtmq_server.Common.{Ret, success, error}
use newtmq_server.Connection.Accepting.{cleanup_connection}
use newtmq_server.Frame.{Frame}
use newtmq_server.Persistence.{QueueInfo, Persistent, worker_turn}
use newtmq_server.Persistence.Accounting.{
  IsAccounted, all_persisted, written_out, worker_turn-IsAccounted,
}
use newtmq_server.Signal.{Handlers, set_signal_handler, int_handle, run_all, cleanup_handler}

-- What is left of a queue when its files are closed: its hash, and its data file.
pub record ClosedFile : Type 0 where
  pub qid : ℕ
  pub content : Bytes

-- `pm.status` and `pm.h_qinfo`, the bucket, the files and the sockets that were
-- closed, and the frames that were freed
pub record Process : Type 0 where
  pub stopped : Bool
  pub books : Persistent
  pub bucket : List Frame
  pub closed : List ClosedFile
  pub shut : List ℕ
  pub freed : List ℕ

unfoldable pub stop_persistent_worker : Process → Process
stop_persistent_worker p = record p { stopped = true }

-- The frames that wait are taken off their list; they are not written and not freed.
unfoldable pub free_qinfo : QueueInfo → Process → Process
free_qinfo q p = record p { closed = p.closed ++ record { qid = q.qid; content = q.written } ∷ [] }

unfoldable pub free_all : Persistent → Process → Process
unfolding free_qinfo
free_all [] p = p
free_all (q ∷ qs) p = free_all qs (free_qinfo q p)

unfoldable pub cleanup_persistent_list : Process → Process
unfolding free_all
cleanup_persistent_list p = free_all p.books (record p { books = [] })

unfoldable pub cleanup_persistent_worker : Process → Process
unfolding cleanup_persistent_list stop_persistent_worker
cleanup_persistent_worker p = cleanup_persistent_list (stop_persistent_worker p)

unfoldable pub free_frames : List Frame → List ℕ → List ℕ
free_frames [] freed = freed
free_frames (f ∷ fs) freed = free_frames fs (f.addr ∷ freed)

-- `cleanup` of lib/stomp.c
unfoldable pub cleanup : Process → Process
unfolding free_frames
cleanup p = record p { bucket = []; freed = free_frames p.bucket p.freed }

-- the handlers that `stomp_init` and `initialize_persistent_worker` set, at their addresses
unfoldable pub initial_handlers : ℕ → ℕ → Handlers Process
unfolding set_signal_handler cleanup cleanup_persistent_worker
initial_handlers a b =
    set_signal_handler b cleanup_persistent_worker (set_signal_handler a cleanup [])

-- A port that is listened on: the address of its handler, and the number that lies, when the handler
-- runs, where `init_connection` had the socket.
abbrev pub Port : Type 0
Port = ℕ × ℕ

unfoldable pub close_port : ℕ → Process → Process
unfolding cleanup_connection
close_port junk p = record p { shut = cleanup_connection (some junk) p.shut }

-- The ports come after `daemon_initialize`, the newest is the first of the list.
unfoldable pub port_handlers : List Port → Handlers Process → Handlers Process
unfolding set_signal_handler close_port
port_handlers [] hs = hs
port_handlers ((addr, junk) ∷ ports) hs =
    set_signal_handler addr (close_port junk) (port_handlers ports hs)

-- the process after the handlers of the ports
abbrev pub with_ports_shut : List Port → Process → Process
with_ports_shut [] p = p
with_ports_shut ((addr, junk) ∷ ports) p = with_ports_shut ports (record p { shut = junk ∷ p.shut })

-- the data file of a queue as it is, and with the frames that wait behind it
abbrev pub file_of : QueueInfo → ClosedFile
file_of q = record { qid = q.qid; content = q.written }

abbrev pub complete_file : QueueInfo → ClosedFile
complete_file q = record { qid = q.qid; content = q.written ++ all_persisted q.unpersistent }

free_all_lem :
    (qs : Persistent) (p : Process)
    → free_all qs p ≡ record p { closed = p.closed ++ map file_of qs }
unfolding free_all free_qinfo
free_all_lem [] p = ap (λ c. record p { closed = c }) (sym (append-nil p.closed))
free_all_lem (q ∷ qs) p =
    free_all_lem qs (record p { closed = p.closed ++ file_of q ∷ [] })
    ∙ ap (λ c. record p { closed = c }) (append_assoc p.closed (file_of q ∷ []) (map file_of qs))

abbrev pub stopped_with : Process → List ClosedFile → Process
stopped_with p files = record {
  stopped = true;
  books = [];
  bucket = [];
  closed = p.closed ++ files;
  shut = p.shut;
  freed = free_frames p.bucket p.freed;
}

run_all-initial :
    (a b : ℕ) (p : Process)
    → run_all (initial_handlers a b) p ≡ stopped_with p (map file_of p.books)
unfolding initial_handlers cleanup cleanup_persistent_worker cleanup_persistent_list
    set_signal_handler run_all stop_persistent_worker free_frames
run_all-initial a b p =
    ap {A = Process} (λ q. record q { bucket = []; freed = free_frames q.bucket q.freed })
      (free_all_lem p.books (record p { stopped = true; books = [] }))

run_all-ports :
    (ports : List Port) (hs : Handlers Process) (p : Process)
    → run_all (port_handlers ports hs) p ≡ run_all hs (with_ports_shut ports p)
unfolding port_handlers set_signal_handler close_port cleanup_connection run_all
run_all-ports [] hs p = refl
run_all-ports ((addr, junk) ∷ ports) hs p =
    run_all-ports ports hs (record p { shut = junk ∷ p.shut })

books-ports : (ports : List Port) (p : Process) → (with_ports_shut ports p).books ≡ p.books
books-ports [] p = refl
books-ports ((addr, junk) ∷ ports) p = books-ports ports (record p { shut = junk ∷ p.shut })

int_handle-stopped :
    (a b : ℕ) (ports : List Port) (p : Process)
    → int_handle (port_handlers ports (initial_handlers a b)) p
      ≡ ([], stopped_with (with_ports_shut ports p) (map file_of p.books))
unfolding int_handle cleanup_handler
int_handle-stopped a b ports p =
    ap (λ q. ([], q))
      (run_all-ports ports (initial_handlers a b) p
        ∙ run_all-initial a b (with_ports_shut ports p)
        ∙ ap (λ pm. stopped_with (with_ports_shut ports p) (map file_of pm)) (books-ports ports p))

stopped-books :
    (ports : List Port) (p : Process) (pm : Persistent) (files : List ClosedFile)
    → stopped_with (with_ports_shut ports (record p { books = pm })) files
      ≡ stopped_with (with_ports_shut ports p) files
stopped-books [] p pm files = refl
stopped-books ((addr, junk) ∷ ports) p pm files =
    stopped-books ports (record p { shut = junk ∷ p.shut }) pm files

map-written_out : (pm : Persistent) → map file_of (map written_out pm) ≡ map complete_file pm
map-written_out [] = refl
map-written_out (q ∷ pm) = ap (◌∷◌ (complete_file q)) (map-written_out pm)

-- At an interrupt while no connection is open, with the handlers of the bucket, of the persistent worker
-- and of any number of ports, and with the books in order: the worker is stopped, every data file is
-- closed and the bucket is emptied; each port closes whatever number lies where its socket was. The
-- files hold what was written: of each queue they lack exactly the frames that wait, which one more
-- turn of the persistent worker would have put behind it.
pub int_handle-unwritten :
    (a b : ℕ) (ports : List Port) (p : Process)
    → All IsAccounted p.books
    → (int_handle (port_handlers ports (initial_handlers a b)) p
        ≡ ([], stopped_with (with_ports_shut ports p) (map file_of p.books)))
      × (int_handle
            (port_handlers ports (initial_handlers a b))
            (record p { books = worker_turn p.books })
          ≡ ([], stopped_with (with_ports_shut ports p) (map complete_file p.books)))
int_handle-unwritten a b ports p h = (
  int_handle-stopped a b ports p,
  int_handle-stopped a b ports (record p { books = worker_turn p.books })
      ∙ ap (λ q. ([], q))
          (stopped-books ports p (worker_turn p.books) (map file_of (worker_turn p.books)))
      ∙ ap (λ pm. ([], stopped_with (with_ports_shut ports p) (map file_of pm)))
          (worker_turn-IsAccounted p.books h).0
      ∙ ap (λ files. ([], stopped_with (with_ports_shut ports p) files)) (map-written_out p.books),
)
