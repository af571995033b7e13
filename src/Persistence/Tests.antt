-- ===== src/Persistence/Tests.antt =====
-- Runs of the persistent worker.
use newtmq_server.Base.{true, [], ◌∷◌, none, All, ◌≡◌, refl, arith, map}
use newtmq_server.Frame.{Frame, alloc_frame}
use newtmq_server.Persistence.{Disk, QueueInfo, worker_turn}
use newtmq_server.Persistence.Accounting.{IsAccounted, written_out, worker_turn-IsAccounted}

abbrev pub empty_disk : Disk
empty_disk = record { usable = λ q. true; index_file = λ q. none }

abbrev waiting : Frame
waiting = record (alloc_frame 1) { size = 5 }

-- a queue with one frame to write
abbrev pub behind : QueueInfo
behind = record {
  qid = 3;
  unpersistent = waiting ∷ [];
  index_head = 12;
  index_sent = 0;
  index_persistent = 7;
  written = [];
  sent_file = 0;
}

pub behind-IsAccounted : IsAccounted behind
behind-IsAccounted = record { head = refl; sized = (omega arith, tt) }

worker_turn-IsAccounted_example :
    (worker_turn (behind ∷ []) ≡ map written_out (behind ∷ []))
    × All IsAccounted (worker_turn (behind ∷ []))
worker_turn-IsAccounted_example = worker_turn-IsAccounted (behind ∷ []) (behind-IsAccounted, tt)
