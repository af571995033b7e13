-- ===== src/Persistence.antt =====
-- lib/persistent_worker.c while the server runs: the bookkeeping of each queue, the frames that wait
-- to be written, and what is written. The file system answers through `Disk`. The start of the
-- server, which reads the files back, is modelled in Restart.
pub mod Format
pub mod Accounting
pub mod Waiting
pub mod Tests
use newtmq_server.Base.{
  ℕ, zero, suc, ◌+◌, ◌==◌, ltb, if◌then◌else◌, Bool, true, false, ◌&&◌, List, [], ◌∷◌, ◌++◌, Option,
  none, some, Bytes, c_string,
}
use newtmq_server.Base.Last.{find_last, update_last}
use newtmq_server.Common.{Ret, success, error, get_hash}
use newtmq_server.Connection.{buffer}
use newtmq_server.Frame.{Frame, LineData}

-- What `alloc_qinfo` learns of the directory of a queue: whether its files can be opened (its name
-- is free or a directory, and both `fopen` calls succeed), and of the file `sent_index`, if it is
-- there, its size and the number in it.
pub record Disk : Type 0 where
  pub usable : Bytes → Bool
  pub index_file : Bytes → Option (ℕ × ℕ)

-- `queue_info_t`; `data` and `sent_file` are what has been written to its two files.
pub record QueueInfo : Type 0 where
  pub qid : ℕ
  pub unpersistent : List Frame
  pub index_head : ℕ
  pub index_sent : ℕ
  pub index_persistent : ℕ
  pub written : Bytes
  pub sent_file : ℕ

-- `pm.h_qinfo`
abbrev pub Persistent : Type 0
Persistent = List QueueInfo

abbrev pub has_qid : ℕ → QueueInfo → Bool
has_qid id q = q.qid == id

-- The scan goes on to the end.
unfoldable pub get_qinfo : ℕ → Persistent → Option QueueInfo
get_qinfo id pm = find_last (has_qid id) pm

unfoldable pub persist_queue_info : QueueInfo → QueueInfo
persist_queue_info q = record q { sent_file = q.index_sent }

unfoldable pub new_qinfo : Bytes → QueueInfo
new_qinfo qname = record {
  qid = get_hash qname;
  unpersistent = [];
  index_head = 0;
  index_sent = 0;
  index_persistent = 0;
  written = [];
  sent_file = 0;
}

-- With a file `sent_index`, the two indices of the data file are set from the size of that file.
unfoldable pub reinstate : QueueInfo → Option (ℕ × ℕ) → QueueInfo
reinstate q none = q
reinstate q (some (size, sent)) = record q {
  index_sent = sent;
  index_head = size;
  index_persistent = size;
}

unfoldable pub alloc_qinfo : Disk → Bytes → Option QueueInfo
unfolding persist_queue_info new_qinfo reinstate
alloc_qinfo disk qname =
    if disk.usable qname
    then some (persist_queue_info (reinstate (new_qinfo qname) (disk.index_file qname)))
    else none

unfoldable pub append_qinfo : Persistent → Option QueueInfo → Option Persistent
append_qinfo pm none = none
append_qinfo pm (some q) = some (pm ++ q ∷ [])

unfoldable pub create_unless : Disk → Bytes → Persistent → Option QueueInfo → Option Persistent
create_unless disk qname pm (some q) = some pm
create_unless disk qname pm none = append_qinfo pm (alloc_qinfo disk qname)

-- `create_qinfo`: the list in which the queue is; `none` is the failing assertion.
unfoldable pub create_qinfo : Disk → Bytes → Persistent → Option Persistent
unfolding append_qinfo create_unless alloc_qinfo
create_qinfo disk qname pm = create_unless disk qname pm (get_qinfo (get_hash qname) pm)

-- `add_frame_into_qinfo` and the line behind it
unfoldable pub add_frame : Frame → QueueInfo → QueueInfo
add_frame frame q = record q {
  unpersistent = q.unpersistent ++ frame ∷ [];
  index_head = q.index_head + frame.size;
}

unfoldable pub persist_in : Frame → ℕ → Option Persistent → Option (Ret × Persistent)
persist_in frame id none = none
persist_in frame id (some pm) = some (success, update_last (has_qid id) (add_frame frame) pm)

unfoldable pub persist_frame : Disk → Frame → Bytes → Persistent → Option (Ret × Persistent)
unfolding persist_in
persist_frame disk frame qname pm = persist_in frame (get_hash qname) (create_qinfo disk qname pm)

unfoldable pub sent_in : Frame → ℕ → Persistent → Option QueueInfo → Ret × Persistent
sent_in frame id pm none = (error, pm)
sent_in frame id pm (some found) = (
  success,
  update_last (has_qid id) (λ q. record q { index_sent = q.index_sent + frame.size }) pm,
)

unfoldable pub update_index_sent : Bytes → Frame → Persistent → Ret × Persistent
unfolding sent_in
update_index_sent qname frame pm = sent_in frame (get_hash qname) pm (get_qinfo (get_hash qname) pm)

unfoldable pub persisted_headers : List LineData → Bytes → Bytes
persisted_headers [] rest = rest
persisted_headers (h ∷ hs) rest = buffer h ++ b'\n' ∷ persisted_headers hs rest

unfoldable pub persisted_body : List LineData → Bytes → Bytes
persisted_body [] rest = rest
persisted_body (b ∷ bs) rest = buffer b ++ persisted_body bs rest

-- What the body of the loop of `persist_queue_context` writes for a frame.
unfoldable pub persisted : Frame → Bytes
unfolding persisted_headers persisted_body
persisted f =
    c_string f.name ++ b'\n' ∷ persisted_headers f.attrs (b'\n' ∷ persisted_body f.body (0 ∷ []))

unfoldable pub write_frames : List Frame → QueueInfo → QueueInfo
write_frames [] q = q
write_frames (f ∷ fs) q = write_frames fs (record q {
  written = q.written ++ persisted f;
  index_persistent = q.index_persistent + f.size;
})

-- `persist_queue_context` takes each waiting frame off the list and writes it.
unfoldable pub persist_queue_context : QueueInfo → QueueInfo
persist_queue_context q = record (write_frames q.unpersistent q) { unpersistent = [] }

-- what one turn of `persistent_worker` does for a queue
unfoldable pub persist_queue : QueueInfo → QueueInfo
unfolding persist_queue_info
persist_queue q =
    let q' = persist_queue_info q in
    if ltb q'.index_persistent q'.index_head then persist_queue_context q' else q'

-- one turn of the loop of `persistent_worker`, which holds `m_qinfo`
unfoldable pub worker_turn : Persistent → Persistent
worker_turn [] = []
worker_turn (q ∷ pm) = persist_queue q ∷ worker_turn pm

unfoldable pub is_freed : ℕ → List ℕ → Bool
is_freed a [] = false
is_freed a (b ∷ bs) = if a == b then true else is_freed a bs

-- one of the frames has been freed
unfoldable pub holds_freed : List ℕ → List Frame → Bool
unfolding is_freed
holds_freed freed [] = false
holds_freed freed (f ∷ fs) = if is_freed f.addr freed then true else holds_freed freed fs

-- A turn takes a frame off a list and writes it that has been freed.
unfoldable pub reads_freed : List ℕ → Persistent → Bool
unfolding holds_freed
reads_freed freed [] = false
reads_freed freed (q ∷ pm) =
    if ltb q.index_persistent q.index_head && holds_freed freed q.unpersistent
    then true
    else reads_freed freed pm

-- A turn with the memory that has been freed; `none` is a use of such memory.
unfoldable pub persist_turn : List ℕ → Persistent → Option Persistent
unfolding reads_freed worker_turn
persist_turn freed pm = if reads_freed freed pm then none else some (worker_turn pm)
