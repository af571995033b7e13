-- ===== src/Restart.antt =====
-- `unpersist` of lib/persistent_worker.c, which runs before the threads start: for each directory
-- of the data directory, the books of its queue are opened, and the frames of its data file that
-- were not sent yet are read and queued again.
pub mod Chunks
pub mod Queues
pub mod Cut
mod Tests
use newtmq_server.Base.{
  ℕ, zero, suc, ◌+◌, ◌-◌, ◌==◌, ltb, if◌then◌else◌, Bool, true, false, List, [], ◌∷◌, ◌++◌, Option,
  none, some, Bytes, length, take, drop,
}
use newtmq_server.Base.Last.{update_last}
use newtmq_server.Common.{Ret, success, error, Env, gen_random, get_hash}
use newtmq_server.Frame.{Frame, alloc_frame, frame_id_len}
use newtmq_server.Parse.{Parsed, returned, parse_frame}
use newtmq_server.Persistence.{Disk, QueueInfo, Persistent, has_qid, get_qinfo, create_qinfo}
use newtmq_server.Queue.{Box, enqueue}

abbrev pub buffer_len : ℕ
buffer_len = 1024

-- What the reader of a data file keeps: the frame it is in, the `prev_buffer` of `parse_frame`, the
-- frames it has found, and how many values of `rand` and addresses of `malloc` are used up.
pub record Reader : Type 0 where
  pub frame : Option Frame
  pub prev : Option Bytes
  pub found : List Frame
  pub draws : ℕ
  pub allocated : ℕ

-- How a part of the reading ends: memory is overwritten or read where it must not be, or the fuel
-- of a loop ran out.
pub data Outcome (A : Type 0) : Type 0 where
  done : A → Outcome A
  corrupted running : Outcome A

-- `if(frame == NULL) frame = alloc_frame()`
unfoldable pub current : Reader → Frame × Reader
current r = elim r.frame [
  | some f ↦ (f, r)
  | none ↦ (alloc_frame r.allocated, record r { allocated = r.allocated + 1 })
]

-- what is kept of a call of `parse_frame`
unfoldable pub kept : Ret → Frame → Option Bytes → Reader → Reader
kept success f prev r = record r {
  frame = none;
  prev = prev;
  found = r.found ++ f ∷ [];
  draws = r.draws + (frame_id_len - 1);
}
kept error f prev r = record r { frame = some f; prev = prev }

-- With `*offset` -1 the index is one less, and in front of the buffer if it was 0; the source then
-- reads there.
unfoldable pub next_index : ℕ → Option ℕ → Option ℕ
next_index index (some offset) = some (index + offset)
next_index zero none = none
next_index (suc index) none = some index

-- `index` and `*offset` after a call, and the rest of the loop
unfoldable pub after_parse :
    (ℕ → Reader → Outcome Reader) → ℕ → ℕ → Reader → Parsed → Outcome Reader
unfolding kept next_index
after_parse loop len index r (returned ret offset f prev) = elim (next_index index offset) [
  | none ↦ corrupted
  | some next ↦ if ltb next len then loop next (kept ret f prev r) else done (kept ret f prev r)
]
after_parse loop len index r Parsed.corrupted = corrupted
after_parse loop len index r Parsed.running = running

-- The inner loop on the `len` bytes that `fread` gave, with fuel. `memory` is `frame_buffer` and
-- BUFFER_LEN bytes behind it: `parse_frame` is given `len` bytes from `index` on, also where fewer
-- are left.
unfoldable pub frames_loop : ℕ → Env → Bytes → ℕ → ℕ → Reader → Outcome Reader
unfolding after_parse current
frames_loop zero env memory len index r = running
frames_loop (suc fuel) env memory len index r =
    let (f, r') = current r in
    after_parse (frames_loop fuel env memory len) len index r'
      (parse_frame (gen_random env r.draws frame_id_len) f (take len (drop index memory)) r.prev)

-- `fread` overwrites the front of the buffer.
unfoldable pub fread : Bytes → Bytes → Bytes
fread chunk memory = chunk ++ drop (length chunk) memory

unfoldable pub next_chunk :
    (Bytes → Reader → Outcome Reader) → Bytes → Outcome Reader → Outcome Reader
next_chunk loop memory (done r) = loop memory r
next_chunk loop memory corrupted = corrupted
next_chunk loop memory running = running

-- The outer loop, with fuel; `file` is what is left of it.
unfoldable pub chunks_loop : ℕ → Env → Bytes → Bytes → Reader → Outcome Reader
unfolding next_chunk frames_loop fread
chunks_loop zero env file memory r = running
chunks_loop (suc fuel) env [] memory r = done r
chunks_loop (suc fuel) env (c ∷ cs) memory r =
    let chunk = take buffer_len (c ∷ cs) in
    let memory' = fread chunk memory in
    next_chunk (chunks_loop fuel env (drop buffer_len (c ∷ cs))) memory'
      (frames_loop (suc (length chunk)) env memory' (length chunk) 0 r)

-- `unpersist_queue_context` on the number in `sent_index` and the data file; `memory` is what lies
-- in and behind `frame_buffer`. The frame at its end that is not complete is lost.
unfoldable pub unpersist_queue_context : Env → Bytes → ℕ → Bytes → Reader → Outcome Reader
unfolding chunks_loop
unpersist_queue_context env memory sent_index file r =
    chunks_loop (suc (length file)) env (drop sent_index file) memory
      (record r { frame = none; found = [] })

-- a directory of the data directory: its name and its file `data`, if there is one
pub record Directory : Type 0 where
  pub name : Bytes
  pub data_file : Option Bytes

-- What `unpersist` changes.
pub record Start : Type 0 where
  pub queues : Box Frame
  pub persistent : Persistent
  pub reader : Reader

-- How it ends: a failing assertion, or an access to memory that is not there, ends the server.
pub data Result : Type 0 where
  restarted : Start → Result
  aborted corrupted running : Result

-- The number in `sent_index` and the bytes of `data` once `create_qinfo` has returned: for books that
-- it opened, both files are there. `none` is no file, of which `fclose(NULL)` follows.
unfoldable pub sent_number : Disk → Bytes → Option QueueInfo → Option ℕ
sent_number disk name none = some (elim (disk.index_file name) [ none ↦ 0 | some (size, n) ↦ n ])
sent_number disk name (some q) = elim (disk.index_file name) [
  | none ↦ none
  | some (size, n) ↦ some n
]

unfoldable pub data_now : Option Bytes → Option QueueInfo → Option Bytes
data_now none none = some []
data_now file _ = file

-- the frames of a file, in their order
unfoldable pub enqueue_all : List Frame → Bytes → Box Frame → Box Frame
enqueue_all [] name box = box
enqueue_all (f ∷ fs) name box = enqueue_all fs name (enqueue (some f) name box).1

unfoldable pub reinstated : ℕ → ℕ → QueueInfo → QueueInfo
reinstated sent size q = record q { index_sent = sent; index_head = size; index_persistent = size }

unfoldable pub queue_frames : Bytes → Persistent → Box Frame → Outcome Reader → Result
unfolding enqueue_all
queue_frames name pm box (done r) = restarted (record {
  queues = enqueue_all r.found name box;
  persistent = pm;
  reader = record r { found = [] };
})
queue_frames name pm box Outcome.corrupted = Result.corrupted
queue_frames name pm box Outcome.running = Result.running

unfoldable pub read_files :
    Env → Bytes → Bytes → Start → Persistent → Option ℕ → Option Bytes → Result
unfolding reinstated queue_frames unpersist_queue_context
read_files env memory name s pm (some sent) (some file) =
    queue_frames name (update_last (has_qid (get_hash name)) (reinstated sent (length file)) pm)
      s.queues (unpersist_queue_context env memory sent file s.reader)
read_files env memory name s pm sent file = Result.corrupted

unfoldable pub with_books : Env → Disk → Bytes → Directory → Start → Option Persistent → Result
unfolding read_files sent_number data_now
with_books env disk memory dir s none = aborted
with_books env disk memory dir s (some pm) =
    let before = get_qinfo (get_hash dir.name) s.persistent in
    read_files env memory dir.name s pm (sent_number disk dir.name before)
      (data_now dir.data_file before)

-- the body of the loop of `unpersist`, for a name that does not begin with a dot
unfoldable pub unpersist_directory : Env → Disk → Bytes → Directory → Start → Result
unfolding with_books
unpersist_directory env disk memory dir s =
    with_books env disk memory dir s (create_qinfo disk dir.name s.persistent)

unfoldable pub is_hidden : Bytes → Bool
is_hidden [] = false
is_hidden (c ∷ cs) = c == b'.'

unfoldable pub next_directory : (Start → Result) → Result → Result
next_directory loop (restarted s) = loop s
next_directory loop aborted = aborted
next_directory loop Result.corrupted = Result.corrupted
next_directory loop Result.running = Result.running

-- `unpersist` on the entries that `readdir` gives
unfoldable pub unpersist : Env → Disk → Bytes → List Directory → Start → Result
unfolding next_directory unpersist_directory is_hidden
unpersist env disk memory [] s = restarted s
unpersist env disk memory (d ∷ ds) s = elim (is_hidden d.name) [
  | true ↦ unpersist env disk memory ds s
  | false ↦ next_directory (unpersist env disk memory ds) (unpersist_directory env disk memory d s)
]
