-- ===== src/System/Ownership/Starting.antt =====
-- After `unpersist` every frame stands in one queue, once.
use newtmq_server.Base.{
  ℕ, ◌+◌, ◌≤◌, ◌≡◌, subst, List, [], ◌∷◌, Option, none, some, Bytes, Bool-cases, inl, inr, length,
  arith,
}
use newtmq_server.Base.Last.{update_last}
use newtmq_server.Common.{Env, get_hash}
use newtmq_server.Frame.{Frame}
use newtmq_server.Persistence.{Disk, Persistent, has_qid, get_qinfo, create_qinfo}
use newtmq_server.Queue.{Box, enqueue}
use newtmq_server.Restart.{
  Reader, Outcome, done, Directory, Start, Result, restarted, aborted, unpersist,
  unpersist_directory, next_directory, with_books, read_files, queue_frames, enqueue_all,
  reinstated, is_hidden, sent_number, data_now,
}
use newtmq_server.System.Ownership.Counts.{count_box, count_frames, Fits, Fits-less}
use newtmq_server.System.Ownership.Queues.{enqueue-count}
use newtmq_server.System.Ownership.Rereading.{ReadingFits, unpersist_queue_context-ReadingFits}

abbrev pub StartFits : ℕ → Start → Type 0
StartFits a s = Fits a s.reader.allocated (count_box a s.queues)

abbrev EndFits : ℕ → Result → Type 0
EndFits a (restarted s) = StartFits a s
EndFits a aborted = Unit
EndFits a Result.corrupted = Unit
EndFits a Result.running = Unit

enqueue_all-count :
    (a : ℕ) (fs : List Frame) (qname : Bytes) (box : Box Frame)
    → count_box a (enqueue_all fs qname box) ≤ count_box a box + count_frames a fs
unfolding enqueue_all
enqueue_all-count a [] qname box = omega arith
enqueue_all-count a (f ∷ fs) qname box = omega (
  arith,
  enqueue_all-count a fs qname (enqueue (some f) qname box).1,
  enqueue-count a f qname box,
)

queue_frames-EndFits :
    (a : ℕ) (qname : Bytes) (pm : Persistent) (box : Box Frame) (o : Outcome Reader)
    → ReadingFits a (count_box a box) o
    → EndFits a (queue_frames qname pm box o)
unfolding queue_frames
queue_frames-EndFits a qname pm box (done r) h =
    Fits-less a r.allocated r.allocated _ _ h (enqueue_all-count a r.found qname box) (omega arith)
queue_frames-EndFits a qname pm box Outcome.corrupted h = tt
queue_frames-EndFits a qname pm box Outcome.running h = tt

read_files-EndFits :
    (a : ℕ) (env : Env) (memory qname : Bytes) (s : Start) (pm : Persistent) (sent : Option ℕ)
    (file : Option Bytes)
    → StartFits a s
    → EndFits a (read_files env memory qname s pm sent file)
unfolding read_files
read_files-EndFits a env memory qname s pm (some sent) (some file) h =
    queue_frames-EndFits a qname
      (update_last (has_qid (get_hash qname)) (reinstated sent (length file)) pm) s.queues _
      (unpersist_queue_context-ReadingFits a (count_box a s.queues) env memory sent file s.reader h)
read_files-EndFits a env memory qname s pm none file h = tt
read_files-EndFits a env memory qname s pm (some sent) none h = tt

with_books-EndFits :
    (a : ℕ) (env : Env) (disk : Disk) (memory : Bytes) (dir : Directory) (s : Start)
    (o : Option Persistent)
    → StartFits a s
    → EndFits a (with_books env disk memory dir s o)
unfolding with_books
with_books-EndFits a env disk memory dir s none h = tt
with_books-EndFits a env disk memory dir s (some pm) h =
    read_files-EndFits a env memory dir.name s pm
      (sent_number disk dir.name (get_qinfo (get_hash dir.name) s.persistent))
      (data_now dir.data_file (get_qinfo (get_hash dir.name) s.persistent)) h

next_directory-EndFits :
    (a : ℕ) (loop : Start → Result) (r : Result)
    → EndFits a r
    → ((s : Start) → StartFits a s → EndFits a (loop s))
    → EndFits a (next_directory loop r)
unfolding next_directory
next_directory-EndFits a loop (restarted s) h k = k s h
next_directory-EndFits a loop aborted h k = tt
next_directory-EndFits a loop Result.corrupted h k = tt
next_directory-EndFits a loop Result.running h k = tt

unpersist-EndFits :
    (a : ℕ) (env : Env) (disk : Disk) (memory : Bytes) (dirs : List Directory) (s : Start)
    → StartFits a s
    → EndFits a (unpersist env disk memory dirs s)
unfolding unpersist unpersist_directory
unpersist-EndFits a env disk memory [] s h = h
unpersist-EndFits a env disk memory (d ∷ ds) s h = elim (Bool-cases (is_hidden d.name)) [
  | inl e ↦ rw (e, unpersist) (unpersist-EndFits a env disk memory ds s h)
  | inr e ↦
      rw (e, unpersist)
        (next_directory-EndFits a (unpersist env disk memory ds)
          (unpersist_directory env disk memory d s)
          (with_books-EndFits a env disk memory d s (create_qinfo disk d.name s.persistent) h)
          (unpersist-EndFits a env disk memory ds))
]

pub unpersist-StartFits :
    (a : ℕ) (env : Env) (disk : Disk) (memory : Bytes) (dirs : List Directory) (s s' : Start)
    → unpersist env disk memory dirs s ≡ restarted s'
    → StartFits a s
    → StartFits a s'
unpersist-StartFits a env disk memory dirs s s' e h =
    subst (EndFits a) e (unpersist-EndFits a env disk memory dirs s h)
