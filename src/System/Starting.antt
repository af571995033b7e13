-- ===== src/System/Starting.antt =====
-- What `unpersist` leaves: the table of queues has its size, and no frame waits to be written.
use newtmq_server.Base.{
  ℕ, ◌≡◌, refl, ◌∙◌, ap, subst, sym, List, [], ◌∷◌, Option, none, some, Bytes, All, All-append,
  Bool-cases, inl, inr, length, arith, ◌<◌,
}
use newtmq_server.Base.Last.{All-update_last}
use newtmq_server.Common.{Env, get_hash}
use newtmq_server.Frame.{Frame}
use newtmq_server.Persistence.{
  Disk, QueueInfo, Persistent, has_qid, get_qinfo, create_qinfo, create_unless, append_qinfo,
  alloc_qinfo, reinstate, new_qinfo, persist_queue_info,
}
use newtmq_server.Persistence.Accounting.{IsAccounted, sizes}
use newtmq_server.Queue.{Box, qb_size, enqueue, put_entry}
use newtmq_server.Queue.Laws.{length-put_entry}
use newtmq_server.Restart.{
  Reader, Outcome, done, Directory, Start, Result, restarted, aborted, unpersist,
  unpersist_directory, next_directory, with_books, read_files, queue_frames, enqueue_all,
  reinstated, is_hidden, sent_number, data_now, unpersist_queue_context,
}

-- all that the books of a queue count is in its file
pub record IsRested (q : QueueInfo) : Type 0 where
  pub even : q.index_head ≡ q.index_persistent
  pub none_waits : q.unpersistent ≡ []

abbrev pub IsReadBack : Start → Type 0
IsReadBack s = (length s.queues ≡ qb_size) × All IsRested s.persistent

abbrev ReadsBack : Result → Type 0
ReadsBack (restarted s) = IsReadBack s
ReadsBack aborted = Unit
ReadsBack Result.corrupted = Unit
ReadsBack Result.running = Unit

abbrev AllRested : Option Persistent → Type 0
AllRested none = Unit
AllRested (some pm) = All IsRested pm

reinstate-IsRested :
    (qname : Bytes) (o : Option (ℕ × ℕ))
    → IsRested (persist_queue_info (reinstate (new_qinfo qname) o))
unfolding reinstate new_qinfo persist_queue_info
reinstate-IsRested qname none = record { even = refl; none_waits = refl }
reinstate-IsRested qname (some (size, sent)) = record { even = refl; none_waits = refl }

append_qinfo-IsRested :
    (disk : Disk) (qname : Bytes) (pm : Persistent)
    → All IsRested pm
    → AllRested (append_qinfo pm (alloc_qinfo disk qname))
unfolding append_qinfo alloc_qinfo
append_qinfo-IsRested disk qname pm h = elim (Bool-cases (disk.usable qname)) [
  | inl e ↦
      rw (e, append_qinfo)
        (All-append IsRested pm _ h (reinstate-IsRested qname (disk.index_file qname), tt))
  | inr e ↦ rw (e, append_qinfo) tt
]

create_unless-IsRested :
    (disk : Disk) (qname : Bytes) (pm : Persistent) (o : Option QueueInfo)
    → All IsRested pm
    → AllRested (create_unless disk qname pm o)
unfolding create_unless
create_unless-IsRested disk qname pm none h = append_qinfo-IsRested disk qname pm h
create_unless-IsRested disk qname pm (some q) h = h

length-enqueue_all :
    (fs : List Frame) (qname : Bytes) (box : Box Frame)
    → length (enqueue_all fs qname box) ≡ length box
unfolding enqueue_all enqueue
length-enqueue_all [] qname box = refl
length-enqueue_all (f ∷ fs) qname box =
    length-enqueue_all fs qname (put_entry f (get_hash qname) qname box)
    ∙ length-put_entry f (get_hash qname) qname box

queue_frames-ReadsBack :
    (qname : Bytes) (pm : Persistent) (box : Box Frame) (o : Outcome Reader)
    → All IsRested pm
    → length box ≡ qb_size
    → ReadsBack (queue_frames qname pm box o)
unfolding queue_frames
queue_frames-ReadsBack qname pm box (done r) h l = (length-enqueue_all r.found qname box ∙ l, h)
queue_frames-ReadsBack qname pm box Outcome.corrupted h l = tt
queue_frames-ReadsBack qname pm box Outcome.running h l = tt

read_files-ReadsBack :
    (env : Env) (memory qname : Bytes) (s : Start) (pm : Persistent) (sent : Option ℕ)
    (file : Option Bytes)
    → All IsRested pm
    → length s.queues ≡ qb_size
    → ReadsBack (read_files env memory qname s pm sent file)
unfolding read_files reinstated
read_files-ReadsBack env memory qname s pm (some sent) (some file) h l =
    queue_frames-ReadsBack qname _ s.queues (unpersist_queue_context env memory sent file s.reader)
      (All-update_last IsRested (has_qid (get_hash qname)) (reinstated sent (length file)) pm
        (λ q r. record { even = refl; none_waits = r.none_waits }) h)
      l
read_files-ReadsBack env memory qname s pm none file h l = tt
read_files-ReadsBack env memory qname s pm (some sent) none h l = tt

with_books-ReadsBack :
    (env : Env) (disk : Disk) (memory : Bytes) (dir : Directory) (s : Start) (o : Option Persistent)
    → AllRested o
    → length s.queues ≡ qb_size
    → ReadsBack (with_books env disk memory dir s o)
unfolding with_books
with_books-ReadsBack env disk memory dir s none h l = tt
with_books-ReadsBack env disk memory dir s (some pm) h l =
    read_files-ReadsBack env memory dir.name s pm
      (sent_number disk dir.name (get_qinfo (get_hash dir.name) s.persistent))
      (data_now dir.data_file (get_qinfo (get_hash dir.name) s.persistent)) h l

unpersist_directory-ReadsBack :
    (env : Env) (disk : Disk) (memory : Bytes) (dir : Directory) (s : Start)
    → IsReadBack s
    → ReadsBack (unpersist_directory env disk memory dir s)
unfolding unpersist_directory create_qinfo
unpersist_directory-ReadsBack env disk memory dir s h =
    with_books-ReadsBack env disk memory dir s (create_qinfo disk dir.name s.persistent)
      (create_unless-IsRested disk dir.name s.persistent
        (get_qinfo (get_hash dir.name) s.persistent) h.1)
      h.0

next_directory-ReadsBack :
    (loop : Start → Result) (r : Result)
    → ReadsBack r
    → ((s : Start) → IsReadBack s → ReadsBack (loop s))
    → ReadsBack (next_directory loop r)
unfolding next_directory
next_directory-ReadsBack loop (restarted s) h k = k s h
next_directory-ReadsBack loop aborted h k = tt
next_directory-ReadsBack loop Result.corrupted h k = tt
next_directory-ReadsBack loop Result.running h k = tt

unpersist-ReadsBack :
    (env : Env) (disk : Disk) (memory : Bytes) (dirs : List Directory) (s : Start)
    → IsReadBack s
    → ReadsBack (unpersist env disk memory dirs s)
unfolding unpersist
unpersist-ReadsBack env disk memory [] s h = h
unpersist-ReadsBack env disk memory (d ∷ ds) s h = elim (Bool-cases (is_hidden d.name)) [
  | inl e ↦ rw (e, unpersist) (unpersist-ReadsBack env disk memory ds s h)
  | inr e ↦
      rw (e, unpersist)
        (next_directory-ReadsBack (unpersist env disk memory ds)
          (unpersist_directory env disk memory d s)
          (unpersist_directory-ReadsBack env disk memory d s h)
          (unpersist-ReadsBack env disk memory ds))
]

pub unpersist-IsReadBack :
    (env : Env) (disk : Disk) (memory : Bytes) (dirs : List Directory) (s s' : Start)
    → unpersist env disk memory dirs s ≡ restarted s'
    → IsReadBack s
    → IsReadBack s'
unpersist-IsReadBack env disk memory dirs s s' e h =
    subst ReadsBack e (unpersist-ReadsBack env disk memory dirs s h)

IsRested-IsAccounted : (q : QueueInfo) → IsRested q → IsAccounted q
IsRested-IsAccounted q r = record {
  head = r.even ∙ omega (arith, ap sizes r.none_waits);
  sized = subst (All (λ f. 0 < f.size)) (sym r.none_waits) tt;
}

pub AllRested-IsAccounted : (pm : Persistent) → All IsRested pm → All IsAccounted pm
AllRested-IsAccounted [] h = tt
AllRested-IsAccounted (q ∷ pm) h = (IsRested-IsAccounted q h.0, AllRested-IsAccounted pm h.1)
