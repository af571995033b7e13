-- ===== src/Persistence/Accounting.antt =====
-- The two indices of a data file and the frames that wait for it.
use newtmq_server.Base.{
  ℕ, ◌+◌, ◌<◌, List, [], ◌∷◌, ◌++◌, Bytes, All, Option, none, some, ◌≡◌, refl, ap, sym, ◌∙◌, false,
  if◌then◌else◌, ltb, arith, append-nil, append_assoc, map, subst, All-append, Bool-cases, inl, inr,
}
use newtmq_server.Base.Last.{All-update_last}
use newtmq_server.Common.{Ret, get_hash}
use newtmq_server.Frame.{Frame}
use newtmq_server.Persistence.{
  Disk, QueueInfo, Persistent, add_frame, persisted, write_frames, persist_queue_context,
  persist_queue, worker_turn, alloc_qinfo, has_qid, persist_frame, create_qinfo, get_qinfo,
  reads_freed, persist_turn, persist_in, create_unless, append_qinfo, reinstate, new_qinfo,
  persist_queue_info,
}

abbrev pub sizes : List Frame → ℕ
sizes [] = 0
sizes (f ∷ fs) = f.size + sizes fs

abbrev pub all_persisted : List Frame → Bytes
all_persisted [] = []
all_persisted (f ∷ fs) = persisted f ++ all_persisted fs

sizes-append : (fs : List Frame) (f : Frame) → sizes (fs ++ f ∷ []) ≡ sizes fs + f.size
sizes-append [] f = omega arith
sizes-append (g ∷ fs) f = omega (arith, sizes-append fs f)

-- The head of the file is ahead of what is written by the sizes of the frames that wait, and each
-- of them has a size.
pub record IsAccounted (q : QueueInfo) : Type 0 where
  pub head : q.index_head ≡ q.index_persistent + sizes q.unpersistent
  pub sized : All (λ f. 0 < f.size) q.unpersistent

pub write_frames_lem :
    (fs : List Frame) (q : QueueInfo)
    → write_frames fs q ≡ record q {
      written = q.written ++ all_persisted fs;
      index_persistent = q.index_persistent + sizes fs;
    }
unfolding write_frames
write_frames_lem [] q = ground (arith, append-nil q.written)
write_frames_lem (f ∷ fs) q =
    write_frames_lem fs _ ∙ ground (arith, append_assoc q.written (persisted f) (all_persisted fs))

-- the queue once all its frames are written
abbrev pub written_out : QueueInfo → QueueInfo
written_out q = record q {
  unpersistent = [];
  written = q.written ++ all_persisted q.unpersistent;
  index_persistent = q.index_head;
  sent_file = q.index_sent;
}

nothing_waits :
    (fs : List Frame) (n h : ℕ)
    → All (λ f. 0 < f.size) fs
    → h ≡ n + sizes fs
    → ltb n h ≡ false
    → fs ≡ []
nothing_waits [] n h a e l = refl
nothing_waits (f ∷ fs) n h a e l = ground arith

persist_queue-written_out : (q : QueueInfo) → IsAccounted q → persist_queue q ≡ written_out q
unfolding persist_queue persist_queue_info persist_queue_context
persist_queue-written_out q a = elim (Bool-cases (ltb q.index_persistent q.index_head)) [
  | inl behind ↦
      let emptied : QueueInfo → QueueInfo = λ p. record p { unpersistent = [] } in
      let reached : ℕ → QueueInfo = λ n. record (written_out q) { index_persistent = n } in
      rw behind (
        ap emptied (write_frames_lem q.unpersistent (record q { sent_file = q.index_sent }))
        ∙ ap reached (sym a.head))
  | inr even ↦
      let empty : q.unpersistent ≡ [] =
        nothing_waits q.unpersistent q.index_persistent q.index_head a.sized a.head even in
      let written : q.written ≡ q.written ++ all_persisted q.unpersistent =
        sym (append-nil q.written) ∙ ap (λ fs. q.written ++ all_persisted fs) (sym empty) in
      let reached : q.index_persistent ≡ q.index_head = ground (arith, empty, a.head) in
      rw even (λ i. record q {
        unpersistent = empty i;
        written = written i;
        index_persistent = reached i;
        sent_file = q.index_sent;
      })
]

written_out-IsAccounted : (q : QueueInfo) → IsAccounted (written_out q)
written_out-IsAccounted q = record { head = omega arith; sized = tt }

-- One turn of the persistent worker, with the books in order, writes every frame that waits, of
-- every queue and in the order in which they came, and leaves none waiting: what is written then
-- reaches the head of each file. The books are in order again.
pub worker_turn-IsAccounted :
    (pm : Persistent)
    → All IsAccounted pm
    → (worker_turn pm ≡ map written_out pm) × All IsAccounted (worker_turn pm)
unfolding worker_turn
worker_turn-IsAccounted [] h = (refl, tt)
worker_turn-IsAccounted (q ∷ pm) h =
    let (rest, ordered) = worker_turn-IsAccounted pm h.1 in
    let out = persist_queue-written_out q h.0 in
    (λ i. out i ∷ rest i, (subst IsAccounted (sym out) (written_out-IsAccounted q), ordered))

add_frame-IsAccounted :
    (f : Frame) (q : QueueInfo) → 0 < f.size → IsAccounted q → IsAccounted (add_frame f q)
unfolding add_frame
add_frame-IsAccounted f q p a = record {
  head = ap (λ n. n + f.size) a.head ∙ omega (arith, sizes-append q.unpersistent f);
  sized = All-append _ q.unpersistent (f ∷ []) a.sized (p, tt);
}

reinstate-IsAccounted :
    (qname : Bytes) (o : Option (ℕ × ℕ))
    → IsAccounted (persist_queue_info (reinstate (new_qinfo qname) o))
unfolding reinstate new_qinfo persist_queue_info
reinstate-IsAccounted qname none = record { head = refl; sized = tt }
reinstate-IsAccounted qname (some (size, sent)) = record { head = omega arith; sized = tt }

-- All accounts are in order, if there is a result at all.
abbrev AllAccounted : Option Persistent → Type 0
AllAccounted none = Unit
AllAccounted (some pm) = All IsAccounted pm

append_qinfo-IsAccounted :
    (disk : Disk) (qname : Bytes) (pm : Persistent)
    → All IsAccounted pm
    → AllAccounted (append_qinfo pm (alloc_qinfo disk qname))
unfolding append_qinfo alloc_qinfo
append_qinfo-IsAccounted disk qname pm h = elim (Bool-cases (disk.usable qname)) [
  | inl e ↦
      rw (e, append_qinfo)
        (All-append IsAccounted pm _ h (reinstate-IsAccounted qname (disk.index_file qname), tt))
  | inr e ↦ rw (e, append_qinfo) tt
]

create_unless-IsAccounted :
    (disk : Disk) (qname : Bytes) (pm : Persistent) (o : Option QueueInfo)
    → All IsAccounted pm
    → AllAccounted (create_unless disk qname pm o)
unfolding create_unless
create_unless-IsAccounted disk qname pm none h = append_qinfo-IsAccounted disk qname pm h
create_unless-IsAccounted disk qname pm (some q) h = h

-- The book of a queue is found, or made, in books that are in order.
pub create_qinfo-IsAccounted :
    (disk : Disk) (qname : Bytes) (pm pm' : Persistent)
    → All IsAccounted pm
    → create_qinfo disk qname pm ≡ some pm'
    → All IsAccounted pm'
unfolding create_qinfo
create_qinfo-IsAccounted disk qname pm pm' h e =
    subst AllAccounted e (create_unless-IsAccounted disk qname pm (get_qinfo (get_hash qname) pm) h)

persist_in-IsAccounted :
    (frame : Frame) (id : ℕ) (o : Option Persistent) (r : Ret) (pm : Persistent)
    → 0 < frame.size
    → AllAccounted o
    → persist_in frame id o ≡ some (r, pm)
    → All IsAccounted pm
unfolding persist_in
persist_in-IsAccounted frame id none r pm p h e = ground arith
persist_in-IsAccounted frame id (some pm') r pm p h e = subst (All IsAccounted) (ap listed e) (
    All-update_last IsAccounted (has_qid id) (add_frame frame) pm'
      (λ q. add_frame-IsAccounted frame q p) h)
  where
    listed : Option (Ret × Persistent) → Persistent
    listed none = []
    listed (some x) = x.1

-- Booking a frame that has a size keeps the books in order, also where the queue is new or is
-- taken up again from the files of an earlier run.
pub persist_frame-IsAccounted :
    (disk : Disk) (frame : Frame) (qname : Bytes) (pm pm' : Persistent) (r : Ret)
    → All IsAccounted pm
    → 0 < frame.size
    → persist_frame disk frame qname pm ≡ some (r, pm')
    → All IsAccounted pm'
unfolding persist_frame create_qinfo
persist_frame-IsAccounted disk frame qname pm pm' r h p e =
    persist_in-IsAccounted frame (get_hash qname) _ r pm' p
      (create_unless-IsAccounted disk qname pm (get_qinfo (get_hash qname) pm) h) e

-- A turn that uses no freed memory keeps the books in order.
pub persist_turn-IsAccounted :
    (freed : List ℕ) (pm pm' : Persistent)
    → All IsAccounted pm
    → persist_turn freed pm ≡ some pm'
    → All IsAccounted pm'
unfolding persist_turn
persist_turn-IsAccounted freed pm pm' h e = elim (Bool-cases (reads_freed freed pm)) [
  | inl t ↦ absurd (ground (arith, t))
  | inr n ↦
      subst AllAccounted (sym (ap (λ b. if b then none else some (worker_turn pm)) n) ∙ e)
        (worker_turn-IsAccounted pm h).1
]
