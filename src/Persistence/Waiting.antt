-- ===== src/Persistence/Waiting.antt =====
-- Which frames the persistent worker of lib/persistent_worker.c has still to write.
use newtmq_server.Base.{
  ℕ, ◌+◌, ◌≤◌, ◌==◌, ==_refl, ◌≡◌, refl, ap, ◌∙◌, Bool, true, List, [], ◌∷◌, ◌++◌, Option, none,
  some, Bytes, arith, Bool-cases, inl, inr, if◌then◌else◌, map, subst,
}
use newtmq_server.Base.Last.{any, any-end, find_last, update_last}
use newtmq_server.Common.{Ret, get_hash}
use newtmq_server.Frame.{Frame}
use newtmq_server.Persistence.{
  Disk, QueueInfo, Persistent, has_qid, get_qinfo, create_qinfo, create_unless, append_qinfo,
  alloc_qinfo, reinstate, new_qinfo, persist_queue_info, persist_frame, persist_in, add_frame,
  update_index_sent, sent_in,
}
use newtmq_server.Persistence.Accounting.{written_out}

-- The frames of the address that the persistent worker has still to write.
abbrev pub waiting : ℕ → List Frame → ℕ
waiting a [] = 0
waiting a (f ∷ fs) = (if f.addr == a then 1 else 0) + waiting a fs

abbrev pub all_waiting : ℕ → Persistent → ℕ
all_waiting a [] = 0
all_waiting a (q ∷ qs) = waiting a q.unpersistent + all_waiting a qs

waiting-append : (a : ℕ) (fs gs : List Frame) → waiting a (fs ++ gs) ≡ waiting a fs + waiting a gs
waiting-append a [] gs = omega arith
waiting-append a (f ∷ fs) gs = ground (arith, waiting-append a fs gs)

-- one queue changes, and what waits there becomes more
update_last-waiting :
    (a : ℕ) (p : QueueInfo → Bool) (g : QueueInfo → QueueInfo) (pm : Persistent)
    → ((q : QueueInfo) → 1 ≤ waiting a (g q).unpersistent)
    → any p pm ≡ true
    → 1 ≤ all_waiting a (update_last p g pm)
unfolding any update_last
update_last-waiting a p g [] k e = ground arith
update_last-waiting a p g (q ∷ qs) k e = elim (Bool-cases (any p qs)) [
  | inl t ↦ rw t (omega (arith, update_last-waiting a p g qs k t))
  | inr t ↦ elim (Bool-cases (p q)) [
    | inl y ↦ rw (t, y) (omega (arith, k q))
    | inr n ↦ ground arith
  ]
]

update_last-unchanged :
    (a : ℕ) (p : QueueInfo → Bool) (g : QueueInfo → QueueInfo) (pm : Persistent)
    → ((q : QueueInfo) → (g q).unpersistent ≡ q.unpersistent)
    → all_waiting a (update_last p g pm) ≡ all_waiting a pm
unfolding update_last
update_last-unchanged a p g [] k = refl
update_last-unchanged a p g (q ∷ qs) k = elim (Bool-cases (any p qs)) [
  | inl t ↦ rw t (omega (arith, update_last-unchanged a p g qs k))
  | inr t ↦ elim (Bool-cases (p q)) [
    | inl y ↦ rw (t, y) (ap (λ fs. waiting a fs + all_waiting a qs) (k q))
    | inr n ↦ rw (t, n) refl
  ]
]

any-found :
    (p : QueueInfo → Bool) (pm : Persistent) (q : QueueInfo)
    → find_last p pm ≡ some q
    → any p pm ≡ true
unfolding any find_last
any-found p [] q e = ground arith
any-found p (x ∷ pm) q e = ground (arith, any-found p pm q)

reinstate-qid :
    (q : QueueInfo) (o : Option (ℕ × ℕ)) → (persist_queue_info (reinstate q o)).qid ≡ q.qid
unfolding reinstate persist_queue_info
reinstate-qid q none = refl
reinstate-qid q (some x) = refl

-- the queue has books
abbrev HasBooks : ℕ → Option Persistent → Type 0
HasBooks h none = Unit
HasBooks h (some pm) = any (has_qid h) pm ≡ true

append_qinfo-HasBooks :
    (disk : Disk) (qname : Bytes) (pm : Persistent)
    → HasBooks (get_hash qname) (append_qinfo pm (alloc_qinfo disk qname))
unfolding append_qinfo alloc_qinfo new_qinfo
append_qinfo-HasBooks disk qname pm = elim (Bool-cases (disk.usable qname)) [
  | inl e ↦
      let q = persist_queue_info (reinstate (new_qinfo qname) (disk.index_file qname)) in
      rw (e, HasBooks, append_qinfo)
        (any-end (has_qid (get_hash qname)) q
          (ap (λ n. n == get_hash qname) (reinstate-qid (new_qinfo qname) (disk.index_file qname))
            ∙ ==_refl (get_hash qname))
          pm)
  | inr e ↦ rw (e, HasBooks, append_qinfo) tt
]

create_unless-HasBooks :
    (disk : Disk) (qname : Bytes) (pm : Persistent) (o : Option QueueInfo)
    → get_qinfo (get_hash qname) pm ≡ o
    → HasBooks (get_hash qname) (create_unless disk qname pm o)
unfolding create_unless get_qinfo
create_unless-HasBooks disk qname pm none e = append_qinfo-HasBooks disk qname pm
create_unless-HasBooks disk qname pm (some q) e = any-found (has_qid (get_hash qname)) pm q e

-- the frame waits in the books that a call leaves
abbrev Waits : ℕ → Option (Ret × Persistent) → Type 0
Waits a none = Unit
Waits a (some x) = 1 ≤ all_waiting a x.1

persist_in-Waits :
    (f : Frame) (h : ℕ) (o : Option Persistent) → HasBooks h o → Waits f.addr (persist_in f h o)
unfolding persist_in add_frame
persist_in-Waits f h none k = tt
persist_in-Waits f h (some pm) k =
    update_last-waiting f.addr (has_qid h) (add_frame f) pm
      (λ q. ground (arith, waiting-append f.addr q.unpersistent (f ∷ []), ==_refl f.addr)) k

pub persist_frame-waiting :
    (disk : Disk) (f : Frame) (qname : Bytes) (pm pm' : Persistent) (r : Ret)
    → persist_frame disk f qname pm ≡ some (r, pm')
    → 1 ≤ all_waiting f.addr pm'
unfolding persist_frame create_qinfo
persist_frame-waiting disk f qname pm pm' r e = subst (Waits f.addr) e (
    persist_in-Waits f (get_hash qname) _
      (create_unless-HasBooks disk qname pm (get_qinfo (get_hash qname) pm) refl))

sent_in-waiting :
    (a : ℕ) (f : Frame) (h : ℕ) (pm : Persistent) (o : Option QueueInfo)
    → all_waiting a (sent_in f h pm o).1 ≡ all_waiting a pm
unfolding sent_in
sent_in-waiting a f h pm none = refl
sent_in-waiting a f h pm (some q) = update_last-unchanged a (has_qid h) _ pm (λ p. refl)

pub update_index_sent-waiting :
    (a : ℕ) (qname : Bytes) (f : Frame) (pm : Persistent)
    → all_waiting a (update_index_sent qname f pm).1 ≡ all_waiting a pm
unfolding update_index_sent
update_index_sent-waiting a qname f pm =
    sent_in-waiting a f (get_hash qname) pm (get_qinfo (get_hash qname) pm)

pub written_out-waiting : (a : ℕ) (pm : Persistent) → all_waiting a (map written_out pm) ≡ 0
written_out-waiting a [] = refl
written_out-waiting a (q ∷ pm) = omega (arith, written_out-waiting a pm)
