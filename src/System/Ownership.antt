-- ===== src/System/Ownership.antt =====
-- Where the frames are: each address stands in one place of the server at most, or has been freed.
pub mod Counts
pub mod Addresses
pub mod Queues
pub mod Transactions
pub mod Handling
pub mod Delivering
pub mod Rereading
pub mod Starting
pub mod Receiving
mod Tests
use newtmq_server.Base.{
  ℕ, suc, ◌+◌, ◌-◌, ◌≤◌, ◌≡◌, refl, ap, subst, sym, List, [], ◌∷◌, ◌++◌, Option, none, some, Bytes,
  length, replicate, arith,
}
use newtmq_server.Frame.{Frame}
use newtmq_server.Receive.{Receiver, take_frame}
use newtmq_server.Receive.Worker.Ending.{conn_finish-Keeps}
use newtmq_server.Receive.Worker.{conn_init, conn_finish}
use newtmq_server.Queue.{Box, initialize_queuebox}
use newtmq_server.Protocol.{Context, Result, handled, aborted, corrupted, running}
use newtmq_server.Protocol.Dispatch.{handle_frame}
use newtmq_server.System.{
  System, Link, link_of, receiver_of, received, delivery_of, Step, accepted, took, closed, managed,
  wrote, sent_one, replied, sent_all, left_one, left_reply, left_all, Reachable, started, step,
  initial, at_start, management_turn, manage, managed_by,
}
use newtmq_server.System.Handling.Transactions.{IsUncalled}
use newtmq_server.System.Soundness.{Reachable-IsSound}
use newtmq_server.System.Ownership.Counts.{
  is_at, count_frame, count_frames, count_links, count_links-append, count_box, count_server,
  owners, Fits, Fits-less,
}
use newtmq_server.System.Ownership.Handling.Results.{Counted}
use newtmq_server.System.Ownership.Handling.{handle_frame-Counted}
use newtmq_server.System.Ownership.Delivering.{
  unicast_turn-count, reply_turn-count, multicast_turn-count,
}
use newtmq_server.System.Ownership.Starting.{StartFits, unpersist-StartFits}
use newtmq_server.System.Ownership.Receiving.{
  ReceiverFits, recv_data-ReceiverFits, conn_finish-count,
}

abbrev OwnedOnce : ℕ → System → Type 0
OwnedOnce a s = Fits a s.allocated (owners a s)

-- of a state, if there is one
abbrev OwnedIfAny : ℕ → Option System → Type 0
OwnedIfAny a none = Unit
OwnedIfAny a (some s) = OwnedOnce a s

-- all but the connection `l` and the bucket
abbrev others : ℕ → System → List Link → List Link → ℕ
others a s before after = count_links a before + (count_links a after + count_server a s.server)

links-split :
    (a : ℕ) (s : System) (before after : List Link) (l : Link)
    → s.links ≡ before ++ l ∷ after
    → count_links a s.links ≡ count_links a before + (count_frame a l.frame + count_links a after)
links-split a s before after l i =
    subst
      (λ ls.
        count_links a ls ≡ count_links a before + (count_frame a l.frame + count_links a after))
      (sym i) (count_links-append a before (l ∷ after))

managed_by-Owned :
    (a : ℕ) (s : System) (f : Frame) (fs : List Frame) (r : Result)
    → s.bucket ≡ f ∷ fs
    → OwnedOnce a s
    → Counted a (count_server a s.server + is_at a f.addr) r
    → OwnedIfAny a (managed_by s fs r)
unfolding managed_by
managed_by-Owned a s f fs (handled o sv) b h k =
    let n : count_frames a s.bucket ≡ is_at a f.addr + count_frames a fs = ap (count_frames a) b in
    Fits-less a s.allocated s.allocated _ _ h (omega arith) (omega arith)
managed_by-Owned a s f fs aborted b h k = tt
managed_by-Owned a s f fs corrupted b h k = tt
managed_by-Owned a s f fs running b h k = tt

manage-Owned :
    (a fuel : ℕ) (ctx : Context) (s : System) (bucket : List Frame)
    → s.bucket ≡ bucket
    → IsUncalled s.server.transactions
    → OwnedOnce a s
    → OwnedIfAny a (manage fuel ctx s (take_frame bucket).0 (take_frame bucket).1)
unfolding manage take_frame
manage-Owned a fuel ctx s [] b u h = h
manage-Owned a fuel ctx s (f ∷ fs) b u h =
    managed_by-Owned a s f fs (handle_frame fuel ctx f s.server) b h
      (handle_frame-Counted a fuel ctx f s.server u)

management_turn-Owned :
    (a fuel : ℕ) (ctx : Context) (s : System)
    → IsUncalled s.server.transactions
    → OwnedOnce a s
    → OwnedIfAny a (management_turn fuel ctx s)
unfolding management_turn
management_turn-Owned a fuel ctx s u h = manage-Owned a fuel ctx s s.bucket refl u h

Step-Owned :
    (a : ℕ) {ctx : Context} {s t : System}
    → Step ctx s t
    → IsUncalled s.server.transactions
    → OwnedOnce a s
    → OwnedOnce a t
unfolding conn_init
Step-Owned a (accepted s sock r e) u h =
    subst (λ q. OwnedOnce a (received s q (s.links ++ link_of sock q ∷ []))) e
      (Fits-less a s.allocated (s.allocated + 1) _ _ h
        (omega (arith, count_links-append a s.links _)) (omega arith))
Step-Owned a {ctx} (took s before after l c cs r i e) u h =
    let k = others a s before after in
    let fits =
      recv_data-ReceiverFits a k ctx.env l.sock (suc (length (c ∷ cs))) (c ∷ cs) (receiver_of s l) r
        e
        (Fits-less a s.allocated s.allocated _ _ h (omega (arith, links-split a s before after l i))
          (omega arith)) in
    Fits-less a r.allocated r.allocated _ _ fits
      (omega (arith, count_links-append a before (link_of l.sock r ∷ after))) (omega arith)
Step-Owned a {ctx} (closed s before after l i) u h =
    Fits-less a s.allocated _ _ _ h
      (omega (
        arith,
        links-split a s before after l i,
        count_links-append a before after,
        conn_finish-count a ctx.env (receiver_of s l),
      ))
      (omega (arith, (conn_finish-Keeps ctx.env (receiver_of s l)).0))
Step-Owned a {ctx} (managed s t fuel e) u h =
    subst (OwnedIfAny a) e (management_turn-Owned a fuel ctx s u h)
Step-Owned a (wrote s pm e) u h = h
Step-Owned a (sent_one s env before after c dest d t e) u h =
    Fits-less a s.allocated s.allocated _ _ h
      (omega (arith, unicast_turn-count a env c dest (delivery_of s.server) d e)) (omega arith)
Step-Owned a (replied s env before after c dest d t e) u h =
    Fits-less a s.allocated s.allocated _ _ h
      (omega (arith, reply_turn-count a env c dest (delivery_of s.server) d e)) (omega arith)
Step-Owned a (sent_all s env before after ahead behind g cs d t i e) u h =
    Fits-less a s.allocated s.allocated _ _ h
      (omega
        (arith, multicast_turn-count a env g.destination g.clients cs (delivery_of s.server) d e))
      (omega arith)
Step-Owned a (left_one s env before after c dest t e) u h = h
Step-Owned a (left_reply s env before after c dest t e) u h = h
Step-Owned a (left_all s env before after ahead behind g t i e) u h = h

at_start-StartFits : (a : ℕ) → StartFits a at_start
unfolding initialize_queuebox
at_start-StartFits a = (omega arith, omega arith)

-- Between the steps a frame stands in one place at most: with the connection that reads it, in the
-- bucket, in a queue, in a transaction, or among the frames that were freed. At an address that was not
-- allocated there is none.
Reachable-owners :
    (a : ℕ) {ctx : Context} {s : System}
    → Reachable ctx s
    → (owners a s ≤ 1) × (owners a s ≤ s.allocated - a)
Reachable-owners a {ctx} (started memory dirs st e) =
    let h =
      unpersist-StartFits a ctx.env ctx.disk memory dirs at_start st e (at_start-StartFits a) in
    Fits-less a st.reader.allocated st.reader.allocated _ _ h (omega arith) (omega arith)
Reachable-owners a (step r x) =
    Step-Owned a x (Reachable-IsSound r).orderly.2 (Reachable-owners a r)

-- In every state that the threads can reach by steps, each of which is a whole call: of the frames in the
-- bucket, in the queues and in the transactions, and of those that were freed, no two are the same, and
-- none has an address that was not allocated. So no frame is freed twice, and none that was freed stands
-- in the bucket, in a queue or in a transaction. What a thread still reads of a frame inside its call,
-- while another thread frees it, is not covered.
pub Reachable-freed :
    (a : ℕ) {ctx : Context} {s : System}
    → Reachable ctx s
    → (count_frames a s.bucket + count_server a s.server ≤ 1)
      × (count_frames a s.bucket + count_server a s.server ≤ s.allocated - a)
Reachable-freed a r = let (once, allocated) = Reachable-owners a r in (omega arith, omega arith)
