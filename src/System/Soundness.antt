-- ===== src/System/Soundness.antt =====
-- What is true of the server at all times.
use newtmq_server.Base.{
  suc, subst, List, [], ◌∷◌, ◌++◌, Option, none, All, All-append, length, length-replicate, ℕ, some,
}
use newtmq_server.Frame.{Frame}
use newtmq_server.Receive.{take_frame}
use newtmq_server.Receive.Worker.{conn_init}
use newtmq_server.Queue.{Chain, qb_size, initialize_queuebox}
use newtmq_server.Persistence.Accounting.{persist_turn-IsAccounted}
use newtmq_server.Protocol.{Context, Result, handled, aborted, corrupted, running}
use newtmq_server.Protocol.Dispatch.{handle_frame}
use newtmq_server.System.{
  System, Link, link_of, receiver_of, Step, accepted, took, closed, managed, wrote, sent_one,
  replied, sent_all, left_one, left_reply, left_all, Reachable, started, step, initial, at_start,
  management_turn, manage, managed_by, delivery_of,
}
use newtmq_server.System.Frames.{IsReady}
use newtmq_server.System.Receiving.{IsFed, recv_data-IsFine, conn_finish-IsFine}
use newtmq_server.Restart.{Start}
use newtmq_server.System.Starting.{IsReadBack, unpersist-IsReadBack, AllRested-IsAccounted}
use newtmq_server.System.Delivering.{
  unicast_turn-InOrder, reply_turn-InOrder, multicast_turn-InOrder,
}
use newtmq_server.System.Handling.Results.{IsOrderly, Keeps}
use newtmq_server.System.Handling.{handle_frame-Keeps}

-- The server is in order, every frame of the bucket is ready, and the frame of every connection has
-- its first line ahead of it or is ready too.
pub record IsSound (s : System) : Type 0 where
  pub orderly : IsOrderly s.server
  pub bucketed : All IsReady s.bucket
  pub fed : All (λ l. IsFed l.frame) s.links

abbrev Fed : Link → Type 0
Fed l = IsFed l.frame

-- the link in the middle, and those around it
All-middle {ℓ κ} :
    {A : Type ℓ} (P : A → Type κ) (xs : List A) (y : A) (zs : List A)
    → All P (xs ++ y ∷ zs)
    → All P xs × P y × All P zs
All-middle P [] y zs h = (tt, h.0, h.1)
All-middle P (x ∷ xs) y zs h = let k = All-middle P xs y zs h.1 in ((h.0, k.0), k.1, k.2)

at_start-IsReadBack : IsReadBack at_start
unfolding initialize_queuebox
at_start-IsReadBack = (length-replicate {A = Option (Chain Frame)} qb_size none, tt)

initial-IsSound : (st : Start) → IsReadBack st → IsSound (initial st)
initial-IsSound st h = record {
  orderly = (h.0, AllRested-IsAccounted st.persistent h.1, tt);
  bucketed = tt;
  fed = tt;
}

-- of a state, if there is one
abbrev SoundIfAny : Option System → Type 0
SoundIfAny none = Unit
SoundIfAny (some s) = IsSound s

managed_by-IsSound :
    (s : System) (fs : List Frame) (r : Result)
    → Keeps r
    → All IsReady fs
    → IsSound s
    → SoundIfAny (managed_by s fs r)
unfolding managed_by
managed_by-IsSound s fs (handled o sv) k b h = record { orderly = k; bucketed = b; fed = h.fed }
managed_by-IsSound s fs aborted k b h = tt
managed_by-IsSound s fs corrupted k b h = tt
managed_by-IsSound s fs running k b h = tt

manage-IsSound :
    (fuel : ℕ) (ctx : Context) (s : System) (bucket : List Frame)
    → All IsReady bucket
    → IsSound s
    → SoundIfAny (manage fuel ctx s (take_frame bucket).0 (take_frame bucket).1)
unfolding manage take_frame
manage-IsSound fuel ctx s [] b h = h
manage-IsSound fuel ctx s (f ∷ fs) b h =
    managed_by-IsSound s fs (handle_frame fuel ctx f s.server)
      (handle_frame-Keeps fuel ctx f s.server b.0 h.orderly) b.1 h

management_turn-IsSound :
    (fuel : ℕ) (ctx : Context) (s : System) → IsSound s → SoundIfAny (management_turn fuel ctx s)
unfolding management_turn
management_turn-IsSound fuel ctx s h = manage-IsSound fuel ctx s s.bucket h.bucketed h

Step-IsSound : {ctx : Context} {s t : System} → Step ctx s t → IsSound s → IsSound t
unfolding conn_init
Step-IsSound (accepted s sock r e) h = record {
  orderly = h.orderly;
  bucketed = subst (λ q. All IsReady q.bucket) e h.bucketed;
  fed = All-append Fed s.links _ h.fed (subst (λ q. IsFed q.frame) e tt, tt);
}
Step-IsSound {ctx} (took s before after l c cs r i e) h =
    let (ahead, here, behind) = All-middle Fed before l after (subst (All Fed) i h.fed) in
    let fine =
      recv_data-IsFine ctx.env l.sock (suc (length (c ∷ cs))) (c ∷ cs) (receiver_of s l) r e
        (here, h.bucketed) in
    record {
      orderly = h.orderly;
      bucketed = fine.1;
      fed = All-append Fed before (link_of l.sock r ∷ after) ahead (fine.0, behind);
    }
Step-IsSound {ctx} (closed s before after l i) h =
    let (ahead, here, behind) = All-middle Fed before l after (subst (All Fed) i h.fed) in
    record {
      orderly = h.orderly;
      bucketed = conn_finish-IsFine ctx.env (receiver_of s l) (here, h.bucketed);
      fed = All-append Fed before after ahead behind;
    }
Step-IsSound {ctx} (managed s t fuel e) h =
    subst SoundIfAny e (management_turn-IsSound fuel ctx s h)
Step-IsSound (wrote s pm e) h = record {
  orderly = (
    h.orderly.0,
    persist_turn-IsAccounted s.server.freed s.server.persistent pm h.orderly.1 e,
    h.orderly.2,
  );
  bucketed = h.bucketed;
  fed = h.fed;
}
Step-IsSound (sent_one s env before after c dest d t e) h =
    let k = unicast_turn-InOrder env c dest (delivery_of s.server) d e (h.orderly.0, h.orderly.1) in
    record { orderly = (k.0, k.1, h.orderly.2); bucketed = h.bucketed; fed = h.fed }
Step-IsSound (replied s env before after c dest d t e) h =
    let k = reply_turn-InOrder env c dest (delivery_of s.server) d e (h.orderly.0, h.orderly.1) in
    record { orderly = (k.0, k.1, h.orderly.2); bucketed = h.bucketed; fed = h.fed }
Step-IsSound (sent_all s env before after ahead behind g cs d t i e) h =
    let k =
      multicast_turn-InOrder env g.destination g.clients cs (delivery_of s.server) d e
        (h.orderly.0, h.orderly.1) in
    record { orderly = (k.0, k.1, h.orderly.2); bucketed = h.bucketed; fed = h.fed }
Step-IsSound (left_one s env before after c dest t e) h = record {
  orderly = h.orderly;
  bucketed = h.bucketed;
  fed = h.fed;
}
Step-IsSound (left_reply s env before after c dest t e) h = record {
  orderly = h.orderly;
  bucketed = h.bucketed;
  fed = h.fed;
}
Step-IsSound (left_all s env before after ahead behind g t i e) h = record {
  orderly = h.orderly;
  bucketed = h.bucketed;
  fed = h.fed;
}

-- What holds between the steps, each of which is a whole call: the table of queues has its 512 slots,
-- the books of every queue are in order, no frame of a transaction has a callback, and every frame of
-- the bucket has a size and a command with a handler of that name.
pub Reachable-IsSound : {ctx : Context} {s : System} → Reachable ctx s → IsSound s
Reachable-IsSound {ctx} (started memory dirs st e) =
    initial-IsSound st
      (unpersist-IsReadBack ctx.env ctx.disk memory dirs at_start st e at_start-IsReadBack)
Reachable-IsSound (step r x) = Step-IsSound x (Reachable-IsSound r)
