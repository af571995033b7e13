-- ===== src/Protocol/Dangling.antt =====
-- The frame of a topic is freed by the thread that sends it, whether or not the persistent worker has
-- written it.
use newtmq_server.Base.{
  ℕ, ◌≤◌, ◌<◌, ◌≡◌, ap, ◌∙◌, List, [], ◌∷◌, Option, some, Bytes, length, All, arith,
}
use newtmq_server.Common.{Ret, Env, get_hash}
use newtmq_server.Frame.{Frame}
use newtmq_server.Persistence.{Persistent, persist_frame, update_index_sent, worker_turn}
use newtmq_server.Persistence.Accounting.{
  IsAccounted, persist_frame-IsAccounted, worker_turn-IsAccounted,
}
use newtmq_server.Persistence.Waiting.{
  all_waiting, persist_frame-waiting, update_index_sent-waiting, written_out-waiting,
}
use newtmq_server.Queue.{qb_size, dequeue}
use newtmq_server.Queue.Laws.{contents, first, take_entry-first}
use newtmq_server.Sending.{Client, Delivery, multicast_turn, multicast_frame, send_to_clients}
use newtmq_server.Protocol.{Server, Context, handled}
use newtmq_server.Protocol.Dispatch.{handle_frame}
use newtmq_server.Protocol.Publishing.{IsPublication, delivery, handle_frame-publication}

-- what the turn leaves that sends the frame
abbrev pub multicast_of : Env → Bytes → Frame → List Client → Delivery → List Client × Delivery
multicast_of env dest f cs d = (
  (send_to_clients env f cs d.sent).0,
  record d {
    queues = (dequeue dest d.queues).1;
    persistent = (update_index_sent dest f d.persistent).1;
    sent = (send_to_clients env f cs d.sent).1;
    freed = f.addr ∷ d.freed;
  },
)

multicast_turn-multicast_of :
    (env : Env) (dest : Bytes) (c : Client) (cs : List Client) (d : Delivery) (f : Frame)
    (fs : List Frame)
    → contents d.queues (get_hash dest) ≡ f ∷ fs
    → multicast_turn env dest (c ∷ cs) d ≡ some (multicast_of env dest f (c ∷ cs) d)
unfolding multicast_turn multicast_frame dequeue
multicast_turn-multicast_of env dest c cs d f fs e =
    let q = (dequeue dest d.queues).1 in
    let turn : Option Frame → Option (List Client × Delivery) =
      λ o. some (multicast_frame env dest o (c ∷ cs) (record d { queues = q })) in
    ap turn (take_entry-first (get_hash dest) dest d.queues ∙ ap first e)

-- the server after a turn of the persistent worker
abbrev pub after_writing : Server → Server
after_writing s = record s { persistent = worker_turn s.persistent }

-- A SEND frame goes to a destination in whose queue nothing waits, and of which a thread with at least one
-- client is the sender. If that thread takes its turn next, it frees the frame while the frame still
-- stands in the list that the persistent worker has to write; if a turn of the persistent worker comes
-- first, the frame does not stand there any more when it is freed.
pub multicast_turn-dangling :
    (fuel : ℕ) (ctx : Context) (frame : Frame) (s : Server) (dest : Bytes) (r : Ret)
    (pm : Persistent) (c : Client) (cs : List Client)
    → IsPublication frame dest
    → 0 < frame.size
    → All IsAccounted s.persistent
    → persist_frame ctx.disk frame dest s.persistent ≡ some (r, pm)
    → length s.queues ≡ qb_size
    → contents s.queues (get_hash dest) ≡ []
    → (s' : Server) × (soon : List Client × Delivery) × (later : List Client × Delivery)
      × (handle_frame fuel ctx frame s ≡ handled (some frame) s')
      × (multicast_turn ctx.env dest (c ∷ cs) (delivery s') ≡ some soon)
      × (soon.1.freed ≡ frame.addr ∷ s.freed)
      × (1 ≤ all_waiting frame.addr soon.1.persistent)
      × (multicast_turn ctx.env dest (c ∷ cs) (delivery (after_writing s')) ≡ some later)
      × (later.1.freed ≡ frame.addr ∷ s.freed)
      × (all_waiting frame.addr later.1.persistent ≡ 0)
multicast_turn-dangling fuel ctx frame s dest r pm c cs p z h e l empty =
    let (s', ran, at, sized, books, sent, freed, _) =
      handle_frame-publication fuel ctx frame s dest r pm p e l in
    let here : contents s'.queues (get_hash dest) ≡ frame ∷ [] =
      at (get_hash dest) ∙ ground (arith, empty) in
    let ordered = persist_frame-IsAccounted ctx.disk frame dest s.persistent pm r h z e in
    (
      s',
      multicast_of ctx.env dest frame (c ∷ cs) (delivery s'),
      multicast_of ctx.env dest frame (c ∷ cs) (delivery (after_writing s')),
      ran,
      multicast_turn-multicast_of ctx.env dest c cs (delivery s') frame [] here,
      ap (◌∷◌ frame.addr) freed,
      omega (
        arith,
        update_index_sent-waiting frame.addr dest frame s'.persistent,
        persist_frame-waiting ctx.disk frame dest s.persistent pm r e,
        ap (all_waiting frame.addr) books,
      ),
      multicast_turn-multicast_of ctx.env dest c cs (delivery (after_writing s')) frame [] here,
      ap (◌∷◌ frame.addr) freed,
      update_index_sent-waiting frame.addr dest frame (worker_turn s'.persistent)
          ∙ ap (λ x. all_waiting frame.addr (worker_turn x)) books
          ∙ ap (all_waiting frame.addr) (worker_turn-IsAccounted pm ordered).0
          ∙ written_out-waiting frame.addr pm,
    )
