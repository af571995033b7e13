-- ===== src/Protocol/Writing.antt =====
-- From the bytes of a SEND message to the data file of its queue.
mod Tests
use newtmq_server.Base.{
  ℕ, ◌+◌, ◌<◌, List, [], ◌∷◌, ◌++◌, Bytes, Bool, All, Option, none, some, ◌≡◌, refl, ap, sym, ◌∙◌,
  subst, length, map, ltb, if◌then◌else◌, append_assoc, append-nil, arith, Bool-cases, inl, inr,
}
use newtmq_server.Base.Last.{any, update_last}
use newtmq_server.Common.{get_hash, success}
use newtmq_server.Frame.{Frame}
use newtmq_server.Persistence.{
  QueueInfo, Persistent, persist_frame, persist_in, create_qinfo, has_qid, add_frame, worker_turn,
  persisted,
}
use newtmq_server.Persistence.Accounting.{
  IsAccounted, all_persisted, written_out, worker_turn-IsAccounted, persist_frame-IsAccounted,
  create_qinfo-IsAccounted,
}
use newtmq_server.Persistence.Format.{persisted-wire, length-persisted}
use newtmq_server.Queue.{qb_size}
use newtmq_server.Receive.{Receiver}
use newtmq_server.Receive.Roundtrip.Wire.{Message, IsMessage, wire, delivered}
use newtmq_server.Protocol.{Server, Context, handled}
use newtmq_server.Protocol.Dispatch.{handle_frame}
use newtmq_server.Protocol.Publishing.{handle_frame-publication}
use newtmq_server.Protocol.Pipeline.{IsSend, delivered-IsPublication}

-- the book of a queue whose data file has got the bytes of a message of the size
abbrev pub appended : Bytes → ℕ → QueueInfo → QueueInfo
appended bytes size b = record b {
  written = b.written ++ bytes;
  index_head = b.index_head + size;
  index_persistent = b.index_persistent + size;
}

all_persisted-end :
    (fs : List Frame) (f : Frame) → all_persisted (fs ++ f ∷ []) ≡ all_persisted fs ++ persisted f
all_persisted-end [] f = append-nil (persisted f)
all_persisted-end (g ∷ fs) f =
    ap (λ b. persisted g ++ b) (all_persisted-end fs f)
    ∙ sym (append_assoc (persisted g) (all_persisted fs) (persisted f))

written_out-add_frame :
    (f : Frame) (b : QueueInfo)
    → written_out (add_frame f b) ≡ appended (persisted f) f.size (written_out b)
unfolding add_frame
written_out-add_frame f b =
    ap (λ w. record (appended (persisted f) f.size (written_out b)) { written = w })
      (ap (λ w. b.written ++ w) (all_persisted-end b.unpersistent f)
        ∙ sym (append_assoc b.written (all_persisted b.unpersistent) (persisted f)))

any-written_out :
    (id : ℕ) (pm : Persistent) → any (has_qid id) (map written_out pm) ≡ any (has_qid id) pm
unfolding any
any-written_out id [] = refl
any-written_out id (b ∷ pm) = rw (any-written_out id pm) refl

update_last-written_out :
    (id : ℕ) (f : Frame) (pm : Persistent)
    → map written_out (update_last (has_qid id) (add_frame f) pm)
      ≡ update_last (has_qid id) (appended (persisted f) f.size) (map written_out pm)
unfolding update_last
update_last-written_out id f [] = refl
update_last-written_out id f (b ∷ pm) = elim (Bool-cases (any (has_qid id) pm)) [
  | inl later ↦
      rw (any-written_out id pm, later) (ap (◌∷◌ (written_out b)) (update_last-written_out id f pm))
  | inr last ↦ elim (Bool-cases (has_qid id b)) [
    | inl here ↦
        rw (any-written_out id pm, last, here)
          (ap (λ x. x ∷ map written_out pm) (written_out-add_frame f b))
    | inr there ↦ rw (any-written_out id pm, last, there) refl
  ]
]

-- A well-formed SEND message, of whose header lines SEND reads the destination and no other, is handled
-- where the book of its queue can be opened and the books are in order. The next turn of the persistent
-- worker leaves what a turn without the message would leave, with the bytes of the message, just as the
-- client sent them, at the end of the data file of the queue, and the indices further by the size of the
-- frame; the bytes are one more than that size, if the message has no body.
pub worker_turn-wire :
    (fuel : ℕ) (ctx : Context) (sock : ℕ) (m : Message) (r : Receiver) (s : Server) (q : Bytes)
    (pm : Persistent)
    → IsMessage m
    → IsSend m q
    → create_qinfo ctx.disk q s.persistent ≡ some pm
    → All IsAccounted s.persistent
    → length s.queues ≡ qb_size
    → (s' : Server) × (handle_frame fuel ctx (delivered ctx.env sock r m) s
        ≡ handled (some (delivered ctx.env sock r m)) s')
      × (worker_turn s'.persistent
          ≡ update_last
              (has_qid (get_hash q))
              (appended (wire m []) (delivered ctx.env sock r m).size)
              (worker_turn pm))
      × (length (wire m [])
          ≡ (delivered ctx.env sock r m).size + (if ltb 0 (length m.body) then 0 else 1))
unfolding persist_frame persist_in
worker_turn-wire fuel ctx sock m r s q pm v h e a sized =
    let f = delivered ctx.env sock r m in
    let p : 0 < f.size = omega arith in
    let id = get_hash q in
    let booked : persist_frame ctx.disk f q s.persistent
        ≡ some (success, update_last (has_qid id) (add_frame f) pm) =
      ap (persist_in f id) e in
    let (s', ran, _, _, books, _, _, _) =
      handle_frame-publication fuel ctx f s q success _
        (delivered-IsPublication ctx.env sock r m q h) booked sized in
    let same = persisted-wire ctx.env sock r m v in
    (
      s',
      ran,
      ap worker_turn books
          ∙ (worker_turn-IsAccounted (update_last (has_qid id) (add_frame f) pm)
              (persist_frame-IsAccounted ctx.disk f q s.persistent _ success a p booked)).0
          ∙ update_last-written_out id f pm
          ∙ ap (λ bytes. update_last (has_qid id) (appended bytes f.size) (map written_out pm)) same
          ∙ ap (update_last (has_qid id) (appended (wire m []) f.size)) (
              sym
                (worker_turn-IsAccounted pm
                  (create_qinfo-IsAccounted ctx.disk q s.persistent pm a e)).0),
      ap length (sym same) ∙ length-persisted ctx.env sock r m v,
    )
