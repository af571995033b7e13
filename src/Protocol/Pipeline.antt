-- ===== src/Protocol/Pipeline.antt =====
-- From the bytes of a SEND message to the queue: the receiving thread, the bucket, and the
-- management worker.
pub mod Tests
use newtmq_server.Base.{
  ℕ, ◌<◌, List, [], ◌∷◌, ◌++◌, Bytes, codes, All, map, Option, some, ◌≡◌, refl, ap, sym, ◌∙◌,
  length, if◌then◌else◌, arith,
}
use mathlib.Core.List.{map-append}
use newtmq_server.Common.{Env, Ret, get_hash}
use newtmq_server.Frame.{Frame, LineData}
use newtmq_server.Frame.Steps.{line_data}
use newtmq_server.Management.Headers.{Ignored}
use newtmq_server.Persistence.{Persistent, persist_frame}
use newtmq_server.Queue.{qb_size}
use newtmq_server.Queue.Laws.{contents}
use newtmq_server.Receive.{Receiver, recv_data, done, take_frame, get_frame_from_bucket}
use newtmq_server.Receive.Lines.{idle}
use newtmq_server.Receive.Roundtrip.Wire.{Message, IsMessage, wire, delivered, after_messages}
use newtmq_server.Receive.Roundtrip.{recv_data-wires}
use newtmq_server.Protocol.{Server, Context, handled}
use newtmq_server.Protocol.Send.{send_handlers}
use newtmq_server.Protocol.Dispatch.{handle_frame}
use newtmq_server.Protocol.Publishing.{IsPublication, handle_frame-publication}

-- A SEND message whose header lines are a destination and others that SEND does not read.
pub record IsSend (m : Message) (q : Bytes) : Type 0 where
  pub before : List Bytes
  pub after : List Bytes
  pub named : m.name ≡ codes "SEND"
  pub lines : m.headers ≡ before ++ (codes "destination:" ++ q) ∷ after
  pub plain_before : All (Ignored send_handlers) (map line_data before)
  pub plain_after : All (Ignored send_handlers) (map line_data after)

pub delivered-IsPublication :
    (env : Env) (sock : ℕ) (r : Receiver) (m : Message) (q : Bytes)
    → IsSend m q
    → IsPublication (delivered env sock r m) q
delivered-IsPublication env sock r m q h = record {
  conn = r.conn;
  before = map line_data h.before;
  after = map line_data h.after;
  named = h.named;
  connected = refl;
  lines = ap (map line_data) h.lines ∙ map-append line_data h.before _;
  plain_before = h.plain_before;
  plain_after = h.plain_after;
}

-- The bytes of a well-formed SEND message, of whose header lines SEND reads the destination and no
-- other, on a connection between two messages whose bucket is empty, give a frame that the management worker takes from the bucket, and that it puts, where
-- the books of the persistent worker can be opened, behind all frames of the queue that the message
-- names. The frame carries the header lines and the body of the message.
pub recv_data-publication :
    (ctx : Context) (sock recv_fuel fuel : ℕ) (m : Message) (r : Receiver) (s : Server) (q : Bytes)
    (ret : Ret) (pm : Persistent)
    → IsMessage m
    → IsSend m q
    → r.bucket ≡ []
    → length (wire m []) < recv_fuel
    → persist_frame ctx.disk (delivered ctx.env sock r m) q s.persistent ≡ some (ret, pm)
    → length s.queues ≡ qb_size
    → (r' : Receiver) × (s' : Server) × (recv_data ctx.env sock recv_fuel (wire m []) (idle r)
        ≡ done r')
      × ((get_frame_from_bucket r').0 ≡ some (delivered ctx.env sock r m))
      × (handle_frame fuel ctx (delivered ctx.env sock r m) s
          ≡ handled (some (delivered ctx.env sock r m)) s')
      × (contents s'.queues (get_hash q)
          ≡ contents s.queues (get_hash q) ++ delivered ctx.env sock r m ∷ [])
unfolding get_frame_from_bucket
recv_data-publication ctx sock recv_fuel fuel m r s q ret pm v h empty enough booked sized =
    let frame = delivered ctx.env sock r m in
    let (s', ran, at, _, _, _, _, _) =
      handle_frame-publication fuel ctx frame s q ret pm
        (delivered-IsPublication ctx.env sock r m q h) booked sized in
    (
      after_messages ctx.env sock r (m ∷ []),
      s',
      recv_data-wires ctx.env sock recv_fuel (m ∷ []) r (v, tt) enough,
      ap (λ b. (take_frame (b ++ frame ∷ [])).0) empty,
      ran,
      at (get_hash q) ∙ ground arith,
    )
