-- ===== src/Protocol/Rollback/Tests.antt =====
-- Two frames to two queues in a transaction, while another one is open.
use newtmq_server.Base.{List, [], ◌∷◌, ◌++◌, Bytes, codes, some, map, inl, ◌≡◌, refl, arith}
use newtmq_server.Base.Last.{find_last}
use newtmq_server.Base.Text.{strncmp_eq, strlen, c_string}
use newtmq_server.Frame.{Frame, LineData, alloc_frame}
use newtmq_server.Frame.Steps.{line_data}
use newtmq_server.Transaction.{get_transaction}
use newtmq_server.Transaction.Lifecycle.{opened}
use newtmq_server.Protocol.{Server}
use newtmq_server.Protocol.Publishing.{destination_line}
use newtmq_server.Protocol.Tests.{context, idle_server}
use newtmq_server.Protocol.Transactional.{transaction_line, IsBoundary}
use newtmq_server.Protocol.Rollback.{
  Posted, IsPosted, frame_of, collected, handle_all, handle_all-rollback,
}

abbrev busy : Server
busy = record idle_server { transactions = opened [] (codes "other") [] ∷ [] }

-- the line without which no frame is finished
abbrev no_body : LineData
no_body = line_data (codes "content-length:0")

abbrev boundary : Bytes → Frame
boundary name = record (alloc_frame 1) {
  name = name;
  sock = 4;
  attrs = transaction_line (codes "t1") ∷ no_body ∷ [];
}

abbrev sent_to : Bytes → Posted
sent_to q = (
  q,
  record (alloc_frame 2) {
    name = codes "SEND";
    sock = 4;
    cinfo = some 7;
    attrs = destination_line q ∷ no_body ∷ transaction_line (codes "t1") ∷ [];
  },
)

abbrev posted : List Posted
posted = sent_to (codes "/a") ∷ sent_to (codes "/b") ∷ []

boundary-IsBoundary : (name : Bytes) → IsBoundary name (boundary name) (codes "t1")
unfolding strncmp_eq strlen alloc_frame
boundary-IsBoundary name = record {
  before = [];
  after = no_body ∷ [];
  named = refl;
  lines = refl;
  plain_before = tt;
  plain_after = ((refl, tt), tt);
}

sent_to-IsPosted : (q : Bytes) → IsPosted (codes "t1") 7 (sent_to q)
unfolding strncmp_eq strlen alloc_frame
sent_to-IsPosted q = record {
  before = [];
  between = no_body ∷ [];
  after = [];
  first = destination_line q;
  second = transaction_line (codes "t1");
  named = refl;
  connected = refl;
  lines = refl;
  order = inl (refl, refl);
  plain_before = tt;
  plain_between = ((refl, (refl, (refl, (refl, tt)))), tt);
  plain_after = tt;
}

handle_all-rollback_example :
    (handle_all 9 context (boundary (codes "BEGIN") ∷ map frame_of posted ++ []) busy
      ≡ some (collected context (boundary (codes "BEGIN")) (codes "t1") posted busy))
    × (handle_all 9 context
          (boundary (codes "BEGIN") ∷ map frame_of posted ++ boundary (codes "ABORT") ∷ [])
          busy
        ≡ some (record busy { freed = 1 ∷ 1 ∷ [] }))
unfolding get_transaction find_last strlen alloc_frame strncmp_eq c_string
handle_all-rollback_example =
    handle_all-rollback 9 context (boundary (codes "BEGIN")) (boundary (codes "ABORT")) (codes "t1")
      7 posted busy (boundary-IsBoundary (codes "BEGIN"))
      (sent_to-IsPosted (codes "/a"), (sent_to-IsPosted (codes "/b"), tt))
      (boundary-IsBoundary (codes "ABORT")) (omega arith) (omega arith) refl
