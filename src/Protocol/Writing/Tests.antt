-- ===== src/Protocol/Writing/Tests.antt =====
-- A message is handled, and the persistent worker takes its turn.
use newtmq_server.Base.{◌+◌, [], ◌∷◌, codes, some, ◌≡◌, refl, length}
use newtmq_server.Base.Last.{any, find_last, update_last}
use newtmq_server.Common.{get_hash, hash_loop}
use newtmq_server.Persistence.{
  Persistent, create_qinfo, create_unless, append_qinfo, alloc_qinfo, get_qinfo, new_qinfo,
  reinstate, persist_queue_info, has_qid, worker_turn,
}
use newtmq_server.Receive.Roundtrip.Wire.{wire, delivered}
use newtmq_server.Receive.Tests.{connected, greeting, greeting-IsMessage}
use newtmq_server.Protocol.{Server, handled}
use newtmq_server.Protocol.Dispatch.{handle_frame}
use newtmq_server.Protocol.Tests.{half_open, context, idle_server, empty_queues-length}
use newtmq_server.Protocol.Pipeline.Tests.{greeting-IsSend}
use newtmq_server.Protocol.Writing.{appended, worker_turn-wire}

abbrev fresh_book : Persistent
fresh_book =
    record {
      qid = get_hash (codes "/q");
      unpersistent = [];
      index_head = 0;
      index_sent = 0;
      index_persistent = 0;
      written = [];
      sent_file = 0;
    }
    ∷ []

create_qinfo-fresh_book : create_qinfo context.disk (codes "/q") [] ≡ some fresh_book
unfolding create_qinfo create_unless append_qinfo alloc_qinfo get_qinfo new_qinfo reinstate
    persist_queue_info any find_last get_hash hash_loop
create_qinfo-fresh_book = refl

worker_turn-wire_example :
    (s' : Server) × (handle_frame 9 context (delivered half_open 4 connected greeting) idle_server
      ≡ handled (some (delivered half_open 4 connected greeting)) s')
    × (worker_turn s'.persistent
        ≡ update_last
            (has_qid (get_hash (codes "/q")))
            (appended (wire greeting []) (delivered half_open 4 connected greeting).size)
            (worker_turn fresh_book))
    × (length (wire greeting []) ≡ (delivered half_open 4 connected greeting).size + 0)
worker_turn-wire_example =
    worker_turn-wire 9 context 4 greeting connected idle_server (codes "/q") fresh_book
      greeting-IsMessage greeting-IsSend create_qinfo-fresh_book tt empty_queues-length
