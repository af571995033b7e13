-- ===== src/Protocol/Pipeline/Tests.antt =====
-- A message from the bytes to the queue.
use newtmq_server.Base.{[], ◌∷◌, ◌++◌, codes, some, ◌≡◌, refl, arith}
use newtmq_server.Base.Text.{strncmp_eq, strlen}
use newtmq_server.Base.Last.{any, find_last, update_last}
use newtmq_server.Common.{success, get_hash, hash_loop}
use newtmq_server.Persistence.{
  Persistent, persist_frame, create_qinfo, create_unless, append_qinfo, alloc_qinfo, persist_in,
  get_qinfo, add_frame, new_qinfo, reinstate, persist_queue_info,
}
use newtmq_server.Queue.Laws.{contents}
use newtmq_server.Receive.{Receiver, recv_data, done, get_frame_from_bucket}
use newtmq_server.Receive.Lines.{idle}
use newtmq_server.Receive.Roundtrip.Wire.{wire, delivered}
use newtmq_server.Receive.Tests.{connected, greeting, greeting-IsMessage}
use newtmq_server.Protocol.{Server, handled}
use newtmq_server.Protocol.Dispatch.{handle_frame}
use newtmq_server.Protocol.Tests.{half_open, context, idle_server, empty_queues-length}
use newtmq_server.Protocol.Pipeline.{IsSend, recv_data-publication}

abbrev booked : Persistent
booked =
    record {
      qid = get_hash (codes "/q");
      unpersistent = delivered half_open 4 connected greeting ∷ [];
      index_head = (delivered half_open 4 connected greeting).size;
      index_sent = 0;
      index_persistent = 0;
      written = [];
      sent_file = 0;
    }
    ∷ []

persist_frame-booked :
    persist_frame context.disk (delivered half_open 4 connected greeting) (codes "/q") []
    ≡ some (success, booked)
unfolding persist_frame create_qinfo create_unless append_qinfo alloc_qinfo persist_in get_qinfo
    add_frame new_qinfo reinstate persist_queue_info any find_last update_last get_hash hash_loop
persist_frame-booked = refl

pub greeting-IsSend : IsSend greeting (codes "/q")
unfolding strncmp_eq strlen
greeting-IsSend = record {
  before = [];
  after = codes "content-length:2" ∷ [];
  named = refl;
  lines = refl;
  plain_before = tt;
  plain_after = ((refl, (refl, (refl, (refl, tt)))), tt);
}

recv_data-publication_example :
    (r' : Receiver) × (s' : Server) × (recv_data half_open 4 99 (wire greeting []) (idle connected)
      ≡ done r')
    × ((get_frame_from_bucket r').0 ≡ some (delivered half_open 4 connected greeting))
    × (handle_frame 9 context (delivered half_open 4 connected greeting) idle_server
        ≡ handled (some (delivered half_open 4 connected greeting)) s')
    × (contents s'.queues (get_hash (codes "/q"))
        ≡ contents idle_server.queues (get_hash (codes "/q"))
          ++ delivered half_open 4 connected greeting ∷ [])
recv_data-publication_example =
    recv_data-publication context 4 99 9 greeting connected idle_server (codes "/q") success booked
      greeting-IsMessage greeting-IsSend refl (omega arith) persist_frame-booked empty_queues-length
