-- ===== src/Restart/Tests.antt =====
-- Runs of `unpersist` on small files.
use newtmq_server.Base.{Bytes, true, [], ◌∷◌, codes, some, none, List, replicate}
use newtmq_server.Common.{get_hash}
use newtmq_server.Frame.{Frame}
use newtmq_server.Persistence.{Disk, QueueInfo}
use newtmq_server.Receive.Roundtrip.Wire.{Message, delivered}
use newtmq_server.Receive.Tests.{quiet, connected, greeting}
use newtmq_server.Queue.{qb_size}
use newtmq_server.Restart.{Start}

-- the files of a queue of which nothing was sent
abbrev kept_disk : Disk
kept_disk = record { usable = λ q. true; index_file = λ q. some (0, 0) }

abbrev unsent : QueueInfo
unsent = record {
  qid = get_hash (codes "/q");
  unpersistent = [];
  index_head = 0;
  index_sent = 0;
  index_persistent = 0;
  written = [];
  sent_file = 0;
}

abbrev greeted : List Frame
greeted = delivered quiet 4 connected greeting ∷ []

abbrev empty_start : Start
empty_start = record {
  queues = replicate qb_size none;
  persistent = [];
  reader = record { frame = none; prev = none; found = []; draws = 0; allocated = 1 };
}

-- a message that is longer than a buffer
long_body : Bytes
long_body = replicate 1020 b'x'

abbrev big : Message
big = record { name = codes "SEND"; headers = codes "content-length:1020" ∷ []; body = long_body }
