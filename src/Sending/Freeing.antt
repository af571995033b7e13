-- ===== src/Sending/Freeing.antt =====
-- free_client_info and free_dest_group of lib/stomp_sending_worker.c, which nothing calls.
use newtmq_server.Base.{List, [], ◌∷◌, ◌++◌, Option, none, some, Bytes}
use newtmq_server.Sending.{Client, DestGroup}

-- the blocks that `free` gets
pub data Block : Type 0 where
  destination id : Bytes → Block
  client : Client → Block
  group : DestGroup → Block

-- `free(NULL)` does nothing.
unfoldable pub free_id : Option Bytes → List Block
free_id none = []
free_id (some b) = id b ∷ []

unfoldable pub free_client_info : Client → List Block
unfolding free_id
free_client_info c = free_id c.id ++ client c ∷ []

-- The identifier is freed before `free_client_info` frees it again.
unfoldable pub free_clients : List Client → List Block
unfolding free_id free_client_info
free_clients [] = []
free_clients (c ∷ cs) = free_id c.id ++ free_client_info c ++ free_clients cs

unfoldable pub free_dest_group : Option DestGroup → List Block
unfolding free_clients
free_dest_group none = []
free_dest_group (some g) = destination g.destination ∷ free_clients g.clients ++ group g ∷ []
