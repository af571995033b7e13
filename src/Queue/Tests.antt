-- ===== src/Queue/Tests.antt =====
-- Runs of the queues.
use newtmq_server.Base.{
  ℕ, List, [], ◌∷◌, codes, Option, some, none, ◌≡◌, length, length-replicate, arith,
}
use newtmq_server.Queue.{Box, Chain, initialize_queuebox, enqueue, dequeue, qb_size}
use newtmq_server.Queue.Laws.{contents, contents-initialize_queuebox}
use newtmq_server.Queue.Refinement.{Call, enqueues, dequeues, run, spec_run, run-spec_run}
use newtmq_server.Queue.Collision.{dequeue-collision}

abbrev empty_box : Box ℕ
empty_box = initialize_queuebox

empty_box-length : length empty_box ≡ qb_size
unfolding initialize_queuebox
empty_box-length = length-replicate {A = Option (Chain ℕ)} qb_size none

abbrev calls : List (Call ℕ)
calls =
    enqueues (some 5) (codes "/a")
    ∷ enqueues (some 6) (codes "/b")
    ∷ enqueues (some 7) (codes "/a")
    ∷ dequeues (codes "/a")
    ∷ []

run-spec_run_example :
    ((run calls empty_box).0 ≡ (spec_run calls (contents empty_box)).0)
    × (contents (run calls empty_box).1 ≡ (spec_run calls (contents empty_box)).1)
run-spec_run_example = run-spec_run calls empty_box empty_box-length

-- The entry of the queue "Ab" is taken from the queue "BA".
dequeue-collision_example :
    (dequeue (codes "BA") (enqueue (some 5) (codes "Ab") empty_box).1).0 ≡ some 5
dequeue-collision_example =
    dequeue-collision 5 [] [] 65 65 empty_box (ground arith) (ground arith) empty_box-length
      (contents-initialize_queuebox _)
