-- ===== src/Queue.antt =====
-- lib/queue.c: the table of named queues. A chain of `queuebox` is a list whose head is the queue
-- that `list_add` put in last; NULL is `none`. A queue is known by the hash of its name. What is
-- queued is a pointer, here a value of any type. Each call is one step here; the lock
-- is let go inside `get_queue`, so that is so for one caller at a time.
pub mod Chains
pub mod Laws
pub mod Refinement
pub mod Collision
mod Tests
use newtmq_server.Base.{
  ℕ, zero, suc, ◌+◌, ◌%◌, ◌==◌, if◌then◌else◌, Bool, true, false, List, [], ◌∷◌, ◌++◌, Option, none,
  some, Bytes, get_elem?, set, take, replicate, c_string,
}
use newtmq_server.Common.{Ret, success, error, get_hash}

abbrev pub qb_size : ℕ
qb_size = 512

abbrev qname_length : ℕ
qname_length = 256

-- `struct queue`; nothing uses its fields `index_head` and `index_sent`.
pub record Queue {ℓ} (A : Type ℓ) : Type ℓ where
  pub hashnum : ℕ
  pub name : Bytes
  pub entries : List A
  pub count : ℕ

abbrev pub Chain {ℓ} : Type ℓ → Type ℓ
Chain A = List (Queue A)

-- `queuebox`, of QB_SIZE slots
abbrev pub Box {ℓ} : Type ℓ → Type ℓ
Box A = List (Option (Chain A))

-- the slot of a hash; `& INT_MAX` changes nothing below QB_SIZE
abbrev pub slot : ℕ → ℕ
slot hashnum = hashnum % qb_size

module _ {ℓ} {A : Type ℓ} where
  unfoldable pub initialize_queuebox : Box A
  initialize_queuebox = replicate qb_size none

  -- the chain that `get_queue` finds in a slot, or allocates
  unfoldable pub chain_of : Option (Option (Chain A)) → Chain A
  chain_of (some (some c)) = c
  chain_of (some none) = []
  chain_of none = []

  unfoldable pub chain_at : Box A → ℕ → Chain A
  chain_at box i = chain_of (get_elem? box i)

  -- The scan of `get_queue` goes on to the end: the last queue with the hash is taken.
  unfoldable pub scan_queue : ℕ → Chain A → Option (Queue A) → Option (Queue A)
  scan_queue hashnum [] found = found
  scan_queue hashnum (q ∷ qs) found =
      scan_queue hashnum qs (if q.hashnum == hashnum then some q else found)

  unfoldable pub create_queue : ℕ → Bytes → Queue A
  create_queue hashnum qname = record {
    hashnum = hashnum;
    name = take qname_length (c_string qname);
    entries = [];
    count = 0;
  }

  -- `get_queue`: the queue, and the chain with it, where `list_add` has put a new one in front
  unfoldable pub get_queue : ℕ → Bytes → Chain A → Queue A × Chain A
  get_queue hashnum qname chain = elim (scan_queue hashnum chain none) [
    | some q ↦ (q, chain)
    | none ↦ let q = create_queue hashnum qname in (q, q ∷ chain)
  ]

  -- some queue of the chain has the hash
  pub has_hash : ℕ → Chain A → Bool
  has_hash hashnum [] = false
  has_hash hashnum (q ∷ qs) = if q.hashnum == hashnum then true else has_hash hashnum qs

  -- A write through the pointer that `get_queue` returned: to the last queue with the hash.
  unfoldable pub write_queue : ℕ → Queue A → Chain A → Chain A
  unfolding has_hash
  write_queue hashnum new [] = []
  write_queue hashnum new (q ∷ qs) =
      if has_hash hashnum qs
      then q ∷ write_queue hashnum new qs
      else if q.hashnum == hashnum
      then new ∷ qs
      else q ∷ qs

  unfoldable pub add_entry : A → Queue A → Queue A
  add_entry e q = record q { entries = q.entries ++ e ∷ []; count = q.count + 1 }

  -- `list_add_tail(&e->l_queue, &q->h_entry)` in the queue of that name
  unfoldable pub put_entry : A → ℕ → Bytes → Box A → Box A
  unfolding add_entry
  put_entry e hashnum qname box =
      let (q, chain) = get_queue hashnum qname (chain_at box (slot hashnum)) in
      set box (slot hashnum) (some (write_queue hashnum (add_entry e q) chain))

  -- `enqueue(data, qname)`; NULL is refused.
  unfoldable pub enqueue : Option A → Bytes → Box A → Ret × Box A
  enqueue none qname box = (error, box)
  enqueue (some e) qname box = (success, put_entry e (get_hash qname) qname box)

  unfoldable pub first_entry : List A → Option A
  first_entry [] = none
  first_entry (e ∷ es) = some e

  unfoldable pub rest_entries : List A → List A
  rest_entries [] = []
  rest_entries (e ∷ es) = es

  unfoldable pub take_entry : ℕ → Bytes → Box A → Option A × Box A
  unfolding first_entry rest_entries
  take_entry hashnum qname box =
      let (q, chain) = get_queue hashnum qname (chain_at box (slot hashnum)) in
      let popped = record q { entries = rest_entries q.entries } in
      (first_entry q.entries, set box (slot hashnum) (some (write_queue hashnum popped chain)))

  -- `dequeue(qname)`, which makes the queue if it is not there and leaves `count` as it is.
  unfoldable pub dequeue : Bytes → Box A → Option A × Box A
  dequeue qname box = take_entry (get_hash qname) qname box

  -- `get_queuelist(head)`: the queues that it links to `head`
  unfoldable pub get_queuelist : Box A → List (Queue A)
  get_queuelist [] = []
  get_queuelist (none ∷ box) = get_queuelist box
  get_queuelist (some chain ∷ box) = chain ++ get_queuelist box

  cleared : Box A → Box A
  cleared [] = []
  cleared (none ∷ box) = none ∷ cleared box
  cleared (some chain ∷ box) = some [] ∷ cleared box

  -- `cleanup_queuebox()` frees every queue and keeps the heads of the chains.
  unfoldable pub cleanup_queuebox : Box A → Ret × Box A
  unfolding cleared
  cleanup_queuebox box = (success, cleared box)
