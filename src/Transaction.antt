-- ===== src/Transaction.antt =====
-- lib/transaction.c: the open transactions, oldest first, each with the frames that were added to
-- it, newest first, since `list_add` puts a frame in front. Frames are of any type; what
-- `frame->transaction_callback` points to is the argument `callback`, NULL being `none`: no file of
-- the server sets it. `manager.mutex` is a default mutex, which its own holder cannot lock again.
pub mod Lifecycle
pub mod Commit
mod Tests
use newtmq_server.Base.{
  ℕ, zero, suc, ◌+◌, ltb, if◌then◌else◌, Bool, true, false, List, [], ◌∷◌, ◌++◌, Option, none, some,
  Bytes, strlen, strncmp_eq, c_string, drop, take,
}
use newtmq_server.Base.Last.{find_last, update_last, remove_last}
use newtmq_server.Common.{Ret, success, error}

-- `transaction_t`: the bytes of the array `tid`, and the list `h_frame`
pub record Transaction {ℓ} (A : Type ℓ) : Type ℓ where
  pub tid : Bytes
  pub frames : List A

abbrev pub tid_size : ℕ
tid_size = 512

-- How a call ends: it returns, writes past the end of an array, waits for its own lock, or has used
-- up the fuel of its loop.
pub data Outcome {ℓ} (A : Type ℓ) : Type ℓ where
  returned : A → Outcome A
  corrupted deadlocked running : Outcome A

-- the test of `get_transaction`
abbrev pub matches {ℓ} : {A : Type ℓ} → Bytes → Transaction A → Bool
matches tid t = strncmp_eq t.tid tid (strlen tid)

abbrev pub Manager {ℓ} : Type ℓ → Type ℓ
Manager A = List (Transaction A)

module _ {ℓ} {A : Type ℓ} where
  unfoldable pub transaction_init : Manager A
  transaction_init = []

  -- The scan goes on to the end: the last transaction that matches is taken.
  unfoldable pub get_transaction : Bytes → Manager A → Option (Transaction A)
  get_transaction tid m = find_last (matches tid) m

  -- `malloc` leaves `junk` in the array, of which `memcpy` overwrites the first `strlen(tid)`
  -- bytes and no terminator.
  unfoldable pub alloc_transaction : Bytes → Bytes → Manager A → Outcome (Manager A)
  alloc_transaction junk tid m =
      if ltb tid_size (strlen tid)
      then corrupted
      else returned (m ++ record { tid = c_string tid ++ drop (strlen tid) junk; frames = [] } ∷ [])

  unfoldable pub started : Outcome (Manager A) → Outcome (Ret × Manager A)
  started (returned m) = returned (success, m)
  started corrupted = corrupted
  started deadlocked = deadlocked
  started running = running

  unfoldable pub start_unless :
      Bytes → Bytes → Manager A → Option (Transaction A) → Outcome (Ret × Manager A)
  start_unless junk tid m (some t) = returned (error, m)
  start_unless junk tid m none = started (alloc_transaction junk tid m)

  unfoldable pub transaction_start : Bytes → Bytes → Manager A → Outcome (Ret × Manager A)
  unfolding started alloc_transaction start_unless
  transaction_start junk tid m = start_unless junk tid m (get_transaction tid m)

  abbrev pub add_frame : A → Transaction A → Transaction A
  add_frame frame t = record t { frames = frame ∷ t.frames }

  unfoldable pub add_to : Bytes → A → Manager A → Option (Transaction A) → Ret × Manager A
  add_to tid frame m (some t) = (success, update_last (matches tid) (add_frame frame) m)
  add_to tid frame m none = (error, m)

  unfoldable pub transaction_add : Bytes → A → Manager A → Ret × Manager A
  unfolding add_to
  transaction_add tid frame m = add_to tid frame m (get_transaction tid m)

  -- `free_transaction` on what `get_transaction` found
  unfoldable pub free_transaction : Bytes → Manager A → Manager A
  free_transaction tid m = remove_last (matches tid) m

  unfoldable pub abort_found : Bytes → Manager A → Option (Transaction A) → Ret × Manager A
  abort_found tid m (some t) = (success, free_transaction tid m)
  abort_found tid m none = (error, m)

  unfoldable pub transaction_abort : Bytes → Manager A → Ret × Manager A
  unfolding abort_found
  transaction_abort tid m = abort_found tid m (get_transaction tid m)

  -- `transaction_destruct` holds the lock that `free_transaction` takes.
  unfoldable pub transaction_destruct : Manager A → Outcome (Ret × Manager A)
  transaction_destruct [] = returned (success, [])
  transaction_destruct (t ∷ m) = deadlocked

-- `W` is what the callbacks change.
module _ {ℓ κ} {A : Type ℓ} {W : Type κ} (callback : A → Option (W → Ret × W)) where
  -- the loop of `transaction_commit`, with fuel; a frame with no callback is left where it is
  unfoldable pub commit_loop : ℕ → List A → W → Outcome W
  commit_loop zero frames w = running
  commit_loop (suc fuel) [] w = returned w
  commit_loop (suc fuel) (f ∷ fs) w = elim (callback f) [
    | none ↦ commit_loop fuel (f ∷ fs) w
    | some call ↦ elim (call w).0 [
      | success ↦ commit_loop fuel fs (call w).1
      | error ↦ returned (call w).1
    ]
  ]

  -- The inner declaration of `ret_callback` hides the one that the return code depends on.
  abbrev pub committed : Bytes → Manager A → Outcome W → Outcome (Ret × (Manager A × W))
  committed tid m (returned w) = returned (success, (free_transaction tid m, w))
  committed tid m corrupted = corrupted
  committed tid m deadlocked = deadlocked
  committed tid m running = running

  unfoldable pub commit_found :
      ℕ → Bytes → Manager A → W → Option (Transaction A) → Outcome (Ret × (Manager A × W))
  commit_found fuel tid m w none = returned (error, (m, w))
  commit_found fuel tid m w (some t) = committed tid m (commit_loop fuel t.frames w)

  unfoldable pub transaction_commit : ℕ → Bytes → Manager A → W → Outcome (Ret × (Manager A × W))
  unfolding commit_found
  transaction_commit fuel tid m w = commit_found fuel tid m w (get_transaction tid m)
