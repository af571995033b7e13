-- ===== src/Connection/Accepting.antt =====
-- lib/connection.c: the threads that accept connections. The calls of sockets and of `pthread_create`
-- are arguments. `alloc_conninfo` does not fail.
use newtmq_server.Base.{
  ℕ, Bool, true, false, List, [], ◌∷◌, ◌++◌, Option, none, some, Bytes, if◌then◌else◌,
}
use newtmq_server.Signal.{Handlers, set_signal_handler}

-- What `socket`, `bind` and `listen` do; `none` is -1.
pub record Sockets : Type 0 where
  pub made : Option ℕ
  pub binds : Option Bytes → ℕ → Bool
  pub listens : Bool

-- `cleanup_connection` on its argument, NULL or a place that holds a number: the sockets closed
unfoldable pub cleanup_connection : Option ℕ → List ℕ → List ℕ
cleanup_connection none closed = closed
cleanup_connection (some sock) closed = sock ∷ closed

-- `init_connection`. The handler is given the address of a local variable, which holds something else
-- when it runs, `junk`. A socket that cannot be bound is not closed.
unfoldable pub init_connection :
    Sockets → ℕ → ℕ → Option Bytes → ℕ → Handlers (List ℕ) → Option ℕ × Handlers (List ℕ)
unfolding set_signal_handler cleanup_connection
init_connection os addr junk host port hs = elim os.made [
  | none ↦ (none, hs)
  | some sd ↦
      if os.binds host port
      then (if os.listens
          then (some sd, set_signal_handler addr (cleanup_connection (some junk)) hs)
          else (none, hs))
      else (none, hs)
]

-- What `accept` gives: -1, or a socket; and whether the thread for it could be created.
pub data Accepted : Type 0 where
  refused : Accepted
  accepted : ℕ → Bool → Accepted

-- The sockets for which `connection_co_worker` runs, and those that nothing holds any more.
pub record Listener : Type 0 where
  pub served : List ℕ
  pub lost : List ℕ

unfoldable pub accept_one : Accepted → Listener → Listener
accept_one refused l = l
accept_one (accepted sock true) l = record l { served = l.served ++ sock ∷ [] }
accept_one (accepted sock false) l = record l { lost = l.lost ++ sock ∷ [] }

-- the endless loop of `do_connection_worker`, after some calls of `accept`
unfoldable pub accept_loop : List Accepted → Listener → Listener
unfolding accept_one
accept_loop [] l = l
accept_loop (a ∷ calls) l = accept_loop calls (accept_one a l)

-- `do_connection_worker`; `none` is its end before the loop.
unfoldable pub do_connection_worker :
    Sockets
    → ℕ
    → ℕ
    → Option Bytes
    → ℕ
    → List Accepted
    → Handlers (List ℕ)
    → Option Listener × Handlers (List ℕ)
unfolding init_connection accept_loop
do_connection_worker os addr junk host port calls hs =
    let (sd, hs') = init_connection os addr junk host port hs in
    elim sd [
      | none ↦ (none, hs')
      | some n ↦ (some (accept_loop calls (record { served = []; lost = [] })), hs')
    ]
