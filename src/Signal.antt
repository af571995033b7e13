-- ===== src/Signal.antt =====
-- lib/signal.c: the functions that run when the server is interrupted, newest first, since `list_add`
-- puts a handler in front. What `func` does with its argument is a change of a state of any type.
pub mod Order
pub mod Shutdown
pub mod Starting
use newtmq_server.Base.{ℕ, ◌==◌, if◌then◌else◌, List, [], ◌∷◌, Option, none, some}
use newtmq_server.Common.{Ret, success, error}

-- `sighandle_t` at an address
pub record SigHandle {ℓ} (W : Type ℓ) : Type ℓ where
  pub addr : ℕ
  pub run : W → W

-- `h_signal`
abbrev pub Handlers {ℓ} : Type ℓ → Type ℓ
Handlers W = List (SigHandle W)

module _ {ℓ} {W : Type ℓ} where
  unfoldable pub set_signal_handler : ℕ → (W → W) → Handlers W → Handlers W
  set_signal_handler addr run hs = record { addr = addr; run = run } ∷ hs

  -- `list_del` on the handler at the address
  unfoldable pub unlink : ℕ → Handlers W → Handlers W
  unlink addr [] = []
  unlink addr (h ∷ hs) = let rest = unlink addr hs in if h.addr == addr then hs else h ∷ rest

  -- `none` is NULL.
  unfoldable pub del_signal_handler : Option ℕ → Handlers W → Ret × Handlers W
  unfolding unlink
  del_signal_handler none hs = (error, hs)
  del_signal_handler (some addr) hs = (success, unlink addr hs)

  -- the loop of `int_handle`
  unfoldable pub run_all : Handlers W → W → W
  run_all [] w = w
  run_all (h ∷ hs) w = run_all hs (h.run w)

  -- `cleanup_handler` frees every handler.
  unfoldable pub cleanup_handler : Handlers W → Handlers W
  cleanup_handler hs = []

  -- `int_handle`, up to `exit`
  unfoldable pub int_handle : Handlers W → W → Handlers W × W
  unfolding run_all cleanup_handler
  int_handle hs w = (cleanup_handler hs, run_all hs w)
