-- ===== src/Signal/Order.antt =====
-- Which handlers an interrupt runs.
use newtmq_server.Base.{
  ℕ, ◌==◌, ==_iff, ◌≡◌, ◌≢◌, ap, sym, List, [], ◌∷◌, some, All, arith, Bool-cases, inl, inr,
}
use newtmq_server.Common.{success}
use newtmq_server.Signal.{
  SigHandle, Handlers, set_signal_handler, del_signal_handler, unlink, run_all, int_handle,
  cleanup_handler,
}

-- A thread sets its handler, others come and go, and it deletes its handler again.
pub data Life {ℓ} (W : Type ℓ) : Type ℓ where
  set : ℕ → (W → W) → Life W
  del : ℕ → Life W

module _ {ℓ} {W : Type ℓ} where
  -- what the calls leave
  abbrev pub after : List (Life W) → Handlers W → Handlers W
  after [] hs = hs
  after (set a f ∷ ls) hs = after ls (set_signal_handler a f hs)
  after (del a ∷ ls) hs = after ls (del_signal_handler (some a) hs).1

  -- calls that are not about the address
  abbrev pub Spares : ℕ → Life W → Type 0
  Spares a (set b f) = b ≢ a
  Spares a (del b) = b ≢ a

-- The first list has the handler at the address `a`, and is the second without it.
data Around {ℓ} {W : Type ℓ} (a : ℕ) (f : W → W) : Handlers W → Handlers W → Type ℓ where
  here : {hs : Handlers W} → Around a f (record { addr = a; run = f } ∷ hs) hs
  there :
      {hs ks : Handlers W} (h : SigHandle W)
      → h.addr ≢ a
      → Around a f hs ks
      → Around a f (h ∷ hs) (h ∷ ks)

module _ {ℓ} {W : Type ℓ} {a : ℕ} {f : W → W} where
  unlink-own : {hs ks : Handlers W} → Around a f hs ks → unlink a hs ≡ ks
  unfolding unlink
  unlink-own here = ground arith
  unlink-own (there h n x) = ground (arith, unlink-own x)

  unlink-Around :
      {hs ks : Handlers W} (b : ℕ)
      → b ≢ a
      → Around a f hs ks
      → Around a f (unlink b hs) (unlink b ks)
  unfolding unlink
  unlink-Around b n (here {hs}) = elim (Bool-cases (a == b)) [
    | inl e ↦ absurd (n (sym ((==_iff a b).0 e)))
    | inr e ↦ rw e here
  ]
  unlink-Around b n (there h m x) = elim (Bool-cases (h.addr == b)) [
    | inl e ↦ rw e x
    | inr e ↦ rw e (there h m (unlink-Around b n x))
  ]

  after-Around :
      (ls : List (Life W)) {hs ks : Handlers W}
      → All (Spares a) ls
      → Around a f hs ks
      → Around a f (after ls hs) (after ls ks)
  unfolding set_signal_handler del_signal_handler
  after-Around [] h x = x
  after-Around (set b g ∷ ls) h x = after-Around ls h.1 (there (record { addr = b; run = g }) h.0 x)
  after-Around (del b ∷ ls) h x = after-Around ls h.1 (unlink-Around b h.0 x)

-- A thread sets a handler and deletes it again: whatever other threads set and delete in between,
-- the deletion succeeds, and an interrupt then runs what it would have run without this thread, in
-- the same order, and leaves no handler.
pub int_handle-deleted {ℓ} :
    {W : Type ℓ} (a : ℕ) (f : W → W) (ls : List (Life W)) (hs : Handlers W) (w : W)
    → All (Spares a) ls
    → (del_signal_handler (some a) (after ls (set_signal_handler a f hs)) ≡ (success, after ls hs))
      × (int_handle (del_signal_handler (some a) (after ls (set_signal_handler a f hs))).1 w
          ≡ ([], run_all (after ls hs) w))
unfolding del_signal_handler set_signal_handler int_handle cleanup_handler
int_handle-deleted a f ls hs w h =
    let gone : unlink a (after ls (record { addr = a; run = f } ∷ hs)) ≡ after ls hs =
      unlink-own (after-Around ls h here) in
    (ap (λ ks. (success, ks)) gone, ap (λ ks. ([], run_all ks w)) gone)
