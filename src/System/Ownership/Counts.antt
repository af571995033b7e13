-- ===== src/System/Ownership/Counts.antt =====
-- How often a frame, known by its address, stands in each part of the server, or has been freed.
use newtmq_server.Base.{
  ◌-◌, ◌≤◌, ℕ, ◌+◌, ◌==◌, ==_iff, if◌then◌else◌, List, [], ◌∷◌, ◌++◌, Option, none, some, ◌≡◌,
  arith, Bool-cases, inl, inr, ◌⊎◌, ◌≢◌,
}
use newtmq_server.Frame.{Frame}
use newtmq_server.Queue.{Chain, Box}
use newtmq_server.Transaction.{Manager}
use newtmq_server.Protocol.{Server}
use newtmq_server.System.{Link, System}

-- 1 for the address itself
pub is_at : ℕ → ℕ → ℕ
is_at a b = if a == b then 1 else 0

abbrev pub count_frames : ℕ → List Frame → ℕ
count_frames a [] = 0
count_frames a (f ∷ fs) = is_at a f.addr + count_frames a fs

abbrev pub count_frame : ℕ → Option Frame → ℕ
count_frame a none = 0
count_frame a (some f) = is_at a f.addr

abbrev pub count_chain : ℕ → Chain Frame → ℕ
count_chain a [] = 0
count_chain a (q ∷ qs) = count_frames a q.entries + count_chain a qs

abbrev pub count_slot : ℕ → Option (Chain Frame) → ℕ
count_slot a none = 0
count_slot a (some c) = count_chain a c

abbrev pub count_box : ℕ → Box Frame → ℕ
count_box a [] = 0
count_box a (c ∷ cs) = count_slot a c + count_box a cs

abbrev pub count_transactions : ℕ → Manager Frame → ℕ
count_transactions a [] = 0
count_transactions a (t ∷ ts) = count_frames a t.frames + count_transactions a ts

abbrev pub count_freed : ℕ → List ℕ → ℕ
count_freed a [] = 0
count_freed a (b ∷ bs) = is_at a b + count_freed a bs

abbrev pub count_links : ℕ → List Link → ℕ
count_links a [] = 0
count_links a (l ∷ ls) = count_frame a l.frame + count_links a ls

-- the queues, the transactions, and what has been freed
abbrev pub count_server : ℕ → Server → ℕ
count_server a s =
    count_box a s.queues + (count_transactions a s.transactions + count_freed a s.freed)

-- with the frames that connections read, and the bucket
abbrev pub owners : ℕ → System → ℕ
owners a s = count_links a s.links + (count_frames a s.bucket + count_server a s.server)

pub is_at_cases : (a b : ℕ) → (is_at a b ≡ 0) × (a ≢ b) ⊎ (is_at a b ≡ 1) × (a ≡ b)
unfolding is_at
is_at_cases a b = elim (Bool-cases (a == b)) [
  | inl e ↦ inr (rw e, (==_iff a b).0 e)
  | inr e ↦ inl (rw e, (λ p. ground arith))
]

pub count_frames-append :
    (a : ℕ) (fs gs : List Frame) → count_frames a (fs ++ gs) ≡ count_frames a fs + count_frames a gs
count_frames-append a [] gs = omega arith
count_frames-append a (f ∷ fs) gs = omega (arith, count_frames-append a fs gs)

pub count_links-append :
    (a : ℕ) (ls ks : List Link) → count_links a (ls ++ ks) ≡ count_links a ls + count_links a ks
count_links-append a [] ks = omega arith
count_links-append a (l ∷ ls) ks = omega (arith, count_links-append a ls ks)

pub count_transactions-append :
    (a : ℕ) (m n : Manager Frame)
    → count_transactions a (m ++ n) ≡ count_transactions a m + count_transactions a n
count_transactions-append a [] n = omega arith
count_transactions-append a (t ∷ m) n = omega (arith, count_transactions-append a m n)

-- The count `x` of an address, where `n` addresses are allocated: one at most, and none of an address
-- that is not allocated.
abbrev pub Fits : ℕ → ℕ → ℕ → Type 0
Fits a n x = (x ≤ 1) × (x ≤ n - a)

pub Fits-less : (a n m x y : ℕ) → Fits a n x → y ≤ x → n ≤ m → Fits a m y
Fits-less a n m x y h l k = (omega arith, omega arith)

pub Fits-fresh : (a n x : ℕ) → Fits a n x → Fits a (n + 1) (x + is_at a n)
Fits-fresh a n x h = elim (is_at_cases a n) [
  | inl (e, p) ↦ (omega arith, omega arith)
  | inr (e, p) ↦ (omega arith, omega arith)
]
