-- ===== src/Frame/Split.antt =====
-- What `ssplit` returns on a line, on a piece that the buffer cuts off, and on a piece of a body.
use newtmq_server.Base.{
  ℕ, suc, ◌+◌, ◌≤◌, ◌<◌, ◌≡◌, ◌≢◌, Bool, true, false, [], ◌∷◌, ◌++◌, Bytes, length, All, arith,
}
use newtmq_server.Common.{success, error}
use newtmq_server.Frame.{ssplit, scan, is_bl, is_nl, ld_max}

-- a byte that does not end a header line; a byte that does not end a piece of a body
abbrev pub IsPlain : ℕ → Type 0
IsPlain c = (c ≢ 0) × (c ≢ b'\n')

abbrev pub NotNul : ℕ → Type 0
NotNul c = c ≢ 0

-- a line that `ssplit` passes over as a whole
abbrev pub IsLine : Bytes → Type 0
IsLine [] = ⊥
IsLine (c ∷ cs) = (c ≢ b'\r') × All IsPlain (c ∷ cs) × (length (c ∷ cs) ≤ ld_max)

scan_bounds :
    (is_body : Bool) (count : ℕ) (cs : Bytes)
    → count < ld_max
    → (count < (scan is_body count cs).1)
      × ((scan is_body count cs).1 ≤ count + suc (length cs))
      × ((scan is_body count cs).1 ≤ ld_max)
unfolding scan
scan_bounds is_body count [] h = (omega arith, omega arith, omega arith)
scan_bounds is_body count (c ∷ cs) h = ground (arith, scan_bounds is_body (suc count) cs)

scan-error :
    (is_body : Bool) (count : ℕ) (cs : Bytes)
    → (scan is_body count cs).0 ≡ error
    → (scan is_body count cs).1 ≡ count + suc (length cs)
unfolding scan
scan-error is_body count [] h = omega arith
scan-error is_body count (c ∷ cs) h = ground (arith, scan-error is_body (suc count) cs)

-- The length that `ssplit` reports stays inside the buffer and is at most LD_MAX.
pub ssplit_bounds :
    (is_body : Bool) (curr : Bytes)
    → ((ssplit is_body curr).1 ≤ length curr) × ((ssplit is_body curr).1 ≤ ld_max)
unfolding ssplit
ssplit_bounds is_body [] = (omega arith, omega arith)
ssplit_bounds is_body (c ∷ cs) = ground (arith, scan_bounds is_body 0 cs)

-- RET_ERROR is returned only with the whole rest of the buffer, and that is not empty.
pub ssplit-error :
    (is_body : Bool) (c : ℕ) (cs : Bytes)
    → (ssplit is_body (c ∷ cs)).0 ≡ error
    → ((ssplit is_body (c ∷ cs)).1 ≡ length (c ∷ cs)) × (c ≢ 0)
unfolding ssplit is_bl
ssplit-error is_body c cs h = ground (arith, scan-error is_body 0 cs)

-- On a body no progress is made only at a NUL byte.
pub ssplit-body_pos : (c : ℕ) (cs : Bytes) → c ≢ 0 → 0 < (ssplit true (c ∷ cs)).1
unfolding ssplit is_bl
ssplit-body_pos c cs h = ground (arith, scan_bounds true 0 cs)

scan-line :
    (count : ℕ) (cs rest : Bytes)
    → All IsPlain cs
    → count + suc (length cs) ≤ ld_max
    → scan false count (cs ++ b'\n' ∷ rest) ≡ (success, count + suc (length cs))
unfolding scan
scan-line count [] rest h k = ground arith
scan-line count (c ∷ cs) rest h k = ground (arith, scan-line (suc count) cs rest h.1)

scan-cut :
    (count : ℕ) (cs : Bytes)
    → All IsPlain cs
    → count + suc (length cs) ≤ ld_max
    → scan false count cs ≡ (error, count + suc (length cs))
unfolding scan
scan-cut count [] h k = ground arith
scan-cut count (c ∷ cs) h k = ground (arith, scan-cut (suc count) cs h.1)

scan-body :
    (count : ℕ) (cs rest : Bytes)
    → All NotNul cs
    → count + suc (length cs) ≤ ld_max
    → scan true count (cs ++ 0 ∷ rest) ≡ (success, count + suc (length cs))
unfolding scan
scan-body count [] rest h k = ground arith
scan-body count (c ∷ cs) rest h k = ground (arith, scan-body (suc count) cs rest h.1)

-- A line that ends with a newline is found whole.
pub ssplit-line :
    (line rest : Bytes) → IsLine line → ssplit false (line ++ b'\n' ∷ rest) ≡ (success, length line)
unfolding ssplit is_bl is_nl
ssplit-line (c ∷ cs) rest h = ground (arith, scan-line 0 cs rest h.1.1)
ssplit-line [] rest h = absurd h

-- A line that the end of the buffer cuts off is reported with RET_ERROR.
pub ssplit-cut : (line : Bytes) → IsLine line → ssplit false line ≡ (error, length line)
unfolding ssplit is_bl is_nl
ssplit-cut (c ∷ cs) h = ground (arith, scan-cut 0 cs h.1.1)
ssplit-cut [] h = absurd h

-- A piece of a body that ends with a NUL byte is found whole.
pub ssplit-body :
    (c : ℕ) (cs rest : Bytes)
    → All NotNul (c ∷ cs)
    → length (c ∷ cs) ≤ ld_max
    → ssplit true ((c ∷ cs) ++ 0 ∷ rest) ≡ (success, length (c ∷ cs))
unfolding ssplit is_bl
ssplit-body c cs rest h k = ground (arith, scan-body 0 cs rest h.1)

scan-full :
    (count : ℕ) (cs rest : Bytes)
    → count < ld_max
    → ld_max ≤ count + length cs
    → All NotNul cs
    → scan true count (cs ++ rest) ≡ (success, ld_max)
unfolding scan
scan-full count [] rest k f h = absurd (omega arith)
scan-full count (c ∷ cs) rest k f h = ground (arith, scan-full (suc count) cs rest)

-- Of a longer body exactly LD_MAX bytes are taken.
pub ssplit-body_full :
    (c : ℕ) (cs rest : Bytes)
    → All NotNul (c ∷ cs)
    → ld_max < length (c ∷ cs)
    → ssplit true ((c ∷ cs) ++ rest) ≡ (success, ld_max)
unfolding ssplit is_bl
ssplit-body_full c cs rest h k = ground (arith, scan-full 0 cs rest)
