-- ===== src/Frame/Setdata.antt =====
-- `stomp_setdata` stores a line in pieces of at most LD_MAX bytes that together are the line.
use newtmq_server.Base.{
  ℕ, zero, suc, ◌-◌, ◌≤◌, ◌<◌, ◌≡◌, List, [], ◌∷◌, ◌++◌, Bytes, length, take, drop, min, All, arith,
  append-nil, take-add, length-take, length-drop, take-length_append,
}
use newtmq_server.Frame.{LineData, stomp_setdata, setdata_loop, ld_max}

-- the bytes of the pieces, in order
abbrev pub contents : List LineData → Bytes
contents [] = []
contents (l ∷ ls) = l.content ++ contents ls

-- A piece holds as many bytes as it says, and they fit the array `data[LD_MAX]`.
abbrev pub Fits : LineData → Type 0
Fits l = (length l.content ≡ l.len) × (l.len ≤ ld_max)

setdata_loop-Fits :
    (fuel : ℕ) (line : Bytes) (len : ℕ) → len ≤ length line → All Fits (setdata_loop fuel line len)
unfolding setdata_loop
setdata_loop-Fits zero line len h = tt
setdata_loop-Fits (suc fuel) line len h =
    let n = min len ld_max in
    ground (
      arith,
      length-take n line,
      length-drop n line,
      setdata_loop-Fits fuel (drop n line) (len - n),
    )

setdata_loop-contents :
    (fuel : ℕ) (line : Bytes) (len : ℕ)
    → len < fuel
    → contents (setdata_loop fuel line len) ≡ take len line
unfolding setdata_loop
setdata_loop-contents zero line len h = absurd (omega arith)
setdata_loop-contents (suc fuel) line len h =
    let n = min len ld_max in
    ground (
      arith,
      setdata_loop-contents fuel (drop n line) (len - n),
      take-add n len line,
      append-nil (take n line),
    )

-- Nothing of the line is lost, added or moved, and every piece fits its array.
pub stomp_setdata-contents :
    (line : Bytes) (len : ℕ)
    → len ≤ length line
    → (contents (stomp_setdata line len) ≡ take len line) × All Fits (stomp_setdata line len)
unfolding stomp_setdata
stomp_setdata-contents line len h =
    (setdata_loop-contents (suc len) line len (omega arith), setdata_loop-Fits (suc len) line len h)

setdata_loop-fuel :
    (f g : ℕ) (line : Bytes) (len : ℕ)
    → len < f
    → len < g
    → setdata_loop f line len ≡ setdata_loop g line len
unfolding setdata_loop
setdata_loop-fuel zero g line len h k = absurd (omega arith)
setdata_loop-fuel (suc f) zero line len h k = absurd (omega arith)
setdata_loop-fuel (suc f) (suc g) line len h k =
    let n = min len ld_max in ground (arith, setdata_loop-fuel f g (drop n line) (len - n))

-- One line of at most LD_MAX bytes is one piece.
pub stomp_setdata-one :
    (line rest : Bytes)
    → length line ≤ ld_max
    → stomp_setdata (line ++ rest) (length line) ≡ record { content = line; len = length line } ∷ []
unfolding stomp_setdata setdata_loop
stomp_setdata-one line rest h =
    let e : min (length line) ld_max ≡ length line = omega arith in
    rw e (ground (arith, take-length_append line rest))

-- A longer line begins with a full piece.
pub stomp_setdata-long :
    (line : Bytes) (len : ℕ)
    → ld_max < len
    → stomp_setdata line len
      ≡ record { content = take ld_max line; len = ld_max }
        ∷ stomp_setdata (drop ld_max line) (len - ld_max)
unfolding stomp_setdata setdata_loop
stomp_setdata-long line len h =
    let e : min len ld_max ≡ ld_max = omega arith in
    rw e
      (ground (arith, setdata_loop-fuel len (suc (len - ld_max)) (drop ld_max line) (len - ld_max)))
