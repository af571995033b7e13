-- ===== src/Parse/Rounds.antt =====
-- Rounds of the loop of `parse_frame` that find a line, and the round that ends a frame.
use newtmq_server.Base.{
  ℕ, zero, suc, ◌+◌, ◌<◌, ◌≡◌, refl, ◌∷◌, Option, none, some, Bytes, length, drop, arith,
}
use newtmq_server.Common.{success}
use newtmq_server.Frame.{Frame, more, complete, ssplit}
use newtmq_server.Parse.{
  Parsed, returned, parse_loop, parse_split, parse_line, after_update, passed, is_body,
  frame_update,
}

-- With more fuel than bytes the loop gives `res`, whatever `*offset` was so far.
abbrev pub Ends : Bytes → ℕ → ℕ → Bytes → Frame → Parsed → Type 0
Ends id n at curr f res =
    (offset : Option ℕ) (fuel : ℕ)
    → length curr < fuel
    → parse_loop fuel id n at offset curr f none ≡ res

module _ (id : Bytes) (n at : ℕ) (c : ℕ) (cs : Bytes) (f : Frame) (len j : ℕ) where
  pub Ends-more :
      (rest : Bytes) (f' : Frame) (res : Parsed)
      → ssplit (is_body f.status) (c ∷ cs) ≡ (success, len)
      → passed (is_body f.status) (c ∷ cs) len ≡ j
      → drop j (c ∷ cs) ≡ rest
      → length rest < length (c ∷ cs)
      → frame_update id (c ∷ cs) len f ≡ (more, f')
      → Ends id n (at + j) rest f' res
      → Ends id n at (c ∷ cs) f res
  unfolding parse_loop parse_split parse_line after_update
  Ends-more rest f' res s p d l u e offset zero h = absurd (omega arith)
  Ends-more rest f' res s p d l u e offset (suc fuel) h =
      rw (s, p, d, u) (e (some (at + j + 1)) fuel (omega arith))

  pub Ends-complete :
      (f' : Frame)
      → ssplit (is_body f.status) (c ∷ cs) ≡ (success, len)
      → passed (is_body f.status) (c ∷ cs) len ≡ j
      → frame_update id (c ∷ cs) len f ≡ (complete, f')
      → Ends id n at (c ∷ cs) f (returned success (some (at + j + 1)) f' none)
  unfolding parse_loop parse_split parse_line after_update
  Ends-complete f' s p u offset zero h = absurd (omega arith)
  Ends-complete f' s p u offset (suc fuel) h = rw (s, p, u) refl
