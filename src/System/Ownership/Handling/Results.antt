-- ===== src/System/Ownership/Handling/Results.antt =====
-- How many places a handler leaves a frame in.
use newtmq_server.Base.{ℕ, ◌+◌, ◌≤◌, List, Option, none, some, arith}
use newtmq_server.Frame.{Frame, LineData}
use newtmq_server.Management.{Iterated, iterated}
use newtmq_server.Protocol.{
  Server, Context, Result, handled, aborted, corrupted, running, with_attrs, invalid, send_error,
  asserting,
}
use newtmq_server.System.Ownership.Counts.{count_server}

-- What a handler leaves: where it returns NULL, no more than there was, and else one more at most of
-- its frame, of which there are `n`.
abbrev pub Handed : ℕ → ℕ → ℕ → Result → Type 0
Handed a k n (handled none s) = count_server a s ≤ k
Handed a k n (handled (some f) s) = count_server a s ≤ k + n
Handed a k n aborted = Unit
Handed a k n corrupted = Unit
Handed a k n running = Unit

-- the count of a server after a call
abbrev pub Counted : ℕ → ℕ → Result → Type 0
Counted a k (handled o s) = count_server a s ≤ k
Counted a k aborted = Unit
Counted a k corrupted = Unit
Counted a k running = Unit

module _ (a n : ℕ) (ctx : Context) (f : Frame) (s : Server) where
  pub with_attrs-Handed :
      {D : Type 0} (i : Iterated D) (act : D → Frame → Result)
      → ((d : D) (lines : List LineData)
          → Handed a (count_server a s) n (act d (record f { attrs = lines })))
      → Handed a (count_server a s) n (with_attrs ctx f s i act)
  unfolding with_attrs invalid send_error
  with_attrs-Handed (iterated d lines) act k = k d lines
  with_attrs-Handed Iterated.refused act k = omega arith
  with_attrs-Handed Iterated.overrun act k = tt

  pub asserting-Handed :
      (o : Option ℕ) (r : Result)
      → Handed a (count_server a s) n r
      → Handed a (count_server a s) n (asserting o r)
  unfolding asserting
  asserting-Handed none r h = tt
  asserting-Handed (some c) r h = h
