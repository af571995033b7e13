-- ===== src/System/Workers/Results.antt =====
-- What a handler does to the sending workers: it registers one at most.
use newtmq_server.Base.{ℕ, ◌≡◌, refl, subst, sym, List, Option, none, some, Bytes, inl}
use newtmq_server.Frame.{Frame, LineData}
use newtmq_server.Management.{Iterated, iterated}
use newtmq_server.Sending.{WorkerManager}
use newtmq_server.Sending.Counts.{Enrols}
use newtmq_server.Protocol.{
  Server, Context, Result, handled, aborted, corrupted, running, with_attrs, invalid, send_error,
  asserting,
}

-- of the workers that a handler leaves, if it returns
abbrev pub Enrolled : Bytes → WorkerManager → Result → Type 0
Enrolled a w (handled o s) = Enrols a w s.workers
Enrolled a w aborted = Unit
Enrolled a w corrupted = Unit
Enrolled a w running = Unit

module _ (a : Bytes) (ctx : Context) (f : Frame) (s : Server) where
  pub with_attrs-Enrolled :
      {D : Type 0} (i : Iterated D) (act : D → Frame → Result)
      → ((d : D) (lines : List LineData)
          → Enrolled a s.workers (act d (record f { attrs = lines })))
      → Enrolled a s.workers (with_attrs ctx f s i act)
  unfolding with_attrs invalid send_error
  with_attrs-Enrolled (iterated d lines) act k = k d lines
  with_attrs-Enrolled Iterated.refused act k = inl (refl, refl)
  with_attrs-Enrolled Iterated.overrun act k = tt

  pub asserting-Enrolled :
      (o : Option ℕ) (r : Result) → Enrolled a s.workers r → Enrolled a s.workers (asserting o r)
  unfolding asserting
  asserting-Enrolled none r h = tt
  asserting-Enrolled (some c) r h = h

  -- where the workers stay as they are
  pub unchanged :
      (o : Option Frame) (t : Server) → t.workers ≡ s.workers → Enrolled a s.workers (handled o t)
  unchanged o t e = subst (Enrols a s.workers) (sym e) (inl (refl, refl))
