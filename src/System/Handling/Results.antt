-- ===== src/System/Handling/Results.antt =====
-- What it is for the server to be in order, and for a handler to keep it so.
use newtmq_server.Base.{ℕ, ◌≡◌, List, Option, none, some, All, length}
use newtmq_server.Frame.{Frame, LineData}
use newtmq_server.Management.{Iterated, iterated}
use newtmq_server.Persistence.Accounting.{IsAccounted}
use newtmq_server.Queue.{qb_size}
use newtmq_server.Protocol.{
  Server, Context, Result, handled, aborted, corrupted, running, with_attrs, invalid, send_error,
  asserting,
}
use newtmq_server.System.Handling.Transactions.{IsUncalled}

abbrev pub IsOrderly : Server → Type 0
IsOrderly s = (length s.queues ≡ qb_size) × All IsAccounted s.persistent × IsUncalled s.transactions

abbrev pub Keeps : Result → Type 0
Keeps (handled o s) = IsOrderly s
Keeps aborted = Unit
Keeps corrupted = Unit
Keeps running = Unit

pub with_attrs-Keeps :
    {D : Type 0} (ctx : Context) (f : Frame) (s : Server) (i : Iterated D)
    (act : D → Frame → Result)
    → IsOrderly s
    → ((d : D) (lines : List LineData) → Keeps (act d (record f { attrs = lines })))
    → Keeps (with_attrs ctx f s i act)
unfolding with_attrs invalid send_error
with_attrs-Keeps ctx f s (iterated d lines) act h k = k d lines
with_attrs-Keeps ctx f s Iterated.refused act h k = h
with_attrs-Keeps ctx f s Iterated.overrun act h k = tt

pub asserting-Keeps : (o : Option ℕ) (r : Result) → Keeps r → Keeps (asserting o r)
unfolding asserting
asserting-Keeps none r h = tt
asserting-Keeps (some c) r h = h
