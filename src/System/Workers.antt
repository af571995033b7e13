-- ===== src/System/Workers.antt =====
-- The groups and the threads of the topics, whatever steps the server takes.
pub mod Results
pub mod Publish
pub mod Handling
mod Tests
use newtmq_server.Base.{
  ℕ, ◌+◌, ◌≤◌, ◌≡◌, ◌==◌, ◌∙◌, sym, refl, ap, subst, true, List, [], ◌∷◌, ◌++◌, Option, none, some,
  Bytes, arith, inl, inr, ◌⊎◌, ==_refl,
}
use newtmq_server.Base.Text.{strlen, strncmp_eq}
use newtmq_server.Base.Text.Laws.{strncmp_eq_self}
use newtmq_server.Frame.{Frame}
use newtmq_server.Sending.{
  Client, DestGroup, Worker, multicast_worker, WorkerManager, is_group, multicast_turn,
}
use newtmq_server.Sending.Counts.{
  count_groups, count_threads, count_threads-append, count_groups-append, is_thread, one_if, Enrols,
}
use newtmq_server.Receive.{take_frame}
use newtmq_server.Protocol.{Context, Result, handled, aborted, corrupted, running}
use newtmq_server.Protocol.Dispatch.{handle_frame}
use newtmq_server.System.{
  System, Step, accepted, took, closed, managed, wrote, sent_one, replied, sent_all, left_one,
  left_reply, left_all, without, Reachable, started, step, management_turn, manage, managed_by,
}
use newtmq_server.System.Handling.Transactions.{IsUncalled}
use newtmq_server.System.Soundness.{Reachable-IsSound}
use newtmq_server.System.Workers.Results.{Enrolled}
use newtmq_server.System.Workers.Handling.{handle_frame-Enrolled}

-- A topic keeps its groups and gets no thread, or it had no group and gets its first and a thread at
-- most.
abbrev pub Changes : Bytes → System → System → Type 0
Changes d s t =
    (count_groups d t.server.workers.groups ≡ count_groups d s.server.workers.groups)
      × (count_threads d t.server.workers.threads ≤ count_threads d s.server.workers.threads)
    ⊎ (count_groups d s.server.workers.groups ≡ 0)
      × (count_groups d t.server.workers.groups ≡ 1)
      × (count_threads d t.server.workers.threads ≤ count_threads d s.server.workers.threads + 1)

abbrev ChangesIfAny : Bytes → System → Option System → Type 0
ChangesIfAny d s none = Unit
ChangesIfAny d s (some t) = Changes d s t

-- A run of the threads from one state to another.
pub data Steps (ctx : Context) : System → System → Type 0 where
  here : {s : System} → Steps ctx s s
  onward : {s t u : System} → Steps ctx s t → Step ctx t u → Steps ctx s u

module _ (d : Bytes) where
  managed_by-Changes :
      (s : System) (fs : List Frame) (r : Result)
      → Enrolled d s.server.workers r
      → ChangesIfAny d s (managed_by s fs r)
  unfolding managed_by
  managed_by-Changes s fs (handled o sv) (inl (g, t)) = inl (g, omega arith)
  managed_by-Changes s fs (handled o sv) (inr h) = inr h
  managed_by-Changes s fs aborted h = tt
  managed_by-Changes s fs corrupted h = tt
  managed_by-Changes s fs running h = tt

  manage-Changes :
      (fuel : ℕ) (ctx : Context) (s : System) (bucket : List Frame)
      → IsUncalled s.server.transactions
      → ChangesIfAny d s (manage fuel ctx s (take_frame bucket).0 (take_frame bucket).1)
  unfolding manage take_frame
  manage-Changes fuel ctx s [] u = inl (refl, omega arith)
  manage-Changes fuel ctx s (f ∷ fs) u =
      managed_by-Changes s fs (handle_frame fuel ctx f s.server)
        (handle_frame-Enrolled d fuel ctx f s.server u)

  -- a thread has ended
  fewer :
      (s : System) (before after : List Worker) (w : Worker)
      → s.server.workers.threads ≡ before ++ w ∷ after
      → Changes d s (without s (before ++ after))
  fewer s before after w e =
      let whole : count_threads d s.server.workers.threads ≡ count_threads d (before ++ w ∷ after) =
        ap (count_threads d) e in
      inl (
        refl,
        omega
            (arith, count_threads-append d before (w ∷ after), count_threads-append d before after),
      )

  Step-Changes :
      {ctx : Context} {s t : System}
      → Step ctx s t
      → IsUncalled s.server.transactions
      → Changes d s t
  unfolding management_turn
  Step-Changes (accepted s sock r e) u = inl (refl, omega arith)
  Step-Changes (took s before after l c cs r i e) u = inl (refl, omega arith)
  Step-Changes (closed s before after l i) u = inl (refl, omega arith)
  Step-Changes {ctx} (managed s t fuel e) u =
      subst (ChangesIfAny d s) e (manage-Changes fuel ctx s s.bucket u)
  Step-Changes (wrote s pm e) u = inl (refl, omega arith)
  Step-Changes (sent_one s env before after c dest x t e) u = inl (refl, omega arith)
  Step-Changes (replied s env before after c dest x t e) u = inl (refl, omega arith)
  Step-Changes (sent_all s env before after ahead behind g cs x t i e) u =
      let whole : count_groups d s.server.workers.groups ≡ count_groups d (ahead ++ g ∷ behind) =
        ap (count_groups d) i in
      inl (
        omega (
          arith,
          count_groups-append d ahead (g ∷ behind),
          count_groups-append d ahead (record g { clients = cs } ∷ behind),
        ),
        omega arith,
      )
  Step-Changes (left_one s env before after c dest t e) u = fewer s before after _ t
  Step-Changes (left_reply s env before after c dest t e) u = fewer s before after _ t
  Step-Changes (left_all s env before after ahead behind g t i e) u = fewer s before after _ t

  -- In every state that the threads can reach, a topic has one group at most, and one thread at most,
  -- which it has only with a group.
  pub Reachable-threads :
      {ctx : Context} {s : System}
      → Reachable ctx s
      → (count_threads d s.server.workers.threads ≤ count_groups d s.server.workers.groups)
        × (count_groups d s.server.workers.groups ≤ 1)
  Reachable-threads (started memory dirs st e) = (omega arith, omega arith)
  Reachable-threads (step r x) =
      let (t, g) = Reachable-threads r in
      elim (Step-Changes x (Reachable-IsSound r).orderly.2) [
        | inl (same, less) ↦ (omega arith, omega arith)
        | inr (z, one, more) ↦ (omega arith, omega arith)
      ]

  Steps-Reachable :
      {ctx : Context} {s t : System} → Reachable ctx s → Steps ctx s t → Reachable ctx t
  Steps-Reachable r here = r
  Steps-Reachable r (onward k x) = step (Steps-Reachable r k) x

  -- A topic with a group and no thread stays so.
  Steps-stranded :
      {ctx : Context} {s t : System}
      → Reachable ctx s
      → (count_threads d s.server.workers.threads ≡ 0)
        × (count_groups d s.server.workers.groups ≡ 1)
      → Steps ctx s t
      → (count_threads d t.server.workers.threads ≡ 0)
        × (count_groups d t.server.workers.groups ≡ 1)
  Steps-stranded r h here = h
  Steps-stranded r h (onward k x) =
      let (t, g) = Steps-stranded r h k in
      elim (Step-Changes x (Reachable-IsSound (Steps-Reachable r k)).orderly.2) [
        | inl (same, less) ↦ (omega arith, omega arith)
        | inr (z, one, more) ↦ absurd (omega arith)
      ]

one_self : (dest : Bytes) → one_if (is_thread dest (multicast_worker dest)) ≡ 1
one_self dest = rw (==_refl (strlen dest), strncmp_eq_self dest (strlen dest)) refl

-- In every state that the threads can reach in which the group of a topic has no clients left, its
-- thread can end. After that and any further steps, whatever clients subscribe in them, the topic
-- has its group and no thread.
pub left_all-stranded :
    {ctx : Context} {s t : System} (before after : List Worker) (ahead behind : List DestGroup)
    (g : DestGroup)
    → Reachable ctx s
    → s.server.workers.threads ≡ before ++ multicast_worker g.destination ∷ after
    → s.server.workers.groups ≡ ahead ++ g ∷ behind
    → g.clients ≡ []
    → Steps ctx (without s (before ++ after)) t
    → Step ctx s (without s (before ++ after))
      × (count_threads g.destination t.server.workers.threads ≡ 0)
      × (count_groups g.destination t.server.workers.groups ≡ 1)
unfolding multicast_turn
left_all-stranded {ctx} {s} before after ahead behind g r e i n k =
    let d = g.destination in
    let end = left_all s ctx.env before after ahead behind g e i (rw n refl) in
    let (most, one) = Reachable-threads d r in
    let whole : count_threads d s.server.workers.threads
        ≡ count_threads d (before ++ multicast_worker d ∷ after) =
      ap (count_threads d) e in
    let self = one_self d in
    let split = count_threads-append d before (multicast_worker d ∷ after) in
    let rest = count_threads-append d before after in
    let left = Steps-stranded d (step r end) (omega arith, omega arith) k in (end, left.0, left.1)
