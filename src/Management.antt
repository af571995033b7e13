-- ===== src/Management.antt =====
-- lib/stomp_management_worker.c but for the dispatch: the list of subscribers, and the walk over
-- the header lines of a frame that every handler makes.
pub mod Headers
use newtmq_server.Base.{
  ℕ, if◌then◌else◌, true, false, ltb, List, [], ◌∷◌, ◌++◌, Option, none, some, Bytes, length, drop,
  take, strlen, strncmp_eq,
}
use newtmq_server.Common.{Ret, success, error}
use newtmq_server.Frame.{LineData, ld_max}

-- `subscribe_t`: the identifier, of which at most LD_MAX bytes are copied, and the thread
pub record Subscriber : Type 0 where
  pub id : Bytes
  pub thread_id : ℕ

abbrev pub Subscribers : Type 0
Subscribers = List Subscriber

abbrev pub initialize_manager : Subscribers → Ret × Subscribers
initialize_manager subs = (success, [])

-- `none` is NULL.
unfoldable pub register_subscriber : Option Bytes → ℕ → Subscribers → Ret × Subscribers
register_subscriber none tid subs = (success, subs)
register_subscriber (some id) tid subs =
    let len = if ltb (strlen id) ld_max then strlen id else ld_max in
    (success, record { id = take len id; thread_id = tid } ∷ subs)

-- The first of the list goes, whatever its identifier.
unfoldable pub unregister_subscriber : Option Bytes → Subscribers → Ret × Subscribers
unregister_subscriber none subs = (error, subs)
unregister_subscriber (some id) [] = (error, [])
unregister_subscriber (some id) (s ∷ subs) = (success, subs)

unfoldable pub get_subscriber : Option Bytes → Subscribers → Option Subscriber
get_subscriber none subs = none
get_subscriber (some id) [] = none
get_subscriber (some id) (s ∷ subs) = some s

-- What a header handler does: it returns RET_SUCCESS, with its data and the line as it leaves
-- them, or RET_ERROR, or it writes past the end of the line.
pub data Handled (D : Type 0) : Type 0 where
  kept : D → LineData → Handled D
  refused overrun : Handled D

-- `stomp_header_handler_t`; the handler gets the bytes behind the name.
pub record HeaderHandler (D : Type 0) : Type 0 where
  pub name : Bytes
  pub handler : Bytes → D → LineData → Handled D

-- What becomes of the data and of the lines of a frame.
pub data Iterated (D : Type 0) : Type 0 where
  iterated : D → List LineData → Iterated D
  refused overrun : Iterated D

module _ {D : Type 0} where
  -- what follows a handler that was called
  ran : Handled D → (D → LineData → Handled D) → Handled D
  ran (kept d line) loop = loop d line
  ran Handled.refused loop = Handled.refused
  ran Handled.overrun loop = Handled.overrun

  -- the inner loop, on a line
  unfoldable pub run_handlers : List (HeaderHandler D) → D → LineData → Handled D
  unfolding ran
  run_handlers [] d line = kept d line
  run_handlers (h ∷ hs) d line =
      if strncmp_eq line.content h.name (strlen h.name)
      then ran (h.handler (drop (strlen h.name) line.content) d line) (run_handlers hs)
      else run_handlers hs d line

  with_line : LineData → Iterated D → Iterated D
  with_line line (iterated d lines) = iterated d (line ∷ lines)
  with_line line Iterated.refused = Iterated.refused
  with_line line Iterated.overrun = Iterated.overrun

  next_line : (D → Iterated D) → Handled D → Iterated D
  unfolding with_line
  next_line loop (kept d line) = with_line line (loop d)
  next_line loop Handled.refused = Iterated.refused
  next_line loop Handled.overrun = Iterated.overrun

  unfoldable pub iterate_header : List LineData → List (HeaderHandler D) → D → Iterated D
  unfolding next_line
  iterate_header [] handlers d = iterated d []
  iterate_header (line ∷ lines) handlers d =
      next_line (iterate_header lines handlers) (run_handlers handlers d line)
