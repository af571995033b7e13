-- ===== src/Restart/Queues.antt =====
-- What a run of the server writes for the frames of a queue is read back by the next.
use newtmq_server.Base.{
  ℕ, ◌+◌, ◌-◌, ◌≡◌, ap, sym, ◌∙◌, List, [], ◌∷◌, ◌++◌, Bytes, length, arith, append_assoc,
  append-nil,
}
use newtmq_server.Base.Last.{update_last}
use newtmq_server.Common.{Env, gen_random, get_hash}
use newtmq_server.Frame.{Frame, LineData, frame_id_len}
use newtmq_server.Persistence.{Disk, Persistent, has_qid, reinstate, new_qinfo, persist_queue_info}
use newtmq_server.Persistence.Format.{Carries}
use newtmq_server.Parse.Wire.{restored}
use newtmq_server.Queue.{Box, qb_size, enqueue, put_entry}
use newtmq_server.Queue.Laws.{contents, contents-put_entry, length-put_entry}
use newtmq_server.Receive.Roundtrip.Wire.{Message}
use newtmq_server.Restart.{enqueue_all, reinstated}

-- the parts of a frame that its message determines
abbrev pub parts : Frame → Bytes × (List LineData × List LineData)
parts f = (f.name, (f.attrs, f.body))

-- Each frame carries the message at its place.
abbrev pub CarryAll : List Frame → List Message → Type 0
CarryAll [] [] = Unit
CarryAll (f ∷ fs) (m ∷ ms) = Carries f m × CarryAll fs ms
CarryAll _ _ = ⊥

-- the frames that are read for the messages
abbrev restored_all : Env → ℕ → ℕ → List Message → List Frame
restored_all env draws addr [] = []
restored_all env draws addr (m ∷ ms) =
    restored addr (gen_random env draws frame_id_len) m
    ∷ restored_all env (draws + (frame_id_len - 1)) (addr + 1) ms

pub contents-enqueue_all :
    (fs : List Frame) (name : Bytes) (box : Box Frame)
    → length box ≡ qb_size
    → contents (enqueue_all fs name box) (get_hash name) ≡ contents box (get_hash name) ++ fs
unfolding enqueue_all enqueue
contents-enqueue_all [] name box l = sym (append-nil _)
contents-enqueue_all (f ∷ fs) name box l =
    contents-enqueue_all fs name (put_entry f (get_hash name) name box)
      (length-put_entry f (get_hash name) name box ∙ l)
    ∙ ap (λ es. es ++ fs)
        (contents-put_entry f (get_hash name) (get_hash name) name box l ∙ ground arith)
    ∙ append_assoc (contents box (get_hash name)) (f ∷ []) fs

-- what is reported of the queue when its books are new to the server
abbrev reopened : Disk → Bytes → ℕ → Bytes → Persistent → Persistent
reopened disk name sent file pm =
    update_last (has_qid (get_hash name)) (reinstated sent (length file))
      (pm ++ persist_queue_info (reinstate (new_qinfo name) (disk.index_file name)) ∷ [])
