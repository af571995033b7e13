-- ===== src/Sending/Registration.antt =====
-- The subscribers of a topic share one group and one thread.
use newtmq_server.Base.{
  ℕ, ◌≡◌, refl, ap, ◌∙◌, sym, true, false, List, [], ◌∷◌, ◌++◌, Option, none, some, Bytes,
  append-nil, arith,
}
use newtmq_server.Base.Text.{strlen, c_string, strncmp_eq}
use newtmq_server.Base.Text.Laws.{strncmp_eq-c_string}
use newtmq_server.Sending.{
  Client, DestGroup, WorkerManager, multicast_worker, is_group, search_dest_group, add_client,
  alloc_client_info, initialize_dest_group, group_for, multicast_thread, register_multicast_worker,
}

abbrev pub group_of : Bytes → List Client → DestGroup
group_of dest cs = record { destination = c_string dest; len = strlen dest; clients = cs }

is_group-own :
    (dest : Bytes) (cs : List Client) → is_group dest (strlen dest) (group_of dest cs) ≡ true
is_group-own dest cs =
    let same : strncmp_eq (c_string dest) dest (strlen dest) ≡ true =
      ap (λ b. strncmp_eq b dest (strlen dest)) (sym (append-nil (c_string dest)))
      ∙ strncmp_eq-c_string dest [] in
    ground (arith, same)

-- A search that fails passes over the first group.
pub search-none :
    (dest : Bytes) (g : DestGroup) (gs : List DestGroup)
    → search_dest_group dest (strlen dest) (g ∷ gs) ≡ none
    → (is_group dest (strlen dest) g ≡ false) × (search_dest_group dest (strlen dest) gs ≡ none)
unfolding search_dest_group
search-none dest g gs h = ground arith

module _ (dest : Bytes) where
  search-end :
      (gs : List DestGroup) (cs : List Client)
      → search_dest_group dest (strlen dest) gs ≡ none
      → search_dest_group dest (strlen dest) (gs ++ group_of dest cs ∷ []) ≡ some (group_of dest cs)
  unfolding search_dest_group
  search-end [] cs h = rw (is_group-own dest cs) refl
  search-end (g ∷ gs) cs h = let k = search-none dest g gs h in rw (k.0) (search-end gs cs k.1)

  add_client-end :
      (gs : List DestGroup) (c : Client) (cs : List Client)
      → search_dest_group dest (strlen dest) gs ≡ none
      → add_client dest (strlen dest) c (gs ++ group_of dest cs ∷ [])
        ≡ gs ++ group_of dest (cs ++ c ∷ []) ∷ []
  unfolding add_client
  add_client-end [] c cs h = rw (is_group-own dest cs) refl
  add_client-end (g ∷ gs) c cs h =
      let k = search-none dest g gs h in rw (k.0) (ap (◌∷◌ g) (add_client-end gs c cs k.1))

  -- The first subscriber of a topic makes its group and its thread.
  pub register_multicast_worker-first :
      (sock : ℕ) (id : Option Bytes) (w : WorkerManager)
      → search_dest_group dest (strlen dest) w.groups ≡ none
      → register_multicast_worker sock dest id w ≡ record {
        groups = w.groups ++ group_of dest (alloc_client_info sock ∷ []) ∷ [];
        threads = w.threads ++ multicast_worker (c_string dest) ∷ [];
      }
  unfolding register_multicast_worker group_for initialize_dest_group multicast_thread
  register_multicast_worker-first sock id w h = rw h (λ i. record {
    groups = add_client-end w.groups (alloc_client_info sock) [] h i;
    threads = w.threads ++ multicast_worker (c_string dest) ∷ [];
  })

  -- the workers with a group for the topic at the end
  abbrev pub with_group : List DestGroup → List Client → WorkerManager → WorkerManager
  with_group gs cs w = record w { groups = gs ++ group_of dest cs ∷ [] }

  -- Each further one joins the group.
  pub register_multicast_worker-again :
      (sock : ℕ) (id : Option Bytes) (gs : List DestGroup) (cs : List Client) (w : WorkerManager)
      → search_dest_group dest (strlen dest) gs ≡ none
      → register_multicast_worker sock dest id (with_group gs cs w)
        ≡ with_group gs (cs ++ alloc_client_info sock ∷ []) w
  unfolding register_multicast_worker group_for multicast_thread
  register_multicast_worker-again sock id gs cs w h = rw (search-end gs cs h) (λ i. record {
    groups = add_client-end gs (alloc_client_info sock) cs h i;
    threads = append-nil w.threads i;
  })
