-- ===== src/Sending/Counts.antt =====
-- How many groups and how many threads a topic has, and what a registration does to them.
use newtmq_server.Base.{
  ℕ, ◌+◌, ◌==◌, ◌≤◌, ◌≡◌, refl, ap, Bool, true, false, ◌&&◌, if◌then◌else◌, List, [], ◌∷◌, ◌++◌,
  Option, none, Bytes, arith, Bool-cases, inl, inr, ◌⊎◌, Option-cases,
}
use newtmq_server.Base.Text.{strlen, c_string, strncmp_eq}
use newtmq_server.Base.Text.Laws.{strlen-c_string, strncmp_eq-string}
use newtmq_server.Sending.{
  Client, DestGroup, Worker, WorkerManager, reply_worker, unicast_worker, multicast_worker,
  is_group, search_dest_group, add_client, alloc_client_info, initialize_dest_group, group_for,
  multicast_thread, register_multicast_worker, register_unicast_worker, register_reply_worker,
  reply_unless,
}
use newtmq_server.Sending.Registration.{group_of, search-none}

abbrev pub one_if : Bool → ℕ
one_if b = if b then 1 else 0

-- the groups that a search for the topic accepts
abbrev pub count_groups : Bytes → List DestGroup → ℕ
count_groups dest [] = 0
count_groups dest (g ∷ gs) = one_if (is_group dest (strlen dest) g) + count_groups dest gs

-- a thread that sends to the subscribers of the topic
abbrev pub is_thread : Bytes → Worker → Bool
is_thread dest (reply_worker c d) = false
is_thread dest (unicast_worker c d) = false
is_thread dest (multicast_worker d) =
    is_group dest (strlen dest) (record { destination = d; len = strlen d; clients = [] })

abbrev pub count_threads : Bytes → List Worker → ℕ
count_threads dest [] = 0
count_threads dest (t ∷ ts) = one_if (is_thread dest t) + count_threads dest ts

module _ (d : Bytes) where
  pub count_groups-append :
      (gs hs : List DestGroup) → count_groups d (gs ++ hs) ≡ count_groups d gs + count_groups d hs
  count_groups-append [] hs = omega arith
  count_groups-append (g ∷ gs) hs = omega (arith, count_groups-append gs hs)

  pub count_threads-append :
      (ts us : List Worker) → count_threads d (ts ++ us) ≡ count_threads d ts + count_threads d us
  count_threads-append [] us = omega arith
  count_threads-append (t ∷ ts) us = omega (arith, count_threads-append ts us)

  search-count_groups :
      (gs : List DestGroup) → search_dest_group d (strlen d) gs ≡ none → count_groups d gs ≡ 0
  search-count_groups [] h = refl
  search-count_groups (g ∷ gs) h =
      let k = search-none d g gs h in rw (k.0) (omega (arith, search-count_groups gs k.1))

  count_groups-add_client :
      (dest : Bytes) (len : ℕ) (c : Client) (gs : List DestGroup)
      → count_groups d (add_client dest len c gs) ≡ count_groups d gs
  unfolding add_client
  count_groups-add_client dest len c [] = refl
  count_groups-add_client dest len c (g ∷ gs) = elim (Bool-cases (is_group dest len g)) [
    | inl e ↦ rw e refl
    | inr e ↦ rw (e, count_groups-add_client dest len c gs) refl
  ]

-- Whether a topic is the one that a new group is for, its searches agree.
is_group-group_of :
    (d dest : Bytes) (cs : List Client)
    → is_group d (strlen d) (group_of dest cs) ≡ true
    → (gs : List DestGroup) → count_groups d gs ≡ count_groups dest gs
is_group-group_of d dest cs h [] = refl
is_group-group_of d dest cs h (g ∷ gs) =
    let same : strlen d ≡ strlen dest = ground arith in
    let equal : strncmp_eq (c_string dest) d (strlen d) ≡ true = ground arith in
    let one : is_group d (strlen d) g ≡ is_group dest (strlen dest) g =
      (λ i. same i == g.len && strncmp_eq-string g.destination d dest same equal i) in
    rw (one, is_group-group_of d dest cs h gs) refl

-- Either no topic gets or loses anything, or the topic had no group and gets its first.
abbrev pub Enrols : Bytes → WorkerManager → WorkerManager → Type 0
Enrols d w w' =
    (count_groups d w'.groups ≡ count_groups d w.groups)
      × (count_threads d w'.threads ≡ count_threads d w.threads)
    ⊎ (count_groups d w.groups ≡ 0)
      × (count_groups d w'.groups ≡ 1)
      × (count_threads d w'.threads ≤ count_threads d w.threads + 1)

module _ (d dest : Bytes) where
  -- the groups, with the first of a topic
  count_groups-first :
      (cs : List Client) (gs : List DestGroup)
      → search_dest_group dest (strlen dest) gs ≡ none
      → (is_group d (strlen d) (group_of dest cs) ≡ false)
        ⊎ (is_group d (strlen d) (group_of dest cs) ≡ true) × (count_groups d gs ≡ 0)
  count_groups-first cs gs h = elim (Bool-cases (is_group d (strlen d) (group_of dest cs))) [
    | inl e ↦ inr (e, rw (is_group-group_of d dest cs e gs) (search-count_groups dest gs h))
    | inr e ↦ inl e
  ]

  is_thread-c_string :
      is_thread d (multicast_worker (c_string dest)) ≡ is_group d (strlen d) (group_of dest [])
  is_thread-c_string =
      ap (λ n. strlen d == n && strncmp_eq (c_string dest) d (strlen d)) (strlen-c_string dest)

  -- A client joins a group that is there.
  joined :
      (c : Client) (w : WorkerManager) (ts : List Worker)
      → count_threads d ts ≡ 0
      → Enrols d w
          (record { groups = add_client dest (strlen dest) c w.groups; threads = w.threads ++ ts })
  joined c w ts k = inl (
    count_groups-add_client d dest (strlen dest) c w.groups,
    omega (arith, count_threads-append d w.threads ts),
  )

  -- It gets a group of its own.
  founded :
      (c : Client) (w : WorkerManager) (ts : List Worker)
      → search_dest_group dest (strlen dest) w.groups ≡ none
      → count_threads d ts ≤ one_if (is_group d (strlen d) (group_of dest []))
      → Enrols d w (record {
        groups = add_client dest (strlen dest) c (w.groups ++ group_of dest [] ∷ []);
        threads = w.threads ++ ts;
      })
  founded c w ts n k =
      let gs = w.groups ++ group_of dest [] ∷ [] in
      let same = count_groups-add_client d dest (strlen dest) c gs in
      let split = count_groups-append d w.groups (group_of dest [] ∷ []) in
      let run = count_threads-append d w.threads ts in
      elim (count_groups-first [] w.groups n) [
        | inl e ↦
            let one : one_if (is_group d (strlen d) (group_of dest [])) ≡ 0 = rw e refl in
            inl (omega arith, omega arith)
        | inr (e, z) ↦
            let one : one_if (is_group d (strlen d) (group_of dest [])) ≡ 1 = rw e refl in
            inr (z, omega arith, omega arith)
      ]

  pub register_multicast_worker-Enrols :
      (sock : ℕ) (id : Option Bytes) (w : WorkerManager)
      → Enrols d w (register_multicast_worker sock dest id w)
  unfolding register_multicast_worker group_for initialize_dest_group multicast_thread
  register_multicast_worker-Enrols sock id w =
      elim (Option-cases (search_dest_group dest (strlen dest) w.groups)) [
        | inl n ↦ rw n (
            founded (alloc_client_info sock) w (multicast_worker (c_string dest) ∷ []) n
              (rw is_thread-c_string (omega arith)))
        | inr (g, e) ↦ rw e (joined (alloc_client_info sock) w [] refl)
      ]

  pub register_unicast_worker-Enrols :
      (sock : ℕ) (id : Option Bytes) (w : WorkerManager)
      → Enrols d w (register_unicast_worker sock dest id w)
  unfolding register_unicast_worker group_for initialize_dest_group
  register_unicast_worker-Enrols sock id w =
      let c = alloc_client_info sock in
      let ts = unicast_worker c (c_string dest) ∷ [] in
      elim (Option-cases (search_dest_group dest (strlen dest) w.groups)) [
        | inl n ↦ rw n (founded c w ts n (omega arith))
        | inr (g, e) ↦ rw e (joined c w ts refl)
      ]

  pub register_reply_worker-Enrols :
      (sock : ℕ) (w : WorkerManager) → Enrols d w (register_reply_worker sock dest w)
  unfolding register_reply_worker reply_unless initialize_dest_group
  register_reply_worker-Enrols sock w =
      let c = alloc_client_info sock in
      elim (Option-cases (search_dest_group dest (strlen dest) w.groups)) [
        | inl n ↦ rw n (founded c w (reply_worker c (c_string dest) ∷ []) n (omega arith))
        | inr (g, e) ↦ rw e (inl (refl, refl))
      ]
