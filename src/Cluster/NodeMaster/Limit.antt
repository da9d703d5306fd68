-- ===== src/Cluster/NodeMaster/Limit.antt =====
-- What the requests of packages/teraslice/lib/cluster/node_master.js do to the number of workers.
use teraslice.Cluster.NodeMaster.{
  Child, Create, Master, can_allocate_workers, allocate_workers, workers_create, controller_create,
  new_workers, allocated, next_turn, run_exclusive, child_exit,
}
use teraslice.Base.{
  ℕ, ◌+◌, ◌≤◌, String, ◌≡◌, refl, sym, ap, subst, ◌∙◌, ◌⊎◌, inl, inr, Bool, true, false, not, ◌&&◌,
  List, [], ◌∷◌, ◌++◌, arith, ltb, if◌then◌else◌, Bool-cases, ◌===◌, length, keep_if, All,
  length-keep_if-le, All-append,
}

abbrev pub is_worker : Child → Bool
is_worker w = w.assignment === "worker"

abbrev pub workers_of : List Child → ℕ
workers_of l = length (keep_if is_worker l)

abbrev pub wanted : List Create → ℕ
wanted [] = 0
wanted (r ∷ l) = r.workers + wanted l

-- A request for a controller asks for one child.
abbrev pub Sized : Create → Type 0
Sized r = (r.is_controller ≡ false) ⊎ (r.workers ≡ 1)

-- An answer gives no more than was asked for.
abbrev pub Within : Create × ℕ → Type 0
Within a = a.1 ≤ a.0.workers

-- `start` gives the children that the foundation starts: as many as it is asked for, and a request for a
-- controller starts no worker.
module _ (limit : ℕ) (start : ℕ → Create → List Child) where
  pub data Step : Master → Master → Type 0 where
    asks : {m : Master} (r : Create) → r.is_controller ≡ false → Step m (workers_create limit r m)
    asks_controller : {m : Master} (ex_id : String) → Step m (controller_create ex_id m)
    turns : {m : Master} (loaded : Bool) → Step m (run_exclusive limit start loaded m)
    exits : {m : Master} (id : String) → Step m (child_exit id m)

  pub data Reach (m : Master) : Master → Type 0 where
    here : Reach m m
    next : {n o : Master} → Reach m n → Step n o → Reach m o

  abbrev pub Inv : Master → Type 0
  Inv m =
      (workers_of m.children ≤ limit)
      × (m.pending_allocations ≡ wanted m.waiting)
      × All Sized m.waiting
      × All Within m.answers

  keep_if-append : (l k : List Child) → workers_of (l ++ k) ≡ workers_of l + workers_of k
  keep_if-append [] k = omega arith
  keep_if-append (w ∷ l) k = ground (arith, keep_if-append l k)

  wanted-append : (l k : List Create) → wanted (l ++ k) ≡ wanted l + wanted k
  wanted-append [] k = omega arith
  wanted-append (r ∷ l) k = omega (arith, wanted-append l k)

  workers_of-keep : (p : Child → Bool) (l : List Child) → workers_of (keep_if p l) ≤ workers_of l
  workers_of-keep p [] = omega arith
  workers_of-keep p (w ∷ l) = ground (arith, workers_of-keep p l)

  allocate_workers-Inv : (r : Create) (m : Master) → Sized r → Inv m → Inv (allocate_workers r m)
  allocate_workers-Inv r m hr h = (
    h.0,
    omega (arith, wanted-append m.waiting (r ∷ []), h.1),
    All-append Sized m.waiting (r ∷ []) h.2 (hr, tt),
    h.3,
  )

  workers_create-Inv :
      (r : Create) (m : Master) → r.is_controller ≡ false → Inv m → Inv (workers_create limit r m)
  unfolding workers_create
  workers_create-Inv r m hr h = elim (Bool-cases (can_allocate_workers limit r.workers m)) [
    | inl k ↦ rw k (allocate_workers-Inv r m (inl hr) h)
    | inr k ↦ rw k (h.0, h.1, h.2, (omega arith, h.3))
  ]

  new_workers_le :
      (requested : ℕ) (m : Master)
      → let n = new_workers limit requested m in
        (n ≤ requested) × ((n ≡ 0) ⊎ (length m.children + n ≤ limit))
  unfolding new_workers
  new_workers_le requested m = ground arith

  module _ (started : (n : ℕ) (r : Create) → length (start n r) ≡ n)
      (no_worker : (n : ℕ) (r : Create) → r.is_controller ≡ true → workers_of (start n r) ≡ 0) where
    start_lem :
        (c : Bool) (n : ℕ) (r : Create)
        → let l : List Child = if c then start n r else [] in
          (length l ≤ n)
          × (workers_of l ≤ length l)
          × (workers_of l ≤ (if r.is_controller then 0 else n))
    start_lem false n r = ground arith
    start_lem true n r =
        let k = started n r in
        let le = length-keep_if-le is_worker (start n r) in
        elim (Bool-cases r.is_controller) [
          | inl h ↦ let z = no_worker n r h in ground arith
          | inr h ↦ ground arith
        ]

    -- How many children a request starts at most.
    size_lem :
        (r : Create) (m : Master)
        → Sized r
        → let n = if r.is_controller then 1 else new_workers limit r.workers m in
          (n ≤ r.workers)
          × (((if r.is_controller then 0 else n) ≡ 0) ⊎ (length m.children + n ≤ limit))
    size_lem r m h = elim (Bool-cases r.is_controller) [
      | inl k ↦ ground (arith, k)
      | inr k ↦ ground (arith, k, new_workers_le r.workers m)
    ]

    allocated-Inv :
        (loaded : Bool) (r : Create) (rest : List Create) (m : Master)
        → m.waiting ≡ r ∷ rest
        → Inv m
        → Inv (allocated limit start loaded r rest m)
    unfolding allocated
    allocated-Inv loaded r rest m hw h =
        let sized : All Sized (r ∷ rest) = subst (All Sized) hw h.2 in
        let pending = ap wanted hw in
        let n = if r.is_controller then 1 else new_workers limit r.workers m in
        let c = loaded && ltb 0 n in
        let l : List Child = if c then start n r else [] in
        let k = start_lem c n r in
        let split = keep_if-append m.children l in
        let all = length-keep_if-le is_worker m.children in
        let le = size_lem r m sized.0 in
        (
          omega (arith, h.0, le, k, split, all),
          omega (arith, h.1),
          sized.1,
          (omega (arith, k, le), h.3),
        )

    next_turn-Inv :
        (loaded : Bool) (w : List Create) (m : Master)
        → m.waiting ≡ w
        → Inv m
        → Inv (next_turn limit start loaded w m)
    unfolding next_turn
    next_turn-Inv loaded [] m hw h = h
    next_turn-Inv loaded (r ∷ rest) m hw h = allocated-Inv loaded r rest m hw h

    run_exclusive-Inv :
        (loaded : Bool) (m : Master) → Inv m → Inv (run_exclusive limit start loaded m)
    unfolding run_exclusive next_turn
    run_exclusive-Inv loaded m h = next_turn-Inv loaded m.waiting m refl h

    Step-Inv : {m n : Master} → Step m n → Inv m → Inv n
    unfolding controller_create child_exit
    Step-Inv {m} (asks r k) h = workers_create-Inv r m k h
    Step-Inv {m} (asks_controller ex_id) h = allocate_workers-Inv _ m (inr refl) h
    Step-Inv {m} (turns loaded) h = run_exclusive-Inv loaded m h
    Step-Inv {m} (exits id) h =
        let le = workers_of-keep (λ w. not (w.worker_id === id)) m.children in
        (omega (arith, le, h.0), h.1, h.2, h.3)

    Reach-Inv : (m n : Master) → Reach m n → Inv m → Inv n
    Reach-Inv m n here h = h
    Reach-Inv m n (next {n = o} r s) h = Step-Inv s (Reach-Inv m o r h)

    -- Whatever requests come, in whatever order they get the mutex and whichever children exit, a node that
    -- starts with no request never runs more workers than its limit; what it has announced as pending is
    -- what the waiting requests ask for; and no answer gives more than was asked for. The foundation
    -- starts as many children as it is asked for, and no worker for a request for a controller.
    pub Reach-limit :
        (m n : Master)
        → Reach m n
        → workers_of m.children ≤ limit
        → m.pending_allocations ≡ 0
        → m.waiting ≡ []
        → m.answers ≡ []
        → (workers_of n.children ≤ limit)
          × (n.pending_allocations ≡ wanted n.waiting)
          × All Within n.answers
    Reach-limit m n r h hp hw ha =
        let k = Reach-Inv m n r (
          h,
          hp ∙ sym (ap wanted hw),
          subst (All Sized) (sym hw) tt,
          subst (All Within) (sym ha) tt,
        ) in
        (k.0, k.1, k.3)
