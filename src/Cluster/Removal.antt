-- ===== src/Cluster/Removal.antt =====
-- The loop of removeWorkers in packages/teraslice/lib/cluster/services/cluster/backends/native/index.js
-- ends, and no node is told to remove more workers than it has.
use teraslice.Cluster.State.{Node, Placed, add_to, find_workers_by_execution_id}
use teraslice.Cluster.Remove.{
  tally, Removing, remove_pass, remove_loop, told, telling, remove_workers,
}
use teraslice.Base.{
  ℕ, zero, suc, ◌+◌, ◌-◌, ◌≤◌, ◌<◌, String, ◌≡◌, refl, ap, inl, inr, Bool, true, false, ◌&&◌,
  Option, some, List, [], ◌∷◌, arith, ltb, leb, ◌==◌, if◌then◌else◌, Bool-cases, ◌===◌, ===_iff,
  length,
}

-- The sum of the counts whose key `w` takes.
abbrev pub sum_if : (String → Bool) → List (String × ℕ) → ℕ
sum_if w [] = 0
sum_if w ((k, n) ∷ l) = (if w k then n else 0) + sum_if w l

-- The number of workers on the nodes that `w` takes.
abbrev pub placed_on : (String → Bool) → List Placed → ℕ
placed_on w [] = 0
placed_on w (p ∷ l) = (if w p.node_id then 1 else 0) + placed_on w l

sum_if-add_to :
    (w : String → Bool) (id : String) (n : ℕ) (d : List (String × ℕ))
    → sum_if w (add_to id n d) ≡ sum_if w d + (if w id then n else 0)
sum_if-add_to w id n [] = omega arith
sum_if-add_to w id n ((k, m) ∷ d) = elim (Bool-cases (k === id)) [
  | inl h ↦ rw h (ground (arith, ap w ((===_iff k id).0 h)))
  | inr h ↦ rw h (omega (arith, sum_if-add_to w id n d))
]

sum_if-tally :
    (w : String → Bool) (l : List Placed) (m : List (String × ℕ))
    → sum_if w (tally l m) ≡ sum_if w m + placed_on w l
unfolding tally
sum_if-tally w [] m = omega arith
sum_if-tally w (p ∷ l) m =
    omega (arith, sum_if-tally w l (add_to p.node_id 1 m), sum_if-add_to w p.node_id 1 m)

remove_pass_keeps :
    (w : String → Bool) (c : List (String × ℕ)) (left : ℕ) (d : List (String × ℕ))
    → let r = remove_pass c left d in
      sum_if w r.counts + sum_if w r.dispatch ≡ sum_if w c + sum_if w d
unfolding remove_pass
remove_pass_keeps w [] left d = refl
remove_pass_keeps w ((k, n) ∷ c) left d = elim (Bool-cases (leb 1 n && ltb 0 left)) [
  | inl h ↦
      rw h (ground (arith, remove_pass_keeps w c (left - 1) (add_to k 1 d), sum_if-add_to w k 1 d))
  | inr h ↦ rw h (ground (arith, remove_pass_keeps w c left d))
]

remove_pass_left :
    (c : List (String × ℕ)) (left : ℕ) (d : List (String × ℕ))
    → let r = remove_pass c left d in
      (sum_if (λ _. true) r.dispatch + r.left ≡ sum_if (λ _. true) d + left) × (r.left ≤ left)
unfolding remove_pass
remove_pass_left [] left d = (refl, omega arith)
remove_pass_left ((k, n) ∷ c) left d = elim (Bool-cases (leb 1 n && ltb 0 left)) [
  | inl h ↦ rw h (
      ground (arith, remove_pass_left c (left - 1) (add_to k 1 d), sum_if-add_to (λ _. true) k 1 d))
  | inr h ↦ rw h (remove_pass_left c left d)
]

-- A pass removes a worker where there is one.
remove_pass_progress :
    (c : List (String × ℕ)) (left : ℕ) (d : List (String × ℕ))
    → 0 < left
    → 0 < sum_if (λ _. true) c
    → (remove_pass c left d).left < left
unfolding remove_pass
remove_pass_progress [] left d h k = ground arith
remove_pass_progress ((k, n) ∷ c) left d h z = elim (Bool-cases (leb 1 n && ltb 0 left)) [
  | inl g ↦ rw g (ground (arith, remove_pass_left c (left - 1) (add_to k 1 d)))
  | inr g ↦ rw g (remove_pass_progress c left d h (ground arith))
]

-- The loop has ended with the workers removed, and no worker is counted twice.
Emptied : (counts : List (String × ℕ)) (left : ℕ) (d : List (String × ℕ)) → Option Removing → Type 0
Emptied counts left d r =
    (m : Removing) × (r ≡ some m)
    × (sum_if (λ _. true) m.dispatch ≡ sum_if (λ _. true) d + left)
    × ((w : String → Bool) → sum_if w m.dispatch ≤ sum_if w counts + sum_if w d)

Emptied-now :
    (counts : List (String × ℕ)) (left : ℕ) (d : List (String × ℕ))
    → (left == 0) ≡ true
    → Emptied counts left d (some (record { counts = counts; left = left; dispatch = d }))
unfolding Emptied
Emptied-now counts left d h = (_, refl, ground arith, λ w. omega arith)

Emptied-pass :
    (counts : List (String × ℕ)) (left : ℕ) (d : List (String × ℕ)) (r : Option Removing)
    → let p = remove_pass counts left d in
      Emptied p.counts p.left p.dispatch r → Emptied counts left d r
unfolding Emptied
Emptied-pass counts left d r (m, e, s, b) = (
  m,
  e,
  omega (arith, s, remove_pass_left counts left d),
  λ w. omega (arith, b w, remove_pass_keeps w counts left d),
)

-- As many passes as workers are to be removed are enough.
remove_loop-Emptied :
    (fuel : ℕ) (counts : List (String × ℕ)) (left : ℕ) (d : List (String × ℕ))
    → left ≤ fuel
    → left ≤ sum_if (λ _. true) counts
    → Emptied counts left d
        (remove_loop fuel (record { counts = counts; left = left; dispatch = d }))
unfolding remove_loop
remove_loop-Emptied zero counts left d h k =
    let z : (left == 0) ≡ true = ground arith in rw z (Emptied-now counts left d z)
remove_loop-Emptied (suc fuel) counts left d h k = elim (Bool-cases (left == 0)) [
  | inl z ↦ rw z (Emptied-now counts left d z)
  | inr z ↦ rw z (
      Emptied-pass counts left d _ (
        remove_loop-Emptied fuel _ _ _
          (ground (arith, remove_pass_progress counts left d (ground arith) (ground arith)))
          (ground
            (arith, remove_pass_left counts left d, remove_pass_keeps (λ _. true) counts left d))))
]

remove_workers_of :
    (fuel : ℕ) (ex_id : String) (n : ℕ) (nodes : List Node) (m : Removing)
    → leb (length (find_workers_by_execution_id ex_id nodes)) n ≡ false
    → remove_loop fuel (record {
      counts = tally (find_workers_by_execution_id ex_id nodes) [];
      left = n;
      dispatch = [];
    })
      ≡ some m
    → remove_workers fuel ex_id n nodes ≡ some (told m.dispatch)
unfolding remove_workers
remove_workers_of fuel ex_id n nodes m h e = rw h (ap telling e)

placed_on-all : (l : List Placed) → placed_on (λ _. true) l ≡ length l
placed_on-all [] = refl
placed_on-all (p ∷ l) = omega (arith, placed_on-all l)

-- Where fewer workers are to be removed than the execution has on connected nodes, as many passes as
-- workers are to be removed end the loop: the nodes are told to remove that many together, and any
-- group of nodes is told to remove no more than the execution has on it.
pub remove_workers-told :
    (ex_id : String) (n : ℕ) (nodes : List Node)
    → n < length (find_workers_by_execution_id ex_id nodes)
    → (d : List (String × ℕ)) × (remove_workers n ex_id n nodes ≡ some (told d))
      × (sum_if (λ _. true) d ≡ n)
      × ((w : String → Bool) → sum_if w d ≤ placed_on w (find_workers_by_execution_id ex_id nodes))
unfolding Emptied
remove_workers-told ex_id n nodes h =
    let l = find_workers_by_execution_id ex_id nodes in
    let (m, e, s, b) =
      remove_loop-Emptied n (tally l []) n [] (omega arith)
        (omega (arith, sum_if-tally (λ _. true) l [], placed_on-all l, h)) in
    (
      m.dispatch,
      remove_workers_of n ex_id n nodes m (ground arith) e,
      omega (arith, s),
      λ w. omega (arith, b w, sum_if-tally w l []),
    )
