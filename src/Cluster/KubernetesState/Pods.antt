-- ===== src/Cluster/KubernetesState/Pods.antt =====
-- Which pods packages/teraslice/lib/cluster/services/cluster/backends/kubernetes/k8sState.js shows on which node.
use mathlib.Core.List.{append_assoc, append-nil}
use teraslice.Cluster.KubernetesState.{
  Pod, Worker, KubeNode, worker_of, is_member, is_running, has_key, push_active, ensure_node,
  add_pod, add_pods, runs_on, without_old, emptied, gen,
}
use teraslice.Base.{
  String, ◌≡◌, refl, sym, ap, subst, ◌∙◌, inl, inr, Bool, true, false, ◌&&◌, ◌||◌, Option, none,
  some, List, [], ◌∷◌, ◌++◌, arith, if◌then◌else◌, Bool-cases, ◌===◌, ===_iff, any_of,
}

-- The workers that a node shows, where the state has it.
abbrev pub active_at : String → List (String × KubeNode) → Option (List Worker)
active_at ip [] = none
active_at ip ((k, n) ∷ l) = if k === ip then some n.active else active_at ip l

-- The running pods of the cluster on a node, in their order.
abbrev pub shown : String → String → List Pod → List Worker
shown label ip [] = []
shown label ip (p ∷ l) =
    if is_member label p && runs_on ip p && is_running p
    then worker_of p ∷ shown label ip l
    else shown label ip l

abbrev pub has_member : String → String → List Pod → Bool
has_member label ip pods = any_of (λ p. is_member label p && runs_on ip p) pods

-- What a node that shows `o` shows with the workers `l`; `b` is whether it is added.
abbrev joined : Option (List Worker) → Bool → List Worker → Option (List Worker)
joined none false l = none
joined none true l = some l
joined (some a) b l = some (a ++ l)

has_key-active_at :
    (ip : String) (s : List (String × KubeNode)) → (has_key ip s ≡ false) → active_at ip s ≡ none
has_key-active_at ip [] h = refl
has_key-active_at ip ((k, n) ∷ s) h = ground (arith, has_key-active_at ip s)

active_at-snoc :
    (ip j : String) (n : KubeNode) (s : List (String × KubeNode))
    → has_key j s ≡ false
    → active_at ip (s ++ (j, n) ∷ []) ≡ (if j === ip then some n.active else active_at ip s)
active_at-snoc ip j n [] h = refl
active_at-snoc ip j n ((k, m) ∷ s) h =
    ground (arith, ===_iff k ip, ===_iff j ip, ===_iff k j, active_at-snoc ip j n s)

joined-nothing : (o : Option (List Worker)) → joined o false [] ≡ o
joined-nothing none = refl
joined-nothing (some a) = ap (λ x. some x) (append-nil a)

has_key-joined :
    (ip : String) (s : List (String × KubeNode))
    → has_key ip s ≡ true
    → joined (active_at ip s) true [] ≡ active_at ip s
has_key-joined ip [] h = absurd (ground arith)
has_key-joined ip ((k, n) ∷ s) h = elim (Bool-cases (k === ip)) [
  | inl e ↦ rw e (ap (λ x. some x) (append-nil n.active))
  | inr e ↦ rw e (has_key-joined ip s (ground arith))
]

ensure_node-active_at :
    (ip j : String) (s : List (String × KubeNode))
    → active_at ip (ensure_node j s)
      ≡ (if j === ip then joined (active_at ip s) true [] else active_at ip s)
ensure_node-active_at ip j s = elim (Bool-cases (has_key j s)) [
  | inl h ↦ rw h (elim (Bool-cases (j === ip)) [
    | inl e ↦
        rw e (sym (has_key-joined ip s (subst (λ x. has_key x s ≡ true) ((===_iff j ip).0 e) h)))
    | inr e ↦ rw e refl
  ])
  | inr h ↦ rw h (
      active_at-snoc ip j _ s h ∙ (elim (Bool-cases (j === ip)) [
        | inl e ↦ rw e (
            ap (λ o. joined o true [])
              (sym
                (has_key-active_at ip s (subst (λ x. has_key x s ≡ false) ((===_iff j ip).0 e) h))))
        | inr e ↦ rw e refl
      ]))
]

has_key-snoc :
    (j : String) (n : KubeNode) (s : List (String × KubeNode)) → has_key j (s ++ (j, n) ∷ []) ≡ true
has_key-snoc j n [] = ground (arith, ===_iff j j)
has_key-snoc j n ((k, m) ∷ s) = ground (arith, has_key-snoc j n s)

ensure_node-has_key :
    (j : String) (s : List (String × KubeNode)) → has_key j (ensure_node j s) ≡ true
ensure_node-has_key j s = elim (Bool-cases (has_key j s)) [
  | inl h ↦ rw h h
  | inr h ↦ rw h (has_key-snoc j _ s)
]

push_active-active_at :
    (ip j : String) (w : Worker) (s : List (String × KubeNode))
    → has_key j s ≡ true
    → active_at ip (push_active j w s)
      ≡ (if j === ip then joined (active_at ip s) true (w ∷ []) else active_at ip s)
push_active-active_at ip j w [] h = absurd (ground arith)
push_active-active_at ip j w ((k, n) ∷ s) h =
    ground (arith, ===_iff k ip, ===_iff j ip, ===_iff k j, push_active-active_at ip j w s)

joined-joined :
    (o : Option (List Worker)) (b c : Bool) (l m : List Worker)
    → (b ≡ false → l ≡ [])
    → joined (joined o b l) c m ≡ joined o (b || c) (l ++ m)
joined-joined none true c l m h = refl
joined-joined none false false l m h = refl
joined-joined none false true l m h = rw (h refl) refl
joined-joined (some a) b c l m h = ap (λ x. some x) (append_assoc a l m)

member_pod :
    (ip : String) (p : Pod) (s : List (String × KubeNode))
    → let s' = ensure_node p.host_ip s in
      active_at ip (if is_running p then push_active p.host_ip (worker_of p) s' else s')
      ≡ joined
          (active_at ip s)
          (runs_on ip p)
          (if runs_on ip p && is_running p then worker_of p ∷ [] else [])
member_pod ip p s =
    let s' = ensure_node p.host_ip s in
    let o = active_at ip s in
    let e = ensure_node-active_at ip p.host_ip s in
    let k = push_active-active_at ip p.host_ip (worker_of p) s' (ensure_node-has_key p.host_ip s) in
    elim (Bool-cases (p.host_ip === ip)) [
      | inl r ↦
          let e1 : active_at ip s' ≡ joined o true [] = e ∙ rw r refl in
          rw r (elim (Bool-cases (is_running p)) [
            | inl f ↦ rw f (
                k
                ∙ rw r (
                    ap (λ x. joined x true (worker_of p ∷ [])) e1
                    ∙ joined-joined o true true [] (worker_of p ∷ []) (λ x. cc)))
            | inr f ↦ rw f e1
          ])
      | inr r ↦
          let e1 : active_at ip s' ≡ o = e ∙ rw r refl in
          rw r (elim (Bool-cases (is_running p)) [
            | inl f ↦ rw f (k ∙ rw r (e1 ∙ sym (joined-nothing o)))
            | inr f ↦ rw f (e1 ∙ sym (joined-nothing o))
          ])
    ]

or-if : (b c : Bool) → (b || c) ≡ (if b then true else c)
or-if true c = refl
or-if false c = refl

add_pod-active_at :
    (label ip : String) (p : Pod) (s : List (String × KubeNode))
    → active_at ip (add_pod label p s)
      ≡ joined (active_at ip s) (is_member label p && runs_on ip p) (shown label ip (p ∷ []))
unfolding add_pod
add_pod-active_at label ip p s = elim (Bool-cases (is_member label p)) [
  | inr h ↦ rw h (sym (joined-nothing (active_at ip s)))
  | inl h ↦ rw h (member_pod ip p s)
]

shown-cons :
    (label ip : String) (p : Pod) (l : List Pod)
    → shown label ip (p ∷ l) ≡ shown label ip (p ∷ []) ++ shown label ip l
shown-cons label ip p l = ground arith

add_pods-active_at :
    (label ip : String) (pods : List Pod) (s : List (String × KubeNode))
    → active_at ip (add_pods label pods s)
      ≡ joined (active_at ip s) (has_member label ip pods) (shown label ip pods)
unfolding add_pods
add_pods-active_at label ip [] s = sym (joined-nothing (active_at ip s))
add_pods-active_at label ip (p ∷ pods) s =
    let o = active_at ip s in
    let b = is_member label p && runs_on ip p in
    let c = has_member label ip pods in
    let l = shown label ip (p ∷ []) in
    let m = shown label ip pods in
    add_pods-active_at label ip pods (add_pod label p s)
    ∙ ap (λ x. joined x c m) (add_pod-active_at label ip p s)
    ∙ joined-joined o b c l m (λ e. ground (arith, e))
    ∙ ap (joined o (b || c)) (sym (shown-cons label ip p pods))
    ∙ ap (λ x. joined o x (shown label ip (p ∷ pods))) (or-if b c)

without_old-has_key :
    (ip : String) (pods : List Pod) (s : List (String × KubeNode))
    → has_key ip (without_old pods s) ≡ (any_of (runs_on ip) pods && has_key ip s)
without_old-has_key ip pods [] = ground arith
without_old-has_key ip pods ((k, n) ∷ s) = elim (Bool-cases (k === ip)) [
  | inl e ↦
      let c : any_of (runs_on k) pods ≡ any_of (runs_on ip) pods =
        ap (λ x. any_of (runs_on x) pods) ((===_iff k ip).0 e) in
      ground (arith, c, e, without_old-has_key ip pods s)
  | inr e ↦ ground (arith, e, without_old-has_key ip pods s)
]

has_member-runs_on :
    (label ip : String) (pods : List Pod)
    → has_member label ip pods ≡ true
    → any_of (runs_on ip) pods ≡ true
has_member-runs_on label ip [] h = h
has_member-runs_on label ip (p ∷ pods) h = ground (arith, has_member-runs_on label ip pods)

emptied-active_at :
    (ip : String) (s : List (String × KubeNode))
    → active_at ip (emptied s) ≡ (if has_key ip s then some [] else none)
emptied-active_at ip [] = refl
emptied-active_at ip ((k, n) ∷ s) = ground (arith, emptied-active_at ip s)

shown_if :
    (a k m : Bool) (l : List Worker)
    → (m ≡ true → a ≡ true)
    → joined (if a && k then some [] else none) m l ≡ (if a && (k || m) then some l else none)
shown_if true true m l h = refl
shown_if true false true l h = refl
shown_if true false false l h = refl
shown_if false k true l h = absurd (ground (arith, h refl))
shown_if false k false l h = refl

-- After the update a node is in the state if one of the pods runs on it and it was there before or the pod is
-- of this cluster; and it then shows exactly the running pods of the cluster on it, in their order.
pub gen-shown :
    (pods : List Pod) (s : List (String × KubeNode)) (label ip : String)
    → active_at ip (gen pods s label) ≡ (
        if any_of (runs_on ip) pods && (has_key ip s || has_member label ip pods)
        then some (shown label ip pods)
        else none)
unfolding gen
gen-shown pods s label ip =
    let s' = emptied (without_old pods s) in
    let e = emptied-active_at ip (without_old pods s) in
    add_pods-active_at label ip pods s'
    ∙ ap (λ o. joined o (has_member label ip pods) (shown label ip pods))
        (e ∙ ap (λ b. if b then some [] else none) (without_old-has_key ip pods s))
    ∙ shown_if (any_of (runs_on ip) pods) (has_key ip s) (has_member label ip pods)
        (shown label ip pods) (has_member-runs_on label ip pods)
