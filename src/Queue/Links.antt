-- ===== src/Queue/Links.antt =====
-- Chains of nodes on the heap of packages/queue/index.js, and how a write to a node changes them.
use teraslice.Base.{ℕ, ◌<◌, ◌≡◌, refl, ◌≢◌, suc, Option, none, some, List, [], ◌∷◌, arith}
use teraslice.Queue.{Node, Cells, update, set_next, set_prev}

-- The nodes of a queue: their addresses and values, the head first.
abbrev pub Chain : Type 0 → Type 0
Chain V = List (ℕ × V)

module _ {V : Type 0} where
  abbrev pub head_of : Chain V → Option ℕ
  head_of [] = none
  head_of ((a, v) ∷ r) = some a

  abbrev pub last_of : Option ℕ → Chain V → Option ℕ
  last_of p [] = p
  last_of p ((a, v) ∷ r) = last_of (some a) r

  abbrev pub values : Chain V → List V
  values [] = []
  values ((a, v) ∷ r) = v ∷ values r

  -- The cells hold the chain, whose first node points back at `p`.
  abbrev pub Linked : Cells V → Option ℕ → Chain V → Type 0
  Linked c p [] = Unit
  Linked c p ((a, v) ∷ r) =
      (c a ≡ some (record { value = v; prev = p; next = head_of r })) × Linked c (some a) r

  abbrev pub NotIn : ℕ → Chain V → Type 0
  NotIn a [] = Unit
  NotIn a ((b, v) ∷ r) = (a ≢ b) × NotIn a r

  abbrev pub Apart : Option ℕ → Chain V → Type 0
  Apart none r = Unit
  Apart (some a) r = NotIn a r

  abbrev pub Distinct : Chain V → Type 0
  Distinct [] = Unit
  Distinct ((a, v) ∷ r) = NotIn a r × Distinct r

  abbrev pub Below : ℕ → Chain V → Type 0
  Below n [] = Unit
  Below n ((a, v) ∷ r) = (a < n) × Below n r

module _ {V : Type 0} where
  pub Below-NotIn : (n : ℕ) (ns : Chain V) → Below n ns → NotIn n ns
  Below-NotIn n [] b = tt
  Below-NotIn n ((a, v) ∷ r) b = (omega arith, Below-NotIn n r b.1)

  pub Below-suc : (n : ℕ) (ns : Chain V) → Below n ns → Below (suc n) ns
  Below-suc n [] b = tt
  Below-suc n ((a, v) ∷ r) b = (omega arith, Below-suc n r b.1)

  pub set_next_ne : (c : Cells V) (q x : Option ℕ) (a : ℕ) → q ≢ some a → set_next c q x a ≡ c a
  unfolding set_next
  set_next_ne c none x a h = refl
  set_next_ne c (some b) x a h = ground arith

  pub set_prev_ne : (c : Cells V) (q x : Option ℕ) (a : ℕ) → q ≢ some a → set_prev c q x a ≡ c a
  unfolding set_prev
  set_prev_ne c none x a h = refl
  set_prev_ne c (some b) x a h = ground arith

  pub set_next_eq :
      (c : Cells V) (x : Option ℕ) (a : ℕ) (n : Node V)
      → c a ≡ some n
      → set_next c (some a) x a ≡ some (record n { next = x })
  unfolding set_next
  set_next_eq c x a n h = ground arith

  pub set_prev_eq :
      (c : Cells V) (x : Option ℕ) (a : ℕ) (n : Node V)
      → c a ≡ some n
      → set_prev c (some a) x a ≡ some (record n { prev = x })
  unfolding set_prev
  set_prev_eq c x a n h = ground arith

  -- A chain is not changed by a write to a node that is not on it.
  pub Linked-update :
      (c : Cells V) (a : ℕ) (n : Option (Node V)) (p : Option ℕ) (ns : Chain V)
      → NotIn a ns
      → Linked c p ns
      → Linked (update c a n) p ns
  Linked-update c a n p [] h l = tt
  Linked-update c a n p ((b, v) ∷ r) h l = (ground arith, Linked-update c a n (some b) r h.1 l.1)

  pub Linked-set_next :
      (c : Cells V) (q x p : Option ℕ) (ns : Chain V)
      → Apart q ns
      → Linked c p ns
      → Linked (set_next c q x) p ns
  unfolding set_next
  Linked-set_next c none x p ns h l = l
  Linked-set_next c (some a) x p ns h l = Linked-update c a _ p ns h l

  pub Linked-set_prev :
      (c : Cells V) (q x p : Option ℕ) (ns : Chain V)
      → Apart q ns
      → Linked c p ns
      → Linked (set_prev c q x) p ns
  unfolding set_prev
  Linked-set_prev c none x p ns h l = l
  Linked-set_prev c (some a) x p ns h l = Linked-update c a _ p ns h l

  -- The first node of a chain is pointed back at another.
  pub Linked-set_prev_head :
      (c : Cells V) (p p' : Option ℕ) (ns : Chain V)
      → Distinct ns
      → Linked c p ns
      → Linked (set_prev c (head_of ns) p') p' ns
  Linked-set_prev_head c p p' [] d l = tt
  Linked-set_prev_head c p p' ((a, v) ∷ r) d l =
      (set_prev_eq c p' a _ l.0, Linked-set_prev c (some a) p' (some a) r d.0 l.1)
