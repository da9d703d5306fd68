-- ===== src/Queue/Unlink.antt =====
-- What `relink` and the end of `dequeue` in packages/queue/index.js do to a chain.
use teraslice.Base.{
  ℕ, ◌<◌, ◌≡◌, ◌≢◌, refl, sym, ◌∙◌, subst, Option, none, some, [], ◌∷◌, ◌++◌, arith, length,
}
use teraslice.Queue.Links.{
  Chain, head_of, last_of, Linked, NotIn, Apart, Distinct, Below, set_next_ne, set_prev_ne,
  set_next_eq, set_prev_eq, Linked-set_next, Linked-set_prev,
}
use teraslice.Queue.Holds.{Fits, last_of_ne}
use teraslice.Queue.{Queue, Node, Cells, set_next, relink, settle}

module _ {V : Type 0} where
  pub NotIn-of_append : (b : ℕ) (xs ys : Chain V) → NotIn b (xs ++ ys) → NotIn b xs × NotIn b ys
  NotIn-of_append b [] ys h = (tt, h)
  NotIn-of_append b ((a, v) ∷ xs) ys h = let (k, l) = NotIn-of_append b xs ys h.1 in ((h.0, k), l)

  head_of_ne : (b : ℕ) (ns : Chain V) → NotIn b ns → head_of ns ≢ some b
  head_of_ne b [] h = ground arith
  head_of_ne b ((a, v) ∷ ns) h = ground arith

  relink_ne :
      (c : Cells V) (p n : Option ℕ) (b : ℕ) → p ≢ some b → n ≢ some b → relink c p n b ≡ c b
  unfolding relink
  relink_ne c none none b h k = refl
  relink_ne c none (some n) b h k = set_prev_ne c (some n) none b k
  relink_ne c (some p) none b h k = set_next_ne c (some p) none b h
  relink_ne c (some p) (some n) b h k =
      set_prev_ne (set_next c (some p) (some n)) (some n) (some p) b k
      ∙ set_next_ne c (some p) (some n) b h

  relink_prev :
      (c : Cells V) (b : ℕ) (n : Option ℕ) (x : Node V)
      → n ≢ some b
      → c b ≡ some x
      → relink c (some b) n b ≡ some (record x { next = n })
  unfolding relink
  relink_prev c b none x k e = set_next_eq c none b x e
  relink_prev c b (some n) x k e =
      set_prev_ne (set_next c (some b) (some n)) (some n) (some b) b k
      ∙ set_next_eq c (some n) b x e

  relink_next :
      (c : Cells V) (p : Option ℕ) (d : ℕ) (x : Node V)
      → p ≢ some d
      → c d ≡ some x
      → relink c p (some d) d ≡ some (record x { prev = p })
  unfolding relink
  relink_next c none d x h e = set_prev_eq c none d x e
  relink_next c (some p) d x h e =
      set_prev_eq (set_next c (some p) (some d)) (some p) d x
        (set_next_ne c (some p) (some d) d h ∙ e)

  Linked-relink-Apart :
      (c : Cells V) (p n q : Option ℕ) (ns : Chain V)
      → Apart p ns
      → Apart n ns
      → Linked c q ns
      → Linked (relink c p n) q ns
  unfolding relink
  Linked-relink-Apart c none none q ns h k l = l
  Linked-relink-Apart c none (some n) q ns h k l = Linked-set_prev c (some n) none q ns k l
  Linked-relink-Apart c (some p) none q ns h k l = Linked-set_next c (some p) none q ns h l
  Linked-relink-Apart c (some p) (some n) q ns h k l =
      Linked-set_prev _ (some n) (some p) q ns k (Linked-set_next c (some p) (some n) q ns h l)

  Apart-ne : (p : Option ℕ) (d : ℕ) (w : V) (ns : Chain V) → Apart p ((d, w) ∷ ns) → p ≢ some d
  Apart-ne none d w ns h = ground arith
  Apart-ne (some b) d w ns h = ground arith

  Apart-tail : (p : Option ℕ) (d : ℕ) (w : V) (ns : Chain V) → Apart p ((d, w) ∷ ns) → Apart p ns
  Apart-tail none d w ns h = tt
  Apart-tail (some b) d w ns h = h.1

  -- A node leaves the chain.
  pub Linked-relink :
      (c : Cells V) (p : Option ℕ) (xs : Chain V) (a : ℕ) (v : V) (ys : Chain V)
      → Apart p (xs ++ (a, v) ∷ ys)
      → Distinct (xs ++ (a, v) ∷ ys)
      → Linked c p (xs ++ (a, v) ∷ ys)
      → Linked (relink c (last_of p xs) (head_of ys)) p (xs ++ ys)
  Linked-relink c p [] a v [] h d l = tt
  Linked-relink c p [] a v ((e, w) ∷ r) h d l =
      let k = Apart-tail p a v ((e, w) ∷ r) h in
      (
        relink_next c p e _ (Apart-ne p e w r k) l.1.0,
        Linked-relink-Apart c p (some e) (some e) r (Apart-tail p e w r k) d.1.0 l.1.1,
      )
  Linked-relink c p ((b, u) ∷ []) a v ys h d l = (
    relink_prev c b (head_of ys) _ (head_of_ne b ys d.0.1) l.0,
    Linked-relink c (some b) [] a v ys d.0 d.1 l.1,
  )
  Linked-relink c p ((b, u) ∷ (e, s) ∷ xs) a v ys h d l = (
    relink_ne c (last_of (some e) xs) (head_of ys) b
          (last_of_ne (some b) b e s xs (NotIn-of_append b ((e, s) ∷ xs) ((a, v) ∷ ys) d.0).0)
          (head_of_ne b ys (NotIn-of_append b ((e, s) ∷ xs) ((a, v) ∷ ys) d.0).1.1)
        ∙ l.0,
    Linked-relink c (some b) ((e, s) ∷ xs) a v ys d.0 d.1 l.1,
  )

  pub NotIn-remove :
      (b : ℕ) (xs : Chain V) (a : ℕ) (v : V) (ys : Chain V)
      → NotIn b (xs ++ (a, v) ∷ ys)
      → NotIn b (xs ++ ys)
  NotIn-remove b [] a v ys h = h.1
  NotIn-remove b ((e, w) ∷ xs) a v ys h = (h.0, NotIn-remove b xs a v ys h.1)

  pub Distinct-remove :
      (xs : Chain V) (a : ℕ) (v : V) (ys : Chain V)
      → Distinct (xs ++ (a, v) ∷ ys)
      → Distinct (xs ++ ys)
  Distinct-remove [] a v ys d = d.1
  Distinct-remove ((e, w) ∷ xs) a v ys d =
      (NotIn-remove e xs a v ys d.0, Distinct-remove xs a v ys d.1)

  pub Below-remove :
      (n : ℕ) (xs : Chain V) (a : ℕ) (v : V) (ys : Chain V)
      → Below n (xs ++ (a, v) ∷ ys)
      → Below n (xs ++ ys)
  Below-remove n [] a v ys h = h.1
  Below-remove n ((e, w) ∷ xs) a v ys h = (h.0, Below-remove n xs a v ys h.1)

  settle_cells : (q : Queue V) → ((settle q).cells ≡ q.cells) × ((settle q).fresh ≡ q.fresh)
  unfolding settle
  settle_cells q = ground arith

  settle_size : (q : Queue V) → (settle q).size ≡ q.size
  unfolding settle
  settle_size q = ground arith

  settle_ends :
      (q : Queue V) (ns : Chain V)
      → (0 < length ns → q.head ≡ head_of ns)
      → q.size ≡ length ns
      → (1 < length ns → q.tail ≡ last_of none ns)
      → ((settle q).head ≡ head_of ns) × ((settle q).tail ≡ last_of none ns)
  unfolding settle
  settle_ends q [] h s t = ground arith
  settle_ends q ((a, v) ∷ []) h s t = let k = h (omega arith) in ground arith
  settle_ends q ((a, v) ∷ (b, w) ∷ ns) h s t =
      let k = h (omega arith) in let e = t (omega arith) in ground arith

  -- Head and tail are right once a queue of one or of none is settled.
  pub settle-Fits :
      (q : Queue V) (ns : Chain V)
      → (0 < length ns → q.head ≡ head_of ns)
      → q.size ≡ length ns
      → (1 < length ns → q.tail ≡ last_of none ns)
      → Linked q.cells none ns
      → Distinct ns
      → Below q.fresh ns
      → Fits (settle q) ns
  settle-Fits q ns h s t l d b = record {
    first = (settle_ends q ns h s t).0;
    last = (settle_ends q ns h s t).1;
    counted = settle_size q ∙ s;
    linked = subst (λ c. Linked c none ns) (sym (settle_cells q).0) l;
    distinct = d;
    below = subst (λ n. Below n ns) (sym (settle_cells q).1) b;
  }

  -- What the cell of a node on the chain holds.
  pub Linked-at :
      (c : Cells V) (p : Option ℕ) (xs : Chain V) (a : ℕ) (v : V) (ys : Chain V)
      → Linked c p (xs ++ (a, v) ∷ ys)
      → c a ≡ some (record { value = v; prev = last_of p xs; next = head_of ys })
  Linked-at c p [] a v ys l = l.0
  Linked-at c p ((b, w) ∷ xs) a v ys l = Linked-at c (some b) xs a v ys l.1

  pub last_of-append_cons :
      (p : Option ℕ) (xs : Chain V) (a : ℕ) (v : V) (ys : Chain V)
      → last_of p (xs ++ (a, v) ∷ ys) ≡ last_of (some a) ys
  last_of-append_cons p [] a v ys = refl
  last_of-append_cons p ((b, w) ∷ xs) a v ys = last_of-append_cons (some b) xs a v ys
