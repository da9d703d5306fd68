-- ===== src/Queue/Dequeue.antt =====
-- `dequeue` of packages/queue/index.js on the list that the queue holds.
use teraslice.Base.{
  ℕ, ◌-◌, ◌<◌, ◌≡◌, refl, sym, ◌∙◌, subst, Option, none, some, List, [], ◌∷◌, arith, length,
}
use teraslice.Queue.{Queue, Node, Cells, load, detach, dequeue, set_next, settle}
use teraslice.Queue.Links.{
  Chain, head_of, last_of, values, Linked, Distinct, Linked-set_next, Linked-set_prev_head,
}
use teraslice.Queue.Holds.{Fits, Holds, Fits-Holds}
use teraslice.Queue.Unlink.{settle-Fits}
use teraslice.Queue.Spec

module _ {V : Type 0} where
  Linked-detach :
      (c : Cells V) (a : ℕ) (v : V) (r : Chain V)
      → Distinct ((a, v) ∷ r)
      → Linked c none ((a, v) ∷ r)
      → Linked (detach c (some a) (head_of r)) none r
  Linked-detach c a v [] d l = tt
  Linked-detach c a v ((b, w) ∷ r) d l =
      Linked-set_prev_head (set_next c (some a) none) (some a) none ((b, w) ∷ r) d.1
        (Linked-set_next c (some a) none (some a) ((b, w) ∷ r) d.0 l.1)

  last_of_two :
      (a : ℕ) (v : V) (r : Chain V) → 1 < length r → last_of none ((a, v) ∷ r) ≡ last_of none r
  last_of_two a v [] h = absurd (omega arith)
  last_of_two a v ((b, w) ∷ r) h = refl

  dequeue_node :
      (q : Queue V) (node : Node V)
      → 0 < q.size
      → load q.cells q.head ≡ some node
      → dequeue q
        ≡ some (
          some node.value,
          settle (record q {
            cells = detach q.cells q.head node.next;
            head = node.next;
            size = q.size - 1;
          }),
        )
  unfolding dequeue
  dequeue_node q node h e = ground arith

  dequeue_empty : (q : Queue V) → q.size ≡ 0 → dequeue q ≡ some (none, q)
  unfolding dequeue
  dequeue_empty q e = ground arith

  load-some :
      (c : Cells V) (p : Option ℕ) (a : ℕ) (n : Node V)
      → p ≡ some a
      → c a ≡ some n
      → load c p ≡ some n
  unfolding load
  load-some c p a n e h = rw e h

  -- What `dequeue` does to the list; no read goes through null.
  abbrev pub Dequeues : Queue V → List V → Type 0
  Dequeues q vs =
      (q' : Queue V) × (dequeue q ≡ some ((Spec.dequeue vs).0, q')) × Holds q' (Spec.dequeue vs).1

  dequeue_from : (q : Queue V) (ns : Chain V) → Fits q ns → Dequeues q (values ns)
  unfolding Spec.dequeue
  dequeue_from q [] f = (q, dequeue_empty q f.counted, Fits-Holds q [] f)
  dequeue_from q ((a, v) ∷ r) f = (
    settle (record q {
      cells = detach q.cells q.head (head_of r);
      head = head_of r;
      size = q.size - 1;
    }),
    dequeue_node q (record { value = v; prev = none; next = head_of r }) (omega (arith, f.counted))
        (load-some q.cells q.head a _ f.first f.linked.0),
    Fits-Holds _ r (
        settle-Fits _ r (λ _. refl) (omega (arith, f.counted)) (λ m. f.last ∙ last_of_two a v r m)
          (subst (λ p. Linked (detach q.cells p (head_of r)) none r) (sym f.first)
            (Linked-detach q.cells a v r f.distinct f.linked))
          f.distinct.1 f.below.1),
  )

  -- `dequeue` takes the head of the list and keeps the rest; on an empty list it answers null and
  -- changes nothing. It never reads through null.
  pub dequeue-Dequeues : (q : Queue V) (vs : List V) → Holds q vs → Dequeues q vs
  dequeue-Dequeues q vs h = subst (Dequeues q) h.shows (dequeue_from q h.nodes h.fits)
