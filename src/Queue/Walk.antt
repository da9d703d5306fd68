-- ===== src/Queue/Walk.antt =====
-- `exists` of packages/queue/index.js, and `each` with a callback that removes what it visits, which
-- is how `shutdown` of the scheduler empties its queue.
use teraslice.Base.{
  ℕ, zero, suc, ◌≤◌, ◌≡◌, refl, sym, ◌∙◌, ap, subst, Bool, true, false, Option, none, some, List,
  [], ◌∷◌, arith, length, any_of,
}
use teraslice.Queue.{
  Queue, Node, Cells, exists_from, exists, each_from, each, remove, set_prev, sweep,
}
use teraslice.Queue.Links.{
  Distinct, Chain, head_of, values, Linked, set_prev_ne, Linked-set_prev_head,
}
use teraslice.Queue.Holds.{Fits, Holds, Fits-Holds}
use teraslice.Queue.Sweep.{sweep_miss, sweep_end}
use teraslice.Queue.Remove.{skip_lem, skipped, behind, remove-behind}

module _ {V : Type 0} where
  exists_from_node :
      (fuel : ℕ) (test : V → Bool) (c : Cells V) (a : ℕ) (node : Node V)
      → c a ≡ some node
      → exists_from (suc fuel) test c (some a)
        ≡ (elim (test node.value) [ true ↦ true | false ↦ exists_from fuel test c node.next ])
  unfolding exists_from
  exists_from_node fuel test c a node e = rw (e, exists_from) refl

  exists_from-any_of :
      (fuel : ℕ) (test : V → Bool) (c : Cells V) (p : Option ℕ) (ns : Chain V)
      → length ns ≤ fuel
      → Linked c p ns
      → exists_from fuel test c (head_of ns) ≡ any_of test (values ns)
  unfolding exists_from
  exists_from-any_of zero test c p [] m l = refl
  exists_from-any_of (suc fuel) test c p [] m l = refl
  exists_from-any_of zero test c p ((a, v) ∷ r) m l = absurd (omega arith)
  exists_from-any_of (suc fuel) test c p ((a, v) ∷ r) m l =
      exists_from_node fuel test c a _ l.0
      ∙ ground (arith, exists_from-any_of fuel test c (some a) r (omega arith) l.1)

  -- `exists` answers whether some value of the list passes the test.
  pub exists-any_of :
      (test : V → Bool) (q : Queue V) (vs : List V) → Holds q vs → exists test q ≡ any_of test vs
  unfolding exists
  exists-any_of test q vs h =
      subst (λ l. exists test q ≡ any_of test l) h.shows
        (subst (λ p. exists_from q.size test q.cells p ≡ any_of test (values h.nodes)) (sym h.first)
          (exists_from-any_of q.size test q.cells none h.nodes (omega (arith, h.counted)) h.linked))

  -- No value passes the test.
  abbrev pub NoneOf : (V → Bool) → List V → Type 0
  NoneOf test [] = Unit
  NoneOf test (v ∷ vs) = (test v ≡ false) × NoneOf test vs

  sweep-zero : (test : V → Bool) (p : Option ℕ) (q : Queue V) → sweep zero test p q ≡ q
  unfolding sweep
  sweep-zero test p q = refl

  sweep_nothing :
      (fuel : ℕ) (test : V → Bool) (q : Queue V) (p : Option ℕ) (ns : Chain V)
      → Linked q.cells p ns
      → NoneOf test (values ns)
      → sweep fuel test (head_of ns) q ≡ q
  sweep_nothing fuel test q p [] l k = sweep_end fuel test q
  sweep_nothing zero test q p ((a, v) ∷ r) l k = sweep-zero test (some a) q
  sweep_nothing (suc fuel) test q p ((a, v) ∷ r) l k =
      sweep_miss fuel test a q _ l.0 k.0 ∙ sweep_nothing fuel test q (some a) r l.1 k.1

  -- The queue after its head alone is removed.
  abbrev beheaded : Queue V → Chain V → Queue V
  beheaded q [] = record q { head = none; tail = none; size = 0 }
  beheaded q ((b, w) ∷ r) = record q {
    cells = set_prev q.cells (some b) none;
    head = some b;
    size = suc (length r);
  }

  skipped_head :
      (test : V → Bool) (a : ℕ) (v : V) (r : Chain V)
      → test v ≡ true
      → NoneOf test (values r)
      → skipped test ((a, v) ∷ r) ≡ r
  unfolding skipped
  skipped_head test a v [] hit k = rw hit refl
  skipped_head test a v ((b, w) ∷ r) hit k = rw (hit, k.0) refl

  behind_nothing :
      (test : V → Bool) (q : Queue V) (p : Option ℕ) (r : Chain V)
      → Linked q.cells p r
      → Distinct r
      → NoneOf test (values r)
      → behind test (record q { head = head_of r; size = length r }) ≡ beheaded q r
  unfolding behind
  behind_nothing test q p [] l d k = refl
  behind_nothing test q p ((b, w) ∷ r) l d k =
      sweep_nothing (suc (length r)) test
        (record q { cells = set_prev q.cells (some b) none; head = some b; size = suc (length r) })
        none ((b, w) ∷ r) (Linked-set_prev_head q.cells p none ((b, w) ∷ r) d l) k

  remove_head :
      (test : V → Bool) (q : Queue V) (a : ℕ) (v : V) (r : Chain V)
      → Fits q ((a, v) ∷ r)
      → test v ≡ true
      → NoneOf test (values r)
      → remove true test q ≡ beheaded q r
  remove_head test q a v r f hit k =
      remove-behind test q a f.first
      ∙ ap (behind test) (
          skip_lem q.size test q none ((a, v) ∷ r) (omega (arith, f.counted)) f.first f.counted
            f.linked)
      ∙ ap (λ ms. behind test (record q { head = head_of ms; size = length ms }))
          (skipped_head test a v r hit k)
      ∙ behind_nothing test q (some a) r f.linked.1 f.distinct.1 k

  beheaded-Fits :
      (q : Queue V) (a : ℕ) (v : V) (r : Chain V) → Fits q ((a, v) ∷ r) → Fits (beheaded q r) r
  beheaded-Fits q a v [] f = record {
    first = refl;
    last = refl;
    counted = refl;
    linked = tt;
    distinct = tt;
    below = tt;
  }
  beheaded-Fits q a v ((b, w) ∷ r) f = record {
    first = refl;
    last = f.last;
    counted = refl;
    linked = Linked-set_prev_head q.cells (some a) none ((b, w) ∷ r) f.distinct.1 f.linked.1;
    distinct = f.distinct.1;
    below = f.below.1;
  }

  beheaded_cell :
      (q : Queue V) (a : ℕ) (v : V) (r : Chain V)
      → Fits q ((a, v) ∷ r)
      → (beheaded q r).cells a ≡ q.cells a
  beheaded_cell q a v [] f = refl
  beheaded_cell q a v ((b, w) ∷ r) f =
      set_prev_ne q.cells (some b) none a (ground (arith, f.distinct.0.0))

module _ {V : Type 0} (same : V → V → Bool) where
  -- The callback of `each` in `shutdown`: the queue forgets the value that is visited.
  abbrev pub forget : V → Queue V → Queue V
  forget v q = remove true (same v) q

  -- Every value is the same as itself and as no later one.
  abbrev pub AllDiffer : List V → Type 0
  AllDiffer [] = Unit
  AllDiffer (v ∷ vs) = (same v v ≡ true) × NoneOf (same v) vs × AllDiffer vs

  each_from_step :
      (fuel a : ℕ) (fn : V → Queue V → Queue V) (q : Queue V) (node left : Node V)
      → q.cells a ≡ some node
      → (fn node.value q).cells a ≡ some left
      → each_from (suc fuel) fn (some a) q ≡ each_from fuel fn left.next (fn node.value q)
  unfolding each_from
  each_from_step fuel a fn q node left e k = rw (e, each_from) (rw k)

  each_from_end :
      (fuel : ℕ) (fn : V → Queue V → Queue V) (q : Queue V) → each_from fuel fn none q ≡ q
  unfolding each_from
  each_from_end zero fn q = refl
  each_from_end (suc fuel) fn q = refl

  each_from-forget :
      (fuel : ℕ) (q : Queue V) (ns : Chain V)
      → length ns ≤ fuel
      → Fits q ns
      → AllDiffer (values ns)
      → Holds (each_from fuel forget (head_of ns) q) []
  each_from-forget fuel q [] m f k = rw (each_from_end fuel forget q) (Fits-Holds q [] f)
  each_from-forget zero q ((a, v) ∷ r) m f k = absurd (omega arith)
  each_from-forget (suc fuel) q ((a, v) ∷ r) m f k =
      let e : remove true (same v) q ≡ beheaded q r = remove_head (same v) q a v r f k.0 k.1 in
      subst (λ x. Holds x [])
        (sym (
          each_from_step fuel a forget q _ _ f.linked.0
            (ap (λ (x : Queue V). x.cells a) e ∙ beheaded_cell q a v r f ∙ f.linked.0)
          ∙ ap (each_from fuel forget (head_of r)) e))
        (each_from-forget fuel (beheaded q r) r (omega arith) (beheaded-Fits q a v r f) k.2)

  -- `each` with a callback that removes the visited value empties the queue, although the callback
  -- unlinks the node that the walk stands on.
  pub each-forget-Holds :
      (q : Queue V) (vs : List V) → Holds q vs → AllDiffer vs → Holds (each forget q) []
  unfolding each
  each-forget-Holds q vs h k =
      subst (λ p. Holds (each_from q.size forget p q) []) (sym h.first)
        (each_from-forget q.size q h.nodes (omega (arith, h.counted)) h.fits
          (subst AllDiffer (sym h.shows) k))
