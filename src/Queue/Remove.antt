-- ===== src/Queue/Remove.antt =====
-- `remove` of packages/queue/index.js on the list that the queue holds.
use teraslice.Base.{
  ℕ, zero, suc, ◌-◌, ◌≤◌, ◌≡◌, refl, sym, ◌∙◌, subst, Bool, true, false, Option, none, some, List,
  [], ◌∷◌, arith, length, Bool-cases, inl, inr, if◌then◌else◌,
}
use teraslice.Queue.{Queue, Node, Cells, skip, sweep, remove, set_prev}
use teraslice.Queue.Links.{
  set_prev_eq, Linked-set_prev_head, Chain, head_of, last_of, values, Linked, Distinct, Below,
}
use teraslice.Queue.Holds.{Fits, Holds, Fits-Holds}
use teraslice.Queue.Spec.{reject_if}
use teraslice.Queue.Sweep.{sweep_miss, sweep-Holds}

module _ {V : Type 0} where
  -- The nodes that `skip` leaves.
  unfoldable pub skipped : (V → Bool) → Chain V → Chain V
  skipped test [] = []
  skipped test ((a, v) ∷ r) = if test v then skipped test r else ((a, v) ∷ r)

  pub skip_hit :
      (fuel : ℕ) (test : V → Bool) (a : ℕ) (q : Queue V) (node : Node V)
      → q.head ≡ some a
      → q.cells a ≡ some node
      → test node.value ≡ true
      → skip (suc fuel) test q ≡ skip fuel test (record q { head = node.next; size = q.size - 1 })
  unfolding skip
  skip_hit fuel test a q node f e h = rw (f, skip) (rw (e, skip) (rw h))

  pub skip_miss :
      (fuel : ℕ) (test : V → Bool) (a : ℕ) (q : Queue V) (node : Node V)
      → q.head ≡ some a
      → q.cells a ≡ some node
      → test node.value ≡ false
      → skip (suc fuel) test q ≡ q
  unfolding skip
  skip_miss fuel test a q node f e h = ground arith

  pub skip_end : (fuel : ℕ) (test : V → Bool) (q : Queue V) → q.head ≡ none → skip fuel test q ≡ q
  unfolding skip
  skip_end zero test q f = refl
  skip_end (suc fuel) test q f = ground arith

  -- While the head runs forward only the head and the count change.
  pub skip_lem :
      (fuel : ℕ) (test : V → Bool) (q : Queue V) (p : Option ℕ) (ns : Chain V)
      → length ns ≤ fuel
      → q.head ≡ head_of ns
      → q.size ≡ length ns
      → Linked q.cells p ns
      → skip fuel test q
        ≡ record q { head = head_of (skipped test ns); size = length (skipped test ns) }
  unfolding skipped
  skip_lem fuel test q p [] m f s l = ground (arith, skip_end fuel test q f)
  skip_lem zero test q p ((a, v) ∷ r) m f s l = absurd (omega arith)
  skip_lem (suc fuel) test q p ((a, v) ∷ r) m f s l = elim (Bool-cases (test v)) [
    | inl hit ↦ rw hit (
        skip_hit fuel test a q _ f l.0 hit
        ∙ skip_lem fuel test (record q { head = head_of r; size = q.size - 1 }) (some a) r
            (omega arith) refl (omega arith) l.1)
    | inr miss ↦ rw miss (ground (arith, skip_miss fuel test a q _ f l.0 miss))
  ]

  abbrev Stays : (V → Bool) → Option ℕ → Chain V → Type 0
  Stays test t [] = Unit
  Stays test t ((a, v) ∷ r) = (test v ≡ false) × (t ≡ last_of (some a) r)

  -- What is known of the rest of a chain that ends at `t`.
  record Suffix (c : Cells V) (n : ℕ) (test : V → Bool) (t : Option ℕ) (ns ms : Chain V)
      : Type 0 where
    prev : Option ℕ
    linked : Linked c prev ms
    distinct : Distinct ms
    below : Below n ms
    stays : Stays test t ms
    kept : reject_if test (values ns) ≡ reject_if test (values ms)

  skipped-Suffix :
      (c : Cells V) (n : ℕ) (test : V → Bool) (p : Option ℕ) (ns : Chain V)
      → Linked c p ns
      → Distinct ns
      → Below n ns
      → Suffix c n test (last_of p ns) ns (skipped test ns)
  unfolding skipped
  skipped-Suffix c n test p [] l d b = record {
    prev = p;
    linked = tt;
    distinct = tt;
    below = tt;
    stays = tt;
    kept = refl;
  }
  skipped-Suffix c n test p ((a, v) ∷ r) l d b = elim (Bool-cases (test v)) [
    | inl hit ↦
        let k = skipped-Suffix c n test (some a) r l.1 d.1 b.1 in
        rw hit (record {
          prev = k.prev;
          linked = k.linked;
          distinct = k.distinct;
          below = k.below;
          stays = k.stays;
          kept = rw hit k.kept;
        })
    | inr miss ↦ rw miss (record {
      prev = p;
      linked = l;
      distinct = d;
      below = b;
      stays = (miss, refl);
      kept = refl;
    })
  ]

  -- What `remove` does behind the first loop.
  unfoldable pub behind : (V → Bool) → Queue V → Queue V
  unfolding sweep set_prev
  behind test q1 = elim q1.head [
    | none ↦ record q1 { tail = none }
    | some h ↦ sweep q1.size test (some h) (record q1 { cells = set_prev q1.cells (some h) none })
  ]

  pub remove-behind :
      (test : V → Bool) (q : Queue V) (a : ℕ)
      → q.head ≡ some a
      → remove true test q ≡ behind test (skip q.size test q)
  unfolding remove behind
  remove-behind test q a f = ground arith

  behind-Holds :
      (c : Cells V) (n : ℕ) (test : V → Bool) (t : Option ℕ) (ns ms : Chain V)
      → Suffix c n test t ns ms
      → Holds
          (behind test
            (record { cells = c; fresh = n; head = head_of ms; tail = t; size = length ms }))
          (reject_if test (values ms))
  unfolding behind
  behind-Holds c n test t ns [] k =
      Fits-Holds _ [] (record {
        first = refl;
        last = refl;
        counted = refl;
        linked = tt;
        distinct = tt;
        below = tt;
      })
  behind-Holds c n test t ns ((a, v) ∷ r) k =
      let q : Queue V = record {
        cells = set_prev c (some a) none;
        fresh = n;
        head = some a;
        tail = t;
        size = suc (length r);
      } in
      rw
        (
          sweep_miss (length r) test a q (record { value = v; prev = none; next = head_of r })
              (set_prev_eq c none a _ k.linked.0) k.stays.0,
          k.stays.0,
        )
        (sweep-Holds (length r) test q a v [] r (omega arith) (record {
          first = refl;
          last = k.stays.1;
          counted = refl;
          linked = Linked-set_prev_head c k.prev none ((a, v) ∷ r) k.distinct k.linked;
          distinct = k.distinct;
          below = k.below;
        }))

  pub remove-none :
      (given : Bool) (test : V → Bool) (q : Queue V) → q.head ≡ none → remove given test q ≡ q
  unfolding remove
  remove-none given test q f = ground arith

  remove_nothing : (test : V → Bool) (q : Queue V) → remove false test q ≡ q
  unfolding remove
  remove_nothing test q = ground arith

  remove_nodes :
      (test : V → Bool) (q : Queue V) (ns : Chain V)
      → Fits q ns
      → Holds (remove true test q) (reject_if test (values ns))
  remove_nodes test q [] f = rw (remove-none true test q f.first) (Fits-Holds q [] f)
  remove_nodes test q ((a, v) ∷ r) f =
      let k = skipped-Suffix q.cells q.fresh test none ((a, v) ∷ r) f.linked f.distinct f.below in
      rw
        (
          remove-behind test q a f.first,
          skip_lem q.size test q none ((a, v) ∷ r) (omega (arith, f.counted)) f.first f.counted
              f.linked,
        )
        (subst (Holds _) (sym k.kept) (
          behind-Holds q.cells q.fresh test q.tail ((a, v) ∷ r) (skipped test ((a, v) ∷ r)) (
            subst (λ t. Suffix q.cells q.fresh test t ((a, v) ∷ r) (skipped test ((a, v) ∷ r)))
              (sym f.last) k)))

  -- `remove` drops the values that match and keeps the others in their order; where no id is
  -- given it changes nothing.
  pub remove-Holds :
      (given : Bool) (test : V → Bool) (q : Queue V) (vs : List V)
      → Holds q vs
      → Holds (remove given test q) (if given then reject_if test vs else vs)
  remove-Holds true test q vs h =
      subst (λ l. Holds (remove true test q) (reject_if test l)) h.shows
        (remove_nodes test q h.nodes h.fits)
  remove-Holds false test q vs h = rw (remove_nothing test q) h
