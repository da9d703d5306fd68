-- ===== src/Queue/Sweep.antt =====
-- The second loop of `remove` of packages/queue/index.js on the list that the queue holds.
use teraslice.Base.{
  ℕ, zero, suc, ◌-◌, ◌≤◌, ◌≡◌, refl, sym, ◌∙◌, ap, subst, Bool, true, false, none, some, [], ◌∷◌,
  ◌++◌, arith, length, Bool-cases, inl, inr,
}
use mathlib.Core.List.{append_assoc}
use teraslice.Queue.{Queue, Node, relink, tail_after, sweep}
use teraslice.Queue.Links.{Chain, head_of, last_of, values}
use teraslice.Queue.Holds.{Fits, Holds, Fits-Holds, values-append}
use teraslice.Queue.Unlink.{Linked-relink, Distinct-remove, Below-remove, Linked-at}
use teraslice.Queue.Extract.{tail_after_lem, length-remove, values_shift}
use teraslice.Queue.Spec.{reject_if}

module _ {V : Type 0} where
  sweep_hit :
      (fuel : ℕ) (test : V → Bool) (a : ℕ) (q : Queue V) (node : Node V)
      → q.cells a ≡ some node
      → test node.value ≡ true
      → sweep (suc fuel) test (some a) q
        ≡ sweep fuel test node.next (record q {
          cells = relink q.cells node.prev node.next;
          tail = tail_after node.prev node.next q.tail;
          size = q.size - 1;
        })
  unfolding sweep
  sweep_hit fuel test a q node e h = rw (e, sweep) (rw h)

  pub sweep_miss :
      (fuel : ℕ) (test : V → Bool) (a : ℕ) (q : Queue V) (node : Node V)
      → q.cells a ≡ some node
      → test node.value ≡ false
      → sweep (suc fuel) test (some a) q ≡ sweep fuel test node.next q
  unfolding sweep
  sweep_miss fuel test a q node e h = rw (e, sweep) (rw h)

  pub sweep_end : (fuel : ℕ) (test : V → Bool) (q : Queue V) → sweep fuel test none q ≡ q
  unfolding sweep
  sweep_end zero test q = refl
  sweep_end (suc fuel) test q = refl

  -- The loop behind a head that stays: the nodes `d ∷ xs` are passed, the nodes `ys` are to come.
  pub sweep-Holds :
      (fuel : ℕ) (test : V → Bool) (q : Queue V) (d : ℕ) (u : V) (xs ys : Chain V)
      → length ys ≤ fuel
      → Fits q ((d, u) ∷ xs ++ ys)
      → Holds (sweep fuel test (head_of ys) q) (values ((d, u) ∷ xs) ++ reject_if test (values ys))
  sweep-Holds fuel test q d u xs [] m f =
      rw (sweep_end fuel test q)
        (subst (Holds q) (values-append ((d, u) ∷ xs) []) (Fits-Holds q _ f))
  sweep-Holds zero test q d u xs ((a, v) ∷ ys) m f = absurd (omega arith)
  sweep-Holds (suc fuel) test q d u xs ((a, v) ∷ ys) m f = elim (Bool-cases (test v)) [
    | inl hit ↦
        let all = (d, u) ∷ xs in
        rw (sweep_hit fuel test a q _ (Linked-at q.cells none all a v ys f.linked) hit, hit)
          (sweep-Holds fuel test _ d u xs ys (omega arith) (record {
            first = f.first;
            last =
                ap (tail_after (last_of none all) (head_of ys)) f.last
                ∙ tail_after_lem all a v ys (omega arith);
            counted = omega (arith, f.counted, length-remove all a v ys);
            linked = Linked-relink q.cells none all a v ys tt f.distinct f.linked;
            distinct = Distinct-remove all a v ys f.distinct;
            below = Below-remove q.fresh all a v ys f.below;
          }))
    | inr miss ↦
        rw
          (
            sweep_miss fuel test a q _ (Linked-at q.cells none ((d, u) ∷ xs) a v ys f.linked) miss,
            miss,
          )
          (subst (Holds _) (values_shift ((d, u) ∷ xs) a v _) (
            sweep-Holds fuel test q d u (xs ++ (a, v) ∷ []) ys (omega arith)
              (subst (λ l. Fits q ((d, u) ∷ l)) (sym (append_assoc xs ((a, v) ∷ []) ys)) f)))
  ]
