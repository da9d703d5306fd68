-- ===== src/Queue/Insert.antt =====
-- `enqueue` and `unshift` of packages/queue/index.js on the list that the queue holds.
use teraslice.Base.{
  ℕ, suc, ◌≡◌, refl, Option, none, some, List, [], ◌∷◌, ◌++◌, arith, length-append, ◌∙◌, ap, sym,
  subst,
}
use teraslice.Queue.{Queue, or_else, new_node, enqueue, unshift}
use teraslice.Queue.Links.{
  Chain, head_of, Below-NotIn, Below-suc, Linked-update, Linked-set_prev_head, last_of, Linked,
}
use teraslice.Queue.Holds.{
  Holds, values-append, last_of-append, Below-append, Distinct-append_one, Linked-append,
}

module _ {V : Type 0} where
  head_of-append :
      (ns : Chain V) (a : ℕ) (v : V) → or_else (head_of ns) (some a) ≡ head_of (ns ++ (a, v) ∷ [])
  head_of-append [] a v = refl
  head_of-append ((b, w) ∷ ns) a v = refl

  -- `enqueue` puts the value behind the last one.
  pub enqueue-Holds :
      (q : Queue V) (vs : List V) (v : V) → Holds q vs → Holds (enqueue q v) (vs ++ v ∷ [])
  unfolding enqueue
  enqueue-Holds q vs v h = record {
    nodes = h.nodes ++ (q.fresh, v) ∷ [];
    shows = values-append h.nodes _ ∙ ap (λ l. l ++ v ∷ []) h.shows;
    fits = record {
      first = ap (λ p. or_else p (some q.fresh)) h.first ∙ head_of-append h.nodes q.fresh v;
      last = sym (last_of-append none h.nodes q.fresh v);
      counted = omega (arith, h.counted, length-append h.nodes ((q.fresh, v) ∷ []));
      linked =
          subst (λ t. Linked (new_node q v t none) none (h.nodes ++ (q.fresh, v) ∷ [])) (sym h.last)
            (Linked-append q.cells none h.nodes q.fresh v (Below-NotIn q.fresh h.nodes h.below)
              h.distinct h.linked);
      distinct =
          Distinct-append_one h.nodes q.fresh v h.distinct (Below-NotIn q.fresh h.nodes h.below);
      below =
          Below-append (suc q.fresh) h.nodes ((q.fresh, v) ∷ []) (Below-suc q.fresh h.nodes h.below)
            (omega arith, tt);
    };
  }

  last_of-some :
      (a : ℕ) (d : Option ℕ) (ns : Chain V) → or_else (last_of (some a) ns) d ≡ last_of (some a) ns
  last_of-some a d [] = refl
  last_of-some a d ((b, w) ∷ ns) = last_of-some b d ns

  last_of-cons :
      (a : ℕ) (ns : Chain V) (t : Option ℕ)
      → t ≡ last_of none ns
      → or_else t (some a) ≡ last_of (some a) ns
  last_of-cons a [] t e = ground arith
  last_of-cons a ((b, w) ∷ ns) t e = rw e (last_of-some b (some a) ns)

  -- `unshift` puts the value before the first one.
  pub unshift-Holds :
      (q : Queue V) (vs : List V) (v : V) → Holds q vs → Holds (unshift q v) (v ∷ vs)
  unfolding unshift
  unshift-Holds q vs v h = record {
    nodes = (q.fresh, v) ∷ h.nodes;
    shows = ap (λ l. v ∷ l) h.shows;
    fits = record {
      first = refl;
      last = last_of-cons q.fresh h.nodes q.tail h.last;
      counted = omega (arith, h.counted);
      linked =
          subst (λ t. Linked (new_node q v none t) none ((q.fresh, v) ∷ h.nodes)) (sym h.first)
            (
              ground arith,
              Linked-update _ q.fresh _ (some q.fresh) h.nodes (Below-NotIn q.fresh h.nodes h.below)
                  (Linked-set_prev_head q.cells none (some q.fresh) h.nodes h.distinct h.linked),
            );
      distinct = (Below-NotIn q.fresh h.nodes h.below, h.distinct);
      below = (omega arith, Below-suc q.fresh h.nodes h.below);
    };
  }
