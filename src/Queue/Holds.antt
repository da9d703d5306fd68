-- ===== src/Queue/Holds.antt =====
-- The list that a queue of packages/queue/index.js holds: the refinement relation.
use teraslice.Base.{ℕ, suc, ◌≡◌, ◌≢◌, refl, Option, none, some, List, [], ◌∷◌, ◌++◌, arith, length}
use teraslice.Queue.{Queue, Cells, empty, set_next, update}
use teraslice.Queue.Links.{
  Chain, head_of, last_of, values, Linked, NotIn, Distinct, Below, set_next_ne, set_next_eq,
}

module _ {V : Type 0} where
  -- The pointers, the count and the links of the queue fit the chain.
  pub record Fits (q : Queue V) (ns : Chain V) : Type 0 where
    pub first : q.head ≡ head_of ns
    pub last : q.tail ≡ last_of none ns
    pub counted : q.size ≡ length ns
    pub linked : Linked q.cells none ns
    pub distinct : Distinct ns
    pub below : Below q.fresh ns

  -- They fit some chain, whose values are the list.
  pub record Holds (q : Queue V) (vs : List V) : Type 0 where
    pub nodes : Chain V
    pub shows : values nodes ≡ vs
    pub fits : Fits q nodes
    pub open fits use *

  pub Fits-Holds : (q : Queue V) (ns : Chain V) → Fits q ns → Holds q (values ns)
  Fits-Holds q ns f = record { nodes = ns; shows = refl; fits = f }

  pub empty-Holds : Holds (empty {V = V}) []
  unfolding empty
  empty-Holds = record {
    nodes = [];
    shows = refl;
    fits = record {
      first = refl;
      last = refl;
      counted = refl;
      linked = tt;
      distinct = tt;
      below = tt;
    };
  }

  pub values-append : (ns ms : Chain V) → values (ns ++ ms) ≡ values ns ++ values ms
  values-append [] ms = refl
  values-append ((a, v) ∷ ns) ms = λ i. v ∷ values-append ns ms i

  pub length-values : (ns : Chain V) → length (values ns) ≡ length ns
  length-values [] = refl
  length-values ((a, v) ∷ ns) = λ i. suc (length-values ns i)

  pub last_of-append :
      (p : Option ℕ) (ns : Chain V) (a : ℕ) (v : V) → last_of p (ns ++ (a, v) ∷ []) ≡ some a
  last_of-append p [] a v = refl
  last_of-append p ((b, w) ∷ ns) a v = last_of-append (some b) ns a v

  pub last_of_ne :
      (p : Option ℕ) (a b : ℕ) (v : V) (ns : Chain V)
      → NotIn a ((b, v) ∷ ns)
      → last_of p ((b, v) ∷ ns) ≢ some a
  last_of_ne p a b v [] h = ground arith
  last_of_ne p a b v ((d, w) ∷ ns) h = last_of_ne (some b) a d w ns h.1

  pub NotIn-append : (a : ℕ) (ns ms : Chain V) → NotIn a ns → NotIn a ms → NotIn a (ns ++ ms)
  NotIn-append a [] ms h k = k
  NotIn-append a ((b, v) ∷ ns) ms h k = (h.0, NotIn-append a ns ms h.1 k)

  pub Below-append : (n : ℕ) (ns ms : Chain V) → Below n ns → Below n ms → Below n (ns ++ ms)
  Below-append n [] ms h k = k
  Below-append n ((b, v) ∷ ns) ms h k = (h.0, Below-append n ns ms h.1 k)

  pub Distinct-append_one :
      (ns : Chain V) (a : ℕ) (v : V) → Distinct ns → NotIn a ns → Distinct (ns ++ (a, v) ∷ [])
  Distinct-append_one [] a v d h = (tt, tt)
  Distinct-append_one ((b, w) ∷ ns) a v d h =
      (NotIn-append b ns ((a, v) ∷ []) d.0 (ground arith, tt), Distinct-append_one ns a v d.1 h.1)

  -- A fresh node behind the last one.
  pub Linked-append :
      (c : Cells V) (p : Option ℕ) (ns : Chain V) (f : ℕ) (v : V)
      → NotIn f ns
      → Distinct ns
      → Linked c p ns
      → Linked
          (update
            (set_next c (last_of p ns) (some f))
            f
            (some (record { value = v; prev = last_of p ns; next = none })))
          p
          (ns ++ (f, v) ∷ [])
  Linked-append c p [] f v h d l = (ground arith, tt)
  Linked-append c p ((a, w) ∷ []) f v h d l =
      (ground (arith, set_next_eq c (some f) a _ l.0), (ground arith, tt))
  Linked-append c p ((a, w) ∷ (b, u) ∷ r) f v h d l = (
    ground (arith, set_next_ne c (last_of (some b) r) (some f) a (last_of_ne (some a) a b u r d.0)),
    Linked-append c (some a) ((b, u) ∷ r) f v h.1 d.1 l.1,
  )
