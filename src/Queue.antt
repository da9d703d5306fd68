-- ===== src/Queue.antt =====
-- packages/queue/index.js: the doubly linked queue, on an explicit heap of nodes.
-- A node's address is a number; `fresh` is the next address that `new Node` takes. Only the queue's
-- own methods touch its nodes, so the heap is a part of the queue.
pub mod Spec
pub mod Links
pub mod Holds
pub mod Insert
pub mod Walk
pub mod Sweep
pub mod Remove
pub mod Tests
pub mod Dequeue
pub mod Extract
pub mod Unlink
use teraslice.Base.{
  ℕ, zero, suc, ◌+◌, ◌-◌, Bool, true, false, Option, none, some, if◌then◌else◌, ◌==◌, not, ◌&&◌,
  ◌===◌,
}
use mathlib.Core.Option

pub record Node (V : Type 0) : Type 0 where
  pub value : V
  pub prev : Option ℕ
  pub next : Option ℕ

abbrev pub Cells : Type 0 → Type 0
Cells V = ℕ → Option (Node V)

pub record Queue (V : Type 0) : Type 0 where
  pub cells : Cells V
  pub fresh : ℕ
  pub head : Option ℕ
  pub tail : Option ℕ
  pub size : ℕ

abbrev pub or_else : Option ℕ → Option ℕ → Option ℕ
or_else none b = b
or_else (some a) b = some a

-- `else if (previousNode) { … this.tail = previousNode; }`
abbrev pub tail_after : Option ℕ → Option ℕ → Option ℕ → Option ℕ
tail_after (some p) none tail = some p
tail_after prev next tail = tail

-- `if (nextNode) … else { this.head = nextNode; … }` of `extract`
abbrev pub head_after : Option ℕ → Option ℕ → Option ℕ → Option ℕ
head_after none (some n) head = some n
head_after prev next head = head

module _ {V : Type 0} where
  abbrev pub update : Cells V → ℕ → Option (Node V) → Cells V
  update c a n b = if b == a then n else c b

  -- `a.next = x` and `a.prev = x`, where `a` may be null and is tested first.
  pub set_next : Cells V → Option ℕ → Option ℕ → Cells V
  set_next c none x = c
  set_next c (some a) x = update c a (Option.map {A = Node V} (λ n. record n { next = x }) (c a))

  pub set_prev : Cells V → Option ℕ → Option ℕ → Cells V
  set_prev c none x = c
  set_prev c (some a) x = update c a (Option.map {A = Node V} (λ n. record n { prev = x }) (c a))

  -- The node that a pointer shows; null has none.
  pub load : Cells V → Option ℕ → Option (Node V)
  load c none = none
  load c (some a) = c a

  -- `new Node(data, prev, next)`: the neighbours are pointed at the new node.
  pub new_node : Queue V → V → Option ℕ → Option ℕ → Cells V
  unfolding set_next set_prev
  new_node q v prev next =
      let a = some q.fresh in
      update (set_next (set_prev q.cells next a) prev a) q.fresh
        (some (record { value = v; prev = prev; next = next }))

  pub empty : Queue V
  empty = record { cells = λ a. none; fresh = 0; head = none; tail = none; size = 0 }

  pub enqueue : Queue V → V → Queue V
  unfolding new_node
  enqueue q v = record {
    cells = new_node q v q.tail none;
    fresh = suc q.fresh;
    head = or_else q.head (some q.fresh);
    tail = some q.fresh;
    size = q.size + 1;
  }

  pub unshift : Queue V → V → Queue V
  unfolding new_node
  unshift q v = record {
    cells = new_node q v none q.head;
    fresh = suc q.fresh;
    head = some q.fresh;
    tail = or_else q.tail (some q.fresh);
    size = q.size + 1;
  }

  -- The end of `dequeue` and of `extract`: head and tail of a queue of one or of none.
  pub settle : Queue V → Queue V
  settle q =
      if q.size == 1
      then record q { tail = q.head }
      else if q.size == 0
      then record q { head = none; tail = none }
      else q

  abbrev pub detach : Cells V → Option ℕ → Option ℕ → Cells V
  detach c head none = c
  detach c head (some b) = set_prev (set_next c head none) (some b) none

  -- The outer `none` is the TypeError of a read through null.
  pub dequeue : Queue V → Option (Option V × Queue V)
  unfolding load set_next set_prev settle
  dequeue q = if q.size == 0 then some (none, q) else elim (load q.cells q.head) [
    | none ↦ none
    | some node ↦ some (
      some node.value,
      settle (record q {
        cells = detach q.cells q.head node.next;
        head = node.next;
        size = q.size - 1;
      }),
    )
  ]

  -- `each(fn)`, for a callback that may change the queue. The walk goes on from the visited node's
  -- `next` as it is after the callback. The fuel bounds the nodes that are visited.
  pub each_from : ℕ → (V → Queue V → Queue V) → Option ℕ → Queue V → Queue V
  unfolding load
  each_from zero fn a q = q
  each_from (suc fuel) fn a q = elim (load q.cells a) [
    | none ↦ q
    | some node ↦
        let q' = fn node.value q in
        elim (load q'.cells a) [ none ↦ q' | some left ↦ each_from fuel fn left.next q' ]
  ]

  pub each : (V → Queue V → Queue V) → Queue V → Queue V
  unfolding each_from
  each fn q = each_from q.size fn q.head q

  -- `exists(key, val)`: `test` is `value[key] === val`.
  pub exists_from : ℕ → (V → Bool) → Cells V → Option ℕ → Bool
  unfolding load
  exists_from zero test c a = false
  exists_from (suc fuel) test c a = elim (load c a) [
    | none ↦ false
    | some node ↦ elim (test node.value) [ true ↦ true | false ↦ exists_from fuel test c node.next ]
  ]

  pub exists : (V → Bool) → Queue V → Bool
  unfolding exists_from
  exists test q = exists_from q.size test q.cells q.head

  -- The neighbours of a node that leaves are pointed at one another.
  pub relink : Cells V → Option ℕ → Option ℕ → Cells V
  unfolding set_next set_prev
  relink c none none = c
  relink c none (some n) = set_prev c (some n) none
  relink c (some p) none = set_next c (some p) none
  relink c (some p) (some n) = set_prev (set_next c (some p) (some n)) (some n) (some p)

  -- The first loop of `remove`: the head runs forward over the nodes that match.
  pub skip : ℕ → (V → Bool) → Queue V → Queue V
  unfolding load
  skip zero test q = q
  skip (suc fuel) test q = elim (load q.cells q.head) [
    | none ↦ q
    | some node ↦ elim (test node.value) [
      | true ↦ skip fuel test (record q { head = node.next; size = q.size - 1 })
      | false ↦ q
    ]
  ]

  -- The second loop of `remove`, from `currentNode` on.
  pub sweep : ℕ → (V → Bool) → Option ℕ → Queue V → Queue V
  unfolding load relink
  sweep zero test a q = q
  sweep (suc fuel) test a q = elim (load q.cells a) [
    | none ↦ q
    | some node ↦ elim (test node.value) [
      | true ↦ sweep fuel test node.next (record q {
        cells = relink q.cells node.prev node.next;
        tail = tail_after node.prev node.next q.tail;
        size = q.size - 1;
      })
      | false ↦ sweep fuel test node.next q
    ]
  ]

  -- `remove(id, key)`: `given` is false where `id` is falsy, and `test` is `value[key] === id`.
  pub remove : Bool → (V → Bool) → Queue V → Queue V
  unfolding skip sweep set_prev
  remove given test q = elim q.head [
    | none ↦ q
    | some _ ↦
        if not given
        then q
        else let q1 = skip q.size test q in
          elim q1.head [
            | none ↦ record q1 { tail = none }
            | some h ↦
                sweep q1.size test (some h) (record q1 { cells = set_prev q1.cells (some h) none })
          ]
  ]

  -- `extract(key, val)`: the loop stops at the first node that matches.
  pub extract_from : ℕ → (V → Bool) → Option ℕ → Queue V → Option V × Queue V
  unfolding load relink settle
  extract_from zero test a q = (none, q)
  extract_from (suc fuel) test a q = elim (load q.cells a) [
    | none ↦ (none, q)
    | some node ↦ elim (test node.value) [
      | true ↦ (
        some node.value,
        settle (record q {
          cells = relink q.cells node.prev node.next;
          head = head_after node.prev node.next q.head;
          tail = tail_after node.prev node.next q.tail;
          size = q.size - 1;
        }),
      )
      | false ↦ extract_from fuel test node.next q
    ]
  ]

  pub extract : (V → Bool) → Queue V → Option V × Queue V
  unfolding extract_from
  extract test q = extract_from q.size test q.head q
