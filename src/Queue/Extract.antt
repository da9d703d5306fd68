-- ===== src/Queue/Extract.antt =====
-- `extract` of packages/queue/index.js on the list that the queue holds.
use teraslice.Base.{
  ℕ, zero, suc, ◌-◌, ◌<◌, ◌≡◌, refl, sym, ◌∙◌, ap, subst, Bool, true, false, Option, none, some,
  List, [], ◌∷◌, ◌++◌, arith, length, length-append, Bool-cases, inl, inr, ◌≤◌,
}
use teraslice.Queue.{Queue, Node, settle, extract_from, extract, relink, head_after, tail_after}
use teraslice.Queue.Links.{Chain, head_of, last_of, values}
use teraslice.Queue.Holds.{Fits, Holds, Fits-Holds, values-append}
use teraslice.Queue.Unlink.{
  settle-Fits, Linked-at, last_of-append_cons, Linked-relink, Distinct-remove, Below-remove,
}
use teraslice.Queue.Spec
use mathlib.Core.List.{append-nil, append_assoc}

head_after-some : (e : ℕ) (n : Option ℕ) (d : ℕ) → head_after (some e) n (some d) ≡ some d
head_after-some e none d = refl
head_after-some e (some n) d = refl

tail_after_next : (p : Option ℕ) (b : ℕ) (t : Option ℕ) → tail_after p (some b) t ≡ t
tail_after_next none b t = refl
tail_after_next (some p) b t = refl

module _ {V : Type 0} where
  -- The node at `a`, between `p` and `n`, leaves.
  abbrev pub without : Queue V → Option ℕ → Option ℕ → Queue V
  without q p n = record q {
    cells = relink q.cells p n;
    head = head_after p n q.head;
    tail = tail_after p n q.tail;
    size = q.size - 1;
  }

  extract_from_hit :
      (fuel : ℕ) (test : V → Bool) (a : ℕ) (q : Queue V) (node : Node V)
      → q.cells a ≡ some node
      → test node.value ≡ true
      → extract_from (suc fuel) test (some a) q
        ≡ (some node.value, settle (without q node.prev node.next))
  unfolding extract_from
  extract_from_hit fuel test a q node e h = ground arith

  extract_from_miss :
      (fuel : ℕ) (test : V → Bool) (a : ℕ) (q : Queue V) (node : Node V)
      → q.cells a ≡ some node
      → test node.value ≡ false
      → extract_from (suc fuel) test (some a) q ≡ extract_from fuel test node.next q
  unfolding extract_from
  extract_from_miss fuel test a q node e h = rw (e, extract_from) (rw h)

  pub length-remove :
      (xs : Chain V) (a : ℕ) (v : V) (ys : Chain V)
      → length (xs ++ (a, v) ∷ ys) ≡ suc (length (xs ++ ys))
  length-remove xs a v ys = omega (arith, length-append xs ((a, v) ∷ ys), length-append xs ys)

  last_of-some : (d : ℕ) (xs : Chain V) → (e : ℕ) × (last_of (some d) xs ≡ some e)
  last_of-some d [] = (d, refl)
  last_of-some d ((b, w) ∷ xs) = last_of-some b xs

  head_after_lem :
      (xs : Chain V) (a : ℕ) (v : V) (ys : Chain V)
      → 0 < length (xs ++ ys)
      → head_after (last_of none xs) (head_of ys) (head_of (xs ++ (a, v) ∷ ys)) ≡ head_of (xs ++ ys)
  head_after_lem [] a v [] h = absurd (omega arith)
  head_after_lem [] a v ((b, w) ∷ ys) h = refl
  head_after_lem ((d, u) ∷ xs) a v ys h =
      let (e, k) = last_of-some d xs in rw k (head_after-some e (head_of ys) d)

  pub tail_after_lem :
      (xs : Chain V) (a : ℕ) (v : V) (ys : Chain V)
      → 0 < length (xs ++ ys)
      → tail_after (last_of none xs) (head_of ys) (last_of none (xs ++ (a, v) ∷ ys))
        ≡ last_of none (xs ++ ys)
  tail_after_lem [] a v [] h = absurd (omega arith)
  tail_after_lem ((d, u) ∷ xs) a v [] h =
      let (e, k) = last_of-some d xs in rw (append-nil ((d, u) ∷ xs), k) refl
  tail_after_lem xs a v ((b, w) ∷ ys) h =
      tail_after_next (last_of none xs) b _
      ∙ last_of-append_cons none xs a v ((b, w) ∷ ys)
      ∙ sym (last_of-append_cons none xs b w ys)

  -- A queue that its node leaves fits the rest of the chain.
  without-Fits :
      (q : Queue V) (xs : Chain V) (a : ℕ) (v : V) (ys : Chain V)
      → Fits q (xs ++ (a, v) ∷ ys)
      → Fits (settle (without q (last_of none xs) (head_of ys))) (xs ++ ys)
  without-Fits q xs a v ys f =
      settle-Fits _ (xs ++ ys)
        (λ m. ap (head_after (last_of none xs) (head_of ys)) f.first ∙ head_after_lem xs a v ys m)
        (omega (arith, f.counted, length-remove xs a v ys))
        (λ m.
          ap (tail_after (last_of none xs) (head_of ys)) f.last
          ∙ tail_after_lem xs a v ys (omega arith))
        (Linked-relink q.cells none xs a v ys tt f.distinct f.linked)
        (Distinct-remove xs a v ys f.distinct) (Below-remove q.fresh xs a v ys f.below)

  -- What `extract` does to a list, from a node on.
  abbrev Extracts : (V → Bool) → List V → List V → Option V × Queue V → Type 0
  Extracts test us vs r =
      (r.0 ≡ (Spec.extract test vs).0) × Holds r.1 (us ++ (Spec.extract test vs).1)

  pub values_shift :
      (xs : Chain V) (a : ℕ) (v : V) (vs : List V)
      → values (xs ++ (a, v) ∷ []) ++ vs ≡ values xs ++ v ∷ vs
  values_shift xs a v vs =
      rw (values-append xs ((a, v) ∷ [])) (append_assoc (values xs) (v ∷ []) vs)

  extract_from_end :
      (fuel : ℕ) (test : V → Bool) (q : Queue V) → extract_from fuel test none q ≡ (none, q)
  unfolding extract_from
  extract_from_end zero test q = refl
  extract_from_end (suc fuel) test q = refl

  -- The state of the loop of `extract`: the nodes `xs` are passed, the nodes `ys` are to come.
  Extracts-shift :
      (test : V → Bool) (xs : Chain V) (a : ℕ) (v : V) (vs : List V) (r : Option V × Queue V)
      → Extracts test (values (xs ++ (a, v) ∷ [])) vs r
      → (r.0 ≡ (Spec.extract test vs).0) × Holds r.1 (values xs ++ v ∷ (Spec.extract test vs).1)
  Extracts-shift test xs a v vs r h = (h.0, subst (Holds r.1) (values_shift xs a v _) h.1)

  extract_from-Extracts :
      (fuel : ℕ) (test : V → Bool) (q : Queue V) (xs ys : Chain V)
      → length ys ≤ fuel
      → Fits q (xs ++ ys)
      → Extracts test (values xs) (values ys) (extract_from fuel test (head_of ys) q)
  unfolding Spec.extract
  extract_from-Extracts fuel test q xs [] m f =
      rw (extract_from_end fuel test q)
        (refl, subst (Holds q) (values-append xs []) (Fits-Holds q (xs ++ []) f))
  extract_from-Extracts zero test q xs ((a, v) ∷ ys) m f = absurd (omega arith)
  extract_from-Extracts (suc fuel) test q xs ((a, v) ∷ ys) m f = elim (Bool-cases (test v)) [
    | inl hit ↦
        rw (extract_from_hit fuel test a q _ (Linked-at q.cells none xs a v ys f.linked) hit, hit)
          (
            refl,
            subst (Holds _) (values-append xs ys)
                (Fits-Holds _ (xs ++ ys) (without-Fits q xs a v ys f)),
          )
    | inr miss ↦
        rw
          (extract_from_miss fuel test a q _ (Linked-at q.cells none xs a v ys f.linked) miss, miss)
          (Extracts-shift test xs a v (values ys) _ (
            extract_from-Extracts fuel test q (xs ++ (a, v) ∷ []) ys (omega arith)
              (subst (Fits q) (sym (append_assoc xs ((a, v) ∷ []) ys)) f)))
  ]

  -- `extract` takes the first value that passes the test and keeps the others in their order; it
  -- answers null and changes nothing where none passes.
  pub extract-Extracts :
      (test : V → Bool) (q : Queue V) (vs : List V)
      → Holds q vs
      → ((extract test q).0 ≡ (Spec.extract test vs).0)
        × Holds (extract test q).1 (Spec.extract test vs).1
  unfolding extract
  extract-Extracts test q vs h =
      subst
        (λ l.
          ((extract test q).0 ≡ (Spec.extract test l).0)
          × Holds (extract test q).1 (Spec.extract test l).1)
        h.shows
        (subst (λ p. Extracts test [] (values h.nodes) (extract_from q.size test p q)) (sym h.first)
          (extract_from-Extracts q.size test q [] h.nodes (omega (arith, h.counted)) h.fits))
