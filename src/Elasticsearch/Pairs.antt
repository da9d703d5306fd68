-- ===== src/Elasticsearch/Pairs.antt =====
-- The index arithmetic of _filterResponse in packages/elasticsearch-api/index.js picks the pairs of lines
-- whose items were refused.
use teraslice.Elasticsearch.Bulk.{
  Item, ItemError, handled, resend, fatal, verdict, get_elem?, Filtered, filter_from,
  filter_response,
}
use teraslice.Base.{
  suc, ◌+◌, ◌*◌, ◌≡◌, refl, Option, none, some, List, [], ◌∷◌, ◌++◌, map, arith, length,
  length-append,
}
use mathlib.Core.List.{append_assoc, append-nil}

-- A request: an action and its document, for each item.
pub flatten : {A : Type 0} → List (A × A) → List A
flatten [] = []
flatten ((a, d) ∷ l) = a ∷ d ∷ flatten l

-- The pairs of the refused items.
pub resent : {A : Type 0} → List (A × A) → List Item → List (A × A)
resent pairs [] = []
resent [] (i ∷ items) = []
resent (p ∷ pairs) (i ∷ items) = elim (verdict i) [
  | handled ↦ resent pairs items
  | resend ↦ p ∷ resent pairs items
  | fatal e ↦ resent pairs items
]

pub first_fatal : List Item → Option ItemError
first_fatal [] = none
first_fatal (i ∷ items) = elim (verdict i) [
  | handled ↦ first_fatal items
  | resend ↦ first_fatal items
  | fatal e ↦ some e
]

-- What should be sent again: nothing after an error that cannot be retried.
pub expected : {A : Type 0} → Option ItemError → List (Option A) → Filtered A
expected none lines = record { lines = lines; reason = none }
expected (some e) lines = record { lines = []; reason = some e }

get_elem?-flatten :
    {A : Type 0} (before : List (A × A)) (p : A × A) (after : List (A × A))
    → let lines = flatten (before ++ p ∷ after) in
      (get_elem? lines (length before * 2) ≡ some p.0)
      × (get_elem? lines (length before * 2 + 1) ≡ some p.1)
unfolding flatten
get_elem?-flatten [] p after = (refl, refl)
get_elem?-flatten (q ∷ before) p after =
    let n = length before in
    let even : suc n * 2 ≡ suc (suc (n * 2)) = omega arith in
    let odd : suc n * 2 + 1 ≡ suc (suc (n * 2 + 1)) = omega arith in
    rw (odd, even) (get_elem?-flatten before p after)

filter_from-next :
    {A : Type 0} (before : List (A × A)) (p : A × A) (after : List (A × A)) (items : List Item)
    (retry : List (Option A))
    → filter_from (flatten ((before ++ p ∷ []) ++ after)) (length (before ++ p ∷ [])) items retry
      ≡ expected (first_fatal items) (retry ++ map some (flatten (resent after items)))
    → filter_from (flatten (before ++ p ∷ after)) (length before + 1) items retry
      ≡ expected (first_fatal items) (retry ++ map some (flatten (resent after items)))
filter_from-next before p after items retry h =
    rw (← append_assoc before (p ∷ []) after, ← length-append before (p ∷ [])) h

filter_from-expected :
    {A : Type 0} (before after : List (A × A)) (items : List Item) (retry : List (Option A))
    → length after ≡ length items
    → filter_from (flatten (before ++ after)) (length before) items retry
      ≡ expected (first_fatal items) (retry ++ map some (flatten (resent after items)))
unfolding filter_from expected first_fatal resent flatten
filter_from-expected before after [] retry h = rw append-nil refl
filter_from-expected before [] (i ∷ items) retry h = absurd (omega arith)
filter_from-expected before (p ∷ after) (i ∷ items) retry h =
    let next : (r : List (Option _)) → _ = λ r.
      filter_from-next before p after items r
        (filter_from-expected (before ++ p ∷ []) after items r (omega (arith, h))) in
    ground (
      arith,
      next retry,
      next (retry ++ some p.0 ∷ some p.1 ∷ []),
      get_elem?-flatten before p after,
      append_assoc retry (some p.0 ∷ some p.1 ∷ []) (map some (flatten (resent after items))),
    )

-- Where the answer has an item for each pair of lines, the loop, which counts lines, gives the pairs of
-- the refused items in their order, or nothing and the first error that cannot be retried.
pub filter_response-expected :
    {A : Type 0} (pairs : List (A × A)) (items : List Item)
    → length pairs ≡ length items
    → filter_response (flatten pairs) items
      ≡ expected (first_fatal items) (map some (flatten (resent pairs items)))
unfolding filter_response
filter_response-expected pairs items h = filter_from-expected [] pairs items [] h
