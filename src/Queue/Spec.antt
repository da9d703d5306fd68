-- ===== src/Queue/Spec.antt =====
-- What packages/queue promises: a list, the head first.
use teraslice.Base.{Bool, Option, none, some, List, [], ◌∷◌, if◌then◌else◌, keep_if, not}

module _ {V : Type 0} where
  unfoldable pub dequeue : List V → Option V × List V
  dequeue [] = (none, [])
  dequeue (v ∷ vs) = (some v, vs)

  -- The first value that passes the test leaves.
  unfoldable pub extract : (V → Bool) → List V → Option V × List V
  extract test [] = (none, [])
  extract test (v ∷ vs) =
      if test v then (some v, vs) else (let (r, rest) = extract test vs in (r, v ∷ rest))

  abbrev pub reject_if : (V → Bool) → List V → List V
  reject_if test = keep_if (λ v. not (test v))
