-- ===== src/Controller/Recovery/Coverage.antt =====
-- Which slicers' slices packages/teraslice/lib/workers/execution-controller/recovery.js recovers, and
-- what it waits for.
use mathlib.Core.List.{append-nil, append_assoc}
use teraslice.Controller.Slice.{Slice}
use teraslice.Controller.Recovery.{
  Recovery, make_recovery, initialize, assign, slice_complete, enqueue_all, handle, check_batch,
  every_false, recovery_batch_completed, get_slice, get_slices,
}
use teraslice.Base.{
  ℕ, String, ◌≡◌, refl, sym, ap, ◌∙◌, ◌≢◌, ◌⊎◌, inl, inr, Bool, true, false, Option, none, some,
  List, [], ◌∷◌, ◌++◌, arith, if◌then◌else◌, Bool-cases, ◌===◌, ===_iff, any_of,
}

-- `retryState[id]`
abbrev pub retry_of : String → List (String × Bool) → Option Bool
retry_of id [] = none
retry_of id ((k, v) ∷ m) = if k === id then some v else retry_of id m

retry_of-assign :
    (id j : String) (v : Bool) (m : List (String × Bool))
    → retry_of j (assign id v m) ≡ (if id === j then some v else retry_of j m)
retry_of-assign id j v [] = refl
retry_of-assign id j v ((k, w) ∷ m) =
    ground (arith, ===_iff k id, ===_iff k j, ===_iff id j, retry_of-assign id j v m)

abbrev set_all : List Slice → List (String × Bool) → List (String × Bool)
set_all [] m = m
set_all (s ∷ l) m = set_all l (assign s.slice_id true m)

-- Only the retry state and the queue change, and the slices keep their order.
pub enqueue_all_lem :
    (l : List Slice) (r : Recovery)
    → enqueue_all l r
      ≡ record r { retry_state = set_all l r.retry_state; recovery_queue = r.recovery_queue ++ l }
unfolding enqueue_all
enqueue_all_lem [] r = ap (λ q. record r { recovery_queue = q }) (sym (append-nil r.recovery_queue))
enqueue_all_lem (s ∷ l) r =
    enqueue_all_lem l (record r {
      retry_state = assign s.slice_id true r.retry_state;
      recovery_queue = r.recovery_queue ++ s ∷ [];
    })
    ∙ ap (λ q. record r { retry_state = set_all (s ∷ l) r.retry_state; recovery_queue = q })
        (append_assoc r.recovery_queue (s ∷ []) l)

module _ (store : String → ℕ → Option String → List Slice) where
  -- What may happen to a recovery that is not shut down, in any order. `handle` is called only
  -- while no call of it waits, and the interval runs only while one does.
  pub data Step (r : Recovery) : Recovery → Type 0 where
    calls : r.handling ≡ none → Step r (handle store r).0
    checks : (b : Bool) → r.handling ≡ some b → Step r (check_batch r).0
    completes : (id : String) → Step r (slice_complete r id)
    gives : Step r (get_slice r).1
    gives_many : (max : ℕ) → Step r (get_slices max r).1

  pub data Reach (r : Recovery) : Recovery → Type 0 where
    here : Reach r r
    next : {s t : Recovery} → Reach r s → Step s t → Reach r t

  record Inv (r : Recovery) : Type 0 where
    alive : r.is_shutdown ≡ false
    asked :
        ((r.queried ≡ []) × (r.slicer_id ≡ 0))
        ⊎ ((r.queried ≡ 0 ∷ []) × (r.handling ≡ none → r.recover_complete ≡ true))

  handle-Inv : (r : Recovery) → r.handling ≡ none → Inv r → Inv (handle store r).0
  unfolding handle
  handle-Inv r idle v = ground (
    arith,
    enqueue_all_lem (store r.recover_execution r.slicer_id r.cleanup_type)
        (record r { queried = r.slicer_id ∷ r.queried }),
  )

  check_batch-Inv : (r : Recovery) (b : Bool) → r.handling ≡ some b → Inv r → Inv (check_batch r).0
  unfolding check_batch
  check_batch-Inv r b busy v = ground arith

  slice_complete-Inv : (r : Recovery) (id : String) → Inv r → Inv (slice_complete r id)
  unfolding slice_complete
  slice_complete-Inv r id v = record { alive = v.alive; asked = v.asked }

  get_slice-Inv : (r : Recovery) → Inv r → Inv (get_slice r).1
  unfolding get_slice
  get_slice-Inv r v = ground arith

  get_slices-Inv : (r : Recovery) (max : ℕ) → Inv r → Inv (get_slices max r).1
  unfolding get_slices
  get_slices-Inv r max v = record { alive = v.alive; asked = v.asked }

  Step-Inv : {r s : Recovery} → Step r s → Inv r → Inv s
  Step-Inv {r} (calls idle) v = handle-Inv r idle v
  Step-Inv {r} (checks b busy) v = check_batch-Inv r b busy v
  Step-Inv {r} (completes id) v = slice_complete-Inv r id v
  Step-Inv {r} gives v = get_slice-Inv r v
  Step-Inv {r} (gives_many max) v = get_slices-Inv r max v

  Reach-Inv : {r s : Recovery} → Inv r → Reach r s → Inv s
  Reach-Inv v here = v
  Reach-Inv v (next w st) = Step-Inv st (Reach-Inv v w)

  abbrev pub started : ℕ → Option String → String → Recovery
  started slicers cleanup execution = initialize (make_recovery slicers cleanup execution)

  started-Inv :
      (slicers : ℕ) (cleanup : Option String) (execution : String)
      → Inv (started slicers cleanup execution)
  unfolding initialize make_recovery
  started-Inv slicers cleanup execution = record { alive = refl; asked = inl (refl, refl) }

  -- However many slicers an execution has, and whatever happens in whatever order before a shutdown,
  -- its recovery asks the state store at most once, for the slices of slicer 0. The incomplete
  -- slices of the other slicers are never asked for.
  pub recovery_queries_first :
      (slicers : ℕ) (cleanup : Option String) (execution : String) (r : Recovery)
      → Reach (started slicers cleanup execution) r
      → (r.queried ≡ []) ⊎ (r.queried ≡ 0 ∷ [])
  recovery_queries_first slicers cleanup execution r w =
      ground (arith, Reach-Inv (started-Inv slicers cleanup execution) w)

retry_of-set_all_old :
    (l : List Slice) (j : String) (m : List (String × Bool))
    → retry_of j m ≡ some true
    → retry_of j (set_all l m) ≡ some true
retry_of-set_all_old [] j m h = h
retry_of-set_all_old (s ∷ l) j m h =
    retry_of-set_all_old l j (assign s.slice_id true m)
      (ground (arith, retry_of-assign s.slice_id j true m))

-- Every slice of the batch waits.
abbrev Waiting : List (String × Bool) → List Slice → Type 0
Waiting m [] = Unit
Waiting m (s ∷ l) = (retry_of s.slice_id m ≡ some true) × Waiting m l

set_all-Waiting : (l : List Slice) (m : List (String × Bool)) → Waiting (set_all l m) l
set_all-Waiting [] m = tt
set_all-Waiting (s ∷ l) m = (
  retry_of-set_all_old l s.slice_id _
      (ground (arith, retry_of-assign s.slice_id s.slice_id true m, ===_iff s.slice_id s.slice_id)),
  set_all-Waiting l (assign s.slice_id true m),
)

every_false-ne :
    (j : String) (m : List (String × Bool)) → every_false m ≡ true → retry_of j m ≢ some true
every_false-ne j [] h = ground arith
every_false-ne j ((k, v) ∷ m) h = ground (arith, every_false-ne j m)

-- The events of slices that have succeeded.
unfoldable pub complete_all : List String → Recovery → Recovery
complete_all [] r = r
complete_all (id ∷ ids) r = complete_all ids (slice_complete r id)

-- Every slice of the batch has succeeded.
abbrev pub AllDone : List String → List Slice → Type 0
AllDone ids [] = Unit
AllDone ids (s ∷ l) = (any_of (λ id. id === s.slice_id) ids ≡ true) × AllDone ids l

complete_all_waits :
    (ids : List String) (j : String) (r : Recovery)
    → retry_of j r.retry_state ≡ some true
    → any_of (λ id. id === j) ids ≡ false
    → retry_of j (complete_all ids r).retry_state ≡ some true
unfolding complete_all slice_complete
complete_all_waits [] j r h k = h
complete_all_waits (id ∷ ids) j r h k =
    complete_all_waits ids j (slice_complete r id)
      (ground (arith, retry_of-assign id j false r.retry_state)) (ground arith)

AllDone-of_batch :
    (ids : List String) (l : List Slice) (r : Recovery)
    → Waiting r.retry_state l
    → recovery_batch_completed (complete_all ids r) ≡ true
    → AllDone ids l
unfolding recovery_batch_completed
AllDone-of_batch ids [] r w h = tt
AllDone-of_batch ids (s ∷ l) r w h = elim (Bool-cases (any_of (λ id. id === s.slice_id) ids)) [
  | inl hit ↦ (hit, AllDone-of_batch ids l r w.1 h)
  | inr miss ↦ absurd (every_false-ne s.slice_id _ h (complete_all_waits ids s.slice_id r w.0 miss))
]

-- A run of the interval that waits for a batch, after any slices have succeeded, ends the wait only where
-- every slice of the batch has succeeded, and the recovery then counts as complete, or where the recovery
-- is shut down, and then it does not.
pub batch_waits :
    (l : List Slice) (ids : List String) (r : Recovery) (answer : Bool)
    → (check_batch (complete_all ids (enqueue_all l r))).1 ≡ some answer
    → let r' = complete_all ids (enqueue_all l r) in
      (AllDone ids l × ((check_batch r').0.recover_complete ≡ true))
      ⊎ ((r'.is_shutdown ≡ true) × ((check_batch r').0.recover_complete ≡ false))
unfolding check_batch
batch_waits l ids r answer h =
    let r' = complete_all ids (enqueue_all l r) in
    elim (Bool-cases (recovery_batch_completed r')) [
      | inl k ↦ inl (
        AllDone-of_batch ids l (enqueue_all l r)
            (rw (enqueue_all_lem l r) (set_all-Waiting l r.retry_state)) k,
        ground (arith, k),
      )
      | inr k ↦ elim (Bool-cases r'.is_shutdown) [
        | inl d ↦ inr (d, ground (arith, k, d))
        | inr d ↦ absurd (ground (arith, k, d, h))
      ]
    ]
