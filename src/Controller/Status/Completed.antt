-- ===== src/Controller/Status/Completed.antt =====
-- The status in which _finishExecution of packages/teraslice/lib/workers/execution-controller/index.js leaves
-- an execution.
use mathlib.Core.Option.{some-injective}
use teraslice.Controller.Status.{
  Ending, Counts, finish_execution, unfinished, finished, settled, Failure, is_stopping,
}
use teraslice.Execution.Status.{Status, completed, failed, terminated}
use teraslice.Execution.Record.{Execution, MetaData}
use teraslice.Execution.Backend.{Backend, Patch, patched}
use teraslice.Execution.Phases.{phase}
use teraslice.Execution.Store.{get_status, set_status, update_metadata}
use teraslice.Execution.Update.{set_status_effect, set_status_iff, ok-injective}
use teraslice.Base.{
  ℕ, ◌≤◌, ◌<◌, String, ◌≡◌, refl, sym, ap, subst, ◌∙◌, ◌≢◌, ◌↔◌, inl, inr, Bool, true, false, not,
  ◌||◌, Option, none, some, arith, ltb, if◌then◌else◌, Bool-cases, ◌===◌, ===_iff, Result, ok, err,
  map_ok,
}

if-false {ℓ} : {A : Type ℓ} {b : Bool} (x y : A) → b ≡ false → (if b then x else y) ≡ y
if-false x y h = rw h refl

module _ (b : Backend) where
  open b use {Docs, get, update, get-update}

  -- The execution is stored with a status, and every write of it goes through.
  pub record Stored (d : Docs) (id : String) (s : Status) : Type 0 where
    pub named : (id === "") ≡ false
    pub execution : Execution
    pub found : get d id ≡ ok execution
    pub has : execution.status ≡ some s
    pub writes : (p : Patch) → (d' : Docs) × (update d id p ≡ ok d')

  pub Stored-get_status :
      (d : Docs) (id : String) (s : Status) → Stored d id s → get_status b d id ≡ ok (some s)
  unfolding get_status
  Stored-get_status d id s h = rw (h.named, h.found, h.has) refl

  pub get_status_of :
      (d : Docs) (id : String) (e : Execution)
      → (id === "") ≡ false
      → get d id ≡ ok e
      → get_status b d id ≡ ok e.status
  unfolding get_status
  get_status_of d id e h k = rw (h, k) refl

  -- `setStatus` from a status that has not ended to one that is in no earlier phase.
  pub set_status-stored :
      (d : Docs) (now : ℕ) (id : String) (s t : Status) (m : MetaData)
      → Stored d id s
      → phase s < 2
      → phase s ≤ phase t
      → phase t ≤ 2
      → get_status b (set_status b d now id t m).0 id ≡ ok (some t)
  unfolding patched
  set_status-stored d now id s t m h hs hst ht =
      let p : Patch = record { status = some t; meta = m; updated = now } in
      elim (set_status_effect b d now id t m id) [
        | inl (_, (f, k)) ↦
            let k' =
              (set_status_iff b d (h.writes p).0 now id s t m h.execution h.named h.found h.has
                  (h.writes p).1 (omega arith) ht).1
                (inr (hs, hst)) in
            cc
        | inr (_, k) ↦
            let found : get (set_status b d now id t m).0 id ≡ ok (patched p h.execution) =
              k ∙ ground (arith, ===_iff id id) ∙ ap (map_ok (patched p)) h.found in
            get_status_of (set_status b d now id t m).0 id (patched p h.execution) h.named found
      ]

  -- Metadata alone leaves the status.
  update_metadata-stored :
      (d : Docs) (now : ℕ) (id : String) (s : Status) (m : MetaData)
      → Stored d id s
      → get_status b (settled b d (update_metadata b d now id m)).0 id ≡ ok (some s)
  unfolding patched update_metadata
  update_metadata-stored d now id s m h =
      let p : Patch = record { status = none; meta = m; updated = now } in
      let (d', w) = h.writes p in
      let found : get d' id ≡ ok (patched p h.execution) =
        get-update d d' id id p w
        ∙ ground (arith, ===_iff id id)
        ∙ ap (map_ok (patched p)) h.found in
      rw w (get_status_of d' id (patched p h.execution) h.named found ∙ ap (λ x. ok x) h.has)

  unless :
      {r : Result Failure (Option Status)} (t : Status)
      → r ≡ ok (some t)
      → t ≢ completed
      → r ≢ ok (some completed)
  unless t h k e = k (some-injective _ _ (ok-injective (sym h ∙ e)))

  open_status : (s : Status) → phase s < 2 → s ≢ completed
  open_status s h e = let k = ap phase e in absurd (omega arith)

  counted-completed :
      (to_text : ℕ → String) (d : Docs) (now : ℕ) (id : String) (stats : Option String) (s : Status)
      (n m : ℕ)
      → Stored d id s
      → phase s < 2
      → (get_status b (finished b to_text d now id stats (ok n) (ok m)).0 id ≡ ok (some completed))
        ↔ ((n ≡ 0) × (m ≡ 0))
  counted-completed to_text d now id stats s n m h hs = elim (Bool-cases (ltb 0 n || ltb 0 m)) [
    | inl k ↦ rw k (
      λ e. absurd (
          unless failed (set_status-stored d now id s failed _ h hs (omega arith) (omega arith))
            (λ x. cc) e),
      λ z. absurd (ground arith),
    )
    | inr k ↦ rw k (
      λ _. ground arith,
      λ _. set_status-stored d now id s completed _ h hs (omega arith) (omega arith),
    )
  ]

  finished-completed :
      (to_text : ℕ → String) (d : Docs) (now : ℕ) (id : String) (stats : Option String) (s : Status)
      (errors started : Result String ℕ)
      → Stored d id s
      → phase s < 2
      → (get_status b (finished b to_text d now id stats errors started).0 id ≡ ok (some completed))
        ↔ ((errors ≡ ok 0) × (started ≡ ok 0))
  finished-completed to_text d now id stats s (err m) started h hs =
      (λ e. absurd (unless s (Stored-get_status d id s h) (open_status s hs) e), λ z. cc)
  finished-completed to_text d now id stats s (ok n) (err m) h hs =
      (λ e. absurd (unless s (Stored-get_status d id s h) (open_status s hs) e), λ z. cc)
  finished-completed to_text d now id stats s (ok n) (ok m) h hs =
      let k = counted-completed to_text d now id stats s n m h hs in
      (
        λ e. (ap (λ x. ok x) (k.0 e).0, ap (λ x. ok x) (k.0 e).1),
        λ z. k.1 (ok-injective z.0, ok-injective z.1),
      )

  unfinished_lem :
      (d : Docs) (now : ℕ) (id : String) (stats : Option String) (s : Status)
      → Stored d id s
      → phase s < 2
      → get_status b (unfinished b d now id stats (ok (some s))).0 id ≢ ok (some completed)
  unfinished_lem d now id stats s h hs = elim (Bool-cases (is_stopping b (some s))) [
    | inl k ↦ rw k (unless s (update_metadata-stored d now id s _ h) (open_status s hs))
    | inr k ↦ rw k (
        unless terminated
          (set_status-stored d now id s terminated _ h hs (omega arith) (omega arith)) (λ x. cc))
  ]

  -- The three ways of the update.
  way-completed :
      (to_text : ℕ → String) (d : Docs) (now : ℕ) (id : String) (stats : Option String) (s : Status)
      (errors started : Result String ℕ) (slicer_failed is_done : Bool)
      → Stored d id s
      → phase s < 2
      → (get_status b
            (if slicer_failed
              then (d, none)
              else if not is_done
              then unfinished b d now id stats (get_status b d id)
              else finished b to_text d now id stats errors started).0
            id
          ≡ ok (some completed))
        ↔ ((slicer_failed ≡ false) × (is_done ≡ true) × (errors ≡ ok 0) × (started ≡ ok 0))
  way-completed to_text d now id stats s errors started true is_done h hs =
      (λ e. absurd (unless s (Stored-get_status d id s h) (open_status s hs) e), λ z. cc)
  way-completed to_text d now id stats s errors started false false h hs = (
    λ e. absurd (
        unfinished_lem d now id stats s h hs (
          subst (λ x. get_status b (unfinished b d now id stats x).0 id ≡ ok (some completed))
            (Stored-get_status d id s h) e)),
    λ z. cc,
  )
  way-completed to_text d now id stats s errors started false true h hs =
      let k = finished-completed to_text d now id stats s errors started h hs in
      (λ e. (refl, refl, (k.0 e).0, (k.0 e).1), λ z. k.1 (z.2, z.3))

  -- An execution that has not ended, and that is stored, is completed by finishing it exactly when the
  -- slicer has not failed, all slices were processed, and the state storage counts no slice with an
  -- error and none that was started only. The storage takes every write, and it is finished once.
  pub finish_execution-completed :
      (to_text : ℕ → String) (now : ℕ) (id : String) (stats : Option String) (counts : Counts)
      (e : Ending b) (s : Status)
      → Stored e.docs id s
      → phase s < 2
      → e.is_execution_finished ≡ false
      → (get_status b (finish_execution b to_text now id stats counts e).docs id
          ≡ ok (some completed))
        ↔ ((e.slicer_failed ≡ false)
            × (e.is_done_processing ≡ true)
            × (counts.errors ≡ ok 0)
            × (counts.started ≡ ok 0))
  unfolding finish_execution
  finish_execution-completed to_text now id stats counts e s h hs hf = rw (if-false _ _ hf) (
      way-completed to_text e.docs now id stats s counts.errors counts.started e.slicer_failed
        e.is_done_processing h hs)
