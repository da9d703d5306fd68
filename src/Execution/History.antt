-- ===== src/Execution/History.antt =====
-- A history of calls of `setStatus` of packages/teraslice/lib/cluster/storage/execution.js.
use teraslice.Base.{
  ℕ, ◌≡◌, ◌⊎◌, inl, inr, refl, true, some, String, arith, ok, is_ok, ◌===◌, List, Bool-cases,
  map_ok, ◌∷◌, ◌∙◌, [], ◌≤◌, ◌<◌, ===_iff, subst, sym, ap,
}
use teraslice.Execution.Status.{Status}
use teraslice.Execution.Record.{Execution, MetaData}
use teraslice.Execution.Backend.{Backend, Patch, patched}
use teraslice.Execution.Store.{check_update, set_status}
use teraslice.Execution.Phases.{phase, check_update_iff, is_valid_iff}
use teraslice.Execution.Update.{set_status_cases, ok-injective}

later_trans :
    (s t u : Status)
    → (s ≡ t) ⊎ ((phase s < 2) × (phase s ≤ phase t))
    → (t ≡ u) ⊎ ((phase t < 2) × (phase t ≤ phase u))
    → (s ≡ u) ⊎ ((phase s < 2) × (phase s ≤ phase u))
later_trans s t u (inl h) (inl k) = inl (h ∙ k)
later_trans s t u (inl h) (inr k) = inr (rw h k)
later_trans s t u (inr h) (inl k) = inr (rw (← k) h)
later_trans s t u (inr h) (inr k) = inr (h.0, omega arith)

module _ (b : Backend) where
  open b use {Docs, get, update, get-update}

  -- A history of calls, by whoever makes them.
  pub record Request : Type 0 where
    pub now : ℕ
    pub id : String
    pub status : Status
    pub meta : MetaData

  unfoldable pub run : Docs → List Request → Docs
  run d [] = d
  run d (r ∷ rs) = run (set_status b d r.now r.id r.status r.meta).0 rs

  -- The execution is stored with a status that `s` leads to.
  pub record IsPast (s : Status) (d : Docs) (id : String) : Type 0 where
    pub execution : Execution
    pub status : Status
    pub found : get d id ≡ ok execution
    pub has : execution.status ≡ some status
    pub valid : phase status ≤ 2
    pub later : (s ≡ status) ⊎ ((phase s < 2) × (phase s ≤ phase status))

  set_status-IsPast :
      (s : Status) (d : Docs) (id : String) (r : Request)
      → IsPast s d id
      → IsPast s (set_status b d r.now r.id r.status r.meta).0 id
  unfolding patched
  set_status-IsPast s d id r p = elim (set_status_cases b d r.now r.id r.status r.meta) [
    | inl (same, _) ↦ rw same p
    | inr (u, _) ↦ elim (Bool-cases (r.id === id)) [
      | inl hit ↦
          let p' : Patch = record { status = some r.status; meta = r.meta; updated = r.now } in
          let same_id : r.id ≡ id = (===_iff r.id id).0 hit in
          let stored : u.execution ≡ p.execution =
            ok-injective (sym u.found ∙ ap (get d) same_id ∙ p.found) in
          record {
            execution =
                patched (record { status = some r.status; meta = r.meta; updated = r.now })
                  p.execution;
            status = r.status;
            found = get-update d _ r.id id _ u.written ∙ rw hit (ap (map_ok (patched p')) p.found);
            has = refl;
            valid = (is_valid_iff r.status).0 u.valid;
            later = later_trans s p.status r.status p.later (
                (check_update_iff p.status r.status p.valid ((is_valid_iff r.status).0 u.valid)).0 (
                  subst (λ x. is_ok (check_update x r.status) ≡ true)
                    (ap (λ (x : Execution). x.status) stored ∙ p.has) u.allowed));
          }
      | inr miss ↦ record {
        execution = p.execution;
        status = p.status;
        found = get-update d _ r.id id _ u.written ∙ rw miss p.found;
        has = p.has;
        valid = p.valid;
        later = p.later;
      }
    ]
  ]

  run-IsPast :
      (s : Status) (id : String) (d : Docs) (rs : List Request)
      → IsPast s d id
      → IsPast s (run d rs) id
  unfolding run
  run-IsPast s id d [] p = p
  run-IsPast s id d (r ∷ rs) p =
      run-IsPast s id (set_status b d r.now r.id r.status r.meta).0 rs
        (set_status-IsPast s d id r p)

  -- Whatever calls of `setStatus` are made, for any executions, an execution that is stored stays
  -- stored, with the status that it had or, if that had not ended, with one of the same or a later
  -- phase. So an execution that ended keeps its status, and one that ran never starts again.
  pub run_keeps_order :
      (d : Docs) (rs : List Request) (id : String) (e : Execution) (s : Status)
      → get d id ≡ ok e
      → e.status ≡ some s
      → phase s ≤ 2
      → IsPast s (run d rs) id
  run_keeps_order d rs id e s found has valid = run-IsPast s id d rs (record {
    execution = e;
    status = s;
    found = found;
    has = has;
    valid = valid;
    later = inl refl;
  })
