-- ===== src/Controller/Status/Held.antt =====
-- A stored execution of packages/teraslice/lib/workers/execution-controller/index.js keeps a status in which it has ended.
use teraslice.Controller.Status.{settled}
use teraslice.Controller.Status.Completed.{get_status_of}
use teraslice.Execution.Status.{Status}
use teraslice.Execution.Record.{Execution, MetaData}
use teraslice.Execution.Backend.{Backend, Patch, patched}
use teraslice.Execution.Phases.{phase, check_update_iff, is_valid_iff}
use teraslice.Execution.Store.{get_status, set_status, update_metadata, check_update}
use teraslice.Execution.Update.{set_status_cases, Result-cases, ok-injective}
use teraslice.Base.{
  ℕ, ◌≤◌, ◌<◌, String, ◌≡◌, refl, sym, ap, subst, ◌∙◌, ◌⊎◌, inl, inr, true, false, none, some,
  arith, ◌===◌, ===_iff, ok, map_ok, is_ok,
}

still : (s t : Status) → phase s ≡ 2 → (s ≡ t) ⊎ ((phase s < 2) × (phase s ≤ phase t)) → s ≡ t
still s t h (inl k) = k
still s t h (inr k) = absurd (omega arith)

module _ (b : Backend) where
  open b use {Docs, get, update, get-update}

  -- The execution is stored with a status.
  pub record Held (id : String) (s : Status) (d : Docs) : Type 0 where
    pub execution : Execution
    pub found : get d id ≡ ok execution
    pub has : execution.status ≡ some s

  -- `setStatus` does not move an execution that has ended.
  pub set_status-Held :
      (d : Docs) (now : ℕ) (id : String) (s t : Status) (m : MetaData)
      → phase s ≡ 2
      → Held id s d
      → Held id s (set_status b d now id t m).0
  unfolding patched
  set_status-Held d now id s t m hs h = elim (set_status_cases b d now id t m) [
    | inl (same, _) ↦ rw same h
    | inr (u, _) ↦
        let p : Patch = record { status = some t; meta = m; updated = now } in
        let same =
          ap (λ (x : Execution). x.status) (ok-injective (sym u.found ∙ h.found)) ∙ h.has in
        let k =
          (check_update_iff s t (omega arith) ((is_valid_iff t).0 u.valid)).0
            (subst (λ x. is_ok (check_update x t) ≡ true) same u.allowed) in
        record {
          execution = patched p h.execution;
          found =
              get-update d _ id id p u.written
              ∙ ground (arith, ===_iff id id)
              ∙ ap (map_ok (patched p)) h.found;
          has = ap (λ x. some x) (sym (still s t hs k));
        }
  ]

  pub update_metadata-Held :
      (d : Docs) (now : ℕ) (id : String) (s : Status) (m : MetaData)
      → Held id s d
      → Held id s (settled b d (update_metadata b d now id m)).0
  unfolding patched update_metadata
  update_metadata-Held d now id s m h =
      let p : Patch = record { status = none; meta = m; updated = now } in
      elim (Result-cases (update d id p)) [
        | inr (e, k) ↦ rw k h
        | inl (d', k) ↦ rw k (record {
          execution = patched p h.execution;
          found =
              get-update d d' id id p k
              ∙ ground (arith, ===_iff id id)
              ∙ ap (map_ok (patched p)) h.found;
          has = h.has;
        })
      ]

  pub Held-get_status :
      (d : Docs) (id : String) (s : Status)
      → (id === "") ≡ false
      → Held id s d
      → get_status b d id ≡ ok (some s)
  unfolding get_status
  Held-get_status d id s n h = rw (n, h.found, h.has) refl

  pub get_status-Held :
      (d : Docs) (id : String) (s : Status)
      → (id === "") ≡ false
      → get_status b d id ≡ ok (some s)
      → Held id s d
  unfolding get_status
  get_status-Held d id s n h = elim (Result-cases (get d id)) [
    | inl (e, k) ↦ record {
      execution = e;
      found = k;
      has = ok-injective (sym (get_status_of b d id e n k) ∙ h);
    }
    | inr (e, k) ↦ absurd (ground arith)
  ]
