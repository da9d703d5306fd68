-- ===== src/Services/JobsService/Starting.antt =====
-- When startJob of packages/teraslice/lib/cluster/services/jobs.js creates an execution.
use mathlib.Core.Option.{some-injective}
use teraslice.Execution.Update.{ok-injective}
use teraslice.Services.JobsService.{
  plain, Failure, Job, creates_execution, Others, checked_assets, loaded_assets, ensure_assets,
  validate_job, first_found, get_active_execution, then_call, call, unless_active, start_job,
}
use teraslice.Base.{
  String, ◌≡◌, refl, ap, ◌∙◌, ◌↔◌, true, Option, none, some, List, [], ◌∷◌, Result, ok, err, ◌>>=◌,
  map_err, ◌<◌, sym, ◌⊎◌, inl, inr, arith, ◌==◌, Bool-cases, length,
}

bind-ok {ℓ κ} :
    {E : Type 0} {A : Type ℓ} {B : Type κ} (r : Result E A) (f : A → Result E B) (b : B)
    → ((r >>= f) ≡ ok b) ↔ ((a : A) × (r ≡ ok a) × (f a ≡ ok b))
bind-ok (ok a) f b = (λ h. (a, refl, h), λ (x, e, h). ap f (ok-injective e) ∙ h)
bind-ok (err e) f b = (λ h. cc, λ (x, e, h). cc)

map_err-ok {ℓ} :
    {E : Type 0} {F : Type 0} {A : Type ℓ} (g : E → F) (r : Result E A) (a : A)
    → (map_err g r ≡ ok a) ↔ (r ≡ ok a)
map_err-ok g (ok b) a = (λ h. ap (λ x. ok x) (ok-injective h), λ h. ap (λ x. ok x) (ok-injective h))
map_err-ok g (err e) a = (λ h. cc, λ h. cc)

module _ (o : Others) where
  open o use {spawn_assets_loader, validate_config, store_get, search_active, execute}

  active-ok :
      (s : Result Failure (List String)) (g : Result Failure (Option Job)) (job : Job)
      → (((s >>= first_found o true) >>= λ a. unless_active o a g) ≡ ok job)
        ↔ ((s ≡ ok []) × (g ≡ ok (some job)))
  active-ok (err e) g job = (λ h. cc, λ h. cc)
  active-ok (ok (id ∷ l)) g job = (λ h. cc, λ h. cc)
  active-ok (ok []) (err e) job = (λ h. cc, λ h. cc)
  active-ok (ok []) (ok none) job = (λ h. cc, λ h. cc)
  active-ok (ok []) (ok (some j)) job = (
    λ h. (refl, ap (λ x. ok (some x)) (ok-injective h)),
    λ h. ap (λ x. ok x) (some-injective _ _ (ok-injective h.1)),
  )

  created-ok :
      (r : Result Failure Job) (valid : Job)
      → ((then_call o r (λ v. call o (creates_execution v))).0 ≡ creates_execution valid ∷ [])
        ↔ (r ≡ ok valid)
  created-ok (err e) valid = (λ h. cc, λ h. cc)
  created-ok (ok j) valid = (λ h. cc, λ h. ap (λ x. creates_execution x ∷ []) (ok-injective h))

  -- What `_ensureAssets` makes of a job: a job that names no assets is as it is, otherwise the loader has
  -- found as many ids as there are assets, and at least one, and they take the place of the assets.
  abbrev pub HasAssets : Job → Job → Type 0
  HasAssets job parsed =
      ((job.assets ≡ none) × (parsed ≡ job))
      ⊎ ((l : List String) × (ids : List String) × (job.assets ≡ some l)
          × (spawn_assets_loader l ≡ ok ids)
          × (0 < length ids)
          × (length l ≡ length ids)
          × (parsed ≡ record job { assets = some ids }))

  checked-ok :
      (job : Job) (l ids : List String) (parsed : Job)
      → (checked_assets job l ids ≡ ok parsed)
        ↔ ((0 < length ids) × (length l ≡ length ids) × (parsed ≡ record job { assets = some ids }))
  checked-ok job l ids parsed = elim (Bool-cases (length ids == 0)) [
    | inl k ↦ rw k (λ h. cc, λ (some_id, same, e). absurd (ground (arith, k, some_id)))
    | inr k ↦ elim (Bool-cases (length l == length ids)) [
      | inl m ↦ rw k (
          rw m (
            λ h. (ground (arith, k), ground (arith, m), sym (ok-injective h)),
            λ (some_id, same, e). ap (λ x. ok x) (sym e),
          ))
      | inr m ↦ rw k (rw m (λ h. cc, λ (some_id, same, e). absurd (ground (arith, m, same))))
    ]
  ]

  loaded-ok :
      (job : Job) (a : Option (List String)) (parsed : Job)
      → (loaded_assets spawn_assets_loader job a ≡ ok parsed) ↔ (
          ((a ≡ none) × (parsed ≡ job))
          ⊎ ((l : List String) × (ids : List String) × (a ≡ some l)
              × (spawn_assets_loader l ≡ ok ids)
              × (0 < length ids)
              × (length l ≡ length ids)
              × (parsed ≡ record job { assets = some ids })))
  loaded-ok job none parsed = (
    λ h. inl (refl, sym (ok-injective h)),
    λ h. elim h [ inl x ↦ ap ok (sym x.1) | inr (l, ids, e, found, some_id, same, x) ↦ cc ],
  )
  loaded-ok job (some l) parsed = (
    λ h.
        let (ids, e, k) = (bind-ok (spawn_assets_loader l) (checked_assets job l) parsed).0 h in
        let c = (checked-ok job l ids parsed).0 k in inr (l, ids, refl, e, c.0, c.1, c.2),
    λ h. elim h [
      | inl x ↦ cc
      | inr (m, ids, e, found, some_id, same, x) ↦
          (bind-ok (spawn_assets_loader l) (checked_assets job l) parsed).1 (
            ids,
            ap spawn_assets_loader (some-injective _ _ e) ∙ found,
            (checked-ok job l ids parsed).1 (some_id, ap length (some-injective _ _ e) ∙ same, x),
          )
    ],
  )

  ensure_assets_iff : (job parsed : Job) → (ensure_assets o job ≡ ok parsed) ↔ HasAssets job parsed
  unfolding ensure_assets
  ensure_assets_iff job parsed = loaded-ok job job.assets parsed

  -- A job is started, with the specification that the validator gives back, exactly when the search finds no
  -- active execution of it, the job is stored, and it is valid with the assets that it has: none, where it names none, or as many
  -- ids as it names assets, found by the loader, and at least one.
  pub start_job_iff :
      (job_id : String) (valid : Job)
      → ((start_job o job_id).0 ≡ creates_execution valid ∷ []) ↔ (
          (search_active job_id ≡ ok [])
          × ((job : Job) × (store_get job_id ≡ ok (some job))
              × ((parsed : Job) × HasAssets job parsed × (validate_config parsed ≡ ok valid))))
  unfolding start_job get_active_execution validate_job
  start_job_iff job_id valid =
      let g = store_get job_id in
      let active = (search_active job_id >>= first_found o true) >>= λ a. unless_active o a g in
      let c = created-ok ((active >>= ensure_assets o) >>= validate_job o) valid in
      let v = bind-ok (active >>= ensure_assets o) (validate_job o) valid in
      (
        λ h.
            let (parsed, e1, e2) = v.0 (c.0 h) in
            let (job, e3, e4) = (bind-ok active (ensure_assets o) parsed).0 e1 in
            let k = (active-ok (search_active job_id) g job).0 e3 in
            (
              k.0,
              (
                job,
                k.1,
                (
                  parsed,
                  (ensure_assets_iff job parsed).0 e4,
                  (map_err-ok plain (validate_config parsed) valid).0 e2,
                ),
              ),
            ),
        λ (none_active, (job, found, (parsed, e4, e2))).
            let e3 = (active-ok (search_active job_id) g job).1 (none_active, found) in
            let e1 =
              (bind-ok active (ensure_assets o) parsed).1
                (job, e3, (ensure_assets_iff job parsed).1 e4) in
            c.1 (v.1 (parsed, e1, (map_err-ok plain (validate_config parsed) valid).1 e2)),
      )
