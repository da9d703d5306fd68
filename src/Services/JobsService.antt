-- ===== src/Services/JobsService.antt =====
-- The service of jobs: packages/teraslice/lib/cluster/services/jobs.js. What the stores, the asset loader,
-- the validator and the execution service settle with are arguments; `Calls` are the calls that change
-- something.
pub mod Starting
pub mod Tests
use teraslice.Base.{
  ℕ, zero, suc, ◌+◌, ◌-◌, ◌*◌, ◌≤◌, ◌<◌, String, ◌≡◌, refl, sym, ap, subst, ◌∙◌, ◌≢◌, ◌↔◌, ◌⊎◌, inl,
  inr, Bool, true, false, not, ◌&&◌, ◌||◌, Option, none, some, List, [], ◌∷◌, ◌++◌, map, arith, ltb,
  leb, ◌==◌, if◌then◌else◌, ltb→lt, lt→ltb, leb→le, ==_iff, Bool-cases, Option-cases, ◌===◌,
  ===_iff, length, keep_if, any_of, All, length-append, length-map, length-keep_if-le, All-append,
  Result, ok, err, ◌>>=◌, map_err, map_ok, is_ok, min,
}

pub record Failure : Type 0 where
  pub message : String
  pub code : Option ℕ

abbrev pub plain : String → Failure
plain m = record { message = m; code = none }

-- The fields of a job that the service reads; `config` is the rest.
pub record Job : Type 0 where
  pub job_id : Option String
  pub assets : Option (List String)
  pub created : Option String
  pub config : String

-- The calls of the stores and of the execution service, in their order.
pub data Call : Type 0 where
  stores_job : Job → Call
  updates_job : String → Job → Call
  creates_execution : Job → Call
  recovers pauses resumes : String → Call
  adds_workers removes_workers sets_workers : String → ℕ → Call

-- The services that are called.
pub record Others : Type 0 where
  pub spawn_assets_loader : List String → Result Failure (List String)
  pub validate_config : Job → Result String Job
  pub store_create : Job → Result Failure String
  pub store_get : String → Result Failure (Option Job)
  pub store_update : String → Job → Result Failure Job
  pub search_active : String → Result Failure (List String)
  pub search_latest : String → Result Failure (List String)
  pub execute : Call → Result Failure String

abbrev pub checked_assets : Job → List String → List String → Result Failure Job
checked_assets job asked ids =
    if length ids == 0
    then err (plain "no asset id's were found for assets")
    else if not (length asked == length ids)
    then err (plain "not all of the assets of the job were found")
    else ok (record job { assets = some ids })

abbrev pub loaded_assets :
    (List String → Result Failure (List String)) → Job → Option (List String) → Result Failure Job
loaded_assets load job none = ok job
loaded_assets load job (some l) = load l >>= checked_assets job l

module _ (o : Others) where
  open o use {
    spawn_assets_loader, validate_config, store_create, store_get, store_update, search_active,
    search_latest, execute,
  }

  unfoldable pub ensure_assets : Job → Result Failure Job
  ensure_assets job = loaded_assets spawn_assets_loader job job.assets

  unfoldable pub validate_job : Job → Result Failure Job
  validate_job job = map_err plain (validate_config job)

  -- `getLatestExecution` on the ids that its search finds; with none it resolves with no execution where
  -- that is allowed.
  abbrev pub first_found : Bool → List String → Result Failure (Option String)
  first_found allow_zero [] =
      if allow_zero
      then ok none
      else err (record { message = "no execution context was found"; code = some 404 })
  first_found allow_zero (id ∷ l) = ok (some id)

  unfoldable pub get_active_execution : String → Bool → Result Failure (Option String)
  get_active_execution job_id allow_zero = search_active job_id >>= first_found allow_zero

  unfoldable pub get_latest_execution : String → Bool → Result Failure (Option String)
  get_latest_execution job_id allow_zero = search_latest job_id >>= first_found allow_zero

  -- The id of an execution that is there, since without one the search has rejected.
  abbrev pub id_of : Option String → String
  id_of none = ""
  id_of (some id) = id

  -- The catch keeps the code of an error, if it is not 0.
  abbrev pub code_of : Option ℕ → Option ℕ
  code_of none = none
  code_of (some n) = if n == 0 then none else some n

  abbrev pub wrapped : Failure → Failure
  wrapped e = record { message = e.message; code = code_of e.code }

  abbrev pub wrapped_plain : Failure → Failure
  wrapped_plain e = plain e.message

  -- A call whose promise is the result.
  abbrev pub call : Call → List Call × Result Failure String
  call c = (c ∷ [], execute c)

  abbrev pub then_call :
      Result Failure Job
      → (Job → List Call × Result Failure String)
      → List Call × Result Failure String
  then_call (err e) k = ([], err e)
  then_call (ok j) k = k j

  abbrev pub stored : Job → Bool → Job → Result Failure String → List Call × Result Failure String
  stored spec should_run valid (err e) = (stores_job spec ∷ [], err e)
  stored spec should_run valid (ok id) =
      if not should_run
      then (stores_job spec ∷ [], ok id)
      else (let c = creates_execution (record valid { job_id = some id }) in
          (stores_job spec ∷ c ∷ [], execute c))

  abbrev pub has_id : Option String → Bool
  has_id none = false
  has_id (some s) = not (s === "")

  -- `validJob` has every field of the specification that the validator gives back.
  unfoldable pub submit_job : Job → Bool → List Call × Result Failure String
  unfolding ensure_assets validate_job
  submit_job spec should_run =
      if has_id spec.job_id
      then ([], err (record { message = "Job cannot include a job_id"; code = some 422 }))
      else (let r =
            then_call (ensure_assets spec >>= validate_job)
              (λ valid. stored spec should_run valid (store_create spec)) in
          (r.0, map_err wrapped r.1))

  abbrev pub known_job : Option Job → Result Failure Job
  known_job none = err (record { message = "no job could be found"; code = some 404 })
  known_job (some j) = ok j

  abbrev pub unless_active : Option String → Result Failure (Option Job) → Result Failure Job
  unless_active (some id) job = err (record {
    message = "the job is currently running, cannot have the same job concurrently running";
    code = some 409;
  })
  unless_active none job = job >>= known_job

  unfoldable pub start_job : String → List Call × Result Failure String
  unfolding ensure_assets validate_job get_active_execution
  start_job job_id =
      let job =
        get_active_execution job_id true >>= λ active. unless_active active (store_get job_id) in
      let r =
        then_call ((job >>= ensure_assets) >>= validate_job)
          (λ valid. call (creates_execution valid)) in
      (r.0, map_err wrapped r.1)

  abbrev pub on_execution :
      (Failure → Failure)
      → (String → Call)
      → Result Failure (Option String)
      → List Call × Result Failure String
  on_execution wrap c (err e) = ([], err (wrap e))
  on_execution wrap c (ok o) = (c (id_of o) ∷ [], map_err wrap (execute (c (id_of o))))

  unfoldable pub pause_job : String → List Call × Result Failure String
  unfolding get_latest_execution
  pause_job job_id = on_execution wrapped_plain pauses (get_latest_execution job_id false)

  unfoldable pub resume_job : String → List Call × Result Failure String
  unfolding get_latest_execution
  resume_job job_id = on_execution wrapped_plain resumes (get_latest_execution job_id false)

  unfoldable pub add_workers : String → ℕ → List Call × Result Failure String
  unfolding get_active_execution
  add_workers job_id n =
      on_execution (λ e. e) (λ id. adds_workers id n) (get_active_execution job_id false)

  unfoldable pub remove_workers : String → ℕ → List Call × Result Failure String
  unfolding get_active_execution
  remove_workers job_id n =
      on_execution (λ e. e) (λ id. removes_workers id n) (get_active_execution job_id false)

  unfoldable pub set_workers : String → ℕ → List Call × Result Failure String
  unfolding get_active_execution
  set_workers job_id n =
      on_execution (λ e. e) (λ id. sets_workers id n) (get_active_execution job_id false)

  -- Without the original job the code fails on its `_created`.
  abbrev pub created_of : Option Job → Result Failure (Option String)
  created_of none = err (plain "Cannot read property '_created' of undefined")
  created_of (some j) = ok j.created

  abbrev pub updating :
      String → Job → Result Failure (Option String) → List Call × Result Failure Job
  updating job_id job (err e) = ([], err e)
  updating job_id job (ok created) =
      let job' : Job = record job { created = created } in
      (updates_job job_id job' ∷ [], store_update job_id job')

  unfoldable pub update_job : String → Job → List Call × Result Failure Job
  unfolding ensure_assets validate_job
  update_job job_id job =
      let r =
        updating job_id job
          ((ensure_assets job >>= validate_job) >>= λ _. store_get job_id >>= created_of) in
      (r.0, map_err wrapped_plain r.1)

  -- Without a job the code fails on its `assets`.
  abbrev pub with_job : Option Job → Result Failure Job
  with_job none = err (plain "Cannot read property 'assets' of undefined")
  with_job (some j) = ok j

  unfoldable pub recover_job : String → List Call × Result Failure String
  unfolding ensure_assets validate_job get_latest_execution
  recover_job job_id = on_execution wrapped_plain recovers (do
    job ← store_get job_id
    known ← with_job job
    parsed ← ensure_assets known
    _ ← validate_job parsed
    get_latest_execution job_id false)
