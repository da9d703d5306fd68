-- ===== src/Services/JobsService/Tests.antt =====
-- A job that is started while no execution of it is active.
use teraslice.Services.JobsService.{Job, creates_execution, Others, start_job}
use teraslice.Services.JobsService.Starting.{HasAssets, start_job_iff}
use teraslice.Base.{◌≡◌, ◌↔◌, none, some, [], ◌∷◌, ok}

abbrev job : Job
job = record { job_id = some "j1"; assets = some ("a" ∷ []); created = none; config = "{}" }

abbrev others : Others
others = record {
  spawn_assets_loader = λ l. ok l;
  validate_config = λ j. ok j;
  store_create = λ j. ok "j1";
  store_get = λ id. ok (some job);
  store_update = λ id j. ok j;
  search_active = λ id. ok [];
  search_latest = λ id. ok [];
  execute = λ c. ok "e1";
}

start_job_iff_example : ((start_job others "j1").0 ≡ creates_execution job ∷ []) ↔ (
    (others.search_active "j1" ≡ ok [])
    × ((j : Job) × (others.store_get "j1" ≡ ok (some j))
        × ((parsed : Job) × HasAssets others j parsed × (others.validate_config parsed ≡ ok job))))
start_job_iff_example = start_job_iff others "j1" job
