-- ===== src/Jobs/Activate.antt =====
-- activate of backend/app/services/indexing_jobs.py: one transaction makes the ready build the
-- repository's active one.
use code_naut.Prelude.{
  ℕ, ◌+◌, String, Bool, not, ◌&&◌, none, some, List, ◌==◌, is_none, opt_eq, str_eq, any,
  if◌then◌else◌,
}
use code_naut.Prelude.Table.{if_found, select, update_first}
use code_naut.Jobs.Model.{
  Job, Build, IndexingStatus, JobStatus, DeliveryStatus, BuildState, CleanupStatus, Repository,
  Delivery, Db, ClaimedJob, Result, ok, raised, integrity_error,
}
use code_naut.Jobs.Rows.{
  leased, repository_at, build_at, is_ready, is_active, delivered_for, activation_race,
}
use code_naut.Jobs.Access.{on_branch}
use code_naut.Jobs.Vectors.{counts_agree}

-- The row that the activation selects.
abbrev pub activatable : ClaimedJob → ℕ → ℕ → String → Build → Bool
activatable c repository version commit_sha b =
    build_at repository version b
    && (opt_eq b.job_id c.id
        && (is_ready b.state && (str_eq b.commit_sha commit_sha && counts_agree b)))

abbrev pub active_at : ℕ → ℕ → Build → Bool
active_at repository version b = build_at repository version b && is_active b.state

abbrev pub supersede : Build → Build
supersede b = record b { state = BuildState.superseded; cleanup_status = CleanupStatus.pending }

abbrev pub promote : ℕ → Build → Build
promote now b = record b {
  state = BuildState.active;
  cleanup_status = CleanupStatus.not_required;
  activated_at = some now;
}

-- The previous active row steps down first; with no previous version there is none to look for.
unfoldable pub retire_previous : ℕ → ℕ → List Build → List Build
retire_previous repository previous builds =
    if previous == 0 then builds else update_first (active_at repository previous) supersede builds

-- The unique index on the active builds of a repository would have two rows with the new one.
abbrev pub active_of : ℕ → Build → Bool
active_of repository b = b.repository_id == repository && is_active b.state

abbrev pub still_active : Repository → List Build → Bool
still_active r builds = any (active_of r.id) (retire_previous r.id r.index_version builds)

-- `previous is None and repository.active_vector_count != 0`
unfoldable pub lost_previous : Repository → List Build → Bool
lost_previous r builds =
    not (r.index_version == 0)
    && (is_none (select (active_at r.id r.index_version) builds)
        && not (r.active_vector_count == 0))

unfoldable pub activated_repository : String → ℕ → ℕ → Bool → Build → Repository → Repository
activated_repository commit_sha target now delivered b r = record r {
  index_version = target;
  last_indexed_commit_sha = some commit_sha;
  current_remote_sha = some commit_sha;
  indexed_branch = some r.default_branch;
  last_indexed_at = some now;
  active_vector_count = b.vector_count;
  indexing_status = IndexingStatus.complete;
  indexing_progress = 100;
  indexing_stage = some "complete";
  indexing_error_code = none;
  indexing_error_message = none;
  last_delivery_status =
      if delivered then some DeliveryStatus.completed else r.last_delivery_status;
  last_delivery_at = if delivered then some now else r.last_delivery_at;
}

abbrev pub completed_job : String → ℕ → Job → Job
completed_job commit_sha now j = record j {
  status = JobStatus.complete;
  progress = 100;
  stage = some "complete";
  target_commit_sha = some commit_sha;
  heartbeat_at = some now;
  completed_at = some now;
  locked_by = none;
}

abbrev pub completed_delivery : ℕ → Delivery → Delivery
completed_delivery now d = record d {
  status = DeliveryStatus.completed;
  safe_error_code = none;
  processed_at = some now;
}

-- The guards on the job and its repository, for the job's target version.
abbrev pub may_activate : Job → Repository → ℕ → Bool
may_activate j r target =
    r.index_version + 1 == target && (j.refresh_generation == r.refresh_generation && on_branch j r)

module _ (c : ClaimedJob) (worker commit_sha : String) (now : ℕ) where
  unfoldable pub write_activation : Job → Repository → ℕ → Build → Db → Db
  unfolding retire_previous activated_repository
  write_activation j r target b db =
      let delivered = not (is_none (select (delivered_for j.id) db.deliveries)) in
      record db {
        jobs = update_first (leased c worker) (completed_job commit_sha now) db.jobs;
        repositories =
            update_first (repository_at r.id)
              (activated_repository commit_sha target now delivered b) db.repositories;
        builds =
            update_first (activatable c r.id target commit_sha) (promote now)
              (retire_previous r.id r.index_version db.builds);
        deliveries = update_first (delivered_for j.id) (completed_delivery now) db.deliveries;
      }

  unfoldable pub activate_target : Job → Repository → ℕ → Db → Result (ℕ × Db)
  unfolding write_activation lost_previous
  activate_target j r target db =
      if may_activate j r target
      then if_found (select (activatable c r.id target commit_sha) db.builds)
          (raised activation_race)
          (λ b.
            if lost_previous r db.builds
            then raised activation_race
            else (if still_active r db.builds
                then raised integrity_error
                else ok (r.index_version, write_activation j r target b db)))
      else raised activation_race

  -- The previous version and the tables after the switch.
  unfoldable pub activate : Db → Result (ℕ × Db)
  unfolding activate_target
  activate db = if_found (select (leased c worker) db.jobs) (raised activation_race) (λ j.
      if_found (select (repository_at j.repository_id) db.repositories) (raised activation_race)
        (λ r.
          if_found j.target_index_version (raised activation_race)
            (λ target. activate_target j r target db)))
