-- ===== src/Webhooks/Push.antt =====
-- _apply_push and _apply_repository_metadata of backend/app/services/webhooks.py.
use Prim.Native.String.{◌++◌ as append}
use code_naut.Prelude.{
  ℕ, suc, String, Bool, not, ◌&&◌, ◌||◌, ◌==◌, Option, none, some, ◌∷◌, opt_str_eq, str_eq,
  if◌then◌else◌,
}
use code_naut.Prelude.Table.{select, update_first, if_found}
use code_naut.Jobs.Model.{
  Job, JobType, IndexingMode, IndexingStatus, DeliveryStatus, Repository, Delivery, Installation,
  Db,
}
use code_naut.Jobs.Rows.{is_running, is_waiting}
use code_naut.Webhooks.Model.{Payload, InstallationData, RepositoryData, Draws}
use code_naut.Webhooks.Rows.{
  is_active_installation, live_repository, queued_job, Applied, EventError, Attempt, failed, done,
  unchanged, finished,
}

abbrev pub zero_commit : String
zero_commit = "0000000000000000000000000000000000000000"

-- A job of the repository for this commit that is queued, running or retrying.
abbrev pub has_job_for : ℕ → String → Job → Bool
has_job_for repository_id commit j =
    j.repository_id == repository_id
    && (opt_str_eq j.target_commit_sha commit && (is_waiting j.status || is_running j.status))

abbrev pub requested_mode : Repository → String → Bool → IndexingMode
requested_mode r before forced =
    if forced || (r.index_version == 0 || not (opt_str_eq r.last_indexed_commit_sha before))
    then IndexingMode.full
    else IndexingMode.incremental

abbrev pub push_job_type : IndexingMode → JobType
push_job_type IndexingMode.full = JobType.full_rebuild
push_job_type IndexingMode.incremental = JobType.incremental_reindex

-- The repository after a push that queues a job.
abbrev pub pushed : String → ℕ → Repository → Repository
pushed commit now r = record r {
  refresh_generation = suc r.refresh_generation;
  latest_webhook_commit_sha = some commit;
  current_remote_sha = some commit;
  last_delivery_status = some DeliveryStatus.queued;
  last_delivery_at = some now;
  indexing_status = IndexingStatus.queued;
  indexing_progress = 0;
  indexing_stage = some "queued_refresh";
}

abbrev pub stale_delivery : ℕ → Repository → Repository
stale_delivery now r = record r {
  last_delivery_status = some DeliveryStatus.stale;
  last_delivery_at = some now;
}

abbrev pub described : RepositoryData → Repository → Repository
described x r = record r {
  github_owner = x.owner_login;
  github_name = x.name;
  github_full_name = x.full_name;
  github_url = x.html_url;
  default_branch = x.default_branch;
  is_private = x.private;
}

abbrev pub branch_moved : Repository → Repository
branch_moved r = record r {
  refresh_generation = suc r.refresh_generation;
  indexing_status = IndexingStatus.queued;
  indexing_stage = some "queued_full_rebuild";
}

module _ (draws : Draws) (now : ℕ) where
  -- The installation and the repository that the event names, or the end of the delivery.
  abbrev pub with_repository :
      ℕ → ℕ → Delivery → Db → (Installation → Repository → Applied) → Applied
  with_repository installation_id github_id d db k =
      if_found (select (is_active_installation installation_id) db.installations)
        (finished DeliveryStatus.unauthorized "installation_unauthorized" now d db)
        (λ i.
          if_found (select (live_repository i.id github_id) db.repositories)
            (finished DeliveryStatus.unauthorized "repository_unauthorized" now d db) (k i))

  -- What a push does once its repository is found.
  abbrev pub push_to :
      ℕ
      → String
      → String
      → String
      → Bool
      → Bool
      → Delivery
      → Db
      → Installation
      → Repository
      → Applied
  push_to github_id ref before after forced deleted d0 db i r =
      let d = record d0 {
        repository_id = some r.id;
        ref = some ref;
        before_commit_sha = some before;
        after_commit_sha = some after;
      } in
      let write = update_first (live_repository i.id github_id) in
      if not (str_eq ref (append "refs/heads/" r.default_branch))
      then finished DeliveryStatus.ignored "non_default_branch" now d db
      else (if deleted || str_eq after zero_commit
          then finished DeliveryStatus.ignored "branch_deleted" now d db
          else (if opt_str_eq r.last_indexed_commit_sha after
              then finished DeliveryStatus.stale "already_active" now d
                  (record db { repositories = write (stale_delivery now) db.repositories })
              else if_found (select (has_job_for r.id after) db.jobs)
                  (let mode = requested_mode r before forced in
                    let job =
                      queued_job draws.job_id r.id (push_job_type mode) (some after)
                        r.default_branch mode none (suc r.refresh_generation) now in
                    record {
                      job = some job;
                      delivery = d;
                      tables = record db {
                        jobs = job ∷ db.jobs;
                        repositories = write (pushed after now) db.repositories;
                      };
                    })
                  (λ existing.
                    unchanged
                      (record d {
                        status = DeliveryStatus.queued;
                        indexing_job_id = some existing.id;
                      })
                      db)))

  abbrev pub push_parts :
      Option InstallationData
      → Option RepositoryData
      → Option String
      → Option String
      → Option String
      → Bool
      → Bool
      → Delivery
      → Db
      → Attempt
  push_parts (some x) (some r) (some ref) (some before) (some after) forced deleted d db =
      done (with_repository x.id r.id d db (push_to r.id ref before after forced deleted d db))
  push_parts _ _ _ _ _ _ _ _ _ = failed EventError.bad_payload

  -- _apply_push. A part of the payload that is missing is an error.
  unfoldable pub apply_push : Payload → Delivery → Db → Attempt
  apply_push p d db =
      push_parts p.installation p.repository p.ref p.before p.after p.forced p.deleted d db

  abbrev pub describe : RepositoryData → Delivery → Db → Installation → Repository → Applied
  describe x d0 db i r =
      let d = record d0 { repository_id = some r.id } in
      let write = update_first (live_repository i.id x.id) in
      if not (str_eq r.default_branch x.default_branch)
      then (let job =
            queued_job draws.job_id r.id JobType.full_rebuild none x.default_branch
              IndexingMode.full (some "default_branch_changed") (suc r.refresh_generation) now in
          record {
            job = some job;
            delivery = d;
            tables = record db {
              jobs = job ∷ db.jobs;
              repositories = write (λ r. branch_moved (described x r)) db.repositories;
            };
          })
      else unchanged d (record db { repositories = write (described x) db.repositories })

  abbrev pub metadata_parts :
      Option RepositoryData → Option InstallationData → Delivery → Db → Applied
  metadata_parts (some x) (some i) d db = with_repository i.id x.id d db (describe x d db)
  metadata_parts none i d db = unchanged d db
  metadata_parts (some x) none d db = unchanged d db

  -- _apply_repository_metadata
  unfoldable pub apply_repository_metadata : Payload → Delivery → Db → Applied
  apply_repository_metadata p d db = metadata_parts p.repository p.installation d db
