-- ===== src/Jobs/Lease.antt =====
-- What a worker does under its lease on a running job (backend/app/services/indexing_jobs.py):
-- heartbeat, stage, mark_stale and cancel_revoked.
use code_naut.Prelude.{ℕ, String, Bool, Option, none, some, if◌then◌else◌}
use code_naut.Prelude.Table.{if_found, select, update_where, update_first}
use code_naut.Jobs.Model.{Job, JobStatus, IndexingStatus, DeliveryStatus, Db, ClaimedJob}
use code_naut.Jobs.Rows.{leased, repository_at, delivered_for}

unfoldable pub heartbeat : ClaimedJob → String → ℕ → Db → Db
heartbeat c worker now db = record db {
  jobs = update_where (leased c worker) (λ j. record j { heartbeat_at = some now }) db.jobs;
}

abbrev pub or_keep : Option String → Option String → Option String
or_keep none old = old
or_keep (some sha) old = some sha

abbrev pub stage_row : String → ℕ → Option String → ℕ → Job → Job
stage_row stage_name progress commit_sha now j = record j {
  stage = some stage_name;
  progress = progress;
  heartbeat_at = some now;
  source_commit_sha = or_keep commit_sha j.source_commit_sha;
}

unfoldable pub stage :
    ClaimedJob → String → IndexingStatus → String → ℕ → Option String → ℕ → Db → Db
stage c worker status stage_name progress commit_sha now db =
    if_found (select (leased c worker) db.jobs) db (λ j. record db {
      jobs = update_where (leased c worker) (stage_row stage_name progress commit_sha now) db.jobs;
      repositories =
          update_where (repository_at j.repository_id)
            (λ r. record r {
              indexing_status = status;
              indexing_stage = some stage_name;
              indexing_progress = progress;
              current_remote_sha = or_keep commit_sha r.current_remote_sha;
            })
            db.repositories;
    })

abbrev pub stale_row : String → Bool → ℕ → Job → Job
stale_row code superseded now j = record j {
  status = JobStatus.cancelled;
  stage = some (if superseded then "superseded" else "stale");
  error_code = some code;
  safe_error_message = some "A newer repository state superseded this refresh";
  completed_at = some now;
  heartbeat_at = some now;
  locked_by = none;
}

unfoldable pub mark_stale : ClaimedJob → String → String → Bool → ℕ → Db → Db
mark_stale c worker code superseded now db = if_found (select (leased c worker) db.jobs) db (λ j.
    record db {
      jobs = update_first (leased c worker) (stale_row code superseded now) db.jobs;
      deliveries =
          update_first (delivered_for j.id)
            (λ d. record d {
              status = if superseded then DeliveryStatus.superseded else DeliveryStatus.stale;
              safe_error_code = some code;
              processed_at = some now;
            })
            db.deliveries;
    })

abbrev pub revoked_row : ℕ → Job → Job
revoked_row now j = record j {
  status = JobStatus.cancelled;
  error_code = some "repository_access_revoked";
  safe_error_message = some "Repository access is no longer authorized";
  completed_at = some now;
  heartbeat_at = some now;
  locked_by = none;
}

unfoldable pub cancel_revoked : ClaimedJob → String → ℕ → Db → Db
cancel_revoked c worker now db = if_found (select (leased c worker) db.jobs) db (λ j. record db {
  jobs = update_where (leased c worker) (revoked_row now) db.jobs;
  repositories =
      update_where (repository_at j.repository_id)
        (λ r. record r {
          indexing_status = IndexingStatus.access_revoked;
          indexing_error_code = some "repository_access_revoked";
          indexing_error_message = some "Repository access is no longer authorized";
        })
        db.repositories;
  deliveries =
      update_first (delivered_for c.id)
        (λ d. record d {
          status = DeliveryStatus.unauthorized;
          safe_error_code = some "repository_access_revoked";
          processed_at = some now;
        })
        db.deliveries;
})
