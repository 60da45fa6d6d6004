-- ===== src/Jobs/Claim.antt =====
-- claim and mark_enqueued of backend/app/services/indexing_jobs.py. A method is one transaction: it
-- takes the tables and returns them with its result; `now` stands for `datetime.now(UTC)`.
use code_naut.Prelude.{ℕ, ◌+◌, String, Bool, ◌&&◌, Option, none, some, ◌==◌, any, if◌then◌else◌}
use code_naut.Prelude.Table.{if_found, select, update_where}
use code_naut.Jobs.Model.{
  Job, JobStatus, IndexingStatus, DeliveryStatus, Repository, Db, ClaimedJob,
}
use code_naut.Jobs.Rows.{claimable, running_in, repository_at, delivered_for, is_waiting}

abbrev pub claim_row : String → ℕ → Job → Job
claim_row worker now j = record j {
  status = JobStatus.running;
  attempt = j.attempt + 1;
  locked_by = some worker;
  started_at = some now;
  heartbeat_at = some now;
  next_attempt_at = none;
  error_code = none;
  safe_error_message = none;
}

abbrev pub cloning : Repository → Repository
cloning r = record r {
  indexing_status = IndexingStatus.cloning;
  indexing_progress = 5;
  indexing_stage = some "cloning";
  indexing_error_code = none;
  indexing_error_message = none;
}

-- The condition of the UPDATE that claims a job.
abbrev pub wanted : ℕ → ℕ → Job → Bool
wanted job_id now j = j.id == job_id && claimable now j

-- The writes of a claim whose UPDATE found the row `j`.
unfoldable pub claim_found : ℕ → String → ℕ → Job → Db → Db
claim_found job_id worker now j db = record db {
  jobs = update_where (wanted job_id now) (claim_row worker now) db.jobs;
  repositories = update_where (repository_at j.repository_id) cloning db.repositories;
  deliveries =
      update_where (delivered_for j.id) (λ d. record d { status = DeliveryStatus.processing })
        db.deliveries;
}

-- The partial unique index `uq_indexing_jobs_repository_active` raises IntegrityError when another
-- job of the repository is running; the claim then rolls back and returns None.
unfoldable pub claim : ℕ → String → ℕ → Db → Option ClaimedJob × Db
unfolding claim_found
claim job_id worker now db =
    if_found (select (wanted job_id now) db.jobs) (none, db)
      (λ j. if any (running_in j.repository_id) db.jobs then (none, db) else (
        some (record { id = j.id; repository_id = j.repository_id; attempt = j.attempt + 1 }),
        claim_found job_id worker now j db,
      ))

unfoldable pub mark_enqueued : ℕ → ℕ → Db → Db
mark_enqueued job_id now db = record db {
  jobs =
      update_where (λ j. j.id == job_id && is_waiting j.status)
        (λ j. record j { last_enqueued_at = some now }) db.jobs;
}
