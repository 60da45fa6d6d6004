-- ===== src/Jobs/Retry.antt =====
-- fail and recover_abandoned of backend/app/services/indexing_jobs.py. `randbelow` is
-- `secrets.randbelow`, as it answers at that moment.
use mathlib.Core.List.{foldl}
use code_naut.Prelude.{
  ℕ, ◌+◌, ◌*◌, ◌-◌, ◌^◌, min, String, Bool, ◌&&◌, none, some, ltb, length, keep_if, if◌then◌else◌,
}
use code_naut.Prelude.Table.{if_found, select, update_where, update_first}
use code_naut.Jobs.Model.{
  Job, JobStatus, IndexingStatus, DeliveryStatus, Repository, Delivery, Db, Settings, ClaimedJob,
}
use code_naut.Jobs.Rows.{leased, repository_at, delivered_for, abandoned}

-- The wait before the next attempt, in milliseconds: `_retry_delay`.
unfoldable pub retry_base_seconds : Settings → ℕ → ℕ
retry_base_seconds s attempt = min s.retry_max (s.retry_base * 2 ^ (attempt - 1))

unfoldable pub retry_delay : Settings → ℕ → (ℕ → ℕ) → ℕ
unfolding retry_base_seconds
retry_delay s attempt randbelow =
    let base = retry_base_seconds s attempt in base * 1000 + randbelow (base * 500 + 1)

-- What a job and its repository get when an attempt ends in an error.
abbrev pub stopped_stage : Bool → String
stopped_stage retry = if retry then "retry_wait" else "failed"

abbrev pub stopped_status : Bool → JobStatus
stopped_status retry = if retry then JobStatus.retrying else JobStatus.failed

abbrev pub stopped_repository : Bool → String → String → Repository → Repository
stopped_repository retry code message r = record r {
  indexing_status = if retry then IndexingStatus.queued else IndexingStatus.failed;
  indexing_stage = some (stopped_stage retry);
  indexing_error_code = some code;
  indexing_error_message = some message;
}

abbrev pub stopped_delivery : Bool → String → ℕ → ℕ → Delivery → Delivery
stopped_delivery retry code attempt now d = record d {
  status = if retry then DeliveryStatus.retryable else DeliveryStatus.failed;
  safe_error_code = some code;
  retry_count = attempt;
  processed_at = if retry then none else some now;
}

abbrev pub failed_row : Bool → String → String → ℕ → ℕ → Job → Job
failed_row retry code message delay now j = record j {
  status = stopped_status retry;
  error_code = some code;
  safe_error_message = some message;
  next_attempt_at = if retry then some (now + delay) else none;
  completed_at = if retry then none else some now;
  heartbeat_at = some now;
  locked_by = none;
  stage = some (stopped_stage retry);
}

abbrev pub should_retry : Settings → Bool → ℕ → Bool
should_retry s retryable attempt = retryable && ltb attempt s.max_attempts

unfoldable pub fail :
    Settings → ClaimedJob → String → String → String → Bool → (ℕ → ℕ) → ℕ → Db → Bool × Db
unfolding retry_delay
fail s c worker code message retryable randbelow now db =
    let retry = should_retry s retryable c.attempt in
    let delay = retry_delay s c.attempt randbelow in
    if_found (select (leased c worker) db.jobs) (retry, db)
      (λ j. (
        retry,
        record db {
          jobs = update_where (leased c worker) (failed_row retry code message delay now) db.jobs;
          repositories =
              update_where (repository_at j.repository_id) (stopped_repository retry code message)
                db.repositories;
          deliveries =
              update_first (delivered_for c.id) (stopped_delivery retry code c.attempt now)
                db.deliveries;
        },
      ))

abbrev pub abandoned_message : String
abandoned_message = "Worker stopped before the job completed"

abbrev pub recovered_row : Settings → ℕ → Job → Job
recovered_row s now j =
    let retry = ltb j.attempt s.max_attempts in
    record j {
      status = stopped_status retry;
      next_attempt_at = if retry then some now else none;
      locked_by = none;
      error_code = some "worker_abandoned";
      safe_error_message = some abandoned_message;
      stage = some (stopped_stage retry);
      completed_at = if retry then j.completed_at else some now;
    }

-- The two UPDATE statements that the loop issues for one abandoned job.
unfoldable pub recover_scope : Settings → ℕ → Db → Job → Db
recover_scope s now db j =
    let retry = ltb j.attempt s.max_attempts in
    record db {
      repositories =
          update_where (repository_at j.repository_id)
            (stopped_repository retry "worker_abandoned" abandoned_message) db.repositories;
      deliveries =
          update_where (delivered_for j.id)
            (stopped_delivery retry "worker_abandoned" j.attempt now) db.deliveries;
    }

-- The loop writes each abandoned row, then the rows of its repository and deliveries.
unfoldable pub recover_abandoned : Settings → ℕ → Db → ℕ × Db
unfolding recover_scope
recover_abandoned s now db =
    let stale = keep_if (abandoned s.abandoned_after now) db.jobs in
    let marked = record db {
      jobs = update_where (abandoned s.abandoned_after now) (recovered_row s now) db.jobs;
    } in
    (length stale, foldl (recover_scope s now) marked stale)
