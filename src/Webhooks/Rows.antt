-- ===== src/Webhooks/Rows.antt =====
-- The row conditions and new rows that the events of backend/app/services/webhooks.py share.
use code_naut.Prelude.{
  ℕ, String, Bool, false, ◌&&◌, ◌==◌, Option, none, some, [], is_none, opt_eq, str_eq,
}
use code_naut.Jobs.Model.{
  Job, JobType, JobStatus, IndexingMode, DeliveryStatus, Repository, Delivery, Installation, Db,
  GraphCounts, Summary,
}
use code_naut.Jobs.Access.{is_installed}
use code_naut.Webhooks.Model.{Outcome}

abbrev pub has_github_id : ℕ → Installation → Bool
has_github_id github_id i = i.github_installation_id == github_id

abbrev pub is_active_installation : ℕ → Installation → Bool
is_active_installation github_id i =
    has_github_id github_id i && (is_installed i.status && is_none i.deleted_at)

abbrev pub of_installation : ℕ → Repository → Bool
of_installation installation_id r = opt_eq r.installation_id installation_id

abbrev pub installed_repository : ℕ → ℕ → Repository → Bool
installed_repository installation_id github_id r =
    of_installation installation_id r && r.github_repository_id == github_id

-- A row with this name in the unique index on the installation and the full name.
abbrev pub has_full_name : ℕ → String → Repository → Bool
has_full_name installation_id full_name r =
    of_installation installation_id r && str_eq r.github_full_name full_name

abbrev pub is_open : Repository → Bool
is_open r = is_none r.access_revoked_at && is_none r.deleted_at

-- The repository that a push or a change of metadata is about.
abbrev pub live_repository : ℕ → ℕ → Repository → Bool
live_repository installation_id github_id r =
    installed_repository installation_id github_id r && is_open r

-- _finish_delivery
abbrev pub finish_delivery : DeliveryStatus → String → ℕ → Delivery → Delivery
finish_delivery status code now d = record d {
  status = status;
  safe_error_code = some code;
  processed_at = some now;
}

abbrev pub no_counts : GraphCounts
no_counts = record {
  call_site_count = 0;
  exact_edge_count = 0;
  ambiguous_edge_count = 0;
  unresolved_call_count = 0;
  graph_warning_count = 0;
}

abbrev pub no_summary : Summary
no_summary = record {
  discovered_file_count = 0;
  discovered_total_bytes = 0;
  skipped_files = [];
  parsed_file_count = 0;
  partial_file_count = 0;
  parser_skipped_file_count = 0;
  symbol_count = 0;
  chunk_count = 0;
  parser_warnings = [];
  embedding = none;
  preprocessing_fingerprint = none;
  graph = no_counts;
  embedded_chunk_count = 0;
  vector_count = 0;
  reused_chunk_count = 0;
  reembedded_chunk_count = 0;
}

-- The IndexingJob that a webhook adds, with the defaults of its columns.
abbrev pub queued_job :
    ℕ → ℕ → JobType → Option String → String → IndexingMode → Option String → ℕ → ℕ → Job
queued_job id repository_id job_type commit branch mode reason generation now = record {
  id = id;
  repository_id = repository_id;
  requested_by_user_id = none;
  job_type = job_type;
  status = JobStatus.queued;
  attempt = 0;
  progress = 0;
  stage = some "queued";
  source_commit_sha = none;
  target_commit_sha = commit;
  target_branch = some branch;
  target_index_version = none;
  requested_mode = some mode;
  refresh_generation = generation;
  error_code = none;
  safe_error_message = none;
  locked_by = none;
  next_attempt_at = none;
  last_enqueued_at = none;
  started_at = none;
  heartbeat_at = none;
  completed_at = none;
  created_at = now;
  freshness = record {
    actual_mode = none;
    full_rebuild_reason = reason;
    changed_files = [];
    changed_file_count = 0;
    graph_rebuilt = false;
  };
  summary = no_summary;
}

-- What an event leaves: the job that it queued, the delivery and the tables.
pub record Applied : Type 0 where
  pub job : Option Job
  pub delivery : Delivery
  pub tables : Db

abbrev pub unchanged : Delivery → Db → Applied
unchanged d db = record { job = none; delivery = d; tables = db }

abbrev pub finished : DeliveryStatus → String → ℕ → Delivery → Db → Applied
finished status code now d db = unchanged (finish_delivery status code now d) db

-- How an event ends: with an error, or with what it leaves.
pub data EventError : Type 0 where
  bad_payload commit_refused : EventError

abbrev pub outcome_of : EventError → Outcome
outcome_of bad_payload = Outcome.payload_error
outcome_of commit_refused = Outcome.database_error

pub data Attempt : Type 0 where
  failed : EventError → Attempt
  done : Applied → Attempt
