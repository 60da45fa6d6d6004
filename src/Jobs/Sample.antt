-- ===== src/Jobs/Sample.antt =====
-- A small set of tables for the tests and the runs.
use code_naut.Prelude.{ℕ, String, true, false, Option, none, some, List, [], ◌∷◌}
use code_naut.Jobs.Model.{
  JobType, JobStatus, BuildState, CleanupStatus, IndexingStatus, AccessMode, GraphCounts, Embedding,
  Job, Repository, Build, EdgeRow, Db, Settings, ClaimedJob,
}
use code_naut.Jobs.Results.{SymbolRecord, Discovery, Processing}
use code_naut.Jobs.Graph.{EdgeKey}

abbrev pub counts : GraphCounts
counts = record {
  call_site_count = 0;
  exact_edge_count = 0;
  ambiguous_edge_count = 0;
  unresolved_call_count = 0;
  graph_warning_count = 0;
}

abbrev pub model : Embedding
model = record { model_identifier = "minilm"; model_revision = "r1"; dimension = 384 }

abbrev pub settings : Settings
settings = record {
  membership_ttl = 3600;
  abandoned_after = 60;
  max_attempts = 3;
  retry_base = 5;
  retry_max = 60;
  embedding = model;
}

abbrev pub job : ℕ → ℕ → JobStatus → ℕ → Option String → Option ℕ → Job
job id repository status attempt holder target = record {
  id = id;
  repository_id = repository;
  requested_by_user_id = none;
  job_type = JobType.initial_index;
  status = status;
  attempt = attempt;
  progress = 0;
  stage = none;
  source_commit_sha = none;
  target_commit_sha = none;
  target_branch = none;
  target_index_version = target;
  requested_mode = none;
  refresh_generation = 0;
  error_code = none;
  safe_error_message = none;
  locked_by = holder;
  next_attempt_at = none;
  last_enqueued_at = none;
  started_at = none;
  heartbeat_at = none;
  completed_at = none;
  created_at = 0;
  freshness = record {
    actual_mode = none;
    full_rebuild_reason = none;
    changed_files = [];
    changed_file_count = 0;
    graph_rebuilt = false;
  };
  summary = record {
    discovered_file_count = 0;
    discovered_total_bytes = 0;
    skipped_files = [];
    parsed_file_count = 0;
    partial_file_count = 0;
    parser_skipped_file_count = 0;
    symbol_count = 0;
    chunk_count = 0;
    parser_warnings = [];
    embedding = none;
    preprocessing_fingerprint = none;
    graph = counts;
    embedded_chunk_count = 0;
    vector_count = 0;
    reused_chunk_count = 0;
    reembedded_chunk_count = 0;
  };
}

abbrev pub repository : ℕ → ℕ → ℕ → Repository
repository id version vectors = record {
  id = id;
  installation_id = none;
  access_mode = AccessMode.public_access;
  github_repository_id = 100;
  github_owner = "octo";
  github_name = "repo";
  github_full_name = "octo/repo";
  github_url = "https://github.com/octo/repo";
  is_private = false;
  default_branch = "main";
  indexed_branch = some "main";
  refresh_generation = 0;
  latest_webhook_commit_sha = none;
  last_delivery_status = none;
  last_delivery_at = none;
  current_remote_sha = none;
  last_indexed_commit_sha = some "aaa";
  index_version = version;
  indexing_status = IndexingStatus.complete;
  indexing_progress = 100;
  indexing_stage = none;
  indexing_error_code = none;
  indexing_error_message = none;
  size_bytes = none;
  last_indexed_at = none;
  active_vector_count = vectors;
  access_revoked_at = none;
  deleted_at = none;
}

abbrev pub build : ℕ → ℕ → ℕ → BuildState → String → Build
build repository_id job_id version state sha = record {
  repository_id = repository_id;
  job_id = some job_id;
  index_version = version;
  state = state;
  cleanup_status = CleanupStatus.pending;
  commit_sha = sha;
  embedding = model;
  preprocessing_fingerprint = "p";
  expected_chunk_count = 4;
  embedded_chunk_count = 4;
  vector_count = 4;
  failed_chunk_count = 0;
  skipped_chunk_count = 0;
  graph = counts;
  graph_fingerprint = some "f";
  graph_validated = true;
  activated_at = none;
  cleanup_completed_at = none;
}

-- Repository 1 serves version 1; job 1 runs under worker "w" and has version 2 ready. Job 2 waits
-- behind it, and job 3 waits in repository 2.
abbrev pub sample : Db
sample = record {
  jobs =
      job 1 1 JobStatus.running 1 (some "w") (some 2)
      ∷ job 2 1 JobStatus.queued 0 none none
      ∷ job 3 2 JobStatus.queued 0 none none
      ∷ [];
  repositories = repository 1 1 4 ∷ repository 2 0 0 ∷ [];
  builds = build 1 9 1 BuildState.active "aaa" ∷ build 1 1 2 BuildState.ready "bbb" ∷ [];
  symbols = [];
  edges = [];
  deliveries = [];
  installations = [];
  members = [];
  user_repositories = [];
}

abbrev pub ids : ℕ → ℕ → SymbolRecord → ℕ
ids repository_id version x = x.start_line

abbrev pub order : List EdgeRow → List EdgeRow
order edges = edges

abbrev pub digest : List EdgeKey → String
digest keys = "f"

abbrev pub claim_one : ClaimedJob
claim_one = record { id = 1; repository_id = 1; attempt = 1 }

abbrev pub discovery : Discovery
discovery = record { file_count = 0; total_bytes = 0; skipped = [] }

abbrev pub processing : Processing
processing = record {
  repository_id = 1;
  index_version = 2;
  commit_sha = "bbb";
  parsed_file_count = 0;
  partial_file_count = 0;
  skipped_file_count = 0;
  symbol_count = 0;
  chunk_count = 4;
  warning_counts = [];
  symbols = [];
  graph = counts;
  graph_fingerprint = "f";
  call_edges = [];
}
