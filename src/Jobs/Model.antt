-- ===== src/Jobs/Model.antt =====
-- The tables that the durable indexing workers share (backend/app/db/models), restricted to the
-- columns that backend/app/services/indexing_jobs.py and webhooks.py read or write. An identifier (UUID) and a
-- time (milliseconds) is a number; a column that may be NULL is an `Option`. The summary counters
-- of one run, which the job and the build rows repeat, are grouped in records of their own.
use code_naut.Prelude.{ℕ, String, Bool, Option, List}

pub data JobStatus : Type 0 where
  queued running retrying complete failed cancelled : JobStatus

pub data BuildState : Type 0 where
  building ready active failed superseded : BuildState

pub data CleanupStatus : Type 0 where
  not_required pending complete : CleanupStatus

pub data IndexingStatus : Type 0 where
  not_indexed queued cloning discovering parsing embedding building_graph finalizing complete failed
        deleting access_revoked :
      IndexingStatus

pub data DeliveryStatus : Type 0 where
  received queued processing processed completed stale superseded unauthorized retryable ignored
        failed :
      DeliveryStatus

pub data IndexingMode : Type 0 where
  incremental full : IndexingMode

pub data AccessMode : Type 0 where
  public_access github_installation : AccessMode

pub data InstallationStatus : Type 0 where
  active suspended deleted : InstallationStatus

pub data ResolutionType : Type 0 where
  exact_same_file exact_direct_import qualified_module probable_method ambiguous unresolved :
      ResolutionType

pub data Confidence : Type 0 where
  high medium low : Confidence

pub data SymbolType : Type 0 where
  function async_function class method module_symbol : SymbolType

-- The counts of a call graph, kept on the job and on the build.
pub record GraphCounts : Type 0 where
  pub call_site_count : ℕ
  pub exact_edge_count : ℕ
  pub ambiguous_edge_count : ℕ
  pub unresolved_call_count : ℕ
  pub graph_warning_count : ℕ

-- The embedding contract under which vectors were made.
pub record Embedding : Type 0 where
  pub model_identifier : String
  pub model_revision : String
  pub dimension : ℕ

-- The discovery, parsing and embedding summary of a job.
pub record Summary : Type 0 where
  pub discovered_file_count : ℕ
  pub discovered_total_bytes : ℕ
  pub skipped_files : List (String × ℕ)
  pub parsed_file_count : ℕ
  pub partial_file_count : ℕ
  pub parser_skipped_file_count : ℕ
  pub symbol_count : ℕ
  pub chunk_count : ℕ
  pub parser_warnings : List (String × ℕ)
  pub embedding : Option Embedding
  pub preprocessing_fingerprint : Option String
  pub graph : GraphCounts
  pub embedded_chunk_count : ℕ
  pub vector_count : ℕ
  pub reused_chunk_count : ℕ
  pub reembedded_chunk_count : ℕ

-- The freshness plan that a job recorded.
pub record Freshness : Type 0 where
  pub actual_mode : Option IndexingMode
  pub full_rebuild_reason : Option String
  pub changed_files : List (String × ℕ)
  pub changed_file_count : ℕ
  pub graph_rebuilt : Bool

pub data JobType : Type 0 where
  initial_index manual_reindex incremental_reindex full_rebuild delete_repository : JobType

pub data AccountType : Type 0 where
  user organization : AccountType

pub data RepositorySelection : Type 0 where
  all selected : RepositorySelection

pub data MemberRole : Type 0 where
  owner member : MemberRole

pub record Job : Type 0 where
  pub id : ℕ
  pub repository_id : ℕ
  pub requested_by_user_id : Option ℕ
  pub job_type : JobType
  pub status : JobStatus
  pub attempt : ℕ
  pub progress : ℕ
  pub stage : Option String
  pub source_commit_sha : Option String
  pub target_commit_sha : Option String
  pub target_branch : Option String
  pub target_index_version : Option ℕ
  pub requested_mode : Option IndexingMode
  pub refresh_generation : ℕ
  pub error_code : Option String
  pub safe_error_message : Option String
  pub locked_by : Option String
  pub next_attempt_at : Option ℕ
  pub last_enqueued_at : Option ℕ
  pub started_at : Option ℕ
  pub heartbeat_at : Option ℕ
  pub completed_at : Option ℕ
  pub created_at : ℕ
  pub freshness : Freshness
  pub summary : Summary

pub record Repository : Type 0 where
  pub id : ℕ
  pub installation_id : Option ℕ
  pub access_mode : AccessMode
  pub github_repository_id : ℕ
  pub github_owner : String
  pub github_name : String
  pub github_full_name : String
  pub github_url : String
  pub is_private : Bool
  pub default_branch : String
  pub indexed_branch : Option String
  pub refresh_generation : ℕ
  pub latest_webhook_commit_sha : Option String
  pub last_delivery_status : Option DeliveryStatus
  pub last_delivery_at : Option ℕ
  pub current_remote_sha : Option String
  pub last_indexed_commit_sha : Option String
  pub index_version : ℕ
  pub indexing_status : IndexingStatus
  pub indexing_progress : ℕ
  pub indexing_stage : Option String
  pub indexing_error_code : Option String
  pub indexing_error_message : Option String
  pub size_bytes : Option ℕ
  pub last_indexed_at : Option ℕ
  pub active_vector_count : ℕ
  pub access_revoked_at : Option ℕ
  pub deleted_at : Option ℕ

pub record Build : Type 0 where
  pub repository_id : ℕ
  pub job_id : Option ℕ
  pub index_version : ℕ
  pub state : BuildState
  pub cleanup_status : CleanupStatus
  pub commit_sha : String
  pub embedding : Embedding
  pub preprocessing_fingerprint : String
  pub expected_chunk_count : ℕ
  pub embedded_chunk_count : ℕ
  pub vector_count : ℕ
  pub failed_chunk_count : ℕ
  pub skipped_chunk_count : ℕ
  pub graph : GraphCounts
  pub graph_fingerprint : Option String
  pub graph_validated : Bool
  pub activated_at : Option ℕ
  pub cleanup_completed_at : Option ℕ

-- A symbol of one index version.
pub record SymbolRow : Type 0 where
  pub id : ℕ
  pub repository_id : ℕ
  pub index_version : ℕ
  pub file_path : String
  pub language : String
  pub symbol_type : SymbolType
  pub symbol_name : String
  pub qualified_name : String
  pub start_line : ℕ
  pub end_line : ℕ
  pub content_hash : String
  pub commit_sha : String

pub record EdgeRow : Type 0 where
  pub id : ℕ
  pub repository_id : ℕ
  pub index_version : ℕ
  pub caller_symbol_id : ℕ
  pub callee_symbol_id : Option ℕ
  pub unresolved_callee_name : Option String
  pub file_path : String
  pub call_line : ℕ
  pub call_end_line : ℕ
  pub call_expression : String
  pub call_site_fingerprint : String
  pub resolution_type : ResolutionType
  pub confidence : Confidence
  pub commit_sha : String

pub record Delivery : Type 0 where
  pub delivery_id : String
  pub event_name : String
  pub action : Option String
  pub github_installation_id : Option ℕ
  pub github_repository_id : Option ℕ
  pub repository_id : Option ℕ
  pub ref : Option String
  pub before_commit_sha : Option String
  pub after_commit_sha : Option String
  pub indexing_job_id : Option ℕ
  pub status : DeliveryStatus
  pub safe_error_code : Option String
  pub retry_count : ℕ
  pub processed_at : Option ℕ

pub record Installation : Type 0 where
  pub id : ℕ
  pub github_installation_id : ℕ
  pub account_type : AccountType
  pub account_github_id : ℕ
  pub account_login : String
  pub permissions_json : List (String × String)
  pub repository_selection : RepositorySelection
  pub status : InstallationStatus
  pub suspended_at : Option ℕ
  pub deleted_at : Option ℕ

pub record Member : Type 0 where
  pub installation_id : ℕ
  pub user_id : ℕ
  pub role : MemberRole
  pub verified_at : ℕ

pub record UserRepository : Type 0 where
  pub user_id : ℕ
  pub repository_id : ℕ

pub record Db : Type 0 where
  pub jobs : List Job
  pub repositories : List Repository
  pub builds : List Build
  pub symbols : List SymbolRow
  pub edges : List EdgeRow
  pub deliveries : List Delivery
  pub installations : List Installation
  pub members : List Member
  pub user_repositories : List UserRepository

-- The settings that the store is built from (seconds and counts).
pub record Settings : Type 0 where
  pub membership_ttl : ℕ
  pub abandoned_after : ℕ
  pub max_attempts : ℕ
  pub retry_base : ℕ
  pub retry_max : ℕ
  pub embedding : Embedding

pub record ClaimedJob : Type 0 where
  pub id : ℕ
  pub repository_id : ℕ
  pub attempt : ℕ

pub record JobContext : Type 0 where
  pub job_id : ℕ
  pub repository_id : ℕ
  pub installation_id : Option ℕ
  pub github_installation_id : Option ℕ
  pub owner : String
  pub name : String
  pub default_branch : String
  pub index_version : ℕ
  pub github_repository_id : ℕ
  pub refresh_generation : ℕ
  pub active_index_version : ℕ
  pub active_commit_sha : Option String
  pub indexed_branch : Option String
  pub requested_mode : IndexingMode
  pub access_mode : AccessMode

-- A worker failure (backend/app/indexing/failures.py).
pub record IndexingError : Type 0 where
  pub code : String
  pub message : String
  pub retryable : Bool

-- What a method raises: a classified failure, a plain RuntimeError, or the IntegrityError of a flush that
-- a unique index refuses.
pub data Failure : Type 0 where
  indexing_error : IndexingError → Failure
  runtime_error : String → Failure
  integrity_error : Failure

-- What a method that may raise returns.
pub data Result {ℓ} (A : Type ℓ) : Type ℓ where
  ok : A → Result A
  raised : Failure → Result A

-- What a committed method leaves behind has the property; a method that raises leaves nothing.
abbrev pub Commits {ℓ} : {A : Type ℓ} → (A → Type 0) → Result A → Type 0
Commits P (ok a) = P a
Commits P (raised e) = Unit {0}

-- The tables that come with a result have the property.
pub record Leaves {ℓ} {A : Type ℓ} (P : Db → Type 0) (r : A × Db) : Type 0 where
  pub holds : P r.1
