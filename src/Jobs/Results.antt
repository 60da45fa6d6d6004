-- ===== src/Jobs/Results.antt =====
-- What discovery and processing hand to the store (backend/app/indexing/models.py and
-- discovery.py).
use code_naut.Prelude.{ℕ, String, Option, List}
use code_naut.Jobs.Model.{GraphCounts, ResolutionType, Confidence, SymbolType}

-- The results of discovery and processing that a build persists (backend/app/indexing/models.py).
pub record SymbolRecord : Type 0 where
  pub file_path : String
  pub language : String
  pub symbol_type : SymbolType
  pub symbol_name : String
  pub qualified_name : String
  pub start_line : ℕ
  pub end_line : ℕ
  pub content_hash : String
  pub commit_sha : String

pub record CallEdgeRecord : Type 0 where
  pub id : ℕ
  pub caller_symbol_id : ℕ
  pub callee_symbol_id : Option ℕ
  pub unresolved_callee_name : Option String
  pub file_path : String
  pub call_line : ℕ
  pub call_end_line : ℕ
  pub call_expression : String
  pub call_site_fingerprint : String
  pub resolution_type : ResolutionType
  pub confidence : Confidence
  pub commit_sha : String

pub record Discovery : Type 0 where
  pub file_count : ℕ
  pub total_bytes : ℕ
  pub skipped : List (String × ℕ)

pub record Processing : Type 0 where
  pub repository_id : ℕ
  pub index_version : ℕ
  pub commit_sha : String
  pub parsed_file_count : ℕ
  pub partial_file_count : ℕ
  pub skipped_file_count : ℕ
  pub symbol_count : ℕ
  pub chunk_count : ℕ
  pub warning_counts : List (String × ℕ)
  pub symbols : List SymbolRecord
  pub graph : GraphCounts
  pub graph_fingerprint : String
  pub call_edges : List CallEdgeRecord
