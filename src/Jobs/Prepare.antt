-- ===== src/Jobs/Prepare.antt =====
-- prepare_build of backend/app/services/indexing_jobs.py: one transaction that resets the inactive
-- build of the next version. A method that raises leaves the tables as they were, because the
-- session closes without a commit.
use code_naut.Prelude.{
  ℕ, ◌+◌, String, Bool, false, not, ◌&&◌, ◌||◌, Option, none, some, List, [], ◌∷◌, ◌++◌, map, ◌==◌,
  ltb, is_none, opt_eq, str_eq, if◌then◌else◌,
}
use code_naut.Prelude.Table.{if_found, select, update_first}
use code_naut.Jobs.Model.{
  Job, SymbolRow, EdgeRow, Build, BuildState, CleanupStatus, Repository, Db, Settings, ClaimedJob,
  Failure, runtime_error, Result, ok, raised,
}
use code_naut.Jobs.Rows.{leased, repository_at, build_at, delete_symbols, activation_race}
use code_naut.Jobs.Results.{SymbolRecord, CallEdgeRecord, Discovery, Processing}

abbrev pub processing_mismatch : Failure
processing_mismatch = runtime_error "processing_result_mismatch"

-- The build row that a first attempt inserts.
abbrev pub new_build : Settings → ClaimedJob → String → String → Processing → Repository → Build
new_build s c commit_sha fingerprint p r = record {
  repository_id = r.id;
  job_id = some c.id;
  index_version = p.index_version;
  state = BuildState.building;
  cleanup_status = CleanupStatus.pending;
  commit_sha = commit_sha;
  embedding = s.embedding;
  preprocessing_fingerprint = fingerprint;
  expected_chunk_count = p.chunk_count;
  embedded_chunk_count = 0;
  vector_count = 0;
  failed_chunk_count = 0;
  skipped_chunk_count = 0;
  graph = p.graph;
  graph_fingerprint = some p.graph_fingerprint;
  graph_validated = false;
  activated_at = none;
  cleanup_completed_at = none;
}

-- What a repeated attempt writes over the row of its version.
abbrev pub reset_build : Settings → ClaimedJob → String → String → Processing → Build → Build
reset_build s c commit_sha fingerprint p b = record b {
  job_id = some c.id;
  state = BuildState.building;
  cleanup_status = CleanupStatus.pending;
  commit_sha = commit_sha;
  embedding = s.embedding;
  preprocessing_fingerprint = fingerprint;
  expected_chunk_count = p.chunk_count;
  embedded_chunk_count = 0;
  vector_count = 0;
  failed_chunk_count = 0;
  skipped_chunk_count = 0;
  graph = p.graph;
  graph_fingerprint = some p.graph_fingerprint;
  graph_validated = false;
  activated_at = none;
  cleanup_completed_at = none;
}

-- `build.job_id not in {None, claimed.id}`
abbrev pub foreign_build : ClaimedJob → Build → Bool
foreign_build c b = not (is_none b.job_id || opt_eq b.job_id c.id)

unfoldable pub upsert_build :
    Settings
    → ClaimedJob
    → String
    → String
    → Processing
    → Repository
    → Option Build
    → List Build
    → List Build
upsert_build s c commit_sha fingerprint p r none builds =
    builds ++ new_build s c commit_sha fingerprint p r ∷ []
upsert_build s c commit_sha fingerprint p r (some _) builds =
    update_first (build_at r.id p.index_version) (reset_build s c commit_sha fingerprint p) builds

unfoldable pub symbol_row : (ℕ → ℕ → SymbolRecord → ℕ) → ℕ → ℕ → SymbolRecord → SymbolRow
symbol_row symbol_id repository version x = record {
  id = symbol_id repository version x;
  repository_id = repository;
  index_version = version;
  file_path = x.file_path;
  language = x.language;
  symbol_type = x.symbol_type;
  symbol_name = x.symbol_name;
  qualified_name = x.qualified_name;
  start_line = x.start_line;
  end_line = x.end_line;
  content_hash = x.content_hash;
  commit_sha = x.commit_sha;
}

unfoldable pub edge_row : ℕ → ℕ → CallEdgeRecord → EdgeRow
edge_row repository version x = record {
  id = x.id;
  repository_id = repository;
  index_version = version;
  caller_symbol_id = x.caller_symbol_id;
  callee_symbol_id = x.callee_symbol_id;
  unresolved_callee_name = x.unresolved_callee_name;
  file_path = x.file_path;
  call_line = x.call_line;
  call_end_line = x.call_end_line;
  call_expression = x.call_expression;
  call_site_fingerprint = x.call_site_fingerprint;
  resolution_type = x.resolution_type;
  confidence = x.confidence;
  commit_sha = x.commit_sha;
}

unfoldable pub prepared_job : Settings → String → String → Discovery → Processing → Job → Job
prepared_job s commit_sha fingerprint d p j = record j {
  source_commit_sha = some commit_sha;
  summary = record {
    discovered_file_count = d.file_count;
    discovered_total_bytes = d.total_bytes;
    skipped_files = d.skipped;
    parsed_file_count = p.parsed_file_count;
    partial_file_count = p.partial_file_count;
    parser_skipped_file_count = p.skipped_file_count;
    symbol_count = p.symbol_count;
    chunk_count = p.chunk_count;
    parser_warnings = p.warning_counts;
    embedding = some s.embedding;
    preprocessing_fingerprint = some fingerprint;
    graph = p.graph;
    embedded_chunk_count = j.summary.embedded_chunk_count;
    vector_count = j.summary.vector_count;
    reused_chunk_count = j.summary.reused_chunk_count;
    reembedded_chunk_count = j.summary.reembedded_chunk_count;
  };
}

-- `processing_result_mismatch`: the result is of another repository, commit or an unversioned one.
abbrev pub mismatched : ClaimedJob → String → Processing → Bool
mismatched c commit_sha p =
    not (p.repository_id == c.repository_id)
    || (not (str_eq p.commit_sha commit_sha) || ltb p.index_version 1)

abbrev pub is_foreign : ClaimedJob → Option Build → Bool
is_foreign c none = false
is_foreign c (some b) = foreign_build c b

abbrev pub next_version : Job → Repository → Processing → Bool
next_version j r p =
    opt_eq j.target_index_version p.index_version && p.index_version == r.index_version + 1

module _ (symbol_id : ℕ → ℕ → SymbolRecord → ℕ) (s : Settings) (c : ClaimedJob) where
  -- The writes of a build whose guards hold, for the selected job and repository.
  unfoldable pub write_build :
      String → String → String → Discovery → Processing → Job → Repository → Option Build → Db → Db
  unfolding upsert_build symbol_row edge_row prepared_job delete_symbols
  write_build worker commit_sha fingerprint d p j r found db =
      let cleared = delete_symbols r.id p.index_version db in
      record cleared {
        jobs = update_first (leased c worker) (prepared_job s commit_sha fingerprint d p) db.jobs;
        repositories =
            update_first (repository_at j.repository_id)
              (λ x. record x {
                current_remote_sha = some commit_sha;
                size_bytes = some d.total_bytes;
              })
              db.repositories;
        builds = upsert_build s c commit_sha fingerprint p r found db.builds;
        symbols = cleared.symbols ++ map (symbol_row symbol_id r.id p.index_version) p.symbols;
        edges = cleared.edges ++ map (edge_row r.id p.index_version) p.call_edges;
      }

  unfoldable pub prepare_build : String → String → Discovery → Processing → String → Db → Result Db
  unfolding write_build
  prepare_build worker commit_sha d p fingerprint db =
      if mismatched c commit_sha p
      then raised processing_mismatch
      else if_found (select (leased c worker) db.jobs) (raised activation_race) (λ j.
        if_found (select (repository_at j.repository_id) db.repositories) (raised activation_race)
          (λ r.
            let found = select (build_at r.id p.index_version) db.builds in
            if next_version j r p && not (is_foreign c found)
            then ok (write_build worker commit_sha fingerprint d p j r found db)
            else raised activation_race))
