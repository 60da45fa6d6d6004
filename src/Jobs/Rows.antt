-- ===== src/Jobs/Rows.antt =====
-- The row conditions that the statements of backend/app/services/indexing_jobs.py share.
use code_naut.Prelude.{
  ℕ, ◌*◌, ◌+◌, String, Bool, true, false, ◌&&◌, Option, none, some, ◌==◌, leb, ltb, opt_str_eq,
  opt_eq,
}
use code_naut.Jobs.Model.{
  Job, JobStatus, Build, BuildState, Delivery, SymbolRow, EdgeRow, Repository, Db, ClaimedJob,
  Failure, indexing_error,
}
use code_naut.Prelude.Table.{delete_where}

abbrev pub is_running : JobStatus → Bool
is_running JobStatus.running = true
is_running _ = false

-- `status IN ('queued', 'retrying')`
abbrev pub is_waiting : JobStatus → Bool
is_waiting JobStatus.queued = true
is_waiting JobStatus.retrying = true
is_waiting _ = false

abbrev pub is_building : BuildState → Bool
is_building BuildState.building = true
is_building _ = false

abbrev pub is_ready : BuildState → Bool
is_ready BuildState.ready = true
is_ready _ = false

abbrev pub is_active : BuildState → Bool
is_active BuildState.active = true
is_active _ = false

-- `state IN ('superseded', 'failed')`
abbrev pub is_retired : BuildState → Bool
is_retired BuildState.superseded = true
is_retired BuildState.failed = true
is_retired _ = false

-- `next_attempt_at IS NULL OR next_attempt_at <= now`
abbrev pub is_due : ℕ → Option ℕ → Bool
is_due now none = true
is_due now (some t) = leb t now

abbrev pub claimable : ℕ → Job → Bool
claimable now j = is_waiting j.status && is_due now j.next_attempt_at

-- The worker holds the lease on the claimed job: `id = … AND status = 'running' AND locked_by = …`.
abbrev pub leased : ClaimedJob → String → Job → Bool
leased c worker j = j.id == c.id && (is_running j.status && opt_str_eq j.locked_by worker)

abbrev pub running_in : ℕ → Job → Bool
running_in r j = is_running j.status && j.repository_id == r

abbrev pub build_at : ℕ → ℕ → Build → Bool
build_at r v b = b.repository_id == r && b.index_version == v

-- The inactive build that the claimed job is filling.
abbrev pub building_at : ClaimedJob → ℕ → Build → Bool
building_at c version b =
    build_at c.repository_id version b && (opt_eq b.job_id c.id && is_building b.state)

abbrev pub repository_at : ℕ → Repository → Bool
repository_at r x = x.id == r

-- `now - heartbeat > abandoned_after`, or no heartbeat; `abandoned_after` is in seconds.
abbrev pub is_stale : ℕ → ℕ → Option ℕ → Bool
is_stale after now none = true
is_stale after now (some t) = ltb (t + after * 1000) now

abbrev pub abandoned : ℕ → ℕ → Job → Bool
abandoned after now j = is_running j.status && is_stale after now j.heartbeat_at

abbrev pub delivered_for : ℕ → Delivery → Bool
delivered_for job d = opt_eq d.indexing_job_id job

abbrev pub symbol_at : ℕ → ℕ → SymbolRow → Bool
symbol_at r v s = s.repository_id == r && s.index_version == v

abbrev pub edge_at : ℕ → ℕ → EdgeRow → Bool
edge_at r v e = e.repository_id == r && e.index_version == v

-- `delete(SymbolDefinition)`: the foreign keys of call_edges cascade, and each edge's symbols are
-- of the edge's own repository and version.
unfoldable pub delete_symbols : ℕ → ℕ → Db → Db
delete_symbols r v db = record db {
  symbols = delete_where (symbol_at r v) db.symbols;
  edges = delete_where (edge_at r v) db.edges;
}

abbrev pub activation_race : Failure
activation_race = indexing_error (record {
  code = "index_activation_race";
  message = "The inactive index is no longer eligible for activation";
  retryable = false;
})

abbrev pub graph_validation_error : Failure
graph_validation_error = indexing_error (record {
  code = "call_graph_validation_failed";
  message = "The inactive static call graph failed validation";
  retryable = false;
})
