-- ===== src/Jobs/Vectors.antt =====
-- record_vector_counts and mark_build_ready of backend/app/services/indexing_jobs.py.
use code_naut.Prelude.{ℕ, String, Bool, false, not, ◌&&◌, Option, ◌==◌, is_none}
use code_naut.Prelude.Table.{if_found, select, update_where, update_first}
use code_naut.Jobs.Model.{
  Job, Build, BuildState, Db, ClaimedJob, Failure, indexing_error, Result, ok, raised,
}
use code_naut.Jobs.Rows.{building_at, leased, activation_race}

abbrev pub vector_count_mismatch : Failure
vector_count_mismatch = indexing_error (record {
  code = "vector_count_mismatch";
  message = "The inactive vector index failed count validation";
  retryable = false;
})

abbrev pub vector_row : ℕ → ℕ → ℕ → Option ℕ → Job → Job
vector_row embedded vectors reused reembedded j = record j {
  summary = record j.summary {
    embedded_chunk_count = embedded;
    vector_count = vectors;
    reused_chunk_count = reused;
    reembedded_chunk_count = if_found reembedded embedded (λ n. n);
  };
}

unfoldable pub record_vector_counts : ClaimedJob → String → ℕ → ℕ → ℕ → Option ℕ → Db → Result Db
record_vector_counts c worker embedded vectors reused reembedded db =
    if_found (select (leased c worker) db.jobs) (raised activation_race) (λ j.
      if_found j.target_index_version (raised activation_race) (λ version.
        if_found (select (building_at c version) db.builds) (raised activation_race) (λ b.
          ok (record db {
            jobs =
                update_first (leased c worker) (vector_row embedded vectors reused reembedded)
                  db.jobs;
            builds =
                update_first (building_at c version)
                  (λ x. record x { embedded_chunk_count = embedded; vector_count = vectors })
                  db.builds;
          }))))

-- The counts agree and the graph is validated: what the statements of mark_build_ready and activate
-- ask of the row.
abbrev pub counts_agree : Build → Bool
counts_agree b =
    b.expected_chunk_count == b.embedded_chunk_count
    && (b.expected_chunk_count == b.vector_count
        && (b.graph_validated && not (is_none b.graph_fingerprint)))

abbrev pub ready_candidate : ClaimedJob → ℕ → Build → Bool
ready_candidate c version b = building_at c version b && counts_agree b

unfoldable pub mark_build_ready : ClaimedJob → String → Db → Result Db
mark_build_ready c worker db =
    if_found (select (leased c worker) db.jobs) (raised activation_race) (λ j.
      if_found j.target_index_version (raised activation_race) (λ version.
        if_found (select (ready_candidate c version) db.builds) (raised vector_count_mismatch) (λ b.
          ok (record db {
            builds =
                update_where (ready_candidate c version)
                  (λ x. record x { state = BuildState.ready }) db.builds;
          }))))
