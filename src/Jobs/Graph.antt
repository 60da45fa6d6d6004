-- ===== src/Jobs/Graph.antt =====
-- validate_graph of backend/app/services/indexing_jobs.py: the persisted call graph of an inactive
-- build against its counts and fingerprint.
use code_naut.Prelude.{
  ℕ, String, Bool, true, false, not, ◌&&◌, Option, List, map, ◌==◌, length, count_if, keep_if,
  is_none, opt_str_eq, str_eq, if◌then◌else◌,
}
use code_naut.Prelude.Table.{if_found, select, update_first}
use code_naut.Jobs.Model.{
  ResolutionType, Confidence, EdgeRow, Build, Db, ClaimedJob, Result, ok, raised,
}
use code_naut.Jobs.Rows.{building_at, leased, edge_at, activation_race, graph_validation_error}

-- What the fingerprint of a graph is made of, edge by edge.
pub record EdgeKey : Type 0 where
  pub id : ℕ
  pub caller_symbol_id : ℕ
  pub callee_symbol_id : Option ℕ
  pub call_site_fingerprint : String
  pub resolution_type : ResolutionType
  pub confidence : Confidence

abbrev pub edge_key : EdgeRow → EdgeKey
edge_key e = record {
  id = e.id;
  caller_symbol_id = e.caller_symbol_id;
  callee_symbol_id = e.callee_symbol_id;
  call_site_fingerprint = e.call_site_fingerprint;
  resolution_type = e.resolution_type;
  confidence = e.confidence;
}

abbrev pub is_probable : ResolutionType → Bool
is_probable ResolutionType.probable_method = true
is_probable _ = false

abbrev pub is_ambiguous : ResolutionType → Bool
is_ambiguous ResolutionType.ambiguous = true
is_ambiguous _ = false

abbrev pub is_unresolved : ResolutionType → Bool
is_unresolved ResolutionType.unresolved = true
is_unresolved _ = false

abbrev pub is_exact : EdgeRow → Bool
is_exact e = not (is_none e.callee_symbol_id) && not (is_probable e.resolution_type)

-- `not build.graph_fingerprint`: NULL or empty.
abbrev pub has_fingerprint : Build → Bool
has_fingerprint b = if_found b.graph_fingerprint false (λ f. not (str_eq f ""))

-- The database's ORDER BY and SHA-256 of the joined keys are not part of the repository.
module _ (order_by : List EdgeRow → List EdgeRow) (sha256 : List EdgeKey → String) where
  -- The stored edges agree with the counts and the fingerprint of the build.
  unfoldable pub graph_agrees : Build → List EdgeRow → Bool
  graph_agrees b edges =
      length edges == b.graph.call_site_count
      && (count_if is_exact edges == b.graph.exact_edge_count
          && (count_if (λ e. is_ambiguous e.resolution_type) edges == b.graph.ambiguous_edge_count
              && (count_if (λ e. is_unresolved e.resolution_type) edges
                    == b.graph.unresolved_call_count
                  && opt_str_eq b.graph_fingerprint (sha256 (map edge_key edges)))))

  abbrev pub stored_edges : ClaimedJob → ℕ → Build → List EdgeRow → List EdgeRow
  stored_edges c version b edges =
      order_by
        (keep_if (λ e. edge_at c.repository_id version e && str_eq e.commit_sha b.commit_sha) edges)

  unfoldable pub validate_graph : ClaimedJob → String → Db → Result Db
  unfolding graph_agrees
  validate_graph c worker db =
      if_found (select (leased c worker) db.jobs) (raised activation_race) (λ j.
        if_found j.target_index_version (raised activation_race) (λ version.
          if_found (select (building_at c version) db.builds) (raised graph_validation_error) (λ b.
            if has_fingerprint b && graph_agrees b (stored_edges c version b db.edges)
            then ok (record db {
              builds =
                  update_first (building_at c version) (λ x. record x { graph_validated = true })
                    db.builds;
            })
            else raised graph_validation_error)))
