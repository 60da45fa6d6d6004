-- ===== src/Jobs/Invariant/BuildMethods.antt =====
-- The methods on builds write no job row.
use code_naut.Prelude.{ℕ, String, Bool, true, false, ◌&&◌, List}
use code_naut.Prelude.Pairwise.{Each-refl}
use code_naut.Prelude.Table.{select, if_found_rule, if_rule}
use code_naut.Jobs.Model.{ClaimedJob, Db, EdgeRow, Commits}
use code_naut.Jobs.Rows.{leased, building_at}
use code_naut.Jobs.Access.{revoke_public_access}
use code_naut.Jobs.Graph.{EdgeKey, validate_graph, graph_agrees, has_fingerprint, stored_edges}
use code_naut.Jobs.Vectors.{mark_build_ready, ready_candidate}
use code_naut.Jobs.Cleanup.{
  record_failed_build_cleanup, complete_superseded_cleanup, can_cleanup_inactive, inactive_at,
}
use code_naut.Jobs.Invariant.{Keeps, Keeps-refl}
use code_naut.Jobs.Invariant.Methods.{KeepsJobs}

module _ (db : Db) where
  same : KeepsJobs db db
  same = Each-refl Keeps db.jobs Keeps-refl

  pub revoke_public_access-Keeps : (r now : ℕ) → KeepsJobs db (revoke_public_access r now db)
  unfolding revoke_public_access
  revoke_public_access-Keeps r now = same

  pub validate_graph-Keeps :
      (order_by : List EdgeRow → List EdgeRow) (sha256 : List EdgeKey → String) (c : ClaimedJob)
      (w : String)
      → Commits (KeepsJobs db) (validate_graph order_by sha256 c w db)
  unfolding validate_graph
  validate_graph-Keeps order_by sha256 c w =
      if_found_rule (Commits (KeepsJobs db)) (select (leased c w) db.jobs) _ _ (λ _. tt)
        λ j _.
          if_found_rule (Commits (KeepsJobs db)) j.target_index_version _ _ (λ _. tt)
            λ version _.
              if_found_rule (Commits (KeepsJobs db)) (select (building_at c version) db.builds) _ _
                (λ _. tt)
                λ b _.
                  if_rule (Commits (KeepsJobs db))
                    (has_fingerprint b
                      && graph_agrees order_by sha256 b
                          (stored_edges order_by sha256 c version b db.edges))
                    _ _ (λ _. same) (λ _. tt)

  pub mark_build_ready-Keeps :
      (c : ClaimedJob) (w : String) → Commits (KeepsJobs db) (mark_build_ready c w db)
  unfolding mark_build_ready
  mark_build_ready-Keeps c w =
      if_found_rule (Commits (KeepsJobs db)) (select (leased c w) db.jobs) _ _ (λ _. tt)
        λ j _.
          if_found_rule (Commits (KeepsJobs db)) j.target_index_version _ _ (λ _. tt)
            λ version _.
              if_found_rule (Commits (KeepsJobs db)) (select (ready_candidate c version) db.builds)
                _ _ (λ _. tt) (λ _ _. same)

  pub record_failed_build_cleanup-Keeps :
      (r v : ℕ) (done : Bool) (now : ℕ) → KeepsJobs db (record_failed_build_cleanup r v done now db)
  unfolding record_failed_build_cleanup
  record_failed_build_cleanup-Keeps r v true now =
      if_found_rule (KeepsJobs db) (select (inactive_at r v) db.builds) _ _ (λ _. same)
        (λ _ _. same)
  record_failed_build_cleanup-Keeps r v false now =
      if_found_rule (KeepsJobs db) (select (inactive_at r v) db.builds) _ _ (λ _. same)
        (λ _ _. same)

  pub complete_superseded_cleanup-Keeps :
      (r v now : ℕ) → Commits (KeepsJobs db) (complete_superseded_cleanup r v now db)
  unfolding complete_superseded_cleanup
  complete_superseded_cleanup-Keeps r v now =
      if_rule (Commits (KeepsJobs db)) (can_cleanup_inactive r v db) _ _ (λ _. same) (λ _. tt)
