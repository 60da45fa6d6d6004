-- ===== src/Jobs/Trace/Served.antt =====
-- No operation touches the content that a repository serves.
use mathlib.Core.List.{foldl}
use code_naut.Prelude.{ℕ, String, ◌≡◌, refl, Bool, ◌&&◌, Option, some, List, [], ◌∷◌, any, keep_if}
use code_naut.Prelude.Table.{select, if_found, if_found_rule, if_rule}
use code_naut.Jobs.Model.{Job, EdgeRow, Settings, Db, ClaimedJob, Commits, Leaves}
use code_naut.Jobs.Rows.{leased, repository_at, running_in, building_at, abandoned}
use code_naut.Jobs.Results.{SymbolRecord}
use code_naut.Jobs.Claim
use code_naut.Jobs.Access
use code_naut.Jobs.Lease
use code_naut.Jobs.Retry
use code_naut.Jobs.Graph
use code_naut.Jobs.Graph.{EdgeKey}
use code_naut.Jobs.Vectors
use code_naut.Jobs.Activate
use code_naut.Jobs.Index.{version_of}
use code_naut.Jobs.Trace.{Op, apply}
use code_naut.Jobs.Trace.Serving.{ServesTruly}
use code_naut.Jobs.Trace.Invariants.{of_Commits, of_Commits_second}
use code_naut.Jobs.Trace.Content.{
  SameContent, SameContent-refl, prepare_build-SameContent, record_failed_build_cleanup-SameContent,
  complete_superseded_cleanup-SameContent,
}

-- The methods that write neither symbols nor edges.
record Untouched (a b : Db) : Type 0 where
  symbols : b.symbols ≡ a.symbols
  edges : b.edges ≡ a.edges

Untouched-refl : (a : Db) → Untouched a a
Untouched-refl a = record { symbols = refl; edges = refl }

Untouched-SameContent : (r v : ℕ) (a b : Db) → Untouched a b → SameContent r v a b
Untouched-SameContent r v a b u = record { symbols = rw u.symbols; edges = rw u.edges }

module _ (db : Db) where
  abbrev Same : Db → Type 0
  Same = Untouched db

  nothing : Untouched db db
  nothing = Untouched-refl db

  claim-Untouched : (job_id now : ℕ) (w : String) → Leaves Same (Claim.claim job_id w now db)
  unfolding Claim.claim
  claim-Untouched job_id now w =
      if_found_rule (Leaves Same) (select (Claim.wanted job_id now) db.jobs) _ _
        (λ _. record { holds = nothing })
        λ j _.
          if_rule (Leaves Same) (any (running_in j.repository_id) db.jobs) _ _
            (λ _. record { holds = nothing })
            (λ _. record { holds = record { symbols = refl; edges = refl } })

  authorized_context-Untouched :
      (s : Settings) (c : ClaimedJob) (now : ℕ) → Leaves Same (Access.authorized_context s c now db)
  unfolding Access.authorized_context
  authorized_context-Untouched s c now =
      if_found_rule (Leaves Same) (select (Access.claimed_running c) db.jobs) _ _
        (λ _. record { holds = nothing })
        λ j _.
          if_found_rule (Leaves Same) (select (repository_at j.repository_id) db.repositories) _ _
            (λ _. record { holds = nothing })
            λ r _.
              if_rule (Leaves Same) (Access.is_authorized s now db j r) _ _
                (λ _. record { holds = record { symbols = refl; edges = refl } })
                (λ _. record { holds = nothing })

  fail-Untouched :
      (s : Settings) (c : ClaimedJob) (w code message : String) (retryable : Bool)
      (randbelow : ℕ → ℕ) (now : ℕ)
      → Leaves Same (Retry.fail s c w code message retryable randbelow now db)
  unfolding Retry.fail
  fail-Untouched s c w code message retryable randbelow now =
      if_found_rule (Leaves Same) (select (leased c w) db.jobs) _ _
        (λ _. record { holds = nothing })
        (λ _ _. record { holds = record { symbols = refl; edges = refl } })

  validate_graph-Untouched :
      (order_by : List EdgeRow → List EdgeRow) (sha256 : List EdgeKey → String) (c : ClaimedJob)
      (w : String)
      → Commits Same (Graph.validate_graph order_by sha256 c w db)
  unfolding Graph.validate_graph
  validate_graph-Untouched order_by sha256 c w =
      if_found_rule (Commits Same) (select (leased c w) db.jobs) _ _ (λ _. tt)
        λ j _.
          if_found_rule (Commits Same) j.target_index_version _ _ (λ _. tt)
            λ version _.
              if_found_rule (Commits Same) (select (building_at c version) db.builds) _ _ (λ _. tt)
                λ b _.
                  if_rule (Commits Same)
                    (Graph.has_fingerprint b
                      && Graph.graph_agrees order_by sha256 b
                          (Graph.stored_edges order_by sha256 c version b db.edges))
                    _ _ (λ _. record { symbols = refl; edges = refl }) (λ _. tt)

  record_vector_counts-Untouched :
      (c : ClaimedJob) (w : String) (e v r : ℕ) (n : Option ℕ)
      → Commits Same (Vectors.record_vector_counts c w e v r n db)
  unfolding Vectors.record_vector_counts
  record_vector_counts-Untouched c w e v r n =
      if_found_rule (Commits Same) (select (leased c w) db.jobs) _ _ (λ _. tt)
        λ j _.
          if_found_rule (Commits Same) j.target_index_version _ _ (λ _. tt)
            λ version _.
              if_found_rule (Commits Same) (select (building_at c version) db.builds) _ _ (λ _. tt)
                (λ _ _. record { symbols = refl; edges = refl })

  mark_build_ready-Untouched :
      (c : ClaimedJob) (w : String) → Commits Same (Vectors.mark_build_ready c w db)
  unfolding Vectors.mark_build_ready
  mark_build_ready-Untouched c w =
      if_found_rule (Commits Same) (select (leased c w) db.jobs) _ _ (λ _. tt)
        λ j _.
          if_found_rule (Commits Same) j.target_index_version _ _ (λ _. tt)
            λ version _.
              if_found_rule (Commits Same) (select (Vectors.ready_candidate c version) db.builds) _
                _ (λ _. tt) (λ _ _. record { symbols = refl; edges = refl })

  activate-Untouched :
      (c : ClaimedJob) (w sha : String) (now : ℕ)
      → Commits (Leaves Same) (Activate.activate c w sha now db)
  unfolding Activate.activate
  activate-Untouched c w sha now =
      if_found_rule (Commits (Leaves Same)) (select (leased c w) db.jobs) _ _ (λ _. tt)
        λ j _.
          if_found_rule (Commits (Leaves Same))
            (select (repository_at j.repository_id) db.repositories) _ _ (λ _. tt)
            λ r _.
              if_found_rule (Commits (Leaves Same)) j.target_index_version _ _ (λ _. tt)
                λ target _.
                  if_rule (Commits (Leaves Same)) (Activate.may_activate j r target) _ _
                    (λ _.
                      if_found_rule (Commits (Leaves Same))
                        (select (Activate.activatable c r.id target sha) db.builds) _ _ (λ _. tt)
                        λ b _.
                          if_rule (Commits (Leaves Same)) (Activate.lost_previous r db.builds) _ _
                            (λ _. tt)
                            (λ _.
                              if_rule (Commits (Leaves Same)) (Activate.still_active r db.builds) _
                                _ (λ _. tt)
                                λ _. record { holds = record { symbols = refl; edges = refl } }))
                    (λ _. tt)

  stage_like :
      (c : ClaimedJob) (w : String) (k : Job → Db)
      → ((j : Job) → Same (k j))
      → (after : Db) → after ≡ if_found (select (leased c w) db.jobs) db k
      → Same after
  stage_like c w k touched after e =
      rw e (if_found_rule Same (select (leased c w) db.jobs) db k (λ _. nothing) (λ j _. touched j))

recover_scope-Untouched :
    (s : Settings) (now : ℕ) (stale : List Job) (a db : Db)
    → Untouched a db
    → Untouched a (foldl (Retry.recover_scope s now) db stale)
unfolding Retry.recover_scope
recover_scope-Untouched s now [] a db u = u
recover_scope-Untouched s now (j ∷ js) a db u =
    recover_scope-Untouched s now js a (Retry.recover_scope s now db j)
      (record { symbols = u.symbols; edges = u.edges })

module _ (s : Settings) (ids : ℕ → ℕ → SymbolRecord → ℕ) (order_by : List EdgeRow → List EdgeRow)
    (sha256 : List EdgeKey → String) where
  -- A version that a repository serves keeps its symbols and its edges under every operation, also
  -- under the activation of the next version.
  pub apply-SameContent :
      (op : Op) (db : Db) (r v : ℕ)
      → ServesTruly db
      → version_of r db.repositories ≡ some v
      → SameContent r v db (apply s ids order_by sha256 op db)
  unfolding apply Access.revoke_public_access Access.record_freshness_plan Lease.heartbeat
      Lease.stage Lease.mark_stale Lease.cancel_revoked Claim.mark_enqueued Retry.recover_abandoned
  apply-SameContent (Op.prepare_build c w sha d p fingerprint) db r v inv served =
      of_Commits (SameContent r v db) db _ (SameContent-refl r v db)
        (prepare_build-SameContent r v db inv served ids s c w sha d p fingerprint)
  apply-SameContent (Op.record_failed_build_cleanup i k done now) db r v inv served =
      record_failed_build_cleanup-SameContent r v db inv served i k done now
  apply-SameContent (Op.complete_superseded_cleanup i k now) db r v inv served =
      of_Commits (SameContent r v db) db _ (SameContent-refl r v db)
        (complete_superseded_cleanup-SameContent r v db inv served i k now)
  apply-SameContent (Op.claim job_id w now) db r v inv served =
      Untouched-SameContent r v db _ (claim-Untouched db job_id now w).holds
  apply-SameContent (Op.mark_enqueued job_id now) db r v inv served =
      Untouched-SameContent r v db _ (record { symbols = refl; edges = refl })
  apply-SameContent (Op.authorized_context c now) db r v inv served =
      Untouched-SameContent r v db _ (authorized_context-Untouched db s c now).holds
  apply-SameContent (Op.revoke_public_access i now) db r v inv served =
      Untouched-SameContent r v db _ (record { symbols = refl; edges = refl })
  apply-SameContent (Op.heartbeat c w now) db r v inv served =
      Untouched-SameContent r v db _ (record { symbols = refl; edges = refl })
  apply-SameContent (Op.mark_stale c w code superseded now) db r v inv served =
      Untouched-SameContent r v db _
        (stage_like db c w _ (λ j. record { symbols = refl; edges = refl }) _ refl)
  apply-SameContent (Op.record_freshness_plan c w m why counts n) db r v inv served =
      Untouched-SameContent r v db _ (record { symbols = refl; edges = refl })
  apply-SameContent (Op.stage c w status name progress sha now) db r v inv served =
      Untouched-SameContent r v db _
        (stage_like db c w _ (λ j. record { symbols = refl; edges = refl }) _ refl)
  apply-SameContent (Op.validate_graph c w) db r v inv served = Untouched-SameContent r v db _ (
      of_Commits (Untouched db) db _ (nothing db) (validate_graph-Untouched db order_by sha256 c w))
  apply-SameContent (Op.record_vector_counts c w e n m k) db r v inv served =
      Untouched-SameContent r v db _ (
        of_Commits (Untouched db) db _ (nothing db) (record_vector_counts-Untouched db c w e n m k))
  apply-SameContent (Op.mark_build_ready c w) db r v inv served =
      Untouched-SameContent r v db _
        (of_Commits (Untouched db) db _ (nothing db) (mark_build_ready-Untouched db c w))
  apply-SameContent (Op.activate c w sha now) db r v inv served =
      Untouched-SameContent r v db _
        (of_Commits_second (Untouched db) db _ (nothing db) (activate-Untouched db c w sha now))
  apply-SameContent (Op.cancel_revoked c w now) db r v inv served =
      Untouched-SameContent r v db _
        (stage_like db c w _ (λ j. record { symbols = refl; edges = refl }) _ refl)
  apply-SameContent (Op.fail c w code message retryable randbelow now) db r v inv served =
      Untouched-SameContent r v db _
        (fail-Untouched db s c w code message retryable randbelow now).holds
  apply-SameContent (Op.recover_abandoned now) db r v inv served = Untouched-SameContent r v db _ (
      recover_scope-Untouched s now (keep_if (abandoned s.abandoned_after now) db.jobs) db _
        (record { symbols = refl; edges = refl }))
