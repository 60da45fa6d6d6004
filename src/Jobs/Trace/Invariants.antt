-- ===== src/Jobs/Trace/Invariants.antt =====
-- What holds of the tables after any operations.
use code_naut.Prelude.{ℕ, String, List, [], ◌∷◌}
use code_naut.Prelude.Pairwise.{Each-map, Each-refl}
use code_naut.Jobs.Model.{EdgeRow, Settings, Db, Result, ok, raised, Commits, Leaves}
use code_naut.Jobs.Results.{SymbolRecord}
use code_naut.Jobs.Graph.{EdgeKey}
use code_naut.Jobs.Trace.{Op, apply, run, committed, committed_second}
use code_naut.Jobs.Invariant.{JobsInvariant, Keeps, Keeps-refl, Keeps-JobsInvariant}
use code_naut.Jobs.Invariant.Methods
use code_naut.Jobs.Invariant.Methods.{KeepsJobs}
use code_naut.Jobs.Invariant.BuildMethods
use code_naut.Jobs.Invariant.Claim.{MovesJobs, claim-Moves, claim-JobsInvariant}

-- From what holds of a result to what holds of the tables.
pub of_Commits :
    (P : Db → Type 0) (db : Db) (r : Result Db) → P db → Commits P r → P (committed db r)
of_Commits P db (ok after) h k = k
of_Commits P db (raised e) h k = h

pub of_Commits_second {ℓ} :
    {A : Type ℓ} (P : Db → Type 0) (db : Db) (r : Result (A × Db))
    → P db
    → Commits (Leaves P) r
    → P (committed_second db r)
of_Commits_second P db (ok r) h k = k.holds
of_Commits_second P db (raised e) h k = h

module _ (s : Settings) (ids : ℕ → ℕ → SymbolRecord → ℕ) (order_by : List EdgeRow → List EdgeRow)
    (sha256 : List EdgeKey → String) where
  abbrev after : Op → Db → Db
  after = apply s ids order_by sha256

  same : (db : Db) → KeepsJobs db db
  same db = Each-refl Keeps db.jobs Keeps-refl

  -- All operations but a claim.
  abbrev IsClaim : Op → Type 0
  IsClaim (Op.claim job_id worker now) = Unit
  IsClaim _ = ⊥

  apply-Keeps : (op : Op) (db : Db) → ¬ IsClaim op → KeepsJobs db (after op db)
  unfolding apply
  apply-Keeps (Op.claim job_id worker now) db h = absurd (h tt)
  apply-Keeps (Op.mark_enqueued job_id now) db h = Methods.mark_enqueued-Keeps job_id now db
  apply-Keeps (Op.authorized_context c now) db h =
      (Methods.authorized_context-Keeps s c now db).holds
  apply-Keeps (Op.revoke_public_access r now) db h =
      BuildMethods.revoke_public_access-Keeps db r now
  apply-Keeps (Op.heartbeat c w now) db h = Methods.heartbeat-Keeps c w db now
  apply-Keeps (Op.mark_stale c w code superseded now) db h =
      Methods.mark_stale-Keeps c w db code superseded now
  apply-Keeps (Op.record_freshness_plan c w m why counts n) db h =
      Methods.record_freshness_plan-Keeps c w db m why counts n
  apply-Keeps (Op.stage c w status name progress sha now) db h =
      Methods.stage-Keeps c w db status name progress sha now
  apply-Keeps (Op.prepare_build c w sha d p fingerprint) db h =
      of_Commits (KeepsJobs db) db _ (same db)
        (Methods.prepare_build-Keeps c w db ids s sha d p fingerprint)
  apply-Keeps (Op.validate_graph c w) db h =
      of_Commits (KeepsJobs db) db _ (same db)
        (BuildMethods.validate_graph-Keeps db order_by sha256 c w)
  apply-Keeps (Op.record_vector_counts c w e v r n) db h =
      of_Commits (KeepsJobs db) db _ (same db) (Methods.record_vector_counts-Keeps c w db e v r n)
  apply-Keeps (Op.mark_build_ready c w) db h =
      of_Commits (KeepsJobs db) db _ (same db) (BuildMethods.mark_build_ready-Keeps db c w)
  apply-Keeps (Op.activate c w sha now) db h =
      of_Commits_second (KeepsJobs db) db _ (same db) (Methods.activate-Keeps c w db sha now)
  apply-Keeps (Op.record_failed_build_cleanup r v done now) db h =
      BuildMethods.record_failed_build_cleanup-Keeps db r v done now
  apply-Keeps (Op.complete_superseded_cleanup r v now) db h =
      of_Commits (KeepsJobs db) db _ (same db)
        (BuildMethods.complete_superseded_cleanup-Keeps db r v now)
  apply-Keeps (Op.cancel_revoked c w now) db h = Methods.cancel_revoked-Keeps c w db now
  apply-Keeps (Op.fail c w code message retryable randbelow now) db h =
      (Methods.fail-Keeps c w db s code message retryable randbelow now).holds
  apply-Keeps (Op.recover_abandoned now) db h = (Methods.recover_abandoned-Keeps s now db).holds

  keeps_moves : (a b : Db) → KeepsJobs a b → MovesJobs a b
  keeps_moves a b k = Each-map a.jobs b.jobs (λ x y m. m.moves) k

  -- Every operation moves every job along the state diagram, keeps its identity, never lowers its
  -- attempt, keeps the lease law, and leaves a complete, failed or cancelled row as it is.
  pub apply-Moves : (op : Op) (db : Db) → MovesJobs db (after op db)
  unfolding apply
  apply-Moves (Op.claim job_id worker now) db = (claim-Moves job_id worker now db).holds
  apply-Moves op db = keeps_moves db (after op db) (apply-Keeps op db (λ h. h))

  pub apply-JobsInvariant :
      (op : Op) (db : Db) → JobsInvariant db.jobs → JobsInvariant (after op db).jobs
  unfolding apply
  apply-JobsInvariant (Op.claim job_id worker now) db inv =
      (claim-JobsInvariant job_id worker now db inv).holds
  apply-JobsInvariant op db inv =
      Keeps-JobsInvariant db.jobs (after op db).jobs (apply-Keeps op db (λ h. h)) inv

  -- After any operations by any workers a repository has at most one running job, a job id names
  -- one row, and exactly the running jobs have a lease holder.
  pub run-JobsInvariant :
      (ops : List Op) (db : Db)
      → JobsInvariant db.jobs
      → JobsInvariant (run s ids order_by sha256 ops db).jobs
  unfolding run
  run-JobsInvariant [] db inv = inv
  run-JobsInvariant (op ∷ ops) db inv =
      run-JobsInvariant ops (after op db) (apply-JobsInvariant op db inv)
