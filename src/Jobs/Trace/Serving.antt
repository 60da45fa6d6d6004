-- ===== src/Jobs/Trace/Serving.antt =====
-- What a repository serves, under any operations.
use code_naut.Prelude.{ℕ, String, List, [], ◌∷◌}
use code_naut.Jobs.Model.{EdgeRow, Settings, Db}
use code_naut.Jobs.Results.{SymbolRecord}
use code_naut.Jobs.Graph.{EdgeKey}
use code_naut.Jobs.Trace.{Op, apply, run}
use code_naut.Jobs.Trace.Invariants.{of_Commits, of_Commits_second}
use code_naut.Jobs.Index.{IndexInvariant, IndexInvariant-Keeps}
use code_naut.Jobs.Index.Methods as IndexMethods
use code_naut.Jobs.Index.Methods.{KeepsIndex, KeepsIndex-refl}
use code_naut.Jobs.Index.Prepare.{prepare_build-IndexInvariant}
use code_naut.Jobs.Index.Activate.{activate-IndexInvariant}

abbrev pub ServesTruly : Db → Type 0
ServesTruly db = IndexInvariant db.repositories db.builds

keeps_serving : (a b : Db) → KeepsIndex a b → ServesTruly a → ServesTruly b
keeps_serving a b k inv =
    IndexInvariant-Keeps a.repositories b.repositories k.versions a.builds b.builds k.rows inv

module _ (s : Settings) (ids : ℕ → ℕ → SymbolRecord → ℕ) (order_by : List EdgeRow → List EdgeRow)
    (sha256 : List EdgeKey → String) where
  abbrev after : Op → Db → Db
  after = apply s ids order_by sha256

  -- The operations that change what is served, or which build rows there are.
  abbrev pub IsSwitch : Op → Type 0
  IsSwitch (Op.prepare_build c w sha d p fingerprint) = Unit
  IsSwitch (Op.activate c w sha now) = Unit
  IsSwitch _ = ⊥

  pub apply-KeepsIndex : (op : Op) (db : Db) → ¬ IsSwitch op → KeepsIndex db (after op db)
  unfolding apply
  apply-KeepsIndex (Op.prepare_build c w sha d p fingerprint) db h = absurd (h tt)
  apply-KeepsIndex (Op.activate c w sha now) db h = absurd (h tt)
  apply-KeepsIndex (Op.claim job_id w now) db h =
      (IndexMethods.claim-KeepsIndex job_id now w db).holds
  apply-KeepsIndex (Op.mark_enqueued job_id now) db h =
      IndexMethods.mark_enqueued-KeepsIndex job_id now db
  apply-KeepsIndex (Op.authorized_context c now) db h =
      (IndexMethods.authorized_context-KeepsIndex s c now db).holds
  apply-KeepsIndex (Op.revoke_public_access r now) db h =
      IndexMethods.revoke_public_access-KeepsIndex r now db
  apply-KeepsIndex (Op.heartbeat c w now) db h = IndexMethods.heartbeat-KeepsIndex c w db now
  apply-KeepsIndex (Op.mark_stale c w code superseded now) db h =
      IndexMethods.mark_stale-KeepsIndex c w db code superseded now
  apply-KeepsIndex (Op.record_freshness_plan c w m why counts n) db h =
      IndexMethods.record_freshness_plan-KeepsIndex c w db m why counts n
  apply-KeepsIndex (Op.stage c w status name progress sha now) db h =
      IndexMethods.stage-KeepsIndex c w db status name progress sha now
  apply-KeepsIndex (Op.validate_graph c w) db h =
      of_Commits (KeepsIndex db) db _ (KeepsIndex-refl db)
        (IndexMethods.validate_graph-KeepsIndex c w db order_by sha256)
  apply-KeepsIndex (Op.record_vector_counts c w e v r n) db h =
      of_Commits (KeepsIndex db) db _ (KeepsIndex-refl db)
        (IndexMethods.record_vector_counts-KeepsIndex c w db e v r n)
  apply-KeepsIndex (Op.mark_build_ready c w) db h =
      of_Commits (KeepsIndex db) db _ (KeepsIndex-refl db)
        (IndexMethods.mark_build_ready-KeepsIndex c w db)
  apply-KeepsIndex (Op.record_failed_build_cleanup r v done now) db h =
      IndexMethods.record_failed_build_cleanup-KeepsIndex r v done now db
  apply-KeepsIndex (Op.complete_superseded_cleanup r v now) db h =
      of_Commits (KeepsIndex db) db _ (KeepsIndex-refl db)
        (IndexMethods.complete_superseded_cleanup-KeepsIndex r v now db)
  apply-KeepsIndex (Op.cancel_revoked c w now) db h =
      IndexMethods.cancel_revoked-KeepsIndex c w db now
  apply-KeepsIndex (Op.fail c w code message retryable randbelow now) db h =
      (IndexMethods.fail-KeepsIndex c w db s code message retryable randbelow now).holds
  apply-KeepsIndex (Op.recover_abandoned now) db h =
      (IndexMethods.recover_abandoned-KeepsIndex s now db).holds

  pub apply-ServesTruly : (op : Op) (db : Db) → ServesTruly db → ServesTruly (after op db)
  unfolding apply
  apply-ServesTruly (Op.prepare_build c w sha d p fingerprint) db inv =
      of_Commits ServesTruly db _ inv
        (prepare_build-IndexInvariant ids s c w sha d p fingerprint db inv)
  apply-ServesTruly (Op.activate c w sha now) db inv =
      of_Commits_second ServesTruly db _ inv (activate-IndexInvariant c w sha now db inv)
  apply-ServesTruly op db inv = keeps_serving db (after op db) (apply-KeepsIndex op db (λ h. h)) inv

  -- After any operations by any workers: a build row is active exactly when its version is the one
  -- that its repository serves; a ready or active row has equal expected, embedded and vector
  -- counts, a validated graph and a fingerprint; and a version of a repository has one row.
  pub run-ServesTruly :
      (ops : List Op) (db : Db) → ServesTruly db → ServesTruly (run s ids order_by sha256 ops db)
  unfolding run
  run-ServesTruly [] db inv = inv
  run-ServesTruly (op ∷ ops) db inv =
      run-ServesTruly ops (after op db) (apply-ServesTruly op db inv)
