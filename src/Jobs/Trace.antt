-- ===== src/Jobs/Trace.antt =====
-- The store as a whole: any interleaving of the methods, by any workers, as a list of operations on
-- one set of tables. Each method is one transaction, so an operation is atomic; one that raises or
-- returns nothing leaves the tables as they were.
pub mod Invariants
pub mod Serving
pub mod Content
pub mod Served
use code_naut.Prelude.{ℕ, String, ◌≡◌, refl, Bool, Option, List, [], ◌∷◌}
use code_naut.Prelude.Pairwise.{Each, Each-map, Each-refl}
use code_naut.Jobs.Model.{
  Job, IndexingMode, IndexingStatus, EdgeRow, ClaimedJob, Settings, Db, Result, ok, raised, Commits,
  Leaves,
}
use code_naut.Jobs.Results.{SymbolRecord, Discovery, Processing}
use code_naut.Jobs.Access
use code_naut.Jobs.Claim
use code_naut.Jobs.Lease
use code_naut.Jobs.Retry
use code_naut.Jobs.Prepare
use code_naut.Jobs.Graph
use code_naut.Jobs.Graph.{EdgeKey}
use code_naut.Jobs.Vectors
use code_naut.Jobs.Activate
use code_naut.Jobs.Cleanup

pub data Op : Type 0 where
  claim : (job_id : ℕ) (worker : String) (now : ℕ) → Op
  mark_enqueued : (job_id now : ℕ) → Op
  authorized_context : (c : ClaimedJob) (now : ℕ) → Op
  revoke_public_access : (repository_id now : ℕ) → Op
  heartbeat : (c : ClaimedJob) (worker : String) (now : ℕ) → Op
  mark_stale : (c : ClaimedJob) (worker code : String) (superseded : Bool) (now : ℕ) → Op
  record_freshness_plan :
      (c : ClaimedJob) (worker : String) (mode : IndexingMode) (reason : Option String)
      (counts : List (String × ℕ)) (changed : ℕ)
      → Op
  stage :
      (c : ClaimedJob) (worker : String) (status : IndexingStatus) (name : String) (progress : ℕ)
      (sha : Option String) (now : ℕ)
      → Op
  prepare_build :
      (c : ClaimedJob) (worker sha : String) (d : Discovery) (p : Processing) (fingerprint : String)
      → Op
  validate_graph : (c : ClaimedJob) (worker : String) → Op
  record_vector_counts :
      (c : ClaimedJob) (worker : String) (embedded vectors reused : ℕ) (reembedded : Option ℕ) → Op
  mark_build_ready : (c : ClaimedJob) (worker : String) → Op
  activate : (c : ClaimedJob) (worker sha : String) (now : ℕ) → Op
  record_failed_build_cleanup : (repository version : ℕ) (done : Bool) (now : ℕ) → Op
  complete_superseded_cleanup : (repository version now : ℕ) → Op
  cancel_revoked : (c : ClaimedJob) (worker : String) (now : ℕ) → Op
  fail :
      (c : ClaimedJob) (worker code message : String) (retryable : Bool) (randbelow : ℕ → ℕ)
      (now : ℕ)
      → Op
  recover_abandoned : (now : ℕ) → Op

-- The tables after a method: as they were, if it raised.
abbrev pub committed : Db → Result Db → Db
committed db (ok after) = after
committed db (raised e) = db

abbrev pub committed_second {ℓ} : {A : Type ℓ} → Db → Result (A × Db) → Db
committed_second db (ok r) = r.1
committed_second db (raised e) = db

module _ (s : Settings) (ids : ℕ → ℕ → SymbolRecord → ℕ) (order_by : List EdgeRow → List EdgeRow)
    (sha256 : List EdgeKey → String) where
  unfoldable pub apply : Op → Db → Db
  apply (claim job_id worker now) db = (Claim.claim job_id worker now db).1
  apply (mark_enqueued job_id now) db = Claim.mark_enqueued job_id now db
  apply (authorized_context c now) db = (Access.authorized_context s c now db).1
  apply (revoke_public_access repository_id now) db =
      Access.revoke_public_access repository_id now db
  apply (heartbeat c worker now) db = Lease.heartbeat c worker now db
  apply (mark_stale c worker code superseded now) db =
      Lease.mark_stale c worker code superseded now db
  apply (record_freshness_plan c worker mode reason counts changed) db =
      Access.record_freshness_plan c worker mode reason counts changed db
  apply (stage c worker status name progress sha now) db =
      Lease.stage c worker status name progress sha now db
  apply (prepare_build c worker sha d p fingerprint) db =
      committed db (Prepare.prepare_build ids s c worker sha d p fingerprint db)
  apply (validate_graph c worker) db =
      committed db (Graph.validate_graph order_by sha256 c worker db)
  apply (record_vector_counts c worker embedded vectors reused reembedded) db =
      committed db (Vectors.record_vector_counts c worker embedded vectors reused reembedded db)
  apply (mark_build_ready c worker) db = committed db (Vectors.mark_build_ready c worker db)
  apply (activate c worker sha now) db = committed_second db (Activate.activate c worker sha now db)
  apply (record_failed_build_cleanup repository version done now) db =
      Cleanup.record_failed_build_cleanup repository version done now db
  apply (complete_superseded_cleanup repository version now) db =
      committed db (Cleanup.complete_superseded_cleanup repository version now db)
  apply (cancel_revoked c worker now) db = Lease.cancel_revoked c worker now db
  apply (fail c worker code message retryable randbelow now) db =
      (Retry.fail s c worker code message retryable randbelow now db).1
  apply (recover_abandoned now) db = (Retry.recover_abandoned s now db).1

  unfoldable pub run : List Op → Db → Db
  run [] db = db
  run (op ∷ ops) db = run ops (apply op db)
