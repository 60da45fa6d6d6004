-- ===== src/Jobs/Index/Methods.antt =====
-- Every method but prepare_build and activate keeps the served versions and the served rows.
use mathlib.Core.List.{foldl}
use code_naut.Prelude.{
  ℕ, String, ◌≡◌, refl, ◌∙◌, Bool, true, ◌&&◌, Option, List, [], ◌∷◌, arith, any, keep_if,
}
use code_naut.Prelude.Pairwise.{Each, Each-refl, Each-update_where, Each-update_first}
use code_naut.Prelude.Table.{select, update_where, if_found_rule, if_rule}
use code_naut.Jobs.Model.{
  Job, IndexingMode, IndexingStatus, ClaimedJob, Settings, Db, Repository, BuildState, EdgeRow,
  Commits, Leaves,
}
use code_naut.Jobs.Rows.{leased, abandoned, repository_at, building_at, running_in}
use code_naut.Jobs.Claim.{claim, wanted, cloning, mark_enqueued}
use code_naut.Jobs.Access.{
  authorized_context, claimed_running, is_authorized, record_freshness_plan, revoke_public_access,
}
use code_naut.Jobs.Lease.{heartbeat, stage, mark_stale, cancel_revoked}
use code_naut.Jobs.Retry.{fail, recover_abandoned, recover_scope, stopped_repository, should_retry}
use code_naut.Jobs.Graph.{EdgeKey, validate_graph, graph_agrees, has_fingerprint, stored_edges}
use code_naut.Jobs.Vectors.{record_vector_counts, mark_build_ready, ready_candidate}
use code_naut.Jobs.Cleanup.{
  record_failed_build_cleanup, complete_superseded_cleanup, can_cleanup_inactive, inactive_at,
  failed_build, retired_at, cleaned_build,
}
use code_naut.Jobs.Index.{
  version_of, version_of-Each, BuildKeeps, BuildKeeps-refl, RepositoryKeeps, RepositoryKeeps-refl,
}

pub record KeepsIndex (a b : Db) : Type 0 where
  pub versions : (r : ℕ) → version_of r b.repositories ≡ version_of r a.repositories
  pub rows : Each BuildKeeps a.builds b.builds

pub KeepsIndex-refl : (db : Db) → KeepsIndex db db
KeepsIndex-refl db = record {
  versions = λ r. refl;
  rows = Each-refl BuildKeeps db.builds BuildKeeps-refl;
}

-- A method that writes no repository version and no build row.
module _ (p : Repository → Bool) (f : Repository → Repository)
    (keeps : (x : Repository) → RepositoryKeeps x (f x)) where
  version_of-update :
      (r : ℕ) (xs : List Repository) → version_of r (update_where p f xs) ≡ version_of r xs
  version_of-update r xs =
      version_of-Each r xs (update_where p f xs)
        (Each-update_where RepositoryKeeps p f RepositoryKeeps-refl (λ x _. keeps x) xs)

  KeepsIndex-repositories :
      (a b : Db)
      → b.repositories ≡ update_where p f a.repositories
      → b.builds ≡ a.builds
      → KeepsIndex a b
  KeepsIndex-repositories a b e same = record {
    versions = λ r. rw e (version_of-update r a.repositories);
    rows = rw same (Each-refl BuildKeeps a.builds BuildKeeps-refl);
  }

KeepsIndex-builds :
    (a b : Db)
    → b.repositories ≡ a.repositories
    → Each BuildKeeps a.builds b.builds
    → KeepsIndex a b
KeepsIndex-builds a b e rows = record { versions = λ r. rw e; rows = rows }

KeepsIndex-jobs :
    (a b : Db) → b.repositories ≡ a.repositories → b.builds ≡ a.builds → KeepsIndex a b
KeepsIndex-jobs a b e same =
    KeepsIndex-builds a b e (rw same (Each-refl BuildKeeps a.builds BuildKeeps-refl))

pub claim-KeepsIndex :
    (job_id now : ℕ) (w : String) (db : Db) → Leaves (KeepsIndex db) (claim job_id w now db)
unfolding claim
claim-KeepsIndex job_id now w db =
    if_found_rule (Leaves (KeepsIndex db)) (select (wanted job_id now) db.jobs) _ _
      (λ _. record { holds = KeepsIndex-refl db })
      λ j _.
        if_rule (Leaves (KeepsIndex db)) (any (running_in j.repository_id) db.jobs) _ _
          (λ _. record { holds = KeepsIndex-refl db })
          λ _. record {
            holds =
                KeepsIndex-repositories (repository_at j.repository_id) cloning
                  (λ x. record { id = refl; index_version = refl }) db _ refl refl;
          }

pub mark_enqueued-KeepsIndex :
    (job_id now : ℕ) (db : Db) → KeepsIndex db (mark_enqueued job_id now db)
unfolding mark_enqueued
mark_enqueued-KeepsIndex job_id now db = KeepsIndex-jobs db _ refl refl

pub authorized_context-KeepsIndex :
    (s : Settings) (c : ClaimedJob) (now : ℕ) (db : Db)
    → Leaves (KeepsIndex db) (authorized_context s c now db)
unfolding authorized_context
authorized_context-KeepsIndex s c now db =
    if_found_rule (Leaves (KeepsIndex db)) (select (claimed_running c) db.jobs) _ _
      (λ _. record { holds = KeepsIndex-refl db })
      λ j _.
        if_found_rule (Leaves (KeepsIndex db))
          (select (repository_at j.repository_id) db.repositories) _ _
          (λ _. record { holds = KeepsIndex-refl db })
          λ r _.
            if_rule (Leaves (KeepsIndex db)) (is_authorized s now db j r) _ _
              (λ _. record { holds = KeepsIndex-jobs db _ refl refl })
              (λ _. record { holds = KeepsIndex-refl db })

pub revoke_public_access-KeepsIndex :
    (r now : ℕ) (db : Db) → KeepsIndex db (revoke_public_access r now db)
unfolding revoke_public_access
revoke_public_access-KeepsIndex r now db =
    KeepsIndex-repositories _ _ (λ x. record { id = refl; index_version = refl }) db _ refl refl

module _ (c : ClaimedJob) (w : String) (db : Db) where
  pub heartbeat-KeepsIndex : (now : ℕ) → KeepsIndex db (heartbeat c w now db)
  unfolding heartbeat
  heartbeat-KeepsIndex now = KeepsIndex-jobs db _ refl refl

  pub record_freshness_plan-KeepsIndex :
      (m : IndexingMode) (why : Option String) (counts : List (String × ℕ)) (n : ℕ)
      → KeepsIndex db (record_freshness_plan c w m why counts n db)
  unfolding record_freshness_plan
  record_freshness_plan-KeepsIndex m why counts n = KeepsIndex-jobs db _ refl refl

  pub stage-KeepsIndex :
      (s : IndexingStatus) (name : String) (progress : ℕ) (sha : Option String) (now : ℕ)
      → KeepsIndex db (stage c w s name progress sha now db)
  unfolding stage
  stage-KeepsIndex s name progress sha now =
      if_found_rule (KeepsIndex db) (select (leased c w) db.jobs) _ _ (λ _. KeepsIndex-refl db)
        λ j _.
          KeepsIndex-repositories (repository_at j.repository_id) _
            (λ x. record { id = refl; index_version = refl }) db _ refl refl

  pub mark_stale-KeepsIndex :
      (code : String) (superseded : Bool) (now : ℕ)
      → KeepsIndex db (mark_stale c w code superseded now db)
  unfolding mark_stale
  mark_stale-KeepsIndex code superseded now =
      if_found_rule (KeepsIndex db) (select (leased c w) db.jobs) _ _ (λ _. KeepsIndex-refl db)
        λ _ _. KeepsIndex-jobs db _ refl refl

  pub cancel_revoked-KeepsIndex : (now : ℕ) → KeepsIndex db (cancel_revoked c w now db)
  unfolding cancel_revoked
  cancel_revoked-KeepsIndex now =
      if_found_rule (KeepsIndex db) (select (leased c w) db.jobs) _ _ (λ _. KeepsIndex-refl db)
        λ j _.
          KeepsIndex-repositories (repository_at j.repository_id) _
            (λ x. record { id = refl; index_version = refl }) db _ refl refl

  pub fail-KeepsIndex :
      (s : Settings) (code message : String) (retryable : Bool) (randbelow : ℕ → ℕ) (now : ℕ)
      → Leaves (KeepsIndex db) (fail s c w code message retryable randbelow now db)
  unfolding fail
  fail-KeepsIndex s code message retryable randbelow now =
      if_found_rule (Leaves (KeepsIndex db)) (select (leased c w) db.jobs) _ _
        (λ _. record { holds = KeepsIndex-refl db })
        λ j _. record {
          holds =
              KeepsIndex-repositories (repository_at j.repository_id)
                (stopped_repository (should_retry s retryable c.attempt) code message)
                (λ x. record { id = refl; index_version = refl }) db _ refl refl;
        }

  pub record_vector_counts-KeepsIndex :
      (e v r : ℕ) (n : Option ℕ) → Commits (KeepsIndex db) (record_vector_counts c w e v r n db)
  unfolding record_vector_counts
  record_vector_counts-KeepsIndex e v r n =
      if_found_rule (Commits (KeepsIndex db)) (select (leased c w) db.jobs) _ _ (λ _. tt)
        λ j _.
          if_found_rule (Commits (KeepsIndex db)) j.target_index_version _ _ (λ _. tt)
            λ version _.
              if_found_rule (Commits (KeepsIndex db)) (select (building_at c version) db.builds) _ _
                (λ _. tt)
                λ _ _. KeepsIndex-builds db _ refl (
                  Each-update_first BuildKeeps (building_at c version)
                    (λ x. record x { embedded_chunk_count = e; vector_count = v }) BuildKeeps-refl
                    (λ b h. record {
                      repository_id = refl;
                      index_version = refl;
                      active = refl;
                      complete = λ k z. absurd (ground arith);
                    })
                    db.builds)

  pub mark_build_ready-KeepsIndex : Commits (KeepsIndex db) (mark_build_ready c w db)
  unfolding mark_build_ready
  mark_build_ready-KeepsIndex =
      if_found_rule (Commits (KeepsIndex db)) (select (leased c w) db.jobs) _ _ (λ _. tt)
        λ j _.
          if_found_rule (Commits (KeepsIndex db)) j.target_index_version _ _ (λ _. tt)
            λ version _.
              if_found_rule (Commits (KeepsIndex db)) (select (ready_candidate c version) db.builds)
                _ _ (λ _. tt)
                λ _ _. KeepsIndex-builds db _ refl (
                  Each-update_where BuildKeeps (ready_candidate c version)
                    (λ x. record x { state = BuildState.ready }) BuildKeeps-refl
                    (λ b h. record {
                      repository_id = refl;
                      index_version = refl;
                      active = ground arith;
                      complete = λ k z. ground arith;
                    })
                    db.builds)

  pub validate_graph-KeepsIndex :
      (order_by : List EdgeRow → List EdgeRow) (sha256 : List EdgeKey → String)
      → Commits (KeepsIndex db) (validate_graph order_by sha256 c w db)
  unfolding validate_graph
  validate_graph-KeepsIndex order_by sha256 =
      if_found_rule (Commits (KeepsIndex db)) (select (leased c w) db.jobs) _ _ (λ _. tt)
        λ j _.
          if_found_rule (Commits (KeepsIndex db)) j.target_index_version _ _ (λ _. tt)
            λ version _.
              if_found_rule (Commits (KeepsIndex db)) (select (building_at c version) db.builds) _ _
                (λ _. tt)
                λ b _.
                  if_rule (Commits (KeepsIndex db))
                    (has_fingerprint b
                      && graph_agrees order_by sha256 b
                          (stored_edges order_by sha256 c version b db.edges))
                    _ _
                    (λ _. KeepsIndex-builds db _ refl (
                      Each-update_first BuildKeeps (building_at c version)
                        (λ x. record x { graph_validated = true }) BuildKeeps-refl
                        (λ b h. record {
                          repository_id = refl;
                          index_version = refl;
                          active = refl;
                          complete = λ k z. absurd (ground arith);
                        })
                        db.builds))
                    (λ _. tt)

pub record_failed_build_cleanup-KeepsIndex :
    (r v : ℕ) (done : Bool) (now : ℕ) (db : Db)
    → KeepsIndex db (record_failed_build_cleanup r v done now db)
unfolding record_failed_build_cleanup
record_failed_build_cleanup-KeepsIndex r v done now db =
    if_found_rule (KeepsIndex db) (select (inactive_at r v) db.builds) _ _ (λ _. KeepsIndex-refl db)
      λ _ _. KeepsIndex-builds db _ (ground arith) (
        Each-update_first BuildKeeps (inactive_at r v) (failed_build done now) BuildKeeps-refl
          (λ b h. record {
            repository_id = refl;
            index_version = refl;
            active = ground arith;
            complete = λ k z. absurd (ground arith);
          })
          db.builds)

pub complete_superseded_cleanup-KeepsIndex :
    (r v now : ℕ) (db : Db) → Commits (KeepsIndex db) (complete_superseded_cleanup r v now db)
unfolding complete_superseded_cleanup
complete_superseded_cleanup-KeepsIndex r v now db =
    if_rule (Commits (KeepsIndex db)) (can_cleanup_inactive r v db) _ _
      (λ _. KeepsIndex-builds db _ refl (
        Each-update_first BuildKeeps (retired_at r v) (cleaned_build now) BuildKeeps-refl
          (λ b h. record {
            repository_id = refl;
            index_version = refl;
            active = refl;
            complete = λ k z. k z;
          })
          db.builds))
      (λ _. tt)

-- The loop of recover_abandoned writes the status of the repositories.
recover_scope-KeepsIndex :
    (s : Settings) (now : ℕ) (stale : List Job) (a db : Db)
    → KeepsIndex a db
    → KeepsIndex a (foldl (recover_scope s now) db stale)
unfolding recover_scope
recover_scope-KeepsIndex s now [] a db k = k
recover_scope-KeepsIndex s now (j ∷ js) a db k =
    recover_scope-KeepsIndex s now js a (recover_scope s now db j) (record {
      versions = λ r.
          version_of-update (repository_at j.repository_id) _
            (λ x. record { id = refl; index_version = refl }) r db.repositories
          ∙ k.versions r;
      rows = k.rows;
    })

pub recover_abandoned-KeepsIndex :
    (s : Settings) (now : ℕ) (db : Db) → Leaves (KeepsIndex db) (recover_abandoned s now db)
unfolding recover_abandoned
recover_abandoned-KeepsIndex s now db = record {
  holds =
      recover_scope-KeepsIndex s now (keep_if (abandoned s.abandoned_after now) db.jobs) db _
        (KeepsIndex-jobs db _ refl refl);
}
