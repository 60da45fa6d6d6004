-- ===== src/Jobs/Invariant/Methods.antt =====
-- Every method but `claim` moves each job row along the state diagram and starts no job.
use mathlib.Core.List.{foldl}
use code_naut.Prelude.{
  ℕ, String, ◌≡◌, refl, Bool, true, not, ◌&&◌, Option, List, [], ◌∷◌, arith, ◌==◌, ltb, keep_if,
}
use code_naut.Prelude.Pairwise.{Each, Each-refl, Each-update_where, Each-update_first}
use code_naut.Prelude.Table.{select, if_found_rule, if_rule}
use code_naut.Jobs.Model.{
  Job, IndexingMode, IndexingStatus, ClaimedJob, Settings, Db, Commits, Leaves,
}
use code_naut.Jobs.Rows.{
  leased, is_running, is_waiting, abandoned, repository_at, building_at, build_at,
}
use code_naut.Jobs.Claim.{mark_enqueued}
use code_naut.Jobs.Access.{
  authorized_context, claimed_running, is_authorized, record_freshness_plan, set_target,
}
use code_naut.Jobs.Lease.{heartbeat, stage, mark_stale, cancel_revoked, stale_row, revoked_row}
use code_naut.Jobs.Retry.{
  fail, recover_abandoned, recover_scope, failed_row, recovered_row, should_retry, retry_delay,
}
use code_naut.Jobs.Results.{SymbolRecord, Discovery, Processing}
use code_naut.Jobs.Prepare.{prepare_build, prepared_job, mismatched, next_version, is_foreign}
use code_naut.Jobs.Vectors.{record_vector_counts, vector_row}
use code_naut.Jobs.Activate.{
  activate, activatable, may_activate, lost_previous, still_active, completed_job,
}
use code_naut.Jobs.Invariant.{Keeps, Keeps-refl}
use code_naut.Jobs.Invariant.Rows.{
  leased-running, running-live, waiting-live, Keeps-columns, Keeps-stop, stopped-edge, stopped-idle,
}

abbrev pub KeepsJobs : Db → Db → Type 0
KeepsJobs a b = Each Keeps a.jobs b.jobs

KeepsJobs-refl : (db : Db) → KeepsJobs db db
KeepsJobs-refl db = Each-refl Keeps db.jobs Keeps-refl

-- The rows that a leased write touches are running.
module _ (c : ClaimedJob) (w : String) (db : Db) where
  live : (j : Job) → leased c w j ≡ true → is_running j.status ≡ true
  live j h = leased-running c w j h

  pub heartbeat-Keeps : (now : ℕ) → KeepsJobs db (heartbeat c w now db)
  unfolding heartbeat
  heartbeat-Keeps now =
      Each-update_where Keeps (leased c w) _ Keeps-refl
        (λ j h. Keeps-columns j _ refl refl refl (running-live _ (live j h)) refl refl) db.jobs

  pub record_freshness_plan-Keeps :
      (m : IndexingMode) (why : Option String) (counts : List (String × ℕ)) (n : ℕ)
      → KeepsJobs db (record_freshness_plan c w m why counts n db)
  unfolding record_freshness_plan
  record_freshness_plan-Keeps m why counts n =
      Each-update_where Keeps (leased c w) _ Keeps-refl
        (λ j h. Keeps-columns j _ refl refl refl (running-live _ (live j h)) refl refl) db.jobs

  pub stage-Keeps :
      (s : IndexingStatus) (name : String) (progress : ℕ) (sha : Option String) (now : ℕ)
      → KeepsJobs db (stage c w s name progress sha now db)
  unfolding stage
  stage-Keeps s name progress sha now =
      if_found_rule (KeepsJobs db) (select (leased c w) db.jobs) _ _ (λ _. KeepsJobs-refl db)
        λ _ _.
          Each-update_where Keeps (leased c w) _ Keeps-refl
            (λ j h. Keeps-columns j _ refl refl refl (running-live _ (live j h)) refl refl) db.jobs

  pub mark_stale-Keeps :
      (code : String) (superseded : Bool) (now : ℕ)
      → KeepsJobs db (mark_stale c w code superseded now db)
  unfolding mark_stale
  mark_stale-Keeps code superseded now =
      if_found_rule (KeepsJobs db) (select (leased c w) db.jobs) _ _ (λ _. KeepsJobs-refl db)
        λ _ _.
          Each-update_first Keeps (leased c w) (stale_row code superseded now) Keeps-refl
            (λ j h. Keeps-stop j _ refl refl refl (live j h) refl refl refl) db.jobs

  pub cancel_revoked-Keeps : (now : ℕ) → KeepsJobs db (cancel_revoked c w now db)
  unfolding cancel_revoked
  cancel_revoked-Keeps now =
      if_found_rule (KeepsJobs db) (select (leased c w) db.jobs) _ _ (λ _. KeepsJobs-refl db)
        λ _ _.
          Each-update_where Keeps (leased c w) (revoked_row now) Keeps-refl
            (λ j h. Keeps-stop j _ refl refl refl (live j h) refl refl refl) db.jobs

  pub fail-Keeps :
      (s : Settings) (code message : String) (retryable : Bool) (randbelow : ℕ → ℕ) (now : ℕ)
      → Leaves (KeepsJobs db) (fail s c w code message retryable randbelow now db)
  unfolding fail
  fail-Keeps s code message retryable randbelow now =
      let retry = should_retry s retryable c.attempt in
      if_found_rule (Leaves (KeepsJobs db)) (select (leased c w) db.jobs) _ _
        (λ _. record { holds = KeepsJobs-refl db })
        λ _ _. record {
          holds =
              Each-update_where Keeps (leased c w)
                (failed_row retry code message (retry_delay s c.attempt randbelow) now) Keeps-refl
                (λ j h.
                  Keeps-stop j _ refl refl refl (live j h) (stopped-idle retry) (stopped-edge retry)
                    refl)
                db.jobs;
        }

  pub record_vector_counts-Keeps :
      (e v r : ℕ) (n : Option ℕ) → Commits (KeepsJobs db) (record_vector_counts c w e v r n db)
  unfolding record_vector_counts
  record_vector_counts-Keeps e v r n =
      if_found_rule (Commits (KeepsJobs db)) (select (leased c w) db.jobs) _ _ (λ _. tt)
        λ j _.
          if_found_rule (Commits (KeepsJobs db)) j.target_index_version _ _ (λ _. tt)
            λ version _.
              if_found_rule (Commits (KeepsJobs db)) (select (building_at c version) db.builds) _ _
                (λ _. tt)
                λ _ _.
                  Each-update_first Keeps (leased c w) (vector_row e v r n) Keeps-refl
                    (λ k h. Keeps-columns k _ refl refl refl (running-live _ (live k h)) refl refl)
                    db.jobs

  pub prepare_build-Keeps :
      (ids : ℕ → ℕ → SymbolRecord → ℕ) (s : Settings) (sha : String) (d : Discovery)
      (p : Processing) (fingerprint : String)
      → Commits (KeepsJobs db) (prepare_build ids s c w sha d p fingerprint db)
  unfolding prepare_build
  prepare_build-Keeps ids s sha d p fingerprint =
      if_rule (Commits (KeepsJobs db)) (mismatched c sha p) _ _ (λ _. tt)
        λ _.
          if_found_rule (Commits (KeepsJobs db)) (select (leased c w) db.jobs) _ _ (λ _. tt)
            λ j _.
              if_found_rule (Commits (KeepsJobs db))
                (select (repository_at j.repository_id) db.repositories) _ _ (λ _. tt)
                λ r _.
                  if_rule (Commits (KeepsJobs db))
                    (next_version j r p
                      && not (is_foreign c (select (build_at r.id p.index_version) db.builds)))
                    _ _
                    (λ _.
                      Each-update_first Keeps (leased c w) (prepared_job s sha fingerprint d p)
                        Keeps-refl
                        (λ k h.
                          Keeps-columns k _ refl refl refl (running-live _ (live k h)) refl refl)
                        db.jobs)
                    (λ _. tt)

  pub activate-Keeps :
      (sha : String) (now : ℕ) → Commits (Leaves (KeepsJobs db)) (activate c w sha now db)
  unfolding activate
  activate-Keeps sha now =
      if_found_rule (Commits (Leaves (KeepsJobs db))) (select (leased c w) db.jobs) _ _ (λ _. tt)
        λ j _.
          if_found_rule (Commits (Leaves (KeepsJobs db)))
            (select (repository_at j.repository_id) db.repositories) _ _ (λ _. tt)
            λ r _.
              if_found_rule (Commits (Leaves (KeepsJobs db))) j.target_index_version _ _ (λ _. tt)
                λ target _.
                  if_rule (Commits (Leaves (KeepsJobs db))) (may_activate j r target) _ _
                    (λ _.
                      if_found_rule (Commits (Leaves (KeepsJobs db)))
                        (select (activatable c r.id target sha) db.builds) _ _ (λ _. tt)
                        λ b _.
                          if_rule (Commits (Leaves (KeepsJobs db))) (lost_previous r db.builds) _ _
                            (λ _. tt)
                            λ _.
                              if_rule (Commits (Leaves (KeepsJobs db))) (still_active r db.builds) _
                                _ (λ _. tt)
                                λ _. record {
                                  holds =
                                      Each-update_first Keeps (leased c w) (completed_job sha now)
                                        Keeps-refl
                                        (λ k h.
                                          Keeps-stop k _ refl refl refl (live k h) refl refl refl)
                                        db.jobs;
                                })
                    (λ _. tt)

pub mark_enqueued-Keeps : (job_id now : ℕ) (db : Db) → KeepsJobs db (mark_enqueued job_id now db)
unfolding mark_enqueued
mark_enqueued-Keeps job_id now db =
    Each-update_where Keeps (λ j. j.id == job_id && is_waiting j.status) _ Keeps-refl
      (λ j h. Keeps-columns j _ refl refl refl (waiting-live _ (ground arith)) refl refl) db.jobs

pub authorized_context-Keeps :
    (s : Settings) (c : ClaimedJob) (now : ℕ) (db : Db)
    → Leaves (KeepsJobs db) (authorized_context s c now db)
unfolding authorized_context
authorized_context-Keeps s c now db =
    if_found_rule (Leaves (KeepsJobs db)) (select (claimed_running c) db.jobs) _ _
      (λ _. record { holds = KeepsJobs-refl db })
      λ j _.
        if_found_rule (Leaves (KeepsJobs db))
          (select (repository_at j.repository_id) db.repositories) _ _
          (λ _. record { holds = KeepsJobs-refl db })
          λ r _.
            if_rule (Leaves (KeepsJobs db)) (is_authorized s now db j r) _ _
              (λ _. record {
                holds =
                    Each-update_first Keeps (claimed_running c) (set_target r) Keeps-refl
                      (λ k h.
                        Keeps-columns k _ refl refl refl (running-live _ (ground arith)) refl refl)
                      db.jobs;
              })
              (λ _. record { holds = KeepsJobs-refl db })

-- The loop of recover_abandoned writes no job row after the first statement.
pub recover_scope-jobs :
    (s : Settings) (now : ℕ) (stale : List Job) (db : Db)
    → (foldl (recover_scope s now) db stale).jobs ≡ db.jobs
unfolding recover_scope
recover_scope-jobs s now [] db = refl
recover_scope-jobs s now (j ∷ js) db = recover_scope-jobs s now js (recover_scope s now db j)

recovered_row-Keeps :
    (s : Settings) (now : ℕ) (j : Job)
    → abandoned s.abandoned_after now j ≡ true
    → Keeps j (recovered_row s now j)
recovered_row-Keeps s now j h =
    let retry = ltb j.attempt s.max_attempts in
    Keeps-stop j _ refl refl refl (ground arith) (stopped-idle retry) (stopped-edge retry) refl

pub recover_abandoned-Keeps :
    (s : Settings) (now : ℕ) (db : Db) → Leaves (KeepsJobs db) (recover_abandoned s now db)
unfolding recover_abandoned
recover_abandoned-Keeps s now db = record {
  holds = rw (recover_scope-jobs s now (keep_if (abandoned s.abandoned_after now) db.jobs)) (
      Each-update_where Keeps (abandoned s.abandoned_after now) (recovered_row s now) Keeps-refl
        (recovered_row-Keeps s now) db.jobs);
}
