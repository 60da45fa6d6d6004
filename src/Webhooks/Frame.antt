-- ===== src/Webhooks/Frame.antt =====
-- What _apply_push and _apply_repository_metadata of backend/app/services/webhooks.py may change.
use code_naut.Prelude.{
  ℕ, String, Bool, not, ◌||◌, ◌≡◌, refl, Option, none, some, List, ◌∷◌, str_eq, opt_str_eq,
}
use Prim.Native.String.{◌++◌ as append}
use code_naut.Prelude.Table.{select, if_rule, if_found_rule}
use code_naut.Jobs.Model.{Job, JobStatus, Repository, Installation, Delivery, Db}
use code_naut.Webhooks.Model.{InstallationData, RepositoryData, Draws}
use code_naut.Webhooks.Rows.{
  is_active_installation, live_repository, Applied, Attempt, failed, done, unchanged,
}
use code_naut.Webhooks.Push.{
  has_job_for, with_repository, push_to, push_parts, describe, metadata_parts, zero_commit,
}

-- The jobs after an event: those before, or with one more that waits.
abbrev pub Adds : ℕ → Option Job → List Job → List Job → Type 0
Adds id none before after = after ≡ before
Adds id (some j) before after =
    (after ≡ j ∷ before) × (j.id ≡ id) × (j.status ≡ JobStatus.queued) × (j.locked_by ≡ none)

-- The tables of deliveries and jobs.
pub record SameRows (before after : Db) : Type 0 where
  pub deliveries : after.deliveries ≡ before.deliveries
  pub jobs : after.jobs ≡ before.jobs

pub record Frame (id : ℕ) (d : Delivery) (db : Db) (a : Applied) : Type 0 where
  pub deliveries : a.tables.deliveries ≡ db.deliveries
  pub named : a.delivery.delivery_id ≡ d.delivery_id
  pub jobs : Adds id a.job db.jobs a.tables.jobs

abbrev pub OnDone : (Applied → Type 0) → Attempt → Type 0
OnDone P (failed o) = Unit
OnDone P (done a) = P a

module _ (user_of : ℕ → Option ℕ) (draws : Draws) (now : ℕ) where
  module _ (d : Delivery) (db : Db) where
    pub quiet : (after : Db) → SameRows db after → Frame draws.job_id d db (unchanged d after)
    quiet after h = record { deliveries = h.deliveries; named = refl; jobs = h.jobs }

    pub with_repository_rule :
        (P : Applied → Type 0) (installation_id github_id : ℕ)
        → (k : Installation → Repository → Applied)
        → ((a : Applied)
            → a.job ≡ none
            → a.tables ≡ db
            → a.delivery.delivery_id ≡ d.delivery_id
            → P a)
        → ((i : Installation) (r : Repository)
            → select (is_active_installation installation_id) db.installations ≡ some i
            → select (live_repository i.id github_id) db.repositories ≡ some r
            → P (k i r))
        → P (with_repository draws now installation_id github_id d db k)
    with_repository_rule P installation_id github_id k quit go =
        if_found_rule P (select (is_active_installation installation_id) db.installations) _ _
          (λ _. quit _ refl refl refl)
          (λ i installed.
            if_found_rule P (select (live_repository i.id github_id) db.repositories) _ _
              (λ _. quit _ refl refl refl) (λ r live. go i r installed live))

    pub stopped-Frame :
        (a : Applied)
        → a.job ≡ none
        → a.tables ≡ db
        → a.delivery.delivery_id ≡ d.delivery_id
        → Frame draws.job_id d db a
    stopped-Frame a no_job same named = record {
      deliveries = rw same refl;
      named = named;
      jobs = rw (no_job, same) refl;
    }

    push_to-Frame :
        (github_id : ℕ) (ref before after : String) (forced deleted : Bool)
        → (i : Installation) (r : Repository)
        → Frame draws.job_id d db
            (push_to draws now github_id ref before after forced deleted d db i r)
    push_to-Frame github_id ref before after forced deleted i r =
        if_rule (Frame draws.job_id d db) (not (str_eq ref (append "refs/heads/" r.default_branch)))
          _ _ (λ _. stopped-Frame _ refl refl refl)
          (λ _.
            if_rule (Frame draws.job_id d db) (deleted || str_eq after zero_commit) _ _
              (λ _. stopped-Frame _ refl refl refl)
              (λ _.
                if_rule (Frame draws.job_id d db) (opt_str_eq r.last_indexed_commit_sha after) _ _
                  (λ _. record { deliveries = refl; named = refl; jobs = refl })
                  (λ _.
                    if_found_rule (Frame draws.job_id d db)
                      (select (has_job_for r.id after) db.jobs) _ _
                      (λ _. record {
                        deliveries = refl;
                        named = refl;
                        jobs = (refl, refl, refl, refl);
                      })
                      (λ existing _. stopped-Frame _ refl refl refl))))

    pub push_parts-Frame :
        (x : Option InstallationData) (r : Option RepositoryData) (ref before after : Option String)
        → (forced deleted : Bool)
        → OnDone
            (Frame draws.job_id d db)
            (push_parts draws now x r ref before after forced deleted d db)
    push_parts-Frame (some x) (some r) (some ref) (some before) (some after) forced deleted =
        with_repository_rule (Frame draws.job_id d db) x.id r.id _ stopped-Frame
          (λ i row _ _. push_to-Frame r.id ref before after forced deleted i row)
    push_parts-Frame none r ref before after forced deleted = tt
    push_parts-Frame (some x) none ref before after forced deleted = tt
    push_parts-Frame (some x) (some r) none before after forced deleted = tt
    push_parts-Frame (some x) (some r) (some ref) none after forced deleted = tt
    push_parts-Frame (some x) (some r) (some ref) (some before) none forced deleted = tt

    describe-Frame :
        (x : RepositoryData) (i : Installation) (r : Repository)
        → Frame draws.job_id d db (describe draws now x d db i r)
    describe-Frame x i r =
        if_rule (Frame draws.job_id d db) (not (str_eq r.default_branch x.default_branch)) _ _
          (λ _. record { deliveries = refl; named = refl; jobs = (refl, refl, refl, refl) })
          (λ _. record { deliveries = refl; named = refl; jobs = refl })

    pub metadata_parts-Frame :
        (x : Option RepositoryData) (i : Option InstallationData)
        → Frame draws.job_id d db (metadata_parts draws now x i d db)
    metadata_parts-Frame (some x) (some i) =
        with_repository_rule (Frame draws.job_id d db) i.id x.id _ stopped-Frame
          (λ row r _ _. describe-Frame x row r)
    metadata_parts-Frame none i = stopped-Frame _ refl refl refl
    metadata_parts-Frame (some x) none = stopped-Frame _ refl refl refl
