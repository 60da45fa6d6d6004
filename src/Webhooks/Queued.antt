-- ===== src/Webhooks/Queued.antt =====
-- The jobs that _apply_push of backend/app/services/webhooks.py queues.
use Prim.Native.String.{◌++◌ as append}
use code_naut.Prelude.{
  ℕ, suc, String, false, not, ◌||◌, ◌≡◌, refl, subst, inl, inr, Option, none, some, List, [], ◌∷◌,
  arith, str_eq, eq_iff, opt_str_eq, Bool-cases,
}
use code_naut.Prelude.Table.{select, update_first, if_rule, if_found_rule}
use code_naut.Jobs.Model.{Job, Repository, Installation, Delivery, Db}
use code_naut.Webhooks.Model.{Payload, InstallationData, RepositoryData, Draws}
use code_naut.Webhooks.Rows.{is_active_installation, live_repository, Applied}
use code_naut.Webhooks.Push.{
  zero_commit, has_job_for, requested_mode, pushed, push_to, push_parts, apply_push,
}
use code_naut.Webhooks.Frame.{OnDone, with_repository_rule}

-- The reason of a job that a push has queued: the push is of the default branch of the live repository
-- that its payload names, of the active installation that it names, it is no deletion, its commit is not the served one and no job is on its
-- way to that commit. The job is of the repository's next generation, and goes to the commit.
pub record IsDue (draws : Draws) (now : ℕ) (p : Payload) (db : Db) (j : Job) (tables : Db)
    : Type 0 where
  pub installation : Installation
  pub repository : Repository
  pub account : InstallationData
  pub external : RepositoryData
  pub of_account : p.installation ≡ some account
  pub of_external : p.repository ≡ some external
  pub before : String
  pub after : String
  pub installed : select (is_active_installation account.id) db.installations ≡ some installation
  pub live : select (live_repository installation.id external.id) db.repositories ≡ some repository
  pub default_branch : p.ref ≡ some (append "refs/heads/" repository.default_branch)
  pub from_commit : p.before ≡ some before
  pub to_commit : p.after ≡ some after
  pub kept : (p.deleted || str_eq after zero_commit) ≡ false
  pub not_served : opt_str_eq repository.last_indexed_commit_sha after ≡ false
  pub not_waiting : select (has_job_for repository.id after) db.jobs ≡ none
  pub target : j.target_commit_sha ≡ some after
  pub branch : j.target_branch ≡ some repository.default_branch
  pub mode : j.requested_mode ≡ some (requested_mode repository before p.forced)
  pub of_repository : j.repository_id ≡ repository.id
  pub generation : j.refresh_generation ≡ suc repository.refresh_generation
  pub stored : Repository
  pub written :
      select (live_repository installation.id external.id) tables.repositories ≡ some stored
  pub same_generation : stored.refresh_generation ≡ j.refresh_generation
  pub heads : stored.current_remote_sha ≡ some after
  pub same_version : stored.index_version ≡ repository.index_version

abbrev pub Due : Draws → ℕ → Payload → Db → Option Job → Db → Type 0
Due draws now p db none tables = Unit
Due draws now p db (some j) tables = IsDue draws now p db j tables

select-written :
    (i github_id : ℕ) (commit : String) (now : ℕ) (rows : List Repository) (r : Repository)
    → select (live_repository i github_id) rows ≡ some r
    → select
        (live_repository i github_id)
        (update_first (live_repository i github_id) (pushed commit now) rows)
      ≡ some (pushed commit now r)
unfolding select update_first
select-written i github_id commit now [] r h = absurd (ground (arith, h))
select-written i github_id commit now (x ∷ rows) r h =
    elim (Bool-cases (live_repository i github_id x)) [
      | inl e ↦
          let same : x ≡ r = ground (arith, rw e at h) in
          rw (e, e)
            (subst (λ (y : Repository). some (pushed commit now x) ≡ some (pushed commit now y))
              same refl)
      | inr e ↦ rw (e, e) (select-written i github_id commit now rows r (rw e at h))
    ]

module _ (draws : Draws) (now : ℕ) (p : Payload) (d : Delivery) (db : Db) where
  abbrev pub IsSound : Applied → Type 0
  IsSound a = Due draws now p db a.job a.tables

  quiet-IsSound :
      (a : Applied)
      → a.job ≡ none
      → a.tables ≡ db
      → a.delivery.delivery_id ≡ d.delivery_id
      → IsSound a
  quiet-IsSound a no_job same named = rw no_job tt

  push_to-IsSound :
      (x : InstallationData) (y : RepositoryData) (ref before after : String) (i : Installation)
      (r : Repository)
      → p.installation ≡ some x
      → p.repository ≡ some y
      → p.ref ≡ some ref
      → p.before ≡ some before
      → p.after ≡ some after
      → select (is_active_installation x.id) db.installations ≡ some i
      → select (live_repository i.id y.id) db.repositories ≡ some r
      → IsSound (push_to draws now y.id ref before after p.forced p.deleted d db i r)
  push_to-IsSound x y ref before after i r from_account from_external is_ref is_before is_after
        installed live =
      let name = append "refs/heads/" r.default_branch in
      if_rule IsSound (not (str_eq ref name)) _ _ (λ _. tt)
        (λ on_branch.
          if_rule IsSound (p.deleted || str_eq after zero_commit) _ _ (λ _. tt)
            (λ kept.
              if_rule IsSound (opt_str_eq r.last_indexed_commit_sha after) _ _ (λ _. tt)
                (λ not_served.
                  if_found_rule IsSound (select (has_job_for r.id after) db.jobs) _ _
                    (λ not_waiting. record {
                      installation = i;
                      repository = r;
                      account = x;
                      external = y;
                      of_account = from_account;
                      of_external = from_external;
                      before = before;
                      after = after;
                      installed = installed;
                      live = live;
                      default_branch =
                          subst (λ (y : String). p.ref ≡ some y)
                            ((eq_iff ref name).0 (ground (arith, on_branch))) is_ref;
                      from_commit = is_before;
                      to_commit = is_after;
                      kept = kept;
                      not_served = not_served;
                      not_waiting = not_waiting;
                      target = refl;
                      branch = refl;
                      mode = refl;
                      of_repository = refl;
                      generation = refl;
                      stored = pushed after now r;
                      written = select-written i.id y.id after now db.repositories r live;
                      same_generation = refl;
                      heads = refl;
                      same_version = refl;
                    })
                    (λ existing _. tt))))

  parts-IsSound :
      (x : Option InstallationData) (r : Option RepositoryData) (ref before after : Option String)
      → p.installation ≡ x
      → p.repository ≡ r
      → p.ref ≡ ref
      → p.before ≡ before
      → p.after ≡ after
      → OnDone IsSound (push_parts draws now x r ref before after p.forced p.deleted d db)
  parts-IsSound (some x) (some r) (some ref) (some before) (some after) e_x e_r is_ref is_before
        is_after =
      with_repository_rule (λ _. none) draws now d db IsSound x.id r.id _ quiet-IsSound
        (λ i row installed live.
          push_to-IsSound x r ref before after i row e_x e_r is_ref is_before is_after installed
            live)
  parts-IsSound none r ref before after e_x e_r e f g = tt
  parts-IsSound (some x) none ref before after e_x e_r e f g = tt
  parts-IsSound (some x) (some r) none before after e_x e_r e f g = tt
  parts-IsSound (some x) (some r) (some ref) none after e_x e_r e f g = tt
  parts-IsSound (some x) (some r) (some ref) (some before) none e_x e_r e f g = tt

  -- A push that queues a job is of the default branch of the live repository that it names, of the
  -- active installation that it names, is no deletion, is to a commit that is neither served nor on
  -- the way, and the job goes to this commit on this branch in the right mode, of the generation
  -- after the repository's; the repository is then of the generation of the job, with the pushed
  -- commit as its head and the index that it had.
  pub apply_push-IsSound : OnDone IsSound (apply_push draws now p d db)
  unfolding apply_push
  apply_push-IsSound = parts-IsSound p.installation p.repository _ _ _ refl refl refl refl refl
