-- ===== src/Jobs/Switch.antt =====
-- When activate switches a repository to its next version, and what the switch writes.
use code_naut.Prelude.{ℕ, ◌+◌, String, ◌≡◌, refl, subst, true, false, some, arith}
use code_naut.Prelude.Table.{select, update_first, if_found_rule, if_rule, select-passes}
use code_naut.Jobs.Model.{Job, Repository, Build, ClaimedJob, Db, ok, Commits}
use code_naut.Jobs.Rows.{leased, repository_at}
use code_naut.Jobs.Access.{on_branch}
use code_naut.Jobs.Vectors.{counts_agree}
use code_naut.Jobs.Activate.{activate, activatable, may_activate, lost_previous, still_active}
use code_naut.Jobs.Index.{version_of}
use code_naut.Jobs.Index.Prepare.{version_of-select}
use code_naut.Jobs.Index.Activate.{switched_versions}

-- What the worker, the job, the repository and the build must be for a switch.
pub record CanActivate (c : ClaimedJob) (w sha : String) (db : Db) (j : Job) (r : Repository)
    (b : Build) : Type 0 where
  pub lease : select (leased c w) db.jobs ≡ some j
  pub repository : select (repository_at j.repository_id) db.repositories ≡ some r
  pub target : j.target_index_version ≡ some (r.index_version + 1)
  pub generation : j.refresh_generation ≡ r.refresh_generation
  pub branch : on_branch j r ≡ true
  pub build : select (activatable c r.id (r.index_version + 1) sha) db.builds ≡ some b
  pub previous : lost_previous r db.builds ≡ false

-- What is served after the switch from `old`: the next version, with the vectors of its build.
pub record Switched (r : Repository) (b : Build) (old : ℕ) (after : Db) : Type 0 where
  pub old_version : old ≡ r.index_version
  pub version : version_of r.id after.repositories ≡ some (old + 1)
  pub complete : counts_agree b ≡ true

module _ (c : ClaimedJob) (w sha : String) (now : ℕ) (db : Db) where
  -- a switch with its reasons
  record Reasons (result : ℕ × Db) : Type 0 where
    job : Job
    repository : Repository
    build : Build
    may : CanActivate c w sha db job repository build
    switched : Switched repository build result.0 result.1

  switch_version :
      (k : ℕ) (r : Repository) (target : ℕ) (f : Repository → Repository)
      → select (repository_at k) db.repositories ≡ some r
      → ((x : Repository) → (f x).id ≡ x.id)
      → ((x : Repository) → (f x).index_version ≡ target)
      → version_of r.id (update_first (repository_at r.id) f db.repositories) ≡ some target
  switch_version k r target f here id set = ground (
    arith,
    switched_versions r target f db.repositories (version_of-select k db.repositories r here) id set
        r.id,
  )

  activate-Reasons : Commits Reasons (activate c w sha now db)
  unfolding activate
  activate-Reasons =
      if_found_rule (Commits Reasons) (select (leased c w) db.jobs) _ _ (λ _. tt)
        λ j lease.
          if_found_rule (Commits Reasons) (select (repository_at j.repository_id) db.repositories) _
            _ (λ _. tt)
            λ r here.
              if_found_rule (Commits Reasons) j.target_index_version _ _ (λ _. tt)
                λ target aim.
                  if_rule (Commits Reasons) (may_activate j r target) _ _
                    (λ may.
                      if_found_rule (Commits Reasons)
                        (select (activatable c r.id target sha) db.builds) _ _ (λ _. tt)
                        λ b found.
                          if_rule (Commits Reasons) (lost_previous r db.builds) _ _ (λ _. tt)
                            λ kept.
                              if_rule (Commits Reasons) (still_active r db.builds) _ _ (λ _. tt)
                                λ _.
                                  let next : target ≡ r.index_version + 1 = ground arith in
                                  record {
                                    job = j;
                                    repository = r;
                                    build = b;
                                    may = record {
                                      lease = lease;
                                      repository = here;
                                      target = rw (← next) aim;
                                      generation = ground arith;
                                      branch = ground arith;
                                      build = rw (← next) found;
                                      previous = kept;
                                    };
                                    switched = record {
                                      old_version = refl;
                                      version = rw (← next) (
                                          switch_version j.repository_id r target _ here (λ x. refl)
                                            (λ x. refl));
                                      complete = ground (
                                        arith,
                                        select-passes (activatable c r.id target sha) db.builds
                                            found,
                                      );
                                    };
                                  })
                    (λ _. tt)

  -- When activate returns, the worker held the lease, the build of the next version was ready with
  -- equal counts, a validated graph and the activated commit, the job's generation and branch were
  -- the repository's, and the repository now serves the version after the one that is returned.
  pub activate_sound :
      (old : ℕ) (after : Db)
      → activate c w sha now db ≡ ok (old, after)
      → (j : Job) × (r : Repository) × (b : Build) × CanActivate c w sha db j r b
        × Switched r b old after
  activate_sound old after h =
      let x : Reasons (old, after) = subst (Commits Reasons) h activate-Reasons in
      (x.job, x.repository, x.build, x.may, x.switched)
