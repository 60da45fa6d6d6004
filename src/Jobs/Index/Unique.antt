-- ===== src/Jobs/Index/Unique.antt =====
-- The unique index on the active builds of a repository (backend/app/db/models/repository_index_build.py)
-- under activate of backend/app/services/indexing_jobs.py.
use code_naut.Prelude.{ℕ, ◌+◌, String, ◌≡◌, refl, false, some, arith}
use code_naut.Prelude.Table.{select, if_found_rule, if_rule}
use code_naut.Jobs.Model.{
  ClaimedJob, Db, Repository, Build, indexing_error, runtime_error, integrity_error, Result, ok,
  raised,
}
use code_naut.Jobs.Rows.{leased, repository_at}
use code_naut.Jobs.Activate.{activate, activatable, may_activate, lost_previous, still_active}
use code_naut.Jobs.Index.{IndexInvariant}
use code_naut.Jobs.Index.Prepare.{version_of-select}
use code_naut.Jobs.Index.Activate.{retired-unserved, switched_versions}

-- The method is not refused by a unique index.
abbrev pub Flushes {ℓ} : {A : Type ℓ} → Result A → Type 0
Flushes (ok a) = Unit
Flushes (raised (indexing_error e)) = Unit
Flushes (raised (runtime_error e)) = Unit
Flushes (raised integrity_error) = ⊥

-- Where builds and versions agree, the flush of activate never meets a second active build of the
-- repository: what was active has stepped down before the new build becomes active.
pub activate-Flushes :
    (c : ClaimedJob) (w sha : String) (now : ℕ) (db : Db)
    → IndexInvariant db.repositories db.builds
    → Flushes (activate c w sha now db)
unfolding activate
activate-Flushes c w sha now db inv =
    if_found_rule Flushes (select (leased c w) db.jobs) _ _ (λ _. tt)
      λ j _.
        if_found_rule Flushes (select (repository_at j.repository_id) db.repositories) _ _ (λ _. tt)
          λ r here.
            if_found_rule Flushes j.target_index_version _ _ (λ _. tt)
              λ target _.
                if_rule Flushes (may_activate j r target) _ _
                  (λ may.
                    if_found_rule Flushes (select (activatable c r.id target sha) db.builds) _ _
                      (λ _. tt)
                      λ b found.
                        if_rule Flushes (lost_previous r db.builds) _ _ (λ _. tt)
                          λ _.
                            if_rule Flushes (still_active r db.builds) _ _
                              (λ taken. absurd (
                                let free =
                                  unserved j.repository_id r here target (ground arith) b found in
                                ground (arith, free, taken)))
                              (λ _. tt))
                  (λ _. tt)
  where
    unserved :
        (k : ℕ) (r : Repository)
        → select (repository_at k) db.repositories ≡ some r
        → (target : ℕ) → r.index_version + 1 ≡ target
        → (b : Build) → select (activatable c r.id target sha) db.builds ≡ some b
        → still_active r db.builds ≡ false
    unserved k r here target next b found =
        let served = version_of-select k db.repositories r here in
        retired-unserved c sha now r target next db.repositories served _
          (switched_versions r target (λ x. record x { index_version = target }) db.repositories
            served (λ x. refl) (λ x. refl))
          db.builds inv b found
