-- ===== src/Jobs/Index/Prepare.antt =====
-- prepare_build keeps the index invariant: it writes the version after the served one.
use code_naut.Prelude.{
  ℕ, ◌+◌, ◌≤◌, String, ◌≡◌, refl, not, ◌&&◌, Option, none, some, List, [], ◌∷◌, ◌++◌, arith, ==→≡,
  count_if, All-append,
}
use code_naut.Prelude.Pairwise.{Each, Each-refl, Each-update_first, count_if-Each}
use code_naut.Prelude.Table.{
  select, update_first, if_found_rule, if_rule, select-passes, All-update_first,
}
use code_naut.Prelude.Counting.{select-eq-none, count_if-append}
use code_naut.Jobs.Model.{ClaimedJob, Settings, Db, Repository, Build, Commits}
use code_naut.Jobs.Rows.{leased, repository_at, build_at}
use code_naut.Jobs.Results.{SymbolRecord, Discovery, Processing}
use code_naut.Jobs.Prepare.{
  prepare_build, upsert_build, new_build, reset_build, mismatched, next_version, is_foreign,
}
use code_naut.Jobs.Index.{
  version_of, version_of-Each, RepositoryKeeps, RepositoryKeeps-refl, IndexInvariant, IsTruthful,
  IsComplete, IndexInvariant-Keeps, BuildKeeps, BuildKeeps-refl,
}

abbrev Holds : Db → Type 0
Holds db = IndexInvariant db.repositories db.builds

module _ (s : Settings) (c : ClaimedJob) (sha fingerprint : String) (p : Processing)
    (r : Repository) (xs : List Repository) (served : version_of r.id xs ≡ some r.index_version)
    (next : p.index_version ≡ r.index_version + 1) (bs : List Build)
    (inv : IndexInvariant xs bs) where
  abbrev fresh : Build
  fresh = new_build s c sha fingerprint p r

  fresh-IsTruthful : IsTruthful xs fresh
  fresh-IsTruthful = ground arith

  fresh_unique :
      select (build_at r.id p.index_version) bs ≡ none
      → (i v : ℕ) → count_if (build_at i v) (bs ++ fresh ∷ []) ≤ 1
  fresh_unique absent i v = ground (
    arith,
    count_if-append (build_at i v) bs (fresh ∷ []),
    inv.unique_builds i v,
    select-eq-none (build_at r.id p.index_version) bs absent,
  )

  inserted-IndexInvariant :
      select (build_at r.id p.index_version) bs ≡ none → IndexInvariant xs (bs ++ fresh ∷ [])
  inserted-IndexInvariant absent = record {
    unique_builds = fresh_unique absent;
    truthful = All-append (IsTruthful xs) bs (fresh ∷ []) inv.truthful (fresh-IsTruthful, tt);
    sealed = All-append IsComplete bs (fresh ∷ []) inv.sealed (λ h. absurd (ground arith), tt);
    positive = All-append (λ b. 1 ≤ b.index_version) bs (fresh ∷ []) inv.positive (omega arith, tt);
  }

  abbrev reset : Build → Build
  reset = reset_build s c sha fingerprint p

  -- what a reset keeps of a row
  abbrev SameKey : Build → Build → Type 0
  SameKey b d = (d.repository_id ≡ b.repository_id) × (d.index_version ≡ b.index_version)

  reset-SameKey : Each SameKey bs (update_first (build_at r.id p.index_version) reset bs)
  reset-SameKey =
      Each-update_first SameKey (build_at r.id p.index_version) reset (λ b. (refl, refl))
        (λ b h. (refl, refl)) bs

  reset-IndexInvariant : IndexInvariant xs (update_first (build_at r.id p.index_version) reset bs)
  reset-IndexInvariant = record {
    unique_builds = λ i v. omega (
      arith,
      count_if-Each SameKey (build_at i v) bs _ (λ b d k h. ground arith) reset-SameKey,
      inv.unique_builds i v,
    );
    truthful =
        All-update_first (IsTruthful xs) (build_at r.id p.index_version) reset bs
          (λ b h _. ground (arith, served)) inv.truthful;
    sealed =
        All-update_first IsComplete (build_at r.id p.index_version) reset bs
          (λ b h _ z. absurd (ground arith)) inv.sealed;
    positive =
        All-update_first (λ b. 1 ≤ b.index_version) (build_at r.id p.index_version) reset bs
          (λ b h q. q) inv.positive;
  }

  pub upsert_build-IndexInvariant :
      (found : Option Build)
      → select (build_at r.id p.index_version) bs ≡ found
      → IndexInvariant xs (upsert_build s c sha fingerprint p r found bs)
  unfolding upsert_build
  upsert_build-IndexInvariant none e = inserted-IndexInvariant e
  upsert_build-IndexInvariant (some b) e = reset-IndexInvariant

-- The selected repository row is the one whose version is served.
pub version_of-select :
    (i : ℕ) (xs : List Repository) (r : Repository)
    → select (repository_at i) xs ≡ some r
    → version_of r.id xs ≡ some r.index_version
unfolding version_of
version_of-select i xs r h =
    let e : r.id ≡ i = ==→≡ r.id i (select-passes (repository_at i) xs h) in rw (e, h)

pub prepare_build-IndexInvariant :
    (ids : ℕ → ℕ → SymbolRecord → ℕ) (s : Settings) (c : ClaimedJob) (w sha : String)
    (d : Discovery) (p : Processing) (fingerprint : String) (db : Db)
    → Holds db
    → Commits Holds (prepare_build ids s c w sha d p fingerprint db)
unfolding prepare_build
prepare_build-IndexInvariant ids s c w sha d p fingerprint db inv =
    if_rule (Commits Holds) (mismatched c sha p) _ _ (λ _. tt)
      λ _.
        if_found_rule (Commits Holds) (select (leased c w) db.jobs) _ _ (λ _. tt)
          λ j _.
            if_found_rule (Commits Holds) (select (repository_at j.repository_id) db.repositories) _
              _ (λ _. tt)
              λ r found.
                if_rule (Commits Holds)
                  (next_version j r p
                    && not (is_foreign c (select (build_at r.id p.index_version) db.builds)))
                  _ _
                  (λ ok.
                    IndexInvariant-Keeps db.repositories _
                      (λ i. version_of-Each i db.repositories _ (
                        Each-update_first RepositoryKeeps (repository_at j.repository_id)
                          (λ x. record x {
                            current_remote_sha = some sha;
                            size_bytes = some d.total_bytes;
                          })
                          RepositoryKeeps-refl (λ x _. record { id = refl; index_version = refl })
                          db.repositories))
                      _ _ (Each-refl BuildKeeps _ BuildKeeps-refl)
                      (upsert_build-IndexInvariant s c sha fingerprint p r db.repositories
                        (version_of-select j.repository_id db.repositories r found) (ground arith)
                        db.builds inv (select (build_at r.id p.index_version) db.builds) refl))
                  (λ _. tt)
