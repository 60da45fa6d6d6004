-- ===== src/Jobs/Index.antt =====
-- The invariant of the index versions: which build a repository serves, and that what is served is
-- complete. `repository.index_version` and the build's state are two records of one fact.
pub mod Methods
pub mod Prepare
pub mod Activate
pub mod Unique
use code_naut.Prelude.{
  ℕ, ◌≤◌, ◌≡◌, refl, Bool, true, false, Option, none, some, List, [], ◌∷◌, arith, opt_eq, count_if,
  All,
}
use code_naut.Prelude.Table.{select, if_found}
use code_naut.Prelude.Pairwise.{Each, All-Each, All-transfer, count_if-Each}
use code_naut.Jobs.Model.{Repository, Build, BuildState, Db}
use code_naut.Jobs.Rows.{repository_at, build_at, is_active}
use code_naut.Jobs.Vectors.{counts_agree}

-- The version that a repository serves.
unfoldable pub version_of : ℕ → List Repository → Option ℕ
version_of r repositories =
    if_found (select (repository_at r) repositories) none (λ x. some x.index_version)

abbrev pub is_served : Option ℕ → Build → Bool
is_served version b = opt_eq version b.index_version

-- A build that may be served or is about to be.
abbrev pub is_sealed : BuildState → Bool
is_sealed BuildState.ready = true
is_sealed BuildState.active = true
is_sealed _ = false

abbrev pub IsTruthful : List Repository → Build → Type 0
IsTruthful repositories b =
    is_active b.state ≡ is_served (version_of b.repository_id repositories) b

abbrev pub IsComplete : Build → Type 0
IsComplete b = is_sealed b.state ≡ true → counts_agree b ≡ true

pub record IndexInvariant (repositories : List Repository) (builds : List Build) : Type 0 where
  pub unique_builds : (r v : ℕ) → count_if (build_at r v) builds ≤ 1
  pub truthful : All (IsTruthful repositories) builds
  pub sealed : All IsComplete builds
  pub positive : All (λ b. 1 ≤ b.index_version) builds

-- What a method other than `prepare_build` and `activate` does to a build row.
pub record BuildKeeps (b c : Build) : Type 0 where
  pub repository_id : c.repository_id ≡ b.repository_id
  pub index_version : c.index_version ≡ b.index_version
  pub active : is_active c.state ≡ is_active b.state
  pub complete : IsComplete b → IsComplete c

pub BuildKeeps-refl : (b : Build) → BuildKeeps b b
BuildKeeps-refl b = record {
  repository_id = refl;
  index_version = refl;
  active = refl;
  complete = λ h. h;
}

-- A write to a repository row that leaves its version alone.
pub record RepositoryKeeps (x y : Repository) : Type 0 where
  pub id : y.id ≡ x.id
  pub index_version : y.index_version ≡ x.index_version

pub RepositoryKeeps-refl : (x : Repository) → RepositoryKeeps x x
RepositoryKeeps-refl x = record { id = refl; index_version = refl }

pub version_of-Each :
    (r : ℕ) (xs ys : List Repository)
    → Each RepositoryKeeps xs ys
    → version_of r ys ≡ version_of r xs
unfolding version_of select
version_of-Each r [] [] e = refl
version_of-Each r (x ∷ xs) (y ∷ ys) e =
    ground (arith, e.0.id, e.0.index_version, version_of-Each r xs ys e.1)
version_of-Each r [] (y ∷ ys) e = elim e [ ]
version_of-Each r (x ∷ xs) [] e = elim e [ ]

build_at-Keeps :
    (r v : ℕ) (b c : Build) → BuildKeeps b c → build_at r v c ≡ true → build_at r v b ≡ true
build_at-Keeps r v b c k h = ground (arith, k.repository_id, k.index_version)

-- Methods that keep the served versions and the served rows keep the invariant.
module _ (xs ys : List Repository) (same : (r : ℕ) → version_of r ys ≡ version_of r xs) where
  IsTruthful-Keeps : (b c : Build) → BuildKeeps b c → IsTruthful xs b → IsTruthful ys c
  IsTruthful-Keeps b c k h =
      ground (arith, same c.repository_id, k.repository_id, k.index_version, k.active)

  pub IndexInvariant-Keeps :
      (bs cs : List Build) → Each BuildKeeps bs cs → IndexInvariant xs bs → IndexInvariant ys cs
  IndexInvariant-Keeps bs cs e inv = record {
    unique_builds = λ r v. omega (
      arith,
      count_if-Each BuildKeeps (build_at r v) bs cs (build_at-Keeps r v) e,
      inv.unique_builds r v,
    );
    truthful =
        All-transfer BuildKeeps (IsTruthful xs) (IsTruthful ys) bs cs IsTruthful-Keeps e
          inv.truthful;
    sealed = All-Each BuildKeeps IsComplete bs cs (λ b c k h. k.complete h) e inv.sealed;
    positive =
        All-Each BuildKeeps (λ b. 1 ≤ b.index_version) bs cs (λ b c k h. rw k.index_version h) e
          inv.positive;
  }
