-- ===== src/Jobs/Index/Activate.antt =====
-- activate keeps the index invariant: the old row steps down, the new row becomes the served one.
use code_naut.Prelude.{
  ℕ, ◌+◌, ◌≤◌, String, ◌≡◌, refl, Bool, true, false, ◌&&◌, some, List, [], ◌∷◌, arith, ◌==◌, ==→≡,
  is_some, any, count_if, All, All-map, All-zip, if◌then◌else◌, Bool-cases, inl, inr,
}
use code_naut.Prelude.Pairwise.{Each, Each-refl, Each-update_first, All-Each, count_if-Each}
use code_naut.Prelude.Table.{
  select, update_first, if_found_rule, if_rule, All-update_first, All-update_where_split,
}
use code_naut.Prelude.Counting.{count_if_mono, update_first_unique, All-only}
use code_naut.Jobs.Model.{ClaimedJob, Db, Repository, Build, Commits, Leaves}
use code_naut.Jobs.Rows.{leased, repository_at, build_at, is_active}
use code_naut.Jobs.Activate.{
  activate, activatable, active_at, supersede, promote, retire_previous, may_activate,
  lost_previous, still_active, active_of,
}
use code_naut.Jobs.Index.{version_of, IndexInvariant, IsTruthful, IsComplete}
use code_naut.Jobs.Index.Prepare.{version_of-select}

-- The versions after one repository's version is set.
version_of-set :
    (k t : ℕ) (f : Repository → Repository) (i : ℕ) (xs : List Repository)
    → ((x : Repository) → (f x).id ≡ x.id)
    → ((x : Repository) → (f x).index_version ≡ t)
    → version_of i (update_first (repository_at k) f xs)
      ≡ (if i == k && is_some (version_of k xs) then some t else version_of i xs)
unfolding version_of select update_first
version_of-set k t f i [] id set = ground arith
version_of-set k t f i (x ∷ xs) id set =
    ground (arith, id x, set x, version_of-set k t f i xs id set)

module _ (c : ClaimedJob) (sha : String) (now : ℕ) (r : Repository) (target : ℕ)
    (next : r.index_version + 1 ≡ target) (xs : List Repository)
    (served : version_of r.id xs ≡ some r.index_version) where
  abbrev candidate : Build → Bool
  candidate = activatable c r.id target sha

  abbrev Only : Build → Type 0
  Only b = build_at r.id target b ≡ true → candidate b ≡ true

  abbrev Before : Build → Type 0
  Before b = (IsTruthful xs b × (1 ≤ b.index_version)) × Only b

  -- after the old row has stepped down
  abbrev Between : Build → Type 0
  Between b =
      ((b.repository_id == r.id) ≡ false → IsTruthful xs b)
      × ((b.repository_id == r.id) ≡ true → is_active b.state ≡ false)
      × Only b

  Between-first : (b : Build) → r.index_version ≡ 0 → Before b → Between b
  Between-first b zero_version h = (λ _. h.0.0, λ e. ground (arith, served, h.0.0, h.0.1), h.1)

  Between-retired :
      (b : Build) → active_at r.id r.index_version b ≡ true → Before b → Between (supersede b)
  Between-retired b p h = (λ e. absurd (ground arith), λ e. refl, λ e. absurd (ground arith))

  Between-other : (b : Build) → active_at r.id r.index_version b ≡ false → Before b → Between b
  Between-other b p h = (λ _. h.0.0, λ e. ground (arith, served, h.0.0), h.1)

  module _ (bs : List Build) (inv : IndexInvariant xs bs) where
    one_active : count_if (active_at r.id r.index_version) bs ≤ 1
    one_active = omega (
      arith,
      count_if_mono (active_at r.id r.index_version) (build_at r.id r.index_version) bs
          (λ b h. ground arith),
      inv.unique_builds r.id r.index_version,
    )

    retired-Between : All Before bs → All Between (retire_previous r.id r.index_version bs)
    unfolding retire_previous
    retired-Between all =
        if_rule (All Between) (r.index_version == 0) bs
          (update_first (active_at r.id r.index_version) supersede bs)
          (λ z. All-map bs (λ b. Between-first b (==→≡ _ _ z)) all)
          λ _. rw (update_first_unique (active_at r.id r.index_version) supersede bs one_active) (
            All-update_where_split Before Between (active_at r.id r.index_version) supersede bs
              Between-retired Between-other all)

    abbrev SameKey : Build → Build → Type 0
    SameKey b d = (d.repository_id ≡ b.repository_id) × (d.index_version ≡ b.index_version)

    -- the rows stay in place, with their keys
    retired-SameKey : Each SameKey bs (retire_previous r.id r.index_version bs)
    unfolding retire_previous
    retired-SameKey =
        if_rule (Each SameKey bs) (r.index_version == 0) bs
          (update_first (active_at r.id r.index_version) supersede bs)
          (λ _. Each-refl SameKey bs (λ b. (refl, refl)))
          λ _.
            Each-update_first SameKey (active_at r.id r.index_version) supersede (λ b. (refl, refl))
              (λ b h. (refl, refl)) bs

    retired_unique :
        (i v : ℕ) → count_if (build_at i v) (retire_previous r.id r.index_version bs) ≤ 1
    retired_unique i v = omega (
      arith,
      count_if-Each SameKey (build_at i v) bs _ (λ b d k h. ground arith) retired-SameKey,
      inv.unique_builds i v,
    )

    retired-IsComplete : All IsComplete (retire_previous r.id r.index_version bs)
    unfolding retire_previous
    retired-IsComplete =
        if_rule (All IsComplete) (r.index_version == 0) bs
          (update_first (active_at r.id r.index_version) supersede bs) (λ _. inv.sealed)
          λ _.
            All-update_first IsComplete (active_at r.id r.index_version) supersede bs
              (λ b h _ z. absurd (ground arith)) inv.sealed

  module _ (ys : List Repository)
      (switched : (i : ℕ)
        → version_of i ys ≡ (if i == r.id then some target else version_of i xs)) where
    promoted-IsTruthful :
        (b : Build) → candidate b ≡ true → Between b → IsTruthful ys (promote now b)
    promoted-IsTruthful b p h = ground (arith, switched b.repository_id)

    other-IsTruthful : (b : Build) → candidate b ≡ false → Between b → IsTruthful ys b
    other-IsTruthful b p h = elim (Bool-cases (b.repository_id == r.id)) [
      | inl same ↦ ground (arith, switched b.repository_id, h.1 same, h.2)
      | inr other ↦ ground (arith, switched b.repository_id, h.0 other)
    ]

    module _ (bs : List Build) (inv : IndexInvariant xs bs) (b : Build)
        (found : select candidate bs ≡ some b) where
      before : All Before bs
      before =
          All-zip (λ x. IsTruthful xs x × (1 ≤ x.index_version)) Only bs
            (All-zip (IsTruthful xs) (λ x. 1 ≤ x.index_version) bs inv.truthful inv.positive)
            (All-only (build_at r.id target) candidate bs b (λ y h. ground arith)
              (inv.unique_builds r.id target) found)

      abbrev retired : List Build
      retired = retire_previous r.id r.index_version bs

      one_candidate : count_if candidate retired ≤ 1
      one_candidate = omega (
        arith,
        count_if_mono candidate (build_at r.id target) retired (λ x h. ground arith),
        retired_unique bs inv r.id target,
      )

      promoted-All : All (IsTruthful ys) (update_first candidate (promote now) retired)
      promoted-All = rw (update_first_unique candidate (promote now) retired one_candidate) (
          All-update_where_split Between (IsTruthful ys) candidate (promote now) retired
            promoted-IsTruthful other-IsTruthful (retired-Between bs inv before))

      -- No active row of the repository is left.
      pub retired-unserved : any (active_of r.id) retired ≡ false
      retired-unserved = none_active retired (retired-Between bs inv before)
        where
          none_active : (ys : List Build) → All Between ys → any (active_of r.id) ys ≡ false
          none_active [] all = refl
          none_active (y ∷ ys) all = ground (arith, all.0.1, none_active ys all.1)

      pub promoted-IndexInvariant : IndexInvariant ys (update_first candidate (promote now) retired)
      promoted-IndexInvariant = record {
        unique_builds = λ i v. omega (
          arith,
          count_if-Each (SameKey bs inv) (build_at i v) retired _ (λ x d k h. ground arith)
              (Each-update_first (SameKey bs inv) candidate (promote now) (λ x. (refl, refl))
                (λ x h. (refl, refl)) retired),
          retired_unique bs inv i v,
        );
        truthful = promoted-All;
        sealed =
            All-update_first IsComplete candidate (promote now) retired (λ x h _ z. ground arith)
              (retired-IsComplete bs inv);
        positive =
            All-update_first (λ x. 1 ≤ x.index_version) candidate (promote now) retired (λ x h q. q)
              (All-Each (SameKey bs inv) (λ x. 1 ≤ x.index_version) bs retired (λ x d k h. rw k.1 h)
                (retired-SameKey bs inv) inv.positive);
      }

abbrev Holds : Db → Type 0
Holds db = IndexInvariant db.repositories db.builds

-- The repositories of the activation: the selected row gets the target version.
pub switched_versions :
    (r : Repository) (target : ℕ) (f : Repository → Repository) (xs : List Repository)
    → version_of r.id xs ≡ some r.index_version
    → ((x : Repository) → (f x).id ≡ x.id)
    → ((x : Repository) → (f x).index_version ≡ target)
    → (i : ℕ)
    → version_of i (update_first (repository_at r.id) f xs)
      ≡ (if i == r.id then some target else version_of i xs)
switched_versions r target f xs served id set i =
    ground (arith, version_of-set r.id target f i xs id set, served)

pub activate-IndexInvariant :
    (c : ClaimedJob) (w sha : String) (now : ℕ) (db : Db)
    → Holds db
    → Commits (Leaves Holds) (activate c w sha now db)
unfolding activate
activate-IndexInvariant c w sha now db inv =
    if_found_rule (Commits (Leaves Holds)) (select (leased c w) db.jobs) _ _ (λ _. tt)
      λ j _.
        if_found_rule (Commits (Leaves Holds))
          (select (repository_at j.repository_id) db.repositories) _ _ (λ _. tt)
          λ r here.
            if_found_rule (Commits (Leaves Holds)) j.target_index_version _ _ (λ _. tt)
              λ target _.
                if_rule (Commits (Leaves Holds)) (may_activate j r target) _ _
                  (λ may.
                    if_found_rule (Commits (Leaves Holds))
                      (select (activatable c r.id target sha) db.builds) _ _ (λ _. tt)
                      λ b found.
                        if_rule (Commits (Leaves Holds)) (lost_previous r db.builds) _ _ (λ _. tt)
                          λ _.
                            if_rule (Commits (Leaves Holds)) (still_active r db.builds) _ _
                              (λ _. tt)
                              λ _. record {
                                holds =
                                    activated j.repository_id r here target (ground arith) b found _
                                      (λ x. refl) (λ x. refl);
                              })
                  (λ _. tt)
  where
    activated :
        (k : ℕ) (r : Repository)
        → select (repository_at k) db.repositories ≡ some r
        → (target : ℕ) → r.index_version + 1 ≡ target
        → (b : Build) → select (activatable c r.id target sha) db.builds ≡ some b
        → (f : Repository → Repository) → ((x : Repository) → (f x).id ≡ x.id)
        → ((x : Repository) → (f x).index_version ≡ target)
        → IndexInvariant (update_first (repository_at r.id) f db.repositories) (
            update_first
              (activatable c r.id target sha)
              (promote now)
              (retire_previous r.id r.index_version db.builds))
    activated k r here target next b found f id set =
        let served : version_of r.id db.repositories ≡ some r.index_version =
          version_of-select k db.repositories r here in
        promoted-IndexInvariant c sha now r target next db.repositories served _
          (switched_versions r target f db.repositories served id set) db.builds inv b found
