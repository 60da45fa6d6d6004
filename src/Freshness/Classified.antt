-- ===== src/Freshness/Classified.antt =====
-- What a classification says of the compared files.
use code_naut.Prelude.{
  ℕ, ◌+◌, String, Bool, true, false, ◌&&◌, ◌||◌, ◌≡◌, refl, ap, ◌∙◌, subst, ◌⊎◌, inl, inr, Option,
  none, some, List, [], ◌∷◌, arith, any, All, str_eq, eq_iff, Bool-cases, if◌then◌else◌,
}
use code_naut.Prelude.Sorting.{sort_by, sum_by, sort-All, sum-sort, any-sort}
use code_naut.Freshness.Plan.{
  FileStatus, CompareFile, CommitComparison, ChangedFileSet, same_status, file_precedes,
  is_safe_path, is_safe_optional, has, add_path, no_changes, counted, add_target, add_removed,
  rename_from, record_status, classify_file, classify_files, classify_comparison,
}

-- The path of the file is one of the target.
abbrev pub puts : FileStatus → String → String → Bool
puts FileStatus.removed name path = false
puts FileStatus.added name path = str_eq path name
puts FileStatus.modified name path = str_eq path name
puts FileStatus.renamed name path = str_eq path name
puts FileStatus.copied name path = str_eq path name
puts FileStatus.changed name path = str_eq path name

abbrev pub is_previous : Option String → String → Bool
is_previous none path = false
is_previous (some previous) path = str_eq path previous

-- The path is one that the file leaves.
abbrev pub takes : FileStatus → Option String → String → String → Bool
takes FileStatus.removed previous name path = str_eq path name
takes FileStatus.renamed previous name path = is_previous previous path
takes FileStatus.added previous name path = false
takes FileStatus.modified previous name path = false
takes FileStatus.copied previous name path = false
takes FileStatus.changed previous name path = false

abbrev pub puts_path : String → CompareFile → Bool
puts_path path f = puts f.status f.filename path

abbrev pub takes_path : String → CompareFile → Bool
takes_path path f = takes f.status f.previous_filename f.filename path

abbrev pub IsSafeFile : CompareFile → Type 0
IsSafeFile f = (is_safe_path f.filename ≡ true) × (is_safe_optional f.previous_filename ≡ true)

abbrev pub one_of : FileStatus → CompareFile → ℕ
one_of s f = if same_status s f.status then 1 else 0

-- The set after is the set before with what the files say.
pub record Accounts (fs : List CompareFile) (before after : ChangedFileSet) : Type 0 where
  pub targets :
      (path : String)
      → has path after.target_paths ≡ (any (puts_path path) fs || has path before.target_paths)
  pub removals :
      (path : String)
      → has path after.removed_paths ≡ (any (takes_path path) fs || has path before.removed_paths)
  pub statuses : (s : FileStatus) → after.counts s ≡ before.counts s + sum_by (one_of s) fs
  pub total : after.total_changes ≡ before.total_changes + sum_by (λ f. f.changes) fs

has-add_path :
    (path new : String) (paths : List String)
    → has path (add_path new paths) ≡ (str_eq path new || has path paths)
has-add_path path new paths = elim (Bool-cases (has new paths)) [
  | inl e ↦ rw e (elim (Bool-cases (str_eq path new)) [
    | inl q ↦ let same : path ≡ new = (eq_iff path new).0 q in rw (q, same, e) refl
    | inr q ↦ rw q refl
  ])
  | inr e ↦ rw e refl
]

-- The set after has these target and removed paths more.
record Adds (target removed : String → Bool) (before after : ChangedFileSet) : Type 0 where
  targets :
      (path : String) → has path after.target_paths ≡ (target path || has path before.target_paths)
  removals :
      (path : String)
      → has path after.removed_paths ≡ (removed path || has path before.removed_paths)
  statuses : (s : FileStatus) → after.counts s ≡ before.counts s
  total : after.total_changes ≡ before.total_changes

target-Adds :
    (name : String) (set next : ChangedFileSet)
    → add_target name set ≡ next
    → Adds (λ path. str_eq path name) (λ path. false) set next
target-Adds name set next q =
    subst (Adds (λ path. str_eq path name) (λ path. false) set) q (record {
      targets = λ path. has-add_path path name set.target_paths;
      removals = λ path. refl;
      statuses = λ s. refl;
      total = refl;
    })

removed-Adds :
    (name : String) (set next : ChangedFileSet)
    → add_removed name set ≡ next
    → Adds (λ path. false) (λ path. str_eq path name) set next
removed-Adds name set next q =
    subst (Adds (λ path. false) (λ path. str_eq path name) set) q (record {
      targets = λ path. refl;
      removals = λ path. has-add_path path name set.removed_paths;
      statuses = λ s. refl;
      total = refl;
    })

renamed-Adds :
    (previous : Option String) (name : String) (set next : ChangedFileSet)
    → rename_from previous name set ≡ some next
    → Adds (λ path. str_eq path name) (is_previous previous) set next
renamed-Adds none name set next e = absurd (ground arith)
renamed-Adds (some old) name set next e =
    let q : add_target name (add_removed old set) ≡ next = ground arith in
    subst (Adds (λ path. str_eq path name) (λ path. str_eq path old) set) q (record {
      targets = λ path. has-add_path path name set.target_paths;
      removals = λ path. has-add_path path old set.removed_paths;
      statuses = λ s. refl;
      total = refl;
    })

status-Adds :
    (st : FileStatus) (f : CompareFile) (set next : ChangedFileSet)
    → record_status st f set ≡ some next
    → Adds (puts st f.filename) (takes st f.previous_filename f.filename) set next
status-Adds FileStatus.added f set next e = target-Adds f.filename set next (ground arith)
status-Adds FileStatus.modified f set next e = target-Adds f.filename set next (ground arith)
status-Adds FileStatus.copied f set next e = target-Adds f.filename set next (ground arith)
status-Adds FileStatus.changed f set next e = target-Adds f.filename set next (ground arith)
status-Adds FileStatus.removed f set next e = removed-Adds f.filename set next (ground arith)
status-Adds FileStatus.renamed f set next e = renamed-Adds f.previous_filename f.filename set next e

-- A turn of the loop that does not raise.
file-Adds :
    (f : CompareFile) (set next : ChangedFileSet)
    → classify_file f set ≡ some next
    → IsSafeFile f
      × Adds
          (puts f.status f.filename)
          (takes f.status f.previous_filename f.filename)
          (counted f set)
          next
file-Adds f set next e =
    elim (Bool-cases (is_safe_path f.filename && is_safe_optional f.previous_filename)) [
      | inl q ↦
          ((ground arith, ground arith), status-Adds f.status f (counted f set) next (rw q at e))
      | inr q ↦ absurd (ground (arith, rw q at e))
    ]

set_of : (o : Option ChangedFileSet) → (o ≡ none) ⊎ ((next : ChangedFileSet) × (o ≡ some next))
set_of none = inl refl
set_of (some next) = inr (next, refl)

files-Accounts :
    (fs : List CompareFile) (set out : ChangedFileSet)
    → classify_files fs set ≡ some out
    → All IsSafeFile fs × Accounts fs set out
unfolding classify_files
files-Accounts [] set out e =
    let q : set ≡ out = ground arith in
    (
      tt,
      subst (Accounts [] set) q (record {
        targets = λ path. refl;
        removals = λ path. refl;
        statuses = λ s. omega arith;
        total = omega arith;
      }),
    )
files-Accounts (f ∷ fs) set out e = elim (set_of (classify_file f set)) [
  | inl q ↦ absurd (ground (arith, rw q at e))
  | inr found ↦
      let next = found.0 in
      let step = file-Adds f set next found.1 in
      let rest = files-Accounts fs next out (rw found.1 at e) in
      let adds = step.1 in
      let later = rest.1 in
      (
        (step.0, rest.0),
        record {
          targets = λ path. rw (later.targets path, adds.targets path) (ground arith);
          removals = λ path. rw (later.removals path, adds.removals path) (ground arith);
          statuses = λ s. rw (later.statuses s, adds.statuses s) (ground arith);
          total = rw (later.total, adds.total) (omega arith);
        },
      )
]

-- Where the classification does not raise, every path of the comparison is safe; a path is a target
-- exactly if a file that is not removed has it, and removed exactly if a removed file has it or a
-- renamed one had it; the counters count the files of each status and the total sums their changes.
pub classify_comparison-Accounts :
    (c : CommitComparison) (out : ChangedFileSet)
    → classify_comparison c ≡ some out
    → All IsSafeFile c.files × Accounts c.files no_changes out
unfolding classify_comparison
classify_comparison-Accounts c out e =
    let found = files-Accounts (sort_by file_precedes c.files) no_changes out e in
    let acc = found.1 in
    (
      sort-All file_precedes IsSafeFile c.files found.0,
      record {
        targets = λ path.
            acc.targets path
            ∙ ap (λ b. b || false) (any-sort file_precedes (puts_path path) c.files);
        removals = λ path.
            acc.removals path
            ∙ ap (λ b. b || false) (any-sort file_precedes (takes_path path) c.files);
        statuses = λ s. omega (arith, acc.statuses s, sum-sort file_precedes (one_of s) c.files);
        total = omega (arith, acc.total, sum-sort file_precedes (λ f. f.changes) c.files);
      },
    )
