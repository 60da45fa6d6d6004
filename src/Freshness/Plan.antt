-- ===== src/Freshness/Plan.antt =====
-- backend/app/indexing/freshness.py, with the comparison of backend/app/github/schemas.py. A
-- ValueError is `none`, a set is a list without repetition, and a Counter a function that is 0 where
-- nothing was counted.
use Prim.Native.Nat.{Ordering}
use Prim.Native.Char.{code}
use Prim.Native.String.{len, compare as compare_text}
use code_naut.Prelude.{
  ℕ, suc, ◌+◌, String, Bool, true, false, not, ◌&&◌, ◌||◌, Option, none, some, List, [], ◌∷◌, ltb,
  leb, ◌==◌, any, length, str_eq, if◌then◌else◌,
}
use code_naut.Prelude.Sorting.{sort_by}
use code_naut.Jobs.Model.{IndexingMode}

pub data FileStatus : Type 0 where
  added modified removed renamed copied changed : FileStatus

pub data ComparisonStatus : Type 0 where
  ahead behind diverged identical : ComparisonStatus

pub record CompareFile : Type 0 where
  pub filename : String
  pub previous_filename : Option String
  pub status : FileStatus
  pub changes : ℕ

pub record CommitComparison : Type 0 where
  pub status : ComparisonStatus
  pub files : List CompareFile

pub record ChangedFileSet : Type 0 where
  pub target_paths : List String
  pub removed_paths : List String
  pub counts : FileStatus → ℕ
  pub total_changes : ℕ

pub record FreshnessPlan : Type 0 where
  pub actual_mode : IndexingMode
  pub fallback_reason : Option String
  pub changes : ChangedFileSet

-- The position of the status's text in the alphabet.
abbrev pub status_rank : FileStatus → ℕ
status_rank FileStatus.added = 0
status_rank FileStatus.changed = 1
status_rank FileStatus.copied = 2
status_rank FileStatus.modified = 3
status_rank FileStatus.removed = 4
status_rank FileStatus.renamed = 5

abbrev pub same_status : FileStatus → FileStatus → Bool
same_status a b = status_rank a == status_rank b

abbrev pub or_empty : Option String → String
or_empty none = ""
or_empty (some s) = s

abbrev pub key_order : Ordering → Bool → Bool
key_order o next = elim o [ Ordering.lt ↦ true | Ordering.eq ↦ next | Ordering.gt ↦ false ]

abbrev pub file_precedes : CompareFile → CompareFile → Bool
file_precedes a b = key_order (compare_text a.filename b.filename) (
    key_order (compare_text (or_empty a.previous_filename) (or_empty b.previous_filename))
      (leb (status_rank a.status) (status_rank b.status)))

abbrev pub codes : String → List ℕ
codes String.[] = []
codes (String.◌∷◌ c s) = code c ∷ codes s

abbrev pub onto_first : ℕ → List (List ℕ) → List (List ℕ)
onto_first c [] = (c ∷ []) ∷ []
onto_first c (part ∷ parts) = (c ∷ part) ∷ parts

-- The texts between the slashes.
unfoldable pub split_slash : List ℕ → List (List ℕ)
split_slash [] = [] ∷ []
split_slash (c ∷ cs) = let rest = split_slash cs in if c == 47 then [] ∷ rest else onto_first c rest

-- PurePosixPath leaves out empty parts and single dots.
abbrev pub is_dropped : List ℕ → Bool
is_dropped [] = true
is_dropped (c ∷ []) = c == 46
is_dropped (_ ∷ _ ∷ _) = false

abbrev pub is_parent : List ℕ → Bool
is_parent (c ∷ d ∷ []) = c == 46 && d == 46
is_parent [] = false
is_parent (_ ∷ []) = false
is_parent (_ ∷ _ ∷ _ ∷ _) = false

abbrev pub is_absolute : List ℕ → Bool
is_absolute [] = false
is_absolute (c ∷ _) = c == 47

-- What _validate_path lets through.
unfoldable pub is_safe_path : String → Bool
is_safe_path value =
    let cs = codes value in
    let parts = split_slash cs in
    not (
      is_absolute cs
      || (not (any (λ p. not (is_dropped p)) parts)
          || (ltb 4096 (len value)
              || (any is_parent parts || (any (λ c. c == 0) cs || any (λ c. c == 92) cs)))))

abbrev pub is_safe_optional : Option String → Bool
is_safe_optional none = true
is_safe_optional (some path) = is_safe_path path

abbrev pub has : String → List String → Bool
has path paths = any (str_eq path) paths

abbrev pub add_path : String → List String → List String
add_path path paths = if has path paths then paths else path ∷ paths

abbrev pub count_status : FileStatus → (FileStatus → ℕ) → FileStatus → ℕ
count_status s counts t = if same_status t s then suc (counts t) else counts t

abbrev pub no_changes : ChangedFileSet
no_changes = record { target_paths = []; removed_paths = []; counts = λ _. 0; total_changes = 0 }

abbrev pub counted : CompareFile → ChangedFileSet → ChangedFileSet
counted f set = record set {
  counts = count_status f.status set.counts;
  total_changes = set.total_changes + f.changes;
}

abbrev pub add_target : String → ChangedFileSet → ChangedFileSet
add_target path set = record set { target_paths = add_path path set.target_paths }

abbrev pub add_removed : String → ChangedFileSet → ChangedFileSet
add_removed path set = record set { removed_paths = add_path path set.removed_paths }

abbrev pub rename_from : Option String → String → ChangedFileSet → Option ChangedFileSet
rename_from none path set = none
rename_from (some previous) path set = some (add_target path (add_removed previous set))

abbrev pub record_status : FileStatus → CompareFile → ChangedFileSet → Option ChangedFileSet
record_status FileStatus.removed f set = some (add_removed f.filename set)
record_status FileStatus.renamed f set = rename_from f.previous_filename f.filename set
record_status FileStatus.added f set = some (add_target f.filename set)
record_status FileStatus.modified f set = some (add_target f.filename set)
record_status FileStatus.copied f set = some (add_target f.filename set)
record_status FileStatus.changed f set = some (add_target f.filename set)

-- One turn of the loop.
abbrev pub classify_file : CompareFile → ChangedFileSet → Option ChangedFileSet
classify_file f set =
    if is_safe_path f.filename && is_safe_optional f.previous_filename
    then record_status f.status f (counted f set)
    else none

abbrev pub classify_next :
    Option ChangedFileSet → (ChangedFileSet → Option ChangedFileSet) → Option ChangedFileSet
classify_next none rest = none
classify_next (some set) rest = rest set

unfoldable pub classify_files : List CompareFile → ChangedFileSet → Option ChangedFileSet
classify_files [] set = some set
classify_files (f ∷ fs) set = classify_next (classify_file f set) (λ next. classify_files fs next)

unfoldable pub classify_comparison : CommitComparison → Option ChangedFileSet
classify_comparison c = classify_files (sort_by file_precedes c.files) no_changes

abbrev pub is_full : IndexingMode → Bool
is_full IndexingMode.full = true
is_full IndexingMode.incremental = false

abbrev pub is_not_forward : ComparisonStatus → Bool
is_not_forward ComparisonStatus.behind = true
is_not_forward ComparisonStatus.diverged = true
is_not_forward ComparisonStatus.ahead = false
is_not_forward ComparisonStatus.identical = false

abbrev pub full_plan : String → ChangedFileSet → FreshnessPlan
full_plan reason set = record {
  actual_mode = IndexingMode.full;
  fallback_reason = some reason;
  changes = set;
}

abbrev pub plan_changes : Option ChangedFileSet → ℕ → ℕ → FreshnessPlan
plan_changes none files max_changed_files = full_plan "unsafe_comparison" no_changes
plan_changes (some set) files max_changed_files =
    if leb max_changed_files files
    then full_plan "comparison_file_limit" set
    else record { actual_mode = IndexingMode.incremental; fallback_reason = none; changes = set }

abbrev pub plan_comparison : Option CommitComparison → ℕ → FreshnessPlan
plan_comparison none max_changed_files = full_plan "comparison_unavailable" no_changes
plan_comparison (some c) max_changed_files =
    if is_not_forward c.status
    then full_plan "non_fast_forward" no_changes
    else plan_changes (classify_comparison c) (length c.files) max_changed_files

unfoldable pub plan_refresh : Option CommitComparison → Bool → IndexingMode → ℕ → FreshnessPlan
plan_refresh comparison has_active_index requested_mode max_changed_files =
    if not has_active_index
    then full_plan "missing_active_index" no_changes
    else (if is_full requested_mode
        then full_plan "requested_full_rebuild" no_changes
        else plan_comparison comparison max_changed_files)
