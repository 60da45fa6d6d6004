-- ===== src/Freshness/Examples.antt =====
-- The theorems on freshness planning at a concrete comparison, and runs of the code.
use code_naut.Prelude.{true, false, ◌≡◌, refl, none, some, [], ◌∷◌, All}
use code_naut.Prelude.Sorting.{insert_by, sort_by}
use code_naut.Jobs.Model.{IndexingMode}
use code_naut.Freshness.Plan.{
  FileStatus, ComparisonStatus, CompareFile, CommitComparison, ChangedFileSet, is_safe_path,
  split_slash, no_changes, classify_files, classify_comparison, plan_refresh,
}
use code_naut.Freshness.Classified.{IsSafeFile, Accounts, classify_comparison-Accounts}
use code_naut.Freshness.Defensible.{Planned, plan_refresh_sound}

abbrev renamed_file : CompareFile
renamed_file = record {
  filename = "src/b.py";
  previous_filename = some "src/a.py";
  status = FileStatus.renamed;
  changes = 3;
}

abbrev removed_file : CompareFile
removed_file = record {
  filename = "old.py";
  previous_filename = none;
  status = FileStatus.removed;
  changes = 8;
}

abbrev ahead : CommitComparison
ahead = record { status = ComparisonStatus.ahead; files = renamed_file ∷ removed_file ∷ [] }

parent_path : is_safe_path "src/../b" ≡ false
unfolding is_safe_path split_slash
parent_path = refl

dotted_path : is_safe_path "./src//b" ≡ true
unfolding is_safe_path split_slash
dotted_path = refl

ahead_classified : (out : ChangedFileSet) × (classify_comparison ahead ≡ some out)
unfolding classify_comparison classify_files sort_by insert_by is_safe_path split_slash
ahead_classified = (_, refl)

classify_comparison-Accounts_example :
    All IsSafeFile ahead.files × Accounts ahead.files no_changes ahead_classified.0
classify_comparison-Accounts_example =
    classify_comparison-Accounts ahead ahead_classified.0 ahead_classified.1

plan_refresh_sound_example :
    Planned
      (some ahead)
      true
      IndexingMode.incremental
      300
      (plan_refresh (some ahead) true IndexingMode.incremental 300)
plan_refresh_sound_example = plan_refresh_sound 300 (some ahead) true IndexingMode.incremental
