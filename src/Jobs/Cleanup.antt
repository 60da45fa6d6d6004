-- ===== src/Jobs/Cleanup.antt =====
-- The cleanup of inactive builds (backend/app/services/indexing_jobs.py): can_cleanup_inactive,
-- record_failed_build_cleanup and complete_superseded_cleanup.
use code_naut.Prelude.{ℕ, Bool, false, not, ◌&&◌, none, some, ◌==◌, if◌then◌else◌}
use code_naut.Prelude.Table.{if_found, select, update_first}
use code_naut.Jobs.Model.{Build, BuildState, CleanupStatus, Db, Result, ok, raised}
use code_naut.Jobs.Rows.{
  repository_at, build_at, is_active, is_retired, delete_symbols, activation_race,
}

unfoldable pub can_cleanup_inactive : ℕ → ℕ → Db → Bool
can_cleanup_inactive repository version db =
    if_found (select (repository_at repository) db.repositories) false
      (λ r. not (r.index_version == version))

abbrev pub inactive_at : ℕ → ℕ → Build → Bool
inactive_at repository version b = build_at repository version b && not (is_active b.state)

abbrev pub failed_build : Bool → ℕ → Build → Build
failed_build cleanup_complete now b = record b {
  state = BuildState.failed;
  cleanup_status = if cleanup_complete then CleanupStatus.complete else CleanupStatus.pending;
  cleanup_completed_at = if cleanup_complete then some now else none;
}

unfoldable pub record_failed_build_cleanup : ℕ → ℕ → Bool → ℕ → Db → Db
unfolding delete_symbols
record_failed_build_cleanup repository version cleanup_complete now db =
    if_found (select (inactive_at repository version) db.builds) db (λ b.
      let cleared = if cleanup_complete then delete_symbols repository version db else db in
      record cleared {
        builds =
            update_first (inactive_at repository version) (failed_build cleanup_complete now)
              db.builds;
      })

abbrev pub retired_at : ℕ → ℕ → Build → Bool
retired_at repository version b = build_at repository version b && is_retired b.state

abbrev pub cleaned_build : ℕ → Build → Build
cleaned_build now b = record b {
  cleanup_status = CleanupStatus.complete;
  cleanup_completed_at = some now;
}

unfoldable pub complete_superseded_cleanup : ℕ → ℕ → ℕ → Db → Result Db
unfolding can_cleanup_inactive delete_symbols
complete_superseded_cleanup repository version now db =
    if can_cleanup_inactive repository version db
    then (let cleared = delete_symbols repository version db in
        ok (record cleared {
          builds = update_first (retired_at repository version) (cleaned_build now) db.builds;
        }))
    else raised activation_race
