-- ===== src/Freshness/Defensible.antt =====
-- When a refresh is incremental.
use code_naut.Prelude.{
  ℕ, ◌<◌, String, Bool, true, false, ◌≡◌, refl, ◌⊎◌, inl, inr, Option, none, some, arith, length,
  leb, All, is_some,
}
use code_naut.Prelude.Table.{if_rule}
use code_naut.Jobs.Model.{IndexingMode}
use code_naut.Freshness.Plan.{
  CommitComparison, ChangedFileSet, FreshnessPlan, no_changes, classify_comparison, is_full,
  is_not_forward, full_plan, plan_changes, plan_comparison, plan_refresh,
}
use code_naut.Freshness.Classified.{IsSafeFile, Accounts, classify_comparison-Accounts}

-- A full rebuild, with a reason.
pub record Fallback (plan : FreshnessPlan) : Type 0 where
  pub mode : plan.actual_mode ≡ IndexingMode.full
  pub reason : is_some plan.fallback_reason ≡ true

-- The comparison is complete enough to work on the changed files alone.
pub record Complete (c : CommitComparison) (max_changed_files : ℕ) (plan : FreshnessPlan)
    : Type 0 where
  pub forward : is_not_forward c.status ≡ false
  pub bounded : length c.files < max_changed_files
  pub safe : All IsSafeFile c.files
  pub changes : Accounts c.files no_changes plan.changes

pub record Defensible (comparison : Option CommitComparison) (has_active_index : Bool)
    (requested_mode : IndexingMode) (max_changed_files : ℕ) (plan : FreshnessPlan) : Type 0 where
  pub mode : plan.actual_mode ≡ IndexingMode.incremental
  pub active : has_active_index ≡ true
  pub requested : is_full requested_mode ≡ false
  pub compared : (c : CommitComparison) × (comparison ≡ some c) × Complete c max_changed_files plan

abbrev pub Planned : Option CommitComparison → Bool → IndexingMode → ℕ → FreshnessPlan → Type 0
Planned comparison has_active_index requested_mode max_changed_files plan =
    Fallback plan ⊎ Defensible comparison has_active_index requested_mode max_changed_files plan

full_plan-Fallback : (reason : String) (set : ChangedFileSet) → Fallback (full_plan reason set)
full_plan-Fallback reason set = record { mode = refl; reason = refl }

module _ (max_changed_files : ℕ) where
  changes-Planned :
      (c : CommitComparison) (mode : IndexingMode) (o : Option ChangedFileSet)
      → is_full mode ≡ false
      → is_not_forward c.status ≡ false
      → classify_comparison c ≡ o
      → Planned
          (some c)
          true
          mode
          max_changed_files
          (plan_changes o (length c.files) max_changed_files)
  changes-Planned c mode none m fwd e = inl (full_plan-Fallback "unsafe_comparison" no_changes)
  changes-Planned c mode (some set) m fwd e =
      if_rule (Planned (some c) true mode max_changed_files)
        (leb max_changed_files (length c.files)) _ _
        (λ _. inl (full_plan-Fallback "comparison_file_limit" set))
        (λ few.
          let known = classify_comparison-Accounts c set e in
          inr (record {
            mode = refl;
            active = refl;
            requested = m;
            compared = (
              c,
              refl,
              record { forward = fwd; bounded = ground arith; safe = known.0; changes = known.1 },
            );
          }))

  comparison-Planned :
      (comparison : Option CommitComparison) (mode : IndexingMode)
      → is_full mode ≡ false
      → Planned comparison true mode max_changed_files
          (plan_comparison comparison max_changed_files)
  comparison-Planned none mode m = inl (full_plan-Fallback "comparison_unavailable" no_changes)
  comparison-Planned (some c) mode m =
      if_rule (Planned (some c) true mode max_changed_files) (is_not_forward c.status) _ _
        (λ _. inl (full_plan-Fallback "non_fast_forward" no_changes))
        (λ fwd. changes-Planned c mode (classify_comparison c) m fwd refl)

  -- Every plan is a full rebuild with a reason, or incremental. It is incremental only where an index is
  -- active, no full rebuild was requested and there is a comparison that is not behind or diverged, has
  -- fewer files than the limit and only safe paths; its changes are then what the files say.
  pub plan_refresh_sound :
      (comparison : Option CommitComparison) (has_active_index : Bool)
      (requested_mode : IndexingMode)
      → Planned comparison has_active_index requested_mode max_changed_files
          (plan_refresh comparison has_active_index requested_mode max_changed_files)
  unfolding plan_refresh
  plan_refresh_sound comparison false mode =
      inl (full_plan-Fallback "missing_active_index" no_changes)
  plan_refresh_sound comparison true IndexingMode.full =
      inl (full_plan-Fallback "requested_full_rebuild" no_changes)
  plan_refresh_sound comparison true IndexingMode.incremental =
      comparison-Planned comparison IndexingMode.incremental refl
