-- ===== src/Jobs/Recovery.antt =====
-- What recover_abandoned and fail decide, and how long a retry waits.
use native.Mathlib.Nat.{pow-suc}
use code_naut.Prelude.{
  ℕ, zero, suc, ◌+◌, ◌*◌, ◌-◌, ◌^◌, min, ◌≤◌, ◌<◌, ◌≡◌, refl, true, false, none, some, List, [],
  ◌∷◌, arith, ltb, count_if, keep_if, Bool-cases, inl, inr,
}
use code_naut.Prelude.Pairwise.{Each}
use code_naut.Prelude.Table.{update_where}
use code_naut.Prelude.Counting.{count_if-update_where_zero, length-keep_if}
use code_naut.Jobs.Model.{Job, JobStatus, Settings, Db}
use code_naut.Jobs.Rows.{abandoned, claimable}
use code_naut.Jobs.Retry.{recover_abandoned, recovered_row, retry_delay, retry_base_seconds}
use code_naut.Jobs.Invariant.Methods.{recover_scope-jobs}

-- A row before and after the recovery at `now`.
pub data Recovered (s : Settings) (now : ℕ) (j k : Job) : Type 0 where
  untouched : abandoned s.abandoned_after now j ≡ false → k ≡ j → Recovered s now j k
  retried :
      abandoned s.abandoned_after now j ≡ true
      → j.attempt < s.max_attempts
      → k.status ≡ JobStatus.retrying
      → k.locked_by ≡ none
      → claimable now k ≡ true
      → Recovered s now j k
  exhausted :
      abandoned s.abandoned_after now j ≡ true
      → s.max_attempts ≤ j.attempt
      → k.status ≡ JobStatus.failed
      → k.locked_by ≡ none
      → k.completed_at ≡ some now
      → Recovered s now j k

recovered_row-Recovered :
    (s : Settings) (now : ℕ) (j : Job)
    → abandoned s.abandoned_after now j ≡ true
    → Recovered s now j (recovered_row s now j)
recovered_row-Recovered s now j h = elim (Bool-cases (ltb j.attempt s.max_attempts)) [
  | inl e ↦ retried h (ground arith) (ground arith) refl (ground arith)
  | inr e ↦ exhausted h (ground arith) (ground arith) refl (ground arith)
]

Recovered-rows :
    (s : Settings) (now : ℕ) (js : List Job)
    → Each
        (Recovered s now)
        js
        (update_where (abandoned s.abandoned_after now) (recovered_row s now) js)
unfolding update_where
Recovered-rows s now [] = tt
Recovered-rows s now (j ∷ js) = elim (Bool-cases (abandoned s.abandoned_after now j)) [
  | inl e ↦ rw e (recovered_row-Recovered s now j e, Recovered-rows s now js)
  | inr e ↦ rw e (untouched e refl, Recovered-rows s now js)
]

-- A recovery touches the abandoned running jobs and no other. It takes their leases, makes those
-- with attempts left claimable at once and fails the rest, leaves no abandoned job behind, and
-- returns how many there were.
pub recover_abandoned_exact :
    (s : Settings) (now : ℕ) (db : Db)
    → Each (Recovered s now) db.jobs (recover_abandoned s now db).1.jobs
      × (count_if (abandoned s.abandoned_after now) (recover_abandoned s now db).1.jobs ≡ 0)
      × ((recover_abandoned s now db).0 ≡ count_if (abandoned s.abandoned_after now) db.jobs)
unfolding recover_abandoned
recover_abandoned_exact s now db =
    let stale = keep_if (abandoned s.abandoned_after now) db.jobs in
    (
      rw (recover_scope-jobs s now stale) (Recovered-rows s now db.jobs),
      rw (recover_scope-jobs s now stale) (
          count_if-update_where_zero (abandoned s.abandoned_after now) (recovered_row s now) db.jobs
            (λ j h. ground arith)),
      length-keep_if (abandoned s.abandoned_after now) db.jobs,
    )

base_mono : (m b : ℕ) (n : ℕ) → min m (b * 2 ^ n) ≤ min m (b * 2 ^ suc n)
base_mono m b n = rw (pow-suc 2 n) (omega arith)

retry_base_mono :
    (s : Settings) (attempt : ℕ) → retry_base_seconds s attempt ≤ retry_base_seconds s (suc attempt)
unfolding retry_base_seconds
retry_base_mono s zero = omega arith
retry_base_mono s (suc n) =
    let e : suc n - 1 ≡ n = omega arith in
    let e' : suc (suc n) - 1 ≡ suc n = omega arith in
    rw (e, e') (base_mono s.retry_max s.retry_base n)

-- Where randbelow answers below its bound, the wait is at least the exponential base and at most half of
-- it more, never above one and a half times the configured maximum; the base does not fall from one
-- attempt to the next.
pub retry_delay_bounds :
    (s : Settings) (attempt : ℕ) (randbelow : ℕ → ℕ)
    → ((n : ℕ) → 0 < n → randbelow n < n)
    → (retry_base_seconds s attempt * 1000 ≤ retry_delay s attempt randbelow)
      × (retry_delay s attempt randbelow ≤ retry_base_seconds s attempt * 1500)
      × (retry_delay s attempt randbelow ≤ s.retry_max * 1500)
      × (retry_base_seconds s attempt ≤ retry_base_seconds s (suc attempt))
unfolding retry_delay retry_base_seconds
retry_delay_bounds s attempt randbelow below =
    let drawn = below (retry_base_seconds s attempt * 500 + 1) (omega arith) in
    (omega arith, omega (arith, drawn), omega (arith, drawn), retry_base_mono s attempt)
