-- ===== src/Jobs/Invariant.antt =====
-- What every method of the job store does to one row of `indexing_jobs`, and the invariant of the
-- table that follows from it.
mod Rows
pub mod Methods
pub mod BuildMethods
pub mod Claim
use code_naut.Prelude.{
  ℕ, ◌≤◌, ◌≡◌, refl, Bool, true, false, List, ◌==◌, arith, is_some, count_if, All,
}
use code_naut.Prelude.Pairwise.{Each, All-Each, count_if-Each}
use code_naut.Jobs.Model.{Job, JobStatus}
use code_naut.Jobs.Rows.{is_running, running_in}

abbrev pub is_terminal : JobStatus → Bool
is_terminal JobStatus.complete = true
is_terminal JobStatus.failed = true
is_terminal JobStatus.cancelled = true
is_terminal _ = false

-- The state diagram of a job.
abbrev pub may_move : JobStatus → JobStatus → Bool
may_move JobStatus.queued JobStatus.queued = true
may_move JobStatus.queued JobStatus.running = true
may_move JobStatus.retrying JobStatus.retrying = true
may_move JobStatus.retrying JobStatus.running = true
may_move JobStatus.running JobStatus.queued = false
may_move JobStatus.running _ = true
may_move JobStatus.complete JobStatus.complete = true
may_move JobStatus.failed JobStatus.failed = true
may_move JobStatus.cancelled JobStatus.cancelled = true
may_move _ _ = false

-- The lease: a job has a holder exactly while it runs.
abbrev pub IsLeased : Job → Type 0
IsLeased j = is_some j.locked_by ≡ is_running j.status

-- One row before and after a method.
pub record Moves (j k : Job) : Type 0 where
  pub id : k.id ≡ j.id
  pub repository_id : k.repository_id ≡ j.repository_id
  pub edge : may_move j.status k.status ≡ true
  pub final : is_terminal j.status ≡ true → k ≡ j
  pub attempt : j.attempt ≤ k.attempt
  pub lease : IsLeased j → IsLeased k

-- A method that claims nothing starts no job.
pub record Keeps (j k : Job) : Type 0 where
  pub moves : Moves j k
  pub running : is_running k.status ≡ true → is_running j.status ≡ true
  pub same_attempt : k.attempt ≡ j.attempt

pub record JobsInvariant (jobs : List Job) : Type 0 where
  pub unique_ids : (i : ℕ) → count_if (λ j. j.id == i) jobs ≤ 1
  pub one_running : (r : ℕ) → count_if (running_in r) jobs ≤ 1
  pub leases : All IsLeased jobs

may_move_refl : (s : JobStatus) → may_move s s ≡ true
may_move_refl s = ground arith

pub Moves-refl : (j : Job) → Moves j j
Moves-refl j = record {
  id = refl;
  repository_id = refl;
  edge = may_move_refl j.status;
  final = λ _. refl;
  attempt = omega arith;
  lease = λ h. h;
}

pub Keeps-refl : (j : Job) → Keeps j j
Keeps-refl j = record { moves = Moves-refl j; running = λ h. h; same_attempt = refl }

running_in-Keeps : (r : ℕ) (j k : Job) → Keeps j k → running_in r k ≡ true → running_in r j ≡ true
running_in-Keeps r j k m h = ground (arith, m.running, m.moves.repository_id)

id-Keeps : (i : ℕ) (j k : Job) → Keeps j k → (k.id == i) ≡ true → (j.id == i) ≡ true
id-Keeps i j k m h = rw (← m.moves.id) h

pub Keeps-JobsInvariant :
    (js ks : List Job) → Each Keeps js ks → JobsInvariant js → JobsInvariant ks
Keeps-JobsInvariant js ks e inv = record {
  unique_ids = λ i.
      omega (arith, count_if-Each Keeps (λ j. j.id == i) js ks (id-Keeps i) e, inv.unique_ids i);
  one_running = λ r.
      omega
        (arith, count_if-Each Keeps (running_in r) js ks (running_in-Keeps r) e, inv.one_running r);
  leases = All-Each Keeps IsLeased js ks (λ j k m h. m.moves.lease h) e inv.leases;
}
