-- ===== src/Jobs/Invariant/Claim.antt =====
-- A claim starts at most one job, and none in a repository that has a running one.
use code_naut.Prelude.{
  ℕ, ◌+◌, ◌≤◌, String, ◌≡◌, subst, Bool, true, false, ◌&&◌, some, List, arith, ◌==◌, any, count_if,
  Bool-cases, inl, inr,
}
use code_naut.Prelude.Pairwise.{Each, Each-refl, Each-update_where, All-Each, count_if-Each}
use code_naut.Prelude.Table.{select, update_where, if_found_rule, if_rule}
use code_naut.Prelude.Counting.{
  count_if-eq-zero, count_if_mono, count_if-update_where_add, count_if-select,
}
use code_naut.Jobs.Model.{Job, Db, Leaves}
use code_naut.Jobs.Rows.{running_in}
use code_naut.Jobs.Claim.{claim, claim_row, wanted}
use code_naut.Jobs.Invariant.{Moves, Moves-refl, JobsInvariant, IsLeased}
use code_naut.Jobs.Invariant.Rows.{claim_row-Moves}

abbrev pub MovesJobs : Db → Db → Type 0
MovesJobs a b = Each Moves a.jobs b.jobs

module _ (job_id : ℕ) (w : String) (now : ℕ) where
  abbrev claimed_jobs : List Job → List Job
  claimed_jobs jobs = update_where (wanted job_id now) (claim_row w now) jobs

  claimed_jobs-Moves : (jobs : List Job) → Each Moves jobs (claimed_jobs jobs)
  claimed_jobs-Moves jobs =
      Each-update_where Moves (wanted job_id now) (claim_row w now) Moves-refl
        (λ j h. claim_row-Moves job_id now w j h) jobs

  pub claim-Moves : (db : Db) → Leaves (MovesJobs db) (claim job_id w now db)
  unfolding claim
  claim-Moves db =
      if_found_rule (Leaves (MovesJobs db)) (select (wanted job_id now) db.jobs) _ _
        (λ _. record { holds = Each-refl Moves db.jobs Moves-refl })
        λ j _.
          if_rule (Leaves (MovesJobs db)) (any (running_in j.repository_id) db.jobs) _ _
            (λ _. record { holds = Each-refl Moves db.jobs Moves-refl })
            λ _. record { holds = claimed_jobs-Moves db.jobs }

  id-Moves : (i : ℕ) (j k : Job) → Moves j k → (k.id == i) ≡ true → (j.id == i) ≡ true
  id-Moves i j k m h = ground (arith, m.id)

  -- the repository of the claimed row
  abbrev starts_in : ℕ → Job → Bool
  starts_in r x = x.repository_id == r

  module _ (jobs : List Job) (inv : JobsInvariant jobs) (j : Job)
      (found : select (wanted job_id now) jobs ≡ some j)
      (idle : any (running_in j.repository_id) jobs ≡ false) where
    one_wanted : count_if (wanted job_id now) jobs ≤ 1
    one_wanted = omega (
      arith,
      count_if_mono (wanted job_id now) (λ x. x.id == job_id) jobs (λ x h. ground arith),
      inv.unique_ids job_id,
    )

    started :
        (r : ℕ)
        → count_if (running_in r) (claimed_jobs jobs)
          ≤ count_if (running_in r) jobs + count_if (λ x. wanted job_id now x && starts_in r x) jobs
    started r =
        count_if-update_where_add (running_in r) (wanted job_id now) (starts_in r) (claim_row w now)
          jobs (λ x p q. ground arith)

    one_running : (r : ℕ) → count_if (running_in r) (claimed_jobs jobs) ≤ 1
    one_running r = elim (Bool-cases (starts_in r j)) [
      | inl same ↦
          let e : j.repository_id ≡ r = ground arith in
          let none_running : count_if (running_in r) jobs ≡ 0 =
            subst (λ x. count_if (running_in x) jobs ≡ 0) e (count_if-eq-zero _ jobs idle) in
          omega (
            arith,
            started r,
            count_if_mono (λ x. wanted job_id now x && starts_in r x) (wanted job_id now) jobs
                (λ x h. ground arith),
            one_wanted,
          )
      | inr other ↦ omega (
        arith,
        started r,
        count_if-select (wanted job_id now) (starts_in r) jobs j found one_wanted other,
        inv.one_running r,
      )
    ]

    claimed_jobs-JobsInvariant : JobsInvariant (claimed_jobs jobs)
    claimed_jobs-JobsInvariant = record {
      unique_ids = λ i. omega (
        arith,
        count_if-Each Moves (λ x. x.id == i) jobs (claimed_jobs jobs) (id-Moves i)
            (claimed_jobs-Moves jobs),
        inv.unique_ids i,
      );
      one_running = one_running;
      leases =
          All-Each Moves IsLeased jobs (claimed_jobs jobs) (λ x y m h. m.lease h)
            (claimed_jobs-Moves jobs) inv.leases;
    }

  abbrev JobsInvariantOf : Db → Type 0
  JobsInvariantOf db = JobsInvariant db.jobs

  pub claim-JobsInvariant :
      (db : Db) → JobsInvariant db.jobs → Leaves JobsInvariantOf (claim job_id w now db)
  unfolding claim
  claim-JobsInvariant db inv =
      if_found_rule (Leaves JobsInvariantOf) (select (wanted job_id now) db.jobs) _ _
        (λ _. record { holds = inv })
        λ j found.
          if_rule (Leaves JobsInvariantOf) (any (running_in j.repository_id) db.jobs) _ _
            (λ _. record { holds = inv })
            λ idle. record { holds = claimed_jobs-JobsInvariant db.jobs inv j found idle }
