-- ===== src/Jobs/Examples.antt =====
-- The theorems of the job store at concrete tables, and runs of it.
use code_naut.Prelude.{
  ℕ, false, suc, ◌*◌, ◌-◌, ◌≤◌, ◌≡◌, ◌≢◌, refl, true, none, some, List, [], ◌∷◌, arith, count_if,
}
use code_naut.Prelude.Pairwise.{Each}
use code_naut.Prelude.Table.{select, update_first, update_where}
use code_naut.Jobs.Model.{
  IndexingStatus, IndexingMode, JobStatus, Job, Repository, Build, Db, ClaimedJob, ok,
}
use code_naut.Jobs.Rows.{abandoned}
use code_naut.Jobs.Claim.{claim}
use code_naut.Jobs.Activate.{activate, lost_previous}
use code_naut.Jobs.Retry.{fail, recover_abandoned, retry_delay, retry_base_seconds}
use code_naut.Jobs.Access.{record_freshness_plan, is_current}
use code_naut.Jobs.Invariant.{JobsInvariant}
use code_naut.Jobs.Invariant.Claim.{MovesJobs}
use code_naut.Jobs.Index.{version_of}
use code_naut.Jobs.Index.Unique.{Flushes, activate-Flushes}
use code_naut.Jobs.Trace.{Op, apply, run}
use code_naut.Jobs.Trace.Invariants.{apply-Moves, run-JobsInvariant}
use code_naut.Jobs.Trace.Serving.{ServesTruly, run-ServesTruly}
use code_naut.Jobs.Trace.Content.{SameContent}
use code_naut.Jobs.Trace.Served.{apply-SameContent}
use code_naut.Jobs.Exclusion.{claim-claim, Raises, lost_lease_writes_nothing}
use code_naut.Jobs.Lease.{heartbeat, stage, mark_stale, cancel_revoked}
use code_naut.Jobs.Prepare.{prepare_build}
use code_naut.Jobs.Vectors.{record_vector_counts, mark_build_ready}
use code_naut.Jobs.Graph.{validate_graph}
use code_naut.Jobs.Recovery.{Recovered, recover_abandoned_exact, retry_delay_bounds}
use code_naut.Jobs.Switch.{CanActivate, Switched, activate_sound}
use code_naut.Jobs.Sample.{
  settings, job, sample, ids, order, digest, claim_one, discovery, processing,
}

abbrev script : List Op
script = Op.claim 3 "v" 10 ∷ Op.activate claim_one "w" "bbb" 20 ∷ Op.recover_abandoned 90000 ∷ []

sample-JobsInvariant : JobsInvariant sample.jobs
sample-JobsInvariant = record {
  unique_ids = λ i. ground arith;
  one_running = λ r. ground arith;
  leases = (refl, (refl, (refl, tt)));
}

sample-ServesTruly : ServesTruly sample
unfolding version_of select
sample-ServesTruly = record {
  unique_builds = λ r v. ground arith;
  truthful = (refl, (refl, tt));
  sealed = ((λ _. refl), ((λ _. refl), tt));
  positive = omega arith;
}

apply-Moves_example : MovesJobs sample (apply settings ids order digest (Op.claim 3 "v" 10) sample)
apply-Moves_example = apply-Moves settings ids order digest (Op.claim 3 "v" 10) sample

run-JobsInvariant_example : JobsInvariant (run settings ids order digest script sample).jobs
run-JobsInvariant_example =
    run-JobsInvariant settings ids order digest script sample sample-JobsInvariant

run-ServesTruly_example : ServesTruly (run settings ids order digest script sample)
run-ServesTruly_example = run-ServesTruly settings ids order digest script sample sample-ServesTruly

activate-Flushes_example : Flushes (activate claim_one "w" "bbb" 20 sample)
activate-Flushes_example = activate-Flushes claim_one "w" "bbb" 20 sample sample-ServesTruly

served_one : version_of 1 sample.repositories ≡ some 1
unfolding version_of select
served_one = refl

apply-SameContent_example :
    SameContent 1 1 sample
      (apply settings ids order digest (Op.activate claim_one "w" "bbb" 20) sample)
apply-SameContent_example =
    apply-SameContent settings ids order digest (Op.activate claim_one "w" "bbb" 20) sample 1 1
      sample-ServesTruly served_one

abbrev idle_sample : Db
idle_sample = record sample {
  jobs =
      job 2 1 JobStatus.queued 0 none none
      ∷ job 4 1 JobStatus.queued 0 none none
      ∷ job 3 2 JobStatus.queued 0 none none
      ∷ [];
}

abbrev claim_two : ClaimedJob
claim_two = record { id = 2; repository_id = 1; attempt = 1 }

abbrev claim_three : ClaimedJob
claim_three = record { id = 3; repository_id = 2; attempt = 1 }

claimed_two : (claim 2 "w" 5 idle_sample).0 ≡ some claim_two
unfolding claim select
claimed_two = refl

claimed_three : (claim 3 "v" 6 (claim 2 "w" 5 idle_sample).1).0 ≡ some claim_three
unfolding claim select update_where
claimed_three = refl

-- Job 4 waits in the repository of the running job 2, so no worker gets it.
refused_four : (claim 4 "v" 6 (claim 2 "w" 5 idle_sample).1).0 ≡ none
unfolding claim select update_where
refused_four = refl

claim-claim_example : ◌≢◌ {A = ℕ} 2 1
claim-claim_example =
    claim-claim idle_sample 2 3 5 6 "w" "v" claim_two claim_three claimed_two claimed_three

recover_abandoned_exact_example :
    Each (Recovered settings 90000) sample.jobs (recover_abandoned settings 90000 sample).1.jobs
    × (count_if
          (abandoned settings.abandoned_after 90000)
          (recover_abandoned settings 90000 sample).1.jobs
        ≡ 0)
    × ((recover_abandoned settings 90000 sample).0
        ≡ count_if (abandoned settings.abandoned_after 90000) sample.jobs)
recover_abandoned_exact_example = recover_abandoned_exact settings 90000 sample

abbrev randbelow : ℕ → ℕ
randbelow n = n - 1

retry_delay_bounds_example :
    (retry_base_seconds settings 2 * 1000 ≤ retry_delay settings 2 randbelow)
    × (retry_delay settings 2 randbelow ≤ retry_base_seconds settings 2 * 1500)
    × (retry_delay settings 2 randbelow ≤ settings.retry_max * 1500)
    × (retry_base_seconds settings 2 ≤ retry_base_seconds settings (suc 2))
retry_delay_bounds_example = retry_delay_bounds settings 2 randbelow (λ n h. omega (arith, h))

activated : (after : Db) × (activate claim_one "w" "bbb" 20 sample ≡ ok (1, after))
unfolding activate select lost_previous update_first
activated = (_, refl)

activate_sound_example :
    (j : Job) × (r : Repository) × (b : Build) × CanActivate claim_one "w" "bbb" sample j r b
    × Switched r b 1 activated.0
activate_sound_example = activate_sound claim_one "w" "bbb" 20 sample 1 activated.0 activated.1

abbrev stale_claim : ClaimedJob
stale_claim = record { id = 2; repository_id = 1; attempt = 1 }

lost_lease_writes_nothing_example :
    (heartbeat stale_claim "w" 9 sample ≡ sample)
    × (stage stale_claim "w" IndexingStatus.parsing "parsing" 40 none 9 sample ≡ sample)
    × (mark_stale stale_claim "w" "code" true 9 sample ≡ sample)
    × (cancel_revoked stale_claim "w" 9 sample ≡ sample)
    × ((fail settings stale_claim "w" "code" "message" true randbelow 9 sample).1 ≡ sample)
    × (record_freshness_plan stale_claim "w" IndexingMode.full none [] 1 sample ≡ sample)
    × (is_current stale_claim "w" sample ≡ false)
    × Raises (prepare_build ids settings stale_claim "w" "bbb" discovery processing "p" sample)
    × Raises (validate_graph order digest stale_claim "w" sample)
    × Raises (record_vector_counts stale_claim "w" 4 4 1 none sample)
    × Raises (mark_build_ready stale_claim "w" sample)
    × Raises (activate stale_claim "w" "bbb" 9 sample)
lost_lease_writes_nothing_example =
    lost_lease_writes_nothing stale_claim "w" sample refl settings ids order digest randbelow 9 40 1
      4 4 IndexingStatus.parsing IndexingMode.full "parsing" "bbb" "code" "message" "p" none [] none
      true discovery processing
