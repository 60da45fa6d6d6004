-- ===== src/Jobs/Invariant/Rows.antt =====
-- The row writes of the lease methods, one by one.
use code_naut.Prelude.{ℕ, String, ◌≡◌, refl, Bool, true, false, none, arith}
use code_naut.Jobs.Model.{Job, JobStatus, ClaimedJob}
use code_naut.Jobs.Rows.{is_running, is_waiting, leased}
use code_naut.Jobs.Claim.{claim_row, wanted}
use code_naut.Jobs.Retry.{stopped_status}
use code_naut.Jobs.Invariant.{Moves, Keeps, is_terminal, may_move}

pub leased-running :
    (c : ClaimedJob) (w : String) (j : Job) → leased c w j ≡ true → is_running j.status ≡ true
leased-running c w j h = ground arith

-- A write to other columns of a running or waiting row.
module _ (j k : Job) (id : k.id ≡ j.id) (repo : k.repository_id ≡ j.repository_id)
    (attempt : k.attempt ≡ j.attempt) where
  pub Keeps-columns :
      is_terminal j.status ≡ false → k.status ≡ j.status → k.locked_by ≡ j.locked_by → Keeps j k
  Keeps-columns live status lock = record {
    moves = record {
      id = id;
      repository_id = repo;
      edge = ground arith;
      final = λ t. absurd (ground arith);
      attempt = omega arith;
      lease = λ h. ground arith;
    };
    running = λ r. ground arith;
    same_attempt = attempt;
  }

  -- A write that ends a run and gives the lease back.
  pub Keeps-stop :
      is_running j.status ≡ true
      → is_running k.status ≡ false
      → may_move JobStatus.running k.status ≡ true
      → k.locked_by ≡ none
      → Keeps j k
  Keeps-stop live stopped edge lock = record {
    moves = record {
      id = id;
      repository_id = repo;
      edge = ground arith;
      final = λ t. absurd (ground arith);
      attempt = omega arith;
      lease = λ h. ground arith;
    };
    running = λ r. absurd (ground arith);
    same_attempt = attempt;
  }

pub running-live : (s : JobStatus) → is_running s ≡ true → is_terminal s ≡ false
running-live s h = ground arith

pub waiting-live : (s : JobStatus) → is_waiting s ≡ true → is_terminal s ≡ false
waiting-live s h = ground arith

pub stopped-edge : (retry : Bool) → may_move JobStatus.running (stopped_status retry) ≡ true
stopped-edge true = refl
stopped-edge false = refl

pub stopped-idle : (retry : Bool) → is_running (stopped_status retry) ≡ false
stopped-idle true = refl
stopped-idle false = refl

-- A claim starts a waiting row, one attempt further.
pub claim_row-Moves :
    (job_id now : ℕ) (w : String) (j : Job)
    → wanted job_id now j ≡ true
    → Moves j (claim_row w now j)
claim_row-Moves job_id now w j h = record {
  id = refl;
  repository_id = refl;
  edge = ground arith;
  final = λ t. absurd (ground arith);
  attempt = omega arith;
  lease = λ l. refl;
}
