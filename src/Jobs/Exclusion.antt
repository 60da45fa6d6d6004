-- ===== src/Jobs/Exclusion.antt =====
-- Two claims, and a worker that has lost its lease.
use code_naut.Prelude.{
  ℕ, String, ◌≡◌, ◌≢◌, sym, ◌∙◌, Bool, true, false, Option, none, some, List, [], ◌∷◌, arith,
  ==_refl, any,
}
use mathlib.Core.Bool.{false≢true}
use code_naut.Prelude.Table.{select, update_where, if_found_rule, if_rule}
use code_naut.Prelude.Counting.{count_if-eq-zero, select-any, update_where-idle}
use code_naut.Jobs.Model.{
  Job, IndexingMode, IndexingStatus, EdgeRow, ClaimedJob, Settings, Db, Result, ok, raised,
}
use code_naut.Jobs.Rows.{leased, running_in}
use code_naut.Jobs.Results.{SymbolRecord, Discovery, Processing}
use code_naut.Jobs.Claim.{claim, claim_row, wanted}
use code_naut.Jobs.Access.{record_freshness_plan, is_current}
use code_naut.Jobs.Lease.{heartbeat, stage, mark_stale, cancel_revoked}
use code_naut.Jobs.Retry.{fail}
use code_naut.Jobs.Prepare.{prepare_build, mismatched}
use code_naut.Jobs.Graph.{EdgeKey, validate_graph}
use code_naut.Jobs.Vectors.{record_vector_counts, mark_build_ready}
use code_naut.Jobs.Activate.{activate}

-- The row that an update found passes the new test.
any-update_where :
    (q p : Job → Bool) (f : Job → Job) (xs : List Job) (x : Job)
    → select p xs ≡ some x
    → q (f x) ≡ true
    → any q (update_where p f xs) ≡ true
unfolding select update_where
any-update_where q p f [] x h t = absurd (ground arith)
any-update_where q p f (y ∷ ys) x h t = ground (arith, any-update_where q p f ys x)

-- What a claim returned, and the tables that it left.
record Busy (r : Option ClaimedJob × Db) : Type 0 where
  holds : (c : ClaimedJob) → r.0 ≡ some c → any (running_in c.repository_id) r.1.jobs ≡ true

record Elsewhere (i : ℕ) (r : Option ClaimedJob × Db) : Type 0 where
  holds : (c : ClaimedJob) → r.0 ≡ some c → c.repository_id ≢ i

module _ (job_id : ℕ) (w : String) (now : ℕ) (db : Db) where
  claim-Busy : Busy (claim job_id w now db)
  unfolding claim
  claim-Busy =
      if_found_rule Busy (select (wanted job_id now) db.jobs) _ _
        (λ _. record { holds = λ c h. absurd (ground arith) })
        λ j found.
          if_rule Busy (any (running_in j.repository_id) db.jobs) _ _
            (λ _. record { holds = λ c h. absurd (ground arith) })
            λ _. record {
              holds = λ c h.
                  let e : j.repository_id ≡ c.repository_id = ground arith in
                  rw (← e) (
                    any-update_where (running_in j.repository_id) (wanted job_id now)
                      (claim_row w now) db.jobs j found (==_refl j.repository_id));
            }

  claim-Elsewhere :
      (i : ℕ) → any (running_in i) db.jobs ≡ true → Elsewhere i (claim job_id w now db)
  unfolding claim
  claim-Elsewhere i busy =
      if_found_rule (Elsewhere i) (select (wanted job_id now) db.jobs) _ _
        (λ _. record { holds = λ c h. absurd (ground arith) })
        λ j _.
          if_rule (Elsewhere i) (any (running_in j.repository_id) db.jobs) _ _
            (λ _. record { holds = λ c h. absurd (ground arith) })
            λ idle. record {
              holds = λ c h e.
                  let here : j.repository_id ≡ i = ground arith in
                  absurd (false≢true (sym idle ∙ rw here busy));
            }

-- On the tables that a successful claim left, a claim that succeeds, by whatever worker, of whatever job
-- and at whatever time, is of another repository.
pub claim-claim :
    (db : Db) (job_id job_id' now now' : ℕ) (w w' : String) (c c' : ClaimedJob)
    → (claim job_id w now db).0 ≡ some c
    → (claim job_id' w' now' (claim job_id w now db).1).0 ≡ some c'
    → c'.repository_id ≢ c.repository_id
claim-claim db job_id job_id' now now' w w' c c' h h' =
    let after = (claim job_id w now db).1 in
    (claim-Elsewhere job_id' w' now' after c.repository_id
        ((claim-Busy job_id w now db).holds c h)).holds
      c' h'

-- A method that raised one of its own failures, or changed nothing.
abbrev pub Raises {ℓ} : {A : Type ℓ} → Result A → Type 0
Raises (ok a) = ⊥
Raises (raised e) = Unit

module _ (c : ClaimedJob) (w : String) (db : Db) (lost : any (leased c w) db.jobs ≡ false) where
  not_found : select (leased c w) db.jobs ≡ none
  not_found = select-any (leased c w) db.jobs lost

  -- For a worker that does not hold the lease of a claimed job, heartbeat, stage, mark_stale,
  -- cancel_revoked, fail and record_freshness_plan leave the tables as they were, is_current is false, and
  -- prepare_build, validate_graph, record_vector_counts, mark_build_ready and activate raise. The other
  -- method that takes a claim, authorized_context, is not among them: it does not look at the lease.
  pub lost_lease_writes_nothing :
      (s : Settings) (ids : ℕ → ℕ → SymbolRecord → ℕ) (order_by : List EdgeRow → List EdgeRow)
      (sha256 : List EdgeKey → String) (randbelow : ℕ → ℕ) (now progress n e v : ℕ)
      (status : IndexingStatus) (mode : IndexingMode) (name sha code message fingerprint : String)
      (o : Option String) (counts : List (String × ℕ)) (k : Option ℕ) (flag : Bool) (d : Discovery)
      (p : Processing)
      → (heartbeat c w now db ≡ db)
        × (stage c w status name progress o now db ≡ db)
        × (mark_stale c w code flag now db ≡ db)
        × (cancel_revoked c w now db ≡ db)
        × ((fail s c w code message flag randbelow now db).1 ≡ db)
        × (record_freshness_plan c w mode o counts n db ≡ db)
        × (is_current c w db ≡ false)
        × Raises (prepare_build ids s c w sha d p fingerprint db)
        × Raises (validate_graph order_by sha256 c w db)
        × Raises (record_vector_counts c w e v n k db)
        × Raises (mark_build_ready c w db)
        × Raises (activate c w sha now db)
  unfolding heartbeat stage mark_stale cancel_revoked fail record_freshness_plan is_current
      prepare_build validate_graph record_vector_counts mark_build_ready activate
  lost_lease_writes_nothing s ids order_by sha256 randbelow now progress n e v status mode name sha
        code message fingerprint o counts k flag d p =
      let idle = λ (f : Job → Job).
        update_where-idle (leased c w) f db.jobs (count_if-eq-zero (leased c w) db.jobs lost) in
      (
        rw idle,
        rw not_found,
        rw not_found,
        rw not_found,
        rw not_found,
        rw idle,
        rw not_found,
        if_rule Raises (mismatched c sha p) _ _ (λ _. tt) (λ _. rw not_found tt),
        rw not_found tt,
        rw not_found tt,
        rw not_found tt,
        rw not_found tt,
      )
