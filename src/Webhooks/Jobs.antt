-- ===== src/Webhooks/Jobs.antt =====
-- WebhookService.handle (backend/app/services/webhooks.py) and the invariant of the jobs' table.
use code_naut.Prelude.{
  ℕ, String, ◌≡◌, refl, subst, sym, ◌∙◌, inl, inr, Option, none, some, List, ◌==◌, arith, count_if,
  Bool-cases, ==→≡,
}
use code_naut.Prelude.Table.{count_if-update_where-le, All-update_where}
use code_naut.Jobs.Model.{Job, Db}
use code_naut.Jobs.Rows.{running_in}
use code_naut.Jobs.Invariant.{JobsInvariant, IsLeased}
use code_naut.Webhooks.Model.{Payload, Request, Outcome, Draws, QueueAnswer}
use code_naut.Webhooks.Handle.{enqueue, enqueued_job, same_job, handle}
use code_naut.Webhooks.Frame.{Adds}
use code_naut.Webhooks.Once.{apply_event-done}
use code_naut.Webhooks.Ends.{handle_rule}

added-JobsInvariant :
    (id : ℕ) (job : Option Job) (before after : List Job)
    → Adds id job before after
    → count_if (same_job id) before ≡ 0
    → JobsInvariant before
    → JobsInvariant after
added-JobsInvariant id none before after same new inv = subst JobsInvariant (sym same) inv
added-JobsInvariant id (some j) before after (same, own, waits, free) new inv =
    subst JobsInvariant (sym same) (record {
      unique_ids = λ i. elim (Bool-cases (j.id == i)) [
        | inl e ↦
            let here : id ≡ i = sym own ∙ ==→≡ j.id i e in
            let none_before : count_if (same_job i) before ≡ 0 =
              subst (λ (x : ℕ). count_if (same_job x) before ≡ 0) here new in
            rw e (omega (arith, none_before))
        | inr e ↦ rw e (inv.unique_ids i)
      ];
      one_running = λ r. let one = inv.one_running r in rw waits (ground (arith, one));
      leases = (rw (waits, free) refl, inv.leases);
    })

enqueue-JobsInvariant :
    (answer : QueueAnswer) (now : ℕ) (delivery_id : String) (job : Option Job) (db : Db)
    → JobsInvariant db.jobs
    → JobsInvariant (enqueue answer now delivery_id job db).jobs
unfolding enqueue
enqueue-JobsInvariant answer now delivery_id none db inv = inv
enqueue-JobsInvariant QueueAnswer.no_queue now delivery_id (some j) db inv = inv
enqueue-JobsInvariant QueueAnswer.unavailable now delivery_id (some j) db inv = inv
enqueue-JobsInvariant QueueAnswer.enqueued now delivery_id (some j) db inv = record {
  unique_ids = λ i. omega (
    arith,
    count_if-update_where-le (λ k. k.id == i) (same_job j.id) (enqueued_job now) db.jobs
        (λ k _ e. e),
    inv.unique_ids i,
  );
  one_running = λ r. omega (
    arith,
    count_if-update_where-le (running_in r) (same_job j.id) (enqueued_job now) db.jobs (λ k _ e. e),
    inv.one_running r,
  );
  leases =
      All-update_where IsLeased (same_job j.id) (enqueued_job now) db.jobs (λ k _ e. e) inv.leases;
}

module _ (user_of : ℕ → Option ℕ) (hexdigest : String → String)
    (media_type : Option String → String) (parse : String → Option Payload) where
  -- Where the drawn id of a job is new, a request keeps the invariant of the jobs' table: ids are
  -- unique, a repository has at most one running job, and a job has a holder exactly while it
  -- runs.
  pub handle-JobsInvariant :
      (draws : Draws) (now : ℕ) (answer : QueueAnswer) (q : Request) (db : Db)
      → count_if (same_job draws.job_id) db.jobs ≡ 0
      → JobsInvariant db.jobs
      → JobsInvariant (handle user_of draws now hexdigest media_type parse answer q db).1.jobs
  handle-JobsInvariant draws now answer q db new inv =
      handle_rule user_of hexdigest media_type parse draws now answer q db
        (λ (r : Outcome × Db). JobsInvariant r.1.jobs)
        (record {
          at_refusal = λ o _. inv;
          at_ignored = λ delivery_id event p _ _ _. inv;
          at_accepted = λ delivery_id event p a _ _ _ h.
              let f = apply_event-done user_of draws now event p _ db a h in
              enqueue-JobsInvariant answer now delivery_id a.job _
                (added-JobsInvariant draws.job_id a.job db.jobs _ f.jobs new inv);
        })
