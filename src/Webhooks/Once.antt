-- ===== src/Webhooks/Once.antt =====
-- Repeated deliveries to WebhookService.handle (backend/app/services/webhooks.py).
use code_naut.Prelude.{
  ℕ, String, Bool, true, false, ◌||◌, ◌≡◌, refl, sym, ◌∙◌, ap, subst, Option, none, some, ◌∷◌,
  arith, any, str_eq, eq_iff,
}
use code_naut.Prelude.Selecting.{any-update_first}
use code_naut.Jobs.Model.{Job, Delivery, Db}
use code_naut.Webhooks.Model.{Payload, Request, Outcome, Draws, QueueAnswer}
use code_naut.Webhooks.Rows.{Applied, done}
use code_naut.Webhooks.Handle.{
  has_delivery, received_delivery, closed_delivery, undelivered, enqueue, apply_event, handle,
}
use code_naut.Webhooks.Frame.{Frame, OnDone}
use code_naut.Webhooks.Events.{apply_event-Frame}
use code_naut.Webhooks.Ends.{is_taken, handle_rule}

abbrev pub is_recorded : String → Db → Bool
is_recorded delivery_id db = any (has_delivery delivery_id) db.deliveries

or_empty : Option String → String
or_empty none = ""
or_empty (some s) = s

same_text : (a b : String) → some a ≡ some b → a ≡ b
unfolding or_empty
same_text a b e = ap or_empty e

pub own_id : (k : String) → str_eq k k ≡ true
own_id k = (eq_iff k k).1 refl

closed-named :
    (now : ℕ) (job : Option Job) (d : Delivery)
    → (closed_delivery now job d).delivery_id ≡ d.delivery_id
closed-named now (some j) d = refl
closed-named now none d = ground arith

enqueue-recorded :
    (k : String) (answer : QueueAnswer) (now : ℕ) (delivery_id : String) (job : Option Job)
    (db : Db)
    → is_recorded k db ≡ true
    → is_recorded k (enqueue answer now delivery_id job db) ≡ true
unfolding enqueue
enqueue-recorded k answer now delivery_id none db h = h
enqueue-recorded k QueueAnswer.no_queue now delivery_id (some j) db h = h
enqueue-recorded k QueueAnswer.unavailable now delivery_id (some j) db h =
    any-update_first (has_delivery k) (has_delivery delivery_id) undelivered db.deliveries
      (λ d e. e) h
enqueue-recorded k QueueAnswer.enqueued now delivery_id (some j) db h = h

pub apply_event-done :
    (user_of : ℕ → Option ℕ) (draws : Draws) (now : ℕ) (event : String) (p : Payload) (d : Delivery)
    → (db : Db) (a : Applied) → apply_event user_of draws now event p d db ≡ done a
    → Frame draws.job_id d db a
apply_event-done user_of draws now event p d db a h =
    subst (OnDone (Frame draws.job_id d db)) h (apply_event-Frame user_of draws now event p d db)

module _ (hexdigest : String → String) (media_type : Option String → String)
    (parse : String → Option Payload) where
  -- One request after the other, each with the users of its time.
  pub data Requests : Db → Db → Type 0 where
    here : {db : Db} → Requests db db
    next :
        {before mid : Db} (user_of : ℕ → Option ℕ) (draws : Draws) (now : ℕ) (answer : QueueAnswer)
        → (q : Request) → Requests before mid
        → Requests before (handle user_of draws now hexdigest media_type parse answer q mid).1

  module _ (user_of : ℕ → Option ℕ) (draws : Draws) (now : ℕ) (answer : QueueAnswer) (q : Request)
      (db : Db) where
    pub new-recorded :
        (k : String) (delivery_id event : String) (p : Payload) (a : Applied)
        → apply_event user_of draws now event p (received_delivery delivery_id event p) db ≡ done a
        → (str_eq delivery_id k || is_recorded k db) ≡ true
        → is_recorded k (
            enqueue answer now delivery_id a.job (record a.tables {
              deliveries = closed_delivery now a.job a.delivery ∷ a.tables.deliveries;
            }))
          ≡ true
    new-recorded k delivery_id event p a h known =
        let f = apply_event-done user_of draws now event p _ db a h in
        let named : (closed_delivery now a.job a.delivery).delivery_id ≡ delivery_id =
          closed-named now a.job a.delivery ∙ f.named in
        enqueue-recorded k answer now delivery_id a.job _ (rw (named, f.deliveries) known)

    recorded_stays :
        (k : String)
        → is_recorded k db ≡ true
        → is_recorded k (handle user_of draws now hexdigest media_type parse answer q db).1 ≡ true
    recorded_stays k known =
        handle_rule user_of hexdigest media_type parse draws now answer q db
          (λ (r : Outcome × Db). is_recorded k r.1 ≡ true)
          (record {
            at_refusal = λ o _. known;
            at_ignored = λ delivery_id event p _ _ _. ground (arith, known);
            at_accepted = λ delivery_id event p a _ _ _ h.
                new-recorded k delivery_id event p a h (ground (arith, known));
          })

    taken_recorded :
        (k : String)
        → q.delivery_id ≡ some k
        → is_taken (handle user_of draws now hexdigest media_type parse answer q db).0 ≡ true
        → is_recorded k (handle user_of draws now hexdigest media_type parse answer q db).1 ≡ true
    taken_recorded k own =
        handle_rule user_of hexdigest media_type parse draws now answer q db
          (λ (r : Outcome × Db). is_taken r.0 ≡ true → is_recorded k r.1 ≡ true)
          (record {
            at_refusal = λ o no yes. absurd (ground (arith, no, yes));
            at_ignored = λ delivery_id event p named _ _ _.
                let same = same_text delivery_id k (sym named ∙ own) in rw (same, own_id k) refl;
            at_accepted = λ delivery_id event p a named _ _ h _.
                let same = same_text delivery_id k (sym named ∙ own) in
                new-recorded k delivery_id event p a h (rw (same, own_id k) refl);
          })

    known_refused :
        (k : String)
        → q.delivery_id ≡ some k
        → is_recorded k db ≡ true
        → let r = handle user_of draws now hexdigest media_type parse answer q db in
          (r.1 ≡ db) × (is_taken r.0 ≡ false)
    known_refused k own known =
        handle_rule user_of hexdigest media_type parse draws now answer q db
          (λ (r : Outcome × Db). (r.1 ≡ db) × (is_taken r.0 ≡ false))
          (record {
            at_refusal = λ o no. (refl, no);
            at_ignored = λ delivery_id event p named _ new.
                let same = same_text delivery_id k (sym named ∙ own) in
                absurd (let gone = rw same at new in ground (arith, known, gone));
            at_accepted = λ delivery_id event p a named _ new _.
                let same = same_text delivery_id k (sym named ∙ own) in
                absurd (let gone = rw same at new in ground (arith, known, gone));
          })

  Requests-recorded :
      (k : String) (before after : Db)
      → Requests before after
      → is_recorded k before ≡ true
      → is_recorded k after ≡ true
  Requests-recorded k before after here h = h
  Requests-recorded k before after (next {mid = mid} user_of draws now answer q rest) h =
      recorded_stays user_of draws now answer q mid k (Requests-recorded k before mid rest h)

  -- Where a request with a delivery id was taken, after whatever requests came since, a request
  -- with the same delivery id is not taken and changes no table.
  pub handle_once :
      (users users' : ℕ → Option ℕ) (draws draws' : Draws) (now now' : ℕ)
      (answer answer' : QueueAnswer)
      → (q q' : Request) (k : String) (before later : Db) → q.delivery_id ≡ some k
      → q'.delivery_id ≡ some k
      → is_taken (handle users draws now hexdigest media_type parse answer q before).0 ≡ true
      → Requests (handle users draws now hexdigest media_type parse answer q before).1 later
      → let r = handle users' draws' now' hexdigest media_type parse answer' q' later in
        (r.1 ≡ later) × (is_taken r.0 ≡ false)
  handle_once users users' draws draws' now now' answer answer' q q' k before later own own' taken
        since =
      known_refused users' draws' now' answer' q' later k own' (
        Requests-recorded k _ later since
          (taken_recorded users draws now answer q before k own taken))
