-- ===== src/Webhooks/Ends.antt =====
-- The ends of WebhookService.handle (backend/app/services/webhooks.py), one by one.
use code_naut.Prelude.{
  ℕ, String, Bool, true, false, not, ◌&&◌, ◌≡◌, refl, Option, none, some, ◌∷◌, arith, any, str_eq,
}
use code_naut.Prelude.Table.{if_rule}
use code_naut.Jobs.Model.{Db}
use code_naut.Webhooks.Model.{Payload, Request, Outcome, Draws, QueueAnswer}
use code_naut.Webhooks.Rows.{Applied, EventError, outcome_of, Attempt, failed, done}
use code_naut.Webhooks.Validate.{
  is_delivery_id, is_event_name, verify_signature, is_one_of, supported_events,
  validate_supported_payload,
}
use code_naut.Webhooks.Handle.{
  has_delivery, received_delivery, ignored_delivery, closed_delivery, enqueue, apply_event,
  committed, record_delivery, parsed, headed, handle,
}

-- A request whose delivery is recorded.
abbrev pub is_taken : Outcome → Bool
is_taken Outcome.accepted = true
is_taken Outcome.ignored = true
is_taken _ = false

module _ (user_of : ℕ → Option ℕ) (hexdigest : String → String)
    (media_type : Option String → String) (parse : String → Option Payload) (draws : Draws)
    (now : ℕ) (answer : QueueAnswer) (q : Request) (db : Db) where
  -- What must be shown of a request's result, for each of its ends.
  pub record Results (P : Outcome × Db → Type 0) : Type 0 where
    pub at_refusal : (o : Outcome) → is_taken o ≡ false → P (o, db)
    pub at_ignored :
        (delivery_id event : String) (p : Payload)
        → q.delivery_id ≡ some delivery_id
        → verify_signature hexdigest q.body q.signature ≡ true
        → any (has_delivery delivery_id) db.deliveries ≡ false
        → P (
          Outcome.ignored,
          record db {
            deliveries =
                ignored_delivery now (received_delivery delivery_id event p) ∷ db.deliveries;
          },
        )
    pub at_accepted :
        (delivery_id event : String) (p : Payload) (a : Applied)
        → q.delivery_id ≡ some delivery_id
        → verify_signature hexdigest q.body q.signature ≡ true
        → any (has_delivery delivery_id) db.deliveries ≡ false
        → apply_event user_of draws now event p (received_delivery delivery_id event p) db ≡ done a
        → P (
          Outcome.accepted,
          enqueue answer now delivery_id a.job (record a.tables {
            deliveries = closed_delivery now a.job a.delivery ∷ a.tables.deliveries;
          }),
        )

  module _ (P : Outcome × Db → Type 0) (e : Results P)
      (signed : verify_signature hexdigest q.body q.signature ≡ true) where
    refused : (x : EventError) → is_taken (outcome_of x) ≡ false
    refused EventError.bad_payload = refl
    refused EventError.commit_refused = refl

    module _ (delivery_id : String) (named : q.delivery_id ≡ some delivery_id)
        (event : String) where
      committed_rule :
          (p : Payload) (x : Attempt)
          → any (has_delivery delivery_id) db.deliveries ≡ false
          → apply_event user_of draws now event p (received_delivery delivery_id event p) db ≡ x
          → P (committed user_of draws now answer delivery_id db x)
      committed_rule p (failed x) new h = e.at_refusal _ (refused x)
      committed_rule p (done a) new h = e.at_accepted delivery_id event p a named signed new h

      parsed_rule :
          (p : Option Payload)
          → P (parsed user_of draws now hexdigest media_type parse answer delivery_id event p db)
      unfolding record_delivery
      parsed_rule none = e.at_refusal _ refl
      parsed_rule (some p) =
          if_rule P (validate_supported_payload event p) _ _
            (λ _.
              if_rule P (any (has_delivery delivery_id) db.deliveries) _ _
                (λ _. e.at_refusal _ refl)
                (λ new.
                  if_rule P (not (is_one_of supported_events event)) _ _
                    (λ _. e.at_ignored delivery_id event p named signed new)
                    (λ _. committed_rule p _ new refl)))
            (λ _. e.at_refusal _ refl)

    headed_rule :
        (delivery_id event : Option String)
        → q.delivery_id ≡ delivery_id
        → P (headed user_of draws now hexdigest media_type parse answer q delivery_id event db)
    headed_rule (some delivery_id) (some event) named =
        if_rule P (is_delivery_id delivery_id && is_event_name event) _ _
          (λ _. parsed_rule delivery_id named event (parse q.body)) (λ _. e.at_refusal _ refl)
    headed_rule none event named = e.at_refusal _ refl
    headed_rule (some delivery_id) none named = e.at_refusal _ refl

  pub handle_rule :
      (P : Outcome × Db → Type 0)
      → Results P
      → P (handle user_of draws now hexdigest media_type parse answer q db)
  unfolding handle
  handle_rule P e =
      if_rule P (not (verify_signature hexdigest q.body q.signature)) _ _ (λ _. e.at_refusal _ refl)
        (λ ok.
          if_rule P (not (str_eq (media_type q.content_type) "application/json")) _ _
            (λ _. e.at_refusal _ refl)
            (λ _. headed_rule P e (ground (arith, ok)) q.delivery_id q.event_name refl))
