-- ===== src/Webhooks/Sound.antt =====
-- What a request to WebhookService.handle (backend/app/services/webhooks.py) changes.
use code_naut.Prelude.{ℕ, String, Bool, true, false, ◌≡◌, refl, Option, some}
use code_naut.Jobs.Model.{Db}
use code_naut.Webhooks.Model.{Payload, Request, Outcome, Draws, QueueAnswer}
use code_naut.Webhooks.Validate.{verify_signature}
use code_naut.Webhooks.Handle.{handle}
use code_naut.Webhooks.Once.{is_recorded, new-recorded, own_id}
use code_naut.Webhooks.Ends.{is_taken, handle_rule}

module _ (hexdigest : String → String) (q : Request) (before : Db) where
  -- A request that is taken is signed, and its delivery was not recorded and now is; any other changes
  -- nothing.
  pub record IsNew (after : Db) : Type 0 where
    pub signed : verify_signature hexdigest q.body q.signature ≡ true
    pub delivery_id : String
    pub named : q.delivery_id ≡ some delivery_id
    pub absent : is_recorded delivery_id before ≡ false
    pub recorded : is_recorded delivery_id after ≡ true

  abbrev pub Changes : Bool → Db → Type 0
  Changes true after = IsNew after
  Changes false after = after ≡ before

module _ (user_of : ℕ → Option ℕ) (hexdigest : String → String)
    (media_type : Option String → String) (parse : String → Option Payload) where
  -- A request that is refused or a duplicate changes no table, and one that is taken carries a
  -- valid signature and a delivery id that was not recorded before and is recorded after.
  pub handle_sound :
      (draws : Draws) (now : ℕ) (answer : QueueAnswer) (q : Request) (db : Db)
      → let r = handle user_of draws now hexdigest media_type parse answer q db in
        Changes hexdigest q db (is_taken r.0) r.1
  handle_sound draws now answer q db =
      handle_rule user_of hexdigest media_type parse draws now answer q db
        (λ (r : Outcome × Db). Changes hexdigest q db (is_taken r.0) r.1)
        (record {
          at_refusal = λ o no. rw no refl;
          at_ignored = λ delivery_id event p named signed new. record {
            signed = signed;
            delivery_id = delivery_id;
            named = named;
            absent = new;
            recorded = rw (own_id delivery_id) refl;
          };
          at_accepted = λ delivery_id event p a named signed new h. record {
            signed = signed;
            delivery_id = delivery_id;
            named = named;
            absent = new;
            recorded =
                new-recorded hexdigest media_type parse user_of draws now answer q db delivery_id
                  delivery_id event p a h (rw (own_id delivery_id) refl);
          };
        })
