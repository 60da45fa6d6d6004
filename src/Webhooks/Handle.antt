-- ===== src/Webhooks/Handle.antt =====
-- WebhookService.handle and _apply_event of backend/app/services/webhooks.py. The HMAC, the media type
-- of a header and the parser of a body are arguments.
use code_naut.Prelude.{
  ℕ, suc, String, Bool, true, false, not, ◌&&◌, ◌==◌, Option, none, some, [], ◌∷◌, any, is_some,
  str_eq, if◌then◌else◌,
}
use code_naut.Prelude.Table.{select, if_found, update_first, update_where}
use code_naut.Jobs.Model.{Job, DeliveryStatus, Delivery, Db}
use code_naut.Webhooks.Model.{
  Payload, InstallationData, RepositoryData, Request, Outcome, Draws, QueueAnswer,
}
use code_naut.Webhooks.Rows.{
  EventError, outcome_of, Attempt, failed, done, unchanged, is_active_installation, live_repository,
  has_full_name,
}
use code_naut.Webhooks.Push.{apply_push, apply_repository_metadata}
use code_naut.Webhooks.Access.{apply_installation, apply_repository_access, delete_repository}
use code_naut.Webhooks.Validate.{
  is_delivery_id, is_event_name, verify_signature, is_one_of, supported_events, action_in,
  validate_supported_payload,
}

abbrev pub has_delivery : String → Delivery → Bool
has_delivery delivery_id d = str_eq d.delivery_id delivery_id

abbrev pub installation_id_of : Option InstallationData → Option ℕ
installation_id_of none = none
installation_id_of (some x) = some x.id

abbrev pub repository_id_of : Option RepositoryData → Option ℕ
repository_id_of none = none
repository_id_of (some x) = some x.id

-- The row that the INSERT of a delivery makes.
abbrev pub received_delivery : String → String → Payload → Delivery
received_delivery delivery_id event p = record {
  delivery_id = delivery_id;
  event_name = event;
  action = p.action;
  github_installation_id = installation_id_of p.installation;
  github_repository_id = repository_id_of p.repository;
  repository_id = none;
  ref = none;
  before_commit_sha = none;
  after_commit_sha = none;
  indexing_job_id = none;
  status = DeliveryStatus.received;
  safe_error_code = none;
  retry_count = 0;
  processed_at = none;
}

abbrev pub is_received : DeliveryStatus → Bool
is_received DeliveryStatus.received = true
is_received _ = false

-- What handle writes to the delivery after _apply_event.
abbrev pub closed_delivery : ℕ → Option Job → Delivery → Delivery
closed_delivery now (some j) d = record d {
  status = DeliveryStatus.queued;
  indexing_job_id = some j.id;
}
closed_delivery now none d =
    if is_received d.status
    then record d { status = DeliveryStatus.processed; processed_at = some now }
    else d

abbrev pub ignored_delivery : ℕ → Delivery → Delivery
ignored_delivery now d = record d { status = DeliveryStatus.ignored; processed_at = some now }

abbrev pub undelivered : Delivery → Delivery
undelivered d = record d {
  status = DeliveryStatus.retryable;
  safe_error_code = some "queue_unavailable";
  retry_count = suc d.retry_count;
}

abbrev pub enqueued_job : ℕ → Job → Job
enqueued_job now j = record j { last_enqueued_at = some now }

abbrev pub same_job : ℕ → Job → Bool
same_job id j = j.id == id

-- The job is handed to the queue after the commit.
unfoldable pub enqueue : QueueAnswer → ℕ → String → Option Job → Db → Db
enqueue answer now delivery_id none db = db
enqueue QueueAnswer.no_queue now delivery_id (some j) db = db
enqueue QueueAnswer.unavailable now delivery_id (some j) db = record db {
  deliveries = update_first (has_delivery delivery_id) undelivered db.deliveries;
}
enqueue QueueAnswer.enqueued now delivery_id (some j) db = record db {
  jobs = update_where (same_job j.id) (enqueued_job now) db.jobs;
}

abbrev pub applied_tables : Delivery → Option Db → Attempt
applied_tables d none = failed EventError.commit_refused
applied_tables d (some db) = done (unchanged d db)

module _ (user_of : ℕ → Option ℕ) (draws : Draws) (now : ℕ) where
  -- A change of the full name to one that another repository of the installation has, which the unique
  -- index refuses at the commit.
  abbrev pub takes_name : Option RepositoryData → Option InstallationData → Db → Bool
  takes_name none i db = false
  takes_name (some x) none db = false
  takes_name (some x) (some i) db =
      if_found (select (is_active_installation i.id) db.installations) false (λ installation.
        if_found (select (live_repository installation.id x.id) db.repositories) false (λ r.
          any (λ y. not (y.id == r.id) && has_full_name installation.id x.full_name y)
            db.repositories))

  abbrev pub commit_metadata : Payload → Delivery → Db → Attempt
  commit_metadata p d db =
      if takes_name p.repository p.installation db
      then failed EventError.commit_refused
      else done (apply_repository_metadata draws now p d db)

  abbrev pub apply_repository :
      Payload → Option RepositoryData → Option InstallationData → Delivery → Db → Attempt
  apply_repository p (some x) (some i) d db =
      if action_in ("deleted" ∷ []) p.action
      then done (unchanged d (delete_repository user_of draws now i.id x.id db))
      else commit_metadata p d db
  apply_repository p none i d db = commit_metadata p d db
  apply_repository p (some x) none d db = commit_metadata p d db

  -- _apply_event
  unfoldable pub apply_event : String → Payload → Delivery → Db → Attempt
  apply_event event p d db =
      if str_eq event "installation" && is_some p.installation
      then done (unchanged d (apply_installation user_of draws now p db))
      else (if str_eq event "installation_repositories" && is_some p.installation
          then applied_tables d (apply_repository_access user_of draws now p db)
          else (if str_eq event "push"
              then apply_push draws now p d db
              else (if str_eq event "repository"
                  then apply_repository p p.repository p.installation d db
                  else done (unchanged d db))))

  -- What is after _apply_event.
  abbrev pub committed : QueueAnswer → String → Db → Attempt → Outcome × Db
  committed answer delivery_id db (failed e) = (outcome_of e, db)
  committed answer delivery_id db (done a) = (
    Outcome.accepted,
    enqueue answer now delivery_id a.job (record a.tables {
      deliveries = closed_delivery now a.job a.delivery ∷ a.tables.deliveries;
    }),
  )

  -- The transaction of handle and what follows it.
  unfoldable pub record_delivery : QueueAnswer → String → String → Payload → Db → Outcome × Db
  record_delivery answer delivery_id event p db =
      if any (has_delivery delivery_id) db.deliveries
      then (Outcome.duplicate, db)
      else (let d = received_delivery delivery_id event p in
          if not (is_one_of supported_events event)
          then (Outcome.ignored, record db { deliveries = ignored_delivery now d ∷ db.deliveries })
          else committed answer delivery_id db (apply_event event p d db))

  module _ (hexdigest : String → String) (media_type : Option String → String)
      (parse : String → Option Payload) where
    abbrev pub parsed : QueueAnswer → String → String → Option Payload → Db → Outcome × Db
    parsed answer delivery_id event none db = (Outcome.payload_error, db)
    parsed answer delivery_id event (some p) db =
        if validate_supported_payload event p
        then record_delivery answer delivery_id event p db
        else (Outcome.payload_error, db)

    abbrev pub headed : QueueAnswer → Request → Option String → Option String → Db → Outcome × Db
    headed answer q (some delivery_id) (some event) db =
        if is_delivery_id delivery_id && is_event_name event
        then parsed answer delivery_id event (parse q.body) db
        else (Outcome.payload_error, db)
    headed answer q none event db = (Outcome.payload_error, db)
    headed answer q (some delivery_id) none db = (Outcome.payload_error, db)

    -- handle
    unfoldable pub handle : QueueAnswer → Request → Db → Outcome × Db
    handle answer q db =
        if not (verify_signature hexdigest q.body q.signature)
        then (Outcome.signature_error, db)
        else (if not (str_eq (media_type q.content_type) "application/json")
            then (Outcome.media_type_error, db)
            else headed answer q q.delivery_id q.event_name db)
