-- ===== src/Webhooks/Examples.antt =====
-- The theorems on webhooks at a push to a repository that is served at the commit before, and runs of
-- the code.
use code_naut.Prelude.{
  ℕ, ◌+◌, String, Bool, true, false, ◌&&◌, ◌≡◌, refl, Option, none, some, List, [], ◌∷◌, arith, All,
  map,
}
use code_naut.Prelude.Table.{select, update_first, update_where}
use code_naut.Jobs.Model.{
  IndexingMode, InstallationStatus, AccountType, AccessMode, MemberRole, RepositorySelection, Job,
  Repository, Installation, Db,
}
use code_naut.Jobs.Invariant.{JobsInvariant}
use code_naut.Jobs.Access.{is_authorized, installed_access, public_access, installation_of}
use code_naut.Jobs.Sample.{repository, settings, job}
use code_naut.Jobs.Model.{JobStatus}
use code_naut.Webhooks.Model.{
  Payload, InstallationData, RepositoryData, Request, Outcome, Draws, QueueAnswer,
}
use code_naut.Jobs.Activate.{may_activate}
use code_naut.Webhooks.Rows.{of_installation, Attempt, failed, done}
use code_naut.Webhooks.Validate.{verify_signature, validate_supported_payload}
use code_naut.Webhooks.Push.{apply_push}
use code_naut.Webhooks.Access.{apply_installation}
use code_naut.Webhooks.Handle.{received_delivery, apply_event, record_delivery, enqueue, handle}
use code_naut.Webhooks.Frame.{OnDone}
use code_naut.Webhooks.Ends.{is_taken}
use code_naut.Webhooks.Once.{here, handle_once}
use code_naut.Webhooks.Jobs.{handle-JobsInvariant}
use code_naut.Webhooks.Sound.{Changes, handle_sound}
use code_naut.Webhooks.Queued.{IsSound, apply_push-IsSound}
use code_naut.Webhooks.Revoked.{apply_installation-unauthorized}

abbrev users : ℕ → Option ℕ
users github_id = none

abbrev hexdigest : String → String
hexdigest body = "aaaaaaaaaaaaaaaaaaaaaaaaaaaaaaaaaaaaaaaaaaaaaaaaaaaaaaaaaaaaaaaa"

abbrev media_type : Option String → String
media_type header = "application/json"

abbrev account : InstallationData
account = record {
  id = 30;
  account_type = "User";
  account_id = 8;
  account_login = "octo";
  permissions = [];
  repository_selection = RepositorySelection.all;
  suspended_at = none;
}

abbrev external : RepositoryData
external = record {
  id = 100;
  owner_login = "octo";
  name = "repo";
  full_name = "octo/repo";
  html_url = "https://github.com/octo/repo";
  private = false;
  default_branch = "main";
}

abbrev push : Payload
push = record {
  action = none;
  installation = some account;
  sender = none;
  repository = some external;
  repositories_added = [];
  repositories_removed = [];
  ref = some "refs/heads/main";
  before = some "aaa";
  after = some "bbb";
  forced = false;
  deleted = false;
}

abbrev suspension : Payload
suspension = record {
  action = some "suspend";
  installation = some account;
  sender = none;
  repository = none;
  repositories_added = [];
  repositories_removed = [];
  ref = none;
  before = none;
  after = none;
  forced = false;
  deleted = false;
}

abbrev parse : String → Option Payload
parse body = some push

abbrev request : Request
request = record {
  body = "{}";
  signature = some "sha256=aaaaaaaaaaaaaaaaaaaaaaaaaaaaaaaaaaaaaaaaaaaaaaaaaaaaaaaaaaaaaaaa";
  delivery_id = some "d-1";
  event_name = some "push";
  content_type = some "application/json";
}

abbrev draws : Draws
draws = record { job_id = 50; installation_id = 60; repository_id = λ github_id. 70 }

abbrev installation : Installation
installation = record {
  id = 3;
  github_installation_id = 30;
  account_type = AccountType.user;
  account_github_id = 8;
  account_login = "octo";
  permissions_json = [];
  repository_selection = RepositorySelection.all;
  status = InstallationStatus.active;
  suspended_at = none;
  deleted_at = none;
}

abbrev served : Repository
served = record (repository 1 1 4) { installation_id = some 3 }

abbrev tables : Db
tables = record {
  jobs = [];
  repositories = served ∷ [];
  builds = [];
  symbols = [];
  edges = [];
  deliveries = [];
  installations = installation ∷ [];
  members = [];
  user_repositories = [];
}

abbrev handled : Outcome × Db
handled = handle users draws 10 hexdigest media_type parse QueueAnswer.enqueued request tables

push_taken : is_taken handled.0 ≡ true
unfolding handle verify_signature validate_supported_payload record_delivery apply_event apply_push
    enqueue select update_first update_where
push_taken = refl

push_incremental : map (λ j. j.requested_mode) handled.1.jobs ≡ some IndexingMode.incremental ∷ []
unfolding handle verify_signature validate_supported_payload record_delivery apply_event apply_push
    enqueue select update_first update_where
push_incremental = refl

handle_once_example :
    let r =
      handle users draws 20 hexdigest media_type parse QueueAnswer.no_queue request handled.1 in
    (r.1 ≡ handled.1) × (is_taken r.0 ≡ false)
handle_once_example =
    handle_once hexdigest media_type parse users users draws draws 10 20 QueueAnswer.enqueued
      QueueAnswer.no_queue request request "d-1" tables handled.1 refl refl push_taken here

empty-JobsInvariant : JobsInvariant []
empty-JobsInvariant = record {
  unique_ids = λ i. omega arith;
  one_running = λ r. omega arith;
  leases = tt;
}

handle-JobsInvariant_example : JobsInvariant handled.1.jobs
handle-JobsInvariant_example =
    handle-JobsInvariant users hexdigest media_type parse draws 10 QueueAnswer.enqueued request
      tables refl empty-JobsInvariant

handle_sound_example : Changes hexdigest request tables (is_taken handled.0) handled.1
handle_sound_example =
    handle_sound users hexdigest media_type parse draws 10 QueueAnswer.enqueued request tables

apply_push-IsSound_example :
    OnDone
      (IsSound draws 10 push (received_delivery "d-1" "push" push) tables)
      (apply_push draws 10 push (received_delivery "d-1" "push" push) tables)
apply_push-IsSound_example =
    apply_push-IsSound draws 10 push (received_delivery "d-1" "push" push) tables

abbrev a_job : Job
a_job = job 2 1 JobStatus.queued 0 none none

-- The served repository with a fresh member of its installation.
abbrev opened : Db
opened = record tables {
  repositories = record served { access_mode = AccessMode.github_installation } ∷ [];
  members =
      record { installation_id = 3; user_id = 5; role = MemberRole.owner; verified_at = 10 } ∷ [];
}

was_authorized : map (is_authorized settings 15 opened a_job) opened.repositories ≡ true ∷ []
unfolding is_authorized installed_access public_access installation_of select
was_authorized = refl

apply_installation-unauthorized_example :
    All
      (λ r.
        (of_installation 3 r
          && is_authorized settings 15
              (apply_installation users draws 10 suspension opened)
              a_job
              r)
        ≡ false)
      (apply_installation users draws 10 suspension opened).repositories
unfolding select
apply_installation-unauthorized_example =
    apply_installation-unauthorized users draws 10 suspension account installation opened settings
      15 a_job refl refl refl

abbrev tables_of : Attempt → Db
tables_of (failed e) = tables
tables_of (done a) = a.tables

abbrev push_of : String → String → ℕ → Db → Db
push_of before after job_id db = tables_of (
    apply_push (record draws { job_id = job_id }) 10
      (record push { before = some before; after = some after })
      (received_delivery "d-2" "push" push) db)

abbrev back_again : Db
back_again = push_of "ccc" "bbb" 53 (push_of "bbb" "ccc" 52 (push_of "aaa" "bbb" 51 tables))

abbrev activatable_jobs : Db → List (List Bool)
activatable_jobs db =
    map (λ j. map (λ r. may_activate j r (r.index_version + 1)) db.repositories) db.jobs

-- After pushes to bbb, to ccc and back to bbb, the job of ccc can be activated and that of bbb cannot.
back_again_loses : activatable_jobs back_again ≡ (true ∷ []) ∷ (false ∷ []) ∷ []
unfolding apply_push select update_first
back_again_loses = refl

back_again_jobs : map (λ j. j.target_commit_sha) back_again.jobs ≡ some "ccc" ∷ some "bbb" ∷ []
unfolding apply_push select update_first
back_again_jobs = refl
