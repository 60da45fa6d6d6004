-- ===== src/Webhooks/Model.antt =====
-- A webhook request of backend/app/services/webhooks.py, with the parts of GitHub's payload that it
-- reads (backend/app/github/schemas.py). GitHub's numeric ids are numbers.
use code_naut.Prelude.{ℕ, String, Bool, Option, List}
use code_naut.Jobs.Model.{RepositorySelection}

pub record InstallationData : Type 0 where
  pub id : ℕ
  pub account_type : String
  pub account_id : ℕ
  pub account_login : String
  pub permissions : List (String × String)
  pub repository_selection : RepositorySelection
  pub suspended_at : Option ℕ

pub record RepositoryData : Type 0 where
  pub id : ℕ
  pub owner_login : String
  pub name : String
  pub full_name : String
  pub html_url : String
  pub private : Bool
  pub default_branch : String

-- GitHubWebhookPayload: of the sender the id, and of a removed repository the id.
pub record Payload : Type 0 where
  pub action : Option String
  pub installation : Option InstallationData
  pub sender : Option ℕ
  pub repository : Option RepositoryData
  pub repositories_added : List RepositoryData
  pub repositories_removed : List ℕ
  pub ref : Option String
  pub before : Option String
  pub after : Option String
  pub forced : Bool
  pub deleted : Bool

pub record Request : Type 0 where
  pub body : String
  pub signature : Option String
  pub delivery_id : Option String
  pub event_name : Option String
  pub content_type : Option String

-- The first four are what handle raises, the last three what it returns. A commit that a unique index
-- refuses is `database_error`.
pub data Outcome : Type 0 where
  signature_error media_type_error payload_error database_error accepted duplicate ignored : Outcome

-- The ids that a request draws for the rows it may insert: a job, an installation, and a repository for
-- each of GitHub's ids.
pub record Draws : Type 0 where
  pub job_id : ℕ
  pub installation_id : ℕ
  pub repository_id : ℕ → ℕ

-- What the queue does with a job: there is none, it takes the job, or it is unavailable.
pub data QueueAnswer : Type 0 where
  no_queue enqueued unavailable : QueueAnswer
