-- ===== src/Agent/State.antt =====
-- The state of AgentQuestionService._run and the small tests and conversions of its turns, over the world
-- as a state. An InstallationAccessError that leaves _run is `raises`.
use code_naut.Prelude.{
  ℕ, String, Bool, true, false, ◌&&◌, Option, none, some, List, [], ◌∷◌, ◌==◌, any, map, keep_if,
  str_eq, if◌then◌else◌,
}
use code_naut.Rag.Model.{Answerability}
use code_naut.Jobs.Model.{Repository, AccessMode}
use code_naut.Agent.Model.{
  AgentToolName, AgentToolArguments, AnswerUncertainty, AgentEvidence, evidence_id, AgentStepStatus,
  AgentTraceStep, AgentRunResult,
}
use code_naut.Agent.Index.{insufficient_text}

pub record Asked : Type 0 where
  pub user_id : ℕ
  pub repository_id : ℕ
  pub question : String

-- The variables of the loop, and the world.
pub record AgentState (W : Type 0) : Type 0 where
  pub repository : Repository
  pub evidence : List AgentEvidence
  pub trace : List AgentTraceStep
  pub completed : List AgentToolName
  pub failed : List AgentToolName
  pub failure_codes : List String
  pub fingerprints : List String
  pub total_evidence_bytes : ℕ
  pub world : W

-- What _refresh_authorization ends with: an error, None, or the repository.
pub data Refreshed (W : Type 0) : Type 0 where
  lost : W → Refreshed W
  changed : W → Refreshed W
  still : Repository → W → Refreshed W

-- How one turn of the loop ends: `continue`, `break`, `return` or an error.
pub data Turn (W : Type 0) : Type 0 where
  again : AgentState W → Turn W
  leaves : AgentState W → Turn W
  returns : AgentRunResult → W → Turn W
  raises : W → Turn W

abbrev pub same_access : AccessMode → AccessMode → Bool
same_access AccessMode.public_access AccessMode.public_access = true
same_access AccessMode.github_installation AccessMode.github_installation = true
same_access AccessMode.public_access AccessMode.github_installation = false
same_access AccessMode.github_installation AccessMode.public_access = false

abbrev pub same_optional : Option ℕ → Option ℕ → Bool
same_optional none none = true
same_optional (some a) (some b) = a == b
same_optional none (some b) = false
same_optional (some a) none = false

abbrev pub is_same_repository : Repository → Repository → Bool
is_same_repository current expected =
    current.id == expected.id
    && (same_optional current.installation_id expected.installation_id
        && (same_access current.access_mode expected.access_mode
            && current.github_repository_id == expected.github_repository_id))

abbrev pub no_arguments : AgentToolArguments
no_arguments = record { query = none; symbol_name = none; file_path = none }

abbrev pub arguments_of : Option AgentToolArguments → AgentToolArguments
arguments_of none = no_arguments
arguments_of (some a) = a

-- `decision.answer or _INSUFFICIENT`: an empty text counts as none.
abbrev pub answer_of : Option String → String
answer_of none = insufficient_text
answer_of (some a) = if str_eq a "" then insufficient_text else a

abbrev pub state_of : Option Answerability → Answerability
state_of none = Answerability.insufficient_evidence
state_of (some a) = a

abbrev pub uncertainty_of : Option AnswerUncertainty → AnswerUncertainty
uncertainty_of none = AnswerUncertainty.high
uncertainty_of (some u) = u

abbrev pub is_answer : Answerability → Bool
is_answer Answerability.answered = true
is_answer Answerability.partially_answered = true
is_answer _ = false

abbrev pub trace_step :
    ℕ → AgentToolName → String → AgentStepStatus → ℕ → Option String → Bool → AgentTraceStep
trace_step step tool fingerprint status count code contributed = record {
  step = step;
  tool = tool;
  argument_fingerprint = fingerprint;
  status = status;
  result_count = count;
  failure_code = code;
  contributed_evidence = contributed;
}

-- The evidence with an id, and the ids of the evidence in its order.
abbrev pub has_id : List AgentEvidence → String → Bool
has_id es i = any (λ e. str_eq (evidence_id e) i) es

abbrev pub cited_in_order : List AgentEvidence → List String → List String
cited_in_order es ids = map evidence_id (keep_if (λ e. any (str_eq (evidence_id e)) ids) es)

-- The repository, the fingerprints and the world change in a turn before its tool returns.
abbrev pub moved : {W : Type 0} → AgentState W → Repository → List String → W → AgentState W
moved st r fps w = record st { repository = r; fingerprints = fps; world = w }

-- `unavailable_codes.intersection(failure_codes)`
abbrev pub unavailable_codes : List String
unavailable_codes =
    "tool_timeout" ∷ "call_graph_unavailable" ∷ "caller_query_unavailable" ∷ "caller_scope_changed"
    ∷ "caller_scope_revoked" ∷ []

abbrev pub closing_state : List String → Answerability
closing_state failure_codes =
    if any (λ c. any (str_eq c) unavailable_codes) failure_codes
    then Answerability.temporarily_unavailable
    else Answerability.insufficient_evidence
