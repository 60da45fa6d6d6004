-- ===== src/Agent/Model.antt =====
-- The contracts of backend/app/agent/models.py and the state of AgentQuestionService._run. The durations
-- of steps and runs are left out; times are numbers.
use code_naut.Prelude.{ℕ, String, Bool, Option, List}
use code_naut.Rag.Model.{EvidenceItem, Answerability}
use code_naut.Jobs.Model.{Repository, Build, Embedding}

pub data AgentToolName : Type 0 where
  search_code get_history find_callers : AgentToolName

pub record AgentToolArguments : Type 0 where
  pub query : Option String
  pub symbol_name : Option String
  pub file_path : Option String

pub data AnswerUncertainty : Type 0 where
  low medium high not_applicable : AnswerUncertainty

pub data Action : Type 0 where
  tool final : Action

pub record AgentDecision : Type 0 where
  pub action : Action
  pub tool_name : Option AgentToolName
  pub arguments : Option AgentToolArguments
  pub answer : Option String
  pub answerability : Option Answerability
  pub uncertainty : Option AnswerUncertainty
  pub evidence_ids : List String

pub record CommitEvidence : Type 0 where
  pub evidence_id : String
  pub commit_sha : String
  pub message : String
  pub committed_at : ℕ
  pub author_login : Option String
  pub parent_shas : List String
  pub changed_paths : List String
  pub patch_excerpt : Option String
  pub html_url : String

pub record PullRequestEvidence : Type 0 where
  pub evidence_id : String
  pub number : ℕ
  pub title : String
  pub state : String
  pub author_login : Option String
  pub merged_at : Option ℕ
  pub merge_commit_sha : Option String
  pub changed_paths : List String
  pub body_excerpt : Option String
  pub html_url : String

pub record CallerEvidence : Type 0 where
  pub evidence_id : String
  pub target_symbol_name : String
  pub target_qualified_name : String
  pub target_file_path : String
  pub caller_symbol_name : String
  pub caller_qualified_name : String
  pub caller_file_path : String
  pub caller_start_line : ℕ
  pub caller_end_line : ℕ
  pub call_line : ℕ
  pub call_end_line : ℕ
  pub call_expression : String
  pub resolution_type : String
  pub confidence : String
  pub commit_sha : String
  pub index_version : ℕ
  pub limitation : String

pub data AgentEvidence : Type 0 where
  code : EvidenceItem → AgentEvidence
  commit : CommitEvidence → AgentEvidence
  pull_request : PullRequestEvidence → AgentEvidence
  caller : CallerEvidence → AgentEvidence

abbrev pub evidence_id : AgentEvidence → String
evidence_id (code e) = e.evidence_id
evidence_id (commit e) = e.evidence_id
evidence_id (pull_request e) = e.evidence_id
evidence_id (caller e) = e.evidence_id

pub data AgentStepStatus : Type 0 where
  completed failed timed_out rejected : AgentStepStatus

pub record AgentTraceStep : Type 0 where
  pub step : ℕ
  pub tool : AgentToolName
  pub argument_fingerprint : String
  pub status : AgentStepStatus
  pub result_count : ℕ
  pub failure_code : Option String
  pub contributed_evidence : Bool

pub record AgentRunResult : Type 0 where
  pub repository_id : ℕ
  pub answer : String
  pub answerability : Answerability
  pub uncertainty : AnswerUncertainty
  pub evidence : List AgentEvidence
  pub cited_evidence_ids : List String
  pub commit_sha : Option String
  pub index_version : ℕ
  pub retrieved_evidence_count : ℕ
  pub trace : List AgentTraceStep

pub record ActiveIndex : Type 0 where
  pub index_version : ℕ
  pub commit_sha : String
  pub preprocessing_fingerprint : String

pub record ActiveRepositoryContext : Type 0 where
  pub user_id : ℕ
  pub repository : Repository
  pub index_version : ℕ
  pub commit_sha : String
  pub preprocessing_fingerprint : String
  pub original_question : String

-- What AgentPromptBuilder.build is given.
pub record PromptInput : Type 0 where
  pub question : String
  pub evidence : List AgentEvidence
  pub completed_tools : List AgentToolName
  pub failed_tools : List AgentToolName
  pub failed_tool_codes : List String
  pub remaining_calls : ℕ

-- How the call of a tool ends: with evidence, by the timeout, with an error's code, or by the error of an
-- authorization that the tool asked for itself.
pub data ToolOutcome : Type 0 where
  found : List AgentEvidence → ToolOutcome
  out_of_time : ToolOutcome
  errs : String → ToolOutcome
  denied : ToolOutcome

-- The settings that the agent reads.
pub record AgentSettings : Type 0 where
  pub max_tool_calls : ℕ
  pub max_tool_result_bytes : ℕ
  pub max_total_evidence_bytes : ℕ
  pub embedding : Embedding
  pub policy_fingerprint : String

-- What the agent calls, each a function of the state of the world: the authorization of a repository
-- (none where it raises), the index builds in the database, the provider's decision (none on an error
-- or a timeout) and a tool. The size of the JSON of some evidence and the fingerprint of a call are
-- functions of their arguments alone.
pub record Environment (W : Type 0) : Type 0 where
  pub authorize : ℕ → ℕ → W → Option Repository × W
  pub builds : W → List Build
  pub decide : PromptInput → W → Option AgentDecision × W
  pub execute :
      AgentToolName → ActiveRepositoryContext → AgentToolArguments → ℕ → W → ToolOutcome × W
  pub encoded_size : List AgentEvidence → ℕ
  pub fingerprint : AgentToolName → AgentToolArguments → String
