-- ===== src/Agent/Examples.antt =====
-- The theorems on the agent at a concrete environment, whose world counts its calls.
use code_naut.Prelude.{
  ℕ, suc, String, false, ◌≡◌, refl, none, some, List, [], ◌∷◌, ltb, length, if◌then◌else◌,
}
use code_naut.Prelude.Table.{select}
use code_naut.Rag.Model.{Answerability}
use code_naut.Rag.Citations.{unique}
use code_naut.Jobs.Model.{BuildState}
use code_naut.Jobs.Sample.{repository, build, model}
use code_naut.Agent.Model.{
  AgentToolName, AnswerUncertainty, Action, AgentDecision, AgentEvidence, code, AgentSettings,
  Environment, PromptInput, ToolOutcome,
}
use code_naut.Agent.Index.{load_active_index}
use code_naut.Agent.State.{Asked}
use code_naut.Agent.Loop.{finalize, call, turn}
use code_naut.Agent.Run.{Ran, replied, raised, out_of_fuel, loop, run, answer}
use code_naut.Agent.Cases.{Ends}
use code_naut.Agent.Grounded.{IsGrounded, answer-IsGrounded}
use code_naut.Agent.Bounds.{IsWithin, answer-IsWithin}

abbrev item : String → AgentEvidence
item id = code (record {
  evidence_id = id;
  score = 1;
  file_path = "a.py";
  language = "python";
  chunk_type = "function";
  symbol_name = none;
  qualified_symbol_name = none;
  start_line = 1;
  end_line = 2;
  stable_chunk_hash = "h";
  content = "def f(): pass";
})

abbrev a_call : AgentDecision
a_call = record {
  action = Action.tool;
  tool_name = some AgentToolName.search_code;
  arguments = none;
  answer = none;
  answerability = none;
  uncertainty = none;
  evidence_ids = [];
}

abbrev an_answer : AgentDecision
an_answer = record {
  action = Action.final;
  tool_name = none;
  arguments = none;
  answer = some "f does nothing.";
  answerability = some Answerability.answered;
  uncertainty = some AnswerUncertainty.low;
  evidence_ids = "E2" ∷ "E2" ∷ [];
}

abbrev decision : PromptInput → AgentDecision
decision p = if ltb 0 (length p.evidence) then an_answer else a_call

abbrev env : Environment ℕ
env = record {
  authorize = λ user_id repository_id w. (some (repository 1 1 4), suc w);
  builds = λ w. build 1 9 1 BuildState.active "aaa" ∷ [];
  decide = λ p w. (some (decision p), suc w);
  execute = λ t context args step w. (ToolOutcome.found (item "E1" ∷ item "E2" ∷ []), suc w);
  encoded_size = λ es. length es;
  fingerprint = λ t args. "search";
}

abbrev s : AgentSettings
s = record {
  max_tool_calls = 3;
  max_tool_result_bytes = 10;
  max_total_evidence_bytes = 20;
  embedding = model;
  policy_fingerprint = "p";
}

abbrev ask : Asked
ask = record { user_id = 5; repository_id = 1; question = "What does f do?" }

abbrev cited_ids : Ran ℕ → List String
cited_ids (replied r w) = r.cited_evidence_ids
cited_ids (raised w) = []
cited_ids out_of_fuel = []

cites_one : cited_ids (answer env s ask false none 0) ≡ "E2" ∷ []
unfolding answer run load_active_index select loop turn call finalize unique
cites_one = refl

answer-IsGrounded_example : Ends (IsGrounded env s ask) (answer env s ask false none 0)
answer-IsGrounded_example = answer-IsGrounded env s ask false none 0

answer-IsWithin_example : Ends (IsWithin env s ask) (answer env s ask false none 0)
answer-IsWithin_example = answer-IsWithin env s ask false none 0
