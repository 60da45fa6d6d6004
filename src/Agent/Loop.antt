-- ===== src/Agent/Loop.antt =====
-- One turn of the loop of AgentQuestionService._run, with _refresh_authorization and _finalize
-- (backend/app/agent/service.py).
use code_naut.Prelude.{
  ℕ, suc, ◌+◌, ◌-◌, String, false, not, ◌&&◌, ◌||◌, Option, none, some, List, [], ◌∷◌, ◌++◌, ◌==◌,
  ltb, any, length, str_eq, if◌then◌else◌,
}
use code_naut.Rag.Model.{Answerability}
use code_naut.Rag.Citations.{unique, is_empty}
use code_naut.Jobs.Model.{Repository}
use code_naut.Agent.Model.{
  AgentToolName, AgentToolArguments, Action, AgentDecision, AgentEvidence, AgentStepStatus,
  AgentRunResult, ActiveIndex, ActiveRepositoryContext, PromptInput, ToolOutcome, AgentSettings,
  Environment,
}
use code_naut.Agent.Index.{load_active_index, is_same_index, no_answer}
use code_naut.Agent.State.{
  Asked, AgentState, Refreshed, lost, changed, still, Turn, again, leaves, returns, raises,
  is_same_repository, arguments_of, answer_of, state_of, uncertainty_of, is_answer, trace_step,
  has_id, cited_in_order, moved,
}

module _ {W : Type 0} (env : Environment W) (s : AgentSettings) (ask : Asked)
    (active : ActiveIndex) where
  -- _refresh_authorization
  abbrev pub refreshed : Repository → Option Repository × W → Refreshed W
  refreshed expected (none, w) = lost w
  refreshed expected (some current, w) =
      if is_same_repository current expected
        && is_same_index (load_active_index s (env.builds w) current) active
      then still current w
      else changed w

  abbrev pub refresh : Repository → W → Refreshed W
  refresh expected w = refreshed expected (env.authorize ask.user_id ask.repository_id w)

  -- _no_answer with temporarily_unavailable, as most of the returns of _run call it.
  abbrev pub unavailable : AgentState W → AgentRunResult
  unavailable st =
      no_answer ask.repository_id Answerability.temporarily_unavailable (some active) none
        (length st.evidence) st.trace

  -- What _run does with the answer of _refresh_authorization.
  abbrev pub on_refresh :
      AgentState W → List String → Refreshed W → (AgentState W → Turn W) → Turn W
  on_refresh st fps (lost w) k = raises w
  on_refresh st fps (changed w) k = returns (unavailable st) w
  on_refresh st fps (still r w) k = k (moved st r fps w)

  -- The AgentRunResult of _finalize, with the cited ids.
  abbrev pub final_result : AgentState W → AgentDecision → List String → AgentRunResult
  final_result st d cited = record {
    repository_id = ask.repository_id;
    answer = answer_of d.answer;
    answerability = state_of d.answerability;
    uncertainty = uncertainty_of d.uncertainty;
    evidence = st.evidence;
    cited_evidence_ids = cited;
    commit_sha = some active.commit_sha;
    index_version = active.index_version;
    retrieved_evidence_count = length st.evidence;
    trace = st.trace;
  }

  -- What is after the authorization of _finalize.
  abbrev pub checked_result : AgentState W → AgentDecision → AgentRunResult
  checked_result st d =
      let ids = unique d.evidence_ids in
      if is_answer (state_of d.answerability)
      then (if is_empty ids || any (λ i. not (has_id st.evidence i)) ids
          then no_answer ask.repository_id Answerability.insufficient_evidence (some active) none
              (length st.evidence) st.trace
          else final_result st d (cited_in_order st.evidence ids))
      else final_result st d []

  abbrev pub finalized : AgentState W → AgentDecision → Option Repository × W → Turn W
  finalized st d (none, w) = raises w
  finalized st d (some r, w) =
      if r.id == st.repository.id && is_same_index (load_active_index s (env.builds w) r) active
      then returns (checked_result st d) w
      else returns
          (no_answer ask.repository_id Answerability.temporarily_unavailable none (some r) 0
            st.trace)
          w

  unfoldable pub finalize : AgentState W → AgentDecision → Turn W
  finalize st d = finalized st d (env.authorize ask.user_id ask.repository_id st.world)

  abbrev pub rejected : AgentState W → AgentToolName → String → AgentState W
  rejected st t fp = record st {
    trace =
        st.trace
        ++ (trace_step (suc (length st.trace)) t fp AgentStepStatus.rejected 0
              (some "repeated_tool_call") false
            ∷ []);
  }

  abbrev pub failing :
      AgentState W → AgentToolName → String → AgentStepStatus → String → AgentState W
  failing st t fp status code = record st {
    failed = st.failed ++ (t ∷ []);
    failure_codes = st.failure_codes ++ (code ∷ []);
    trace = st.trace ++ (trace_step (suc (length st.trace)) t fp status 0 (some code) false ∷ []);
  }

  abbrev pub gathered : AgentState W → AgentToolName → String → List AgentEvidence → AgentState W
  gathered st t fp items = record st {
    evidence = st.evidence ++ items;
    total_evidence_bytes = st.total_evidence_bytes + env.encoded_size items;
    completed = st.completed ++ (t ∷ []);
    trace =
        st.trace
        ++ (trace_step (suc (length st.trace)) t fp AgentStepStatus.completed (length items) none
              (ltb 0 (length items))
            ∷ []);
  }

  -- _validate_evidence_size: the code of the error.
  abbrev pub size_error : ℕ → ℕ → Option String
  size_error size total =
      if ltb s.max_tool_result_bytes size
      then some "tool_result_too_large"
      else (if ltb s.max_total_evidence_bytes (total + size)
          then some "total_evidence_too_large"
          else none)

  abbrev pub sized :
      AgentState W → AgentToolName → String → List AgentEvidence → Option String → AgentState W
  sized st t fp items none = gathered st t fp items
  sized st t fp items (some code) = failing st t fp AgentStepStatus.failed code

  -- An InstallationAccessError of a tool is not caught.
  abbrev pub outcome : AgentState W → AgentToolName → String → ToolOutcome → Turn W
  outcome st t fp (ToolOutcome.found items) =
      again (sized st t fp items (size_error (env.encoded_size items) st.total_evidence_bytes))
  outcome st t fp ToolOutcome.out_of_time =
      again (failing st t fp AgentStepStatus.timed_out "tool_timeout")
  outcome st t fp (ToolOutcome.errs code) = again (failing st t fp AgentStepStatus.failed code)
  outcome st t fp ToolOutcome.denied = raises st.world

  abbrev pub context_of : AgentState W → ActiveRepositoryContext
  context_of st = record {
    user_id = ask.user_id;
    repository = st.repository;
    index_version = active.index_version;
    commit_sha = active.commit_sha;
    preprocessing_fingerprint = active.preprocessing_fingerprint;
    original_question = ask.question;
  }

  abbrev pub executed : AgentState W → AgentToolName → String → ToolOutcome × W → Turn W
  executed st t fp (o, w) = outcome (record st { world = w }) t fp o

  abbrev pub executing : ℕ → AgentToolName → AgentToolArguments → String → AgentState W → Turn W
  executing step t args fp st = executed st t fp (env.execute t (context_of st) args step st.world)

  -- A tool call that the guard of repeated calls lets through or not.
  unfoldable pub call : AgentState W → AgentToolName → AgentToolArguments → Turn W
  call st t args =
      let fp = env.fingerprint t args in
      if any (str_eq fp) st.fingerprints
      then leaves (rejected st t fp)
      else on_refresh st (fp ∷ st.fingerprints) (refresh st.repository st.world)
          (executing (suc (length st.trace)) t args fp)

  abbrev pub acted : AgentState W → AgentDecision → Action → Option AgentToolName → Turn W
  acted st d Action.final t = finalize st d
  acted st d Action.tool none = returns (unavailable st) st.world
  acted st d Action.tool (some t) = call st t (arguments_of d.arguments)

  abbrev pub decided : AgentState W → Option AgentDecision × W → Turn W
  decided st (none, w) = returns (unavailable st) w
  decided st (some d, w) = acted (record st { world = w }) d d.action d.tool_name

  abbrev pub prompt_of : AgentState W → PromptInput
  prompt_of st = record {
    question = ask.question;
    evidence = st.evidence;
    completed_tools = st.completed;
    failed_tools = st.failed;
    failed_tool_codes = st.failure_codes;
    remaining_calls = s.max_tool_calls - length st.trace;
  }

  abbrev pub consult : AgentState W → Turn W
  consult st = decided st (env.decide (prompt_of st) st.world)

  -- The body of the loop.
  unfoldable pub turn : AgentState W → Turn W
  turn st =
      if ltb 0 (length st.evidence)
      then on_refresh st st.fingerprints (refresh st.repository st.world) consult
      else consult st
