-- ===== src/Agent/Run.antt =====
-- The loop of AgentQuestionService._run on fuel, what comes before it and after it, and answer.
use code_naut.Prelude.{ℕ, zero, suc, Bool, Option, none, some, [], ltb, length, if◌then◌else◌}
use code_naut.Rag.Model.{Answerability}
use code_naut.Jobs.Model.{Repository}
use code_naut.Agent.Model.{AgentRunResult, ActiveIndex, AgentSettings, Environment}
use code_naut.Agent.Index.{load_active_index, no_answer}
use code_naut.Agent.State.{Asked, AgentState, Turn, again, leaves, returns, raises, closing_state}
use code_naut.Agent.Loop.{turn}

-- How a run ends: with a result or an InstallationAccessError, or on no fuel.
pub data Ran (W : Type 0) : Type 0 where
  replied : AgentRunResult → W → Ran W
  raised : W → Ran W
  out_of_fuel : Ran W

module _ {W : Type 0} (env : Environment W) (s : AgentSettings) (ask : Asked) where
  -- What _run returns after the loop.
  abbrev pub closing : ActiveIndex → AgentState W → AgentRunResult
  closing active st =
      no_answer ask.repository_id (closing_state st.failure_codes) (some active) none
        (length st.evidence) st.trace

  abbrev pub after : ActiveIndex → (AgentState W → Ran W) → Turn W → Ran W
  after active k (again st) = k st
  after active k (leaves st) = replied (closing active st) st.world
  after active k (returns r w) = replied r w
  after active k (raises w) = raised w

  unfoldable pub loop : ActiveIndex → ℕ → AgentState W → Ran W
  loop active zero st = out_of_fuel
  loop active (suc fuel) st =
      if ltb (length st.trace) s.max_tool_calls
      then after active (loop active fuel) (turn env s ask active st)
      else replied (closing active st) st.world

  abbrev pub initial : Repository → W → AgentState W
  initial r w = record {
    repository = r;
    evidence = [];
    trace = [];
    completed = [];
    failed = [];
    failure_codes = [];
    fingerprints = [];
    total_evidence_bytes = 0;
    world = w;
  }

  abbrev pub indexed : Bool → Repository → W → Option ActiveIndex → Ran W
  indexed is_unsupported r w none =
      replied (no_answer ask.repository_id Answerability.insufficient_evidence none (some r) 0 []) w
  indexed is_unsupported r w (some active) =
      if is_unsupported
      then replied
          (no_answer ask.repository_id Answerability.unsupported_question (some active) none 0 []) w
      else loop active (suc s.max_tool_calls) (initial r w)

  abbrev pub authorized : Bool → Option Repository × W → Ran W
  authorized is_unsupported (none, w) = raised w
  authorized is_unsupported (some r, w) =
      indexed is_unsupported r w (load_active_index s (env.builds w) r)

  -- _run, with the answer of QuestionPreprocessor.is_unsupported.
  unfoldable pub run : Bool → W → Ran W
  run is_unsupported w = authorized is_unsupported (env.authorize ask.user_id ask.repository_id w)

  -- answer, with the world at the moment the total time runs out, when it does.
  unfoldable pub answer : Bool → Option W → W → Ran W
  answer is_unsupported none w = run is_unsupported w
  answer is_unsupported (some late) w =
      replied (no_answer ask.repository_id Answerability.temporarily_unavailable none none 0 [])
        late
