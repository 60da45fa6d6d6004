-- ===== src/Agent/Whole.antt =====
-- From an invariant of the loop to the result of AgentQuestionService.answer (backend/app/agent/service.py).
use code_naut.Prelude.{suc, ◌<◌, ◌≡◌, refl, Bool, false, Option, none, some, [], arith, length}
use code_naut.Prelude.Table.{if_rule}
use code_naut.Rag.Model.{Answerability}
use code_naut.Jobs.Model.{Repository}
use code_naut.Agent.Model.{AgentRunResult, ActiveIndex, AgentSettings, Environment}
use code_naut.Agent.Index.{no_answer}
use code_naut.Agent.State.{Asked, AgentState, is_answer}
use code_naut.Agent.Loop.{turn}
use code_naut.Agent.Run.{closing, initial, indexed, authorized, run, answer}
use code_naut.Agent.Cases.{Proceeds, Ends, loop-Ends}

module _ {W : Type 0} (env : Environment W) (s : AgentSettings) (ask : Asked)
    (R : AgentRunResult → W → Type 0) where
  -- An invariant of the loop from which the result's property follows, and the property of the results
  -- that the loop does not make.
  pub record Shows (I : ActiveIndex → AgentState W → Type 0) : Type 0 where
    pub starts : (active : ActiveIndex) (r : Repository) (w : W) → I active (initial env s ask r w)
    pub steps :
        (active : ActiveIndex) (st : AgentState W)
        → I active st
        → length st.trace < s.max_tool_calls
        → Proceeds env s ask active (I active) R st (turn env s ask active st)
    pub stops :
        (active : ActiveIndex) (st : AgentState W)
        → I active st
        → R (closing env s ask active st) st.world
    pub refuses :
        (state : Answerability) (active : Option ActiveIndex) (r : Option Repository) (w : W)
        → is_answer state ≡ false
        → R (no_answer ask.repository_id state active r 0 []) w

  indexed-Ends :
      (I : ActiveIndex → AgentState W → Type 0) (is_unsupported : Bool) (r : Repository) (w : W)
      → (x : Option ActiveIndex) → Shows I
      → Ends R (indexed env s ask is_unsupported r w x)
  indexed-Ends I is_unsupported r w none h =
      h.refuses Answerability.insufficient_evidence none (some r) w refl
  indexed-Ends I is_unsupported r w (some active) h =
      if_rule (Ends R) is_unsupported _ _
        (λ _. h.refuses Answerability.unsupported_question (some active) none w refl)
        (λ _.
          loop-Ends env s ask active (I active) R (h.steps active) (h.stops active)
            (suc s.max_tool_calls) (initial env s ask r w) (h.starts active r w) (omega arith)
            (omega arith))

  authorized-Ends :
      (I : ActiveIndex → AgentState W → Type 0) (is_unsupported : Bool)
      → (x : Option Repository × W) → Shows I
      → Ends R (authorized env s ask is_unsupported x)
  authorized-Ends I is_unsupported (none, w) h = tt
  authorized-Ends I is_unsupported (some r, w) h = indexed-Ends I is_unsupported r w _ h

  pub answer-Ends :
      (I : ActiveIndex → AgentState W → Type 0) (is_unsupported : Bool) (late : Option W) (w : W)
      → Shows I
      → Ends R (answer env s ask is_unsupported late w)
  unfolding answer run
  answer-Ends I is_unsupported none w h = authorized-Ends I is_unsupported _ h
  answer-Ends I is_unsupported (some late) w h =
      h.refuses Answerability.temporarily_unavailable none none late refl
