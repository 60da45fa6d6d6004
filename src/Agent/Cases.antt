-- ===== src/Agent/Cases.antt =====
-- The exits of one turn of the loop of AgentQuestionService._run (backend/app/agent/service.py), and the
-- rule by which an invariant of the loop carries over to its result.
use code_naut.Prelude.{
  ℕ, zero, suc, ◌+◌, ◌≤◌, ◌<◌, ◌≡◌, refl, String, ◌∷◌, Bool, true, false, Option, none, some, List,
  arith, ltb, ltb→lt, any, length, str_eq,
}
use code_naut.Prelude.Table.{if_rule}
use code_naut.Jobs.Model.{Repository}
use code_naut.Agent.Model.{
  AgentToolName, AgentToolArguments, Action, AgentDecision, AgentEvidence, AgentStepStatus,
  AgentRunResult, ActiveIndex, ToolOutcome, AgentSettings, Environment,
}
use code_naut.Agent.State.{
  Asked, AgentState, Refreshed, lost, changed, still, Turn, again, leaves, returns, raises, moved,
}
use code_naut.Agent.Loop.{
  refresh, unavailable, on_refresh, finalize, rejected, failing, gathered, size_error, sized,
  executed, executing, call, acted, decided, consult, prompt_of, turn,
}
use code_naut.Agent.Run.{Ran, replied, raised, out_of_fuel, closing, after, loop}

abbrev pub is_rejected : AgentStepStatus → Bool
is_rejected AgentStepStatus.rejected = true
is_rejected _ = false

-- What holds of how a turn ends.
abbrev pub OnTurn :
    {W : Type 0}
    → (AgentState W → Type 0)
    → (AgentState W → Type 0)
    → (AgentRunResult → W → Type 0)
    → Turn W
    → Type 0
OnTurn A L R (again st) = A st
OnTurn A L R (leaves st) = L st
OnTurn A L R (returns r w) = R r w
OnTurn A L R (raises w) = Unit

-- A run ends, by an error or with a result of which this holds.
abbrev pub Ends : {W : Type 0} → (AgentRunResult → W → Type 0) → Ran W → Type 0
Ends R (replied r w) = R r w
Ends R (raised w) = Unit
Ends R out_of_fuel = ⊥

module _ {W : Type 0} (env : Environment W) (s : AgentSettings) (ask : Asked)
    (active : ActiveIndex) where
  -- What a turn that started from a state must show, for each of its exits.
  pub record Exits (P : Turn W → Type 0) (st : AgentState W) : Type 0 where
    pub at_raise : (w : W) → P (raises w)
    pub at_unavailable : (w : W) → P (returns (unavailable env s ask active st) w)
    pub at_final :
        (r : Repository) (w : W) (d : AgentDecision)
        → P (finalize env s ask active (moved st r st.fingerprints w) d)
    pub at_repeat :
        (r : Repository) (w : W) (t : AgentToolName) (fp : String)
        → any (str_eq fp) st.fingerprints ≡ true
        → P (leaves (rejected env s ask active (moved st r st.fingerprints w) t fp))
    pub at_failure :
        (r : Repository) (w : W) (t : AgentToolName) (fp : String)
        → (status : AgentStepStatus) (code : String) → any (str_eq fp) st.fingerprints ≡ false
        → is_rejected status ≡ false
        → P (
            again (failing env s ask active (moved st r (fp ∷ st.fingerprints) w) t fp status code))
    pub at_evidence :
        (r : Repository) (w : W) (t : AgentToolName) (fp : String) (items : List AgentEvidence)
        → any (str_eq fp) st.fingerprints ≡ false
        → size_error env s ask active (env.encoded_size items) st.total_evidence_bytes ≡ none
        → P (again (gathered env s ask active (moved st r (fp ∷ st.fingerprints) w) t fp items))

  on_refresh_rule :
      (P : Turn W → Type 0) (st : AgentState W) (fps : List String) (x : Refreshed W)
      → (k : AgentState W → Turn W) → Exits P st
      → ((r : Repository) (w : W) → P (k (moved st r fps w)))
      → P (on_refresh env s ask active st fps x k)
  on_refresh_rule P st fps (lost w) k e h = e.at_raise w
  on_refresh_rule P st fps (changed w) k e h = e.at_unavailable w
  on_refresh_rule P st fps (still r w) k e h = h r w

  module _ (P : Turn W → Type 0) (st : AgentState W) (e : Exits P st) where
    module _ (t : AgentToolName) (fp : String) (fresh : any (str_eq fp) st.fingerprints ≡ false)
        (r : Repository) where
      sized_rule :
          (w : W) (items : List AgentEvidence) (x : Option String)
          → size_error env s ask active (env.encoded_size items) st.total_evidence_bytes ≡ x
          → P (again (sized env s ask active (moved st r (fp ∷ st.fingerprints) w) t fp items x))
      sized_rule w items none h = e.at_evidence r w t fp items fresh h
      sized_rule w items (some code) h =
          e.at_failure r w t fp AgentStepStatus.failed code fresh refl

      executed_rule :
          (x : ToolOutcome × W) (w : W)
          → P (executed env s ask active (moved st r (fp ∷ st.fingerprints) w) t fp x)
      executed_rule (ToolOutcome.found items, w') w = sized_rule w' items _ refl
      executed_rule (ToolOutcome.out_of_time, w') w =
          e.at_failure r w' t fp AgentStepStatus.timed_out "tool_timeout" fresh refl
      executed_rule (ToolOutcome.errs code, w') w =
          e.at_failure r w' t fp AgentStepStatus.failed code fresh refl
      executed_rule (ToolOutcome.denied, w') w = e.at_raise w'

    call_rule :
        (r : Repository) (w : W) (t : AgentToolName) (args : AgentToolArguments)
        → P (call env s ask active (moved st r st.fingerprints w) t args)
    unfolding call
    call_rule r w t args =
        let fp = env.fingerprint t args in
        if_rule P (any (str_eq fp) st.fingerprints) _ _ (λ seen. e.at_repeat r w t fp seen)
          (λ fresh.
            on_refresh_rule P st (fp ∷ st.fingerprints) (refresh env s ask active r w)
              (executing env s ask active (suc (length st.trace)) t args fp) e
              (λ r' w'. executed_rule t fp fresh r' _ w'))

    acted_rule :
        (r : Repository) (w : W) (d : AgentDecision) (a : Action) (t : Option AgentToolName)
        → P (acted env s ask active (moved st r st.fingerprints w) d a t)
    acted_rule r w d Action.final t = e.at_final r w d
    acted_rule r w d Action.tool none = e.at_unavailable w
    acted_rule r w d Action.tool (some t) = call_rule r w t _

    decided_rule :
        (r : Repository) (w : W) (x : Option AgentDecision × W)
        → P (decided env s ask active (moved st r st.fingerprints w) x)
    decided_rule r w (none, w') = e.at_unavailable w'
    decided_rule r w (some d, w') = acted_rule r w' d d.action d.tool_name

    consult_rule :
        (r : Repository) (w : W) → P (consult env s ask active (moved st r st.fingerprints w))
    consult_rule r w =
        decided_rule r w (env.decide (prompt_of env s ask active (moved st r st.fingerprints w)) w)

  pub turn_rule :
      (P : Turn W → Type 0) (st : AgentState W) → Exits P st → P (turn env s ask active st)
  unfolding turn
  turn_rule P st e =
      if_rule P (ltb 0 (length st.evidence)) _ _
        (λ _.
          on_refresh_rule P st st.fingerprints (refresh env s ask active st.repository st.world)
            (consult env s ask active) e (consult_rule P st e))
        (λ _. consult_rule P st e st.repository st.world)

  -- A turn ends with the invariant and one more step in the trace, or with the result's property.
  abbrev pub Proceeds :
      (AgentState W → Type 0) → (AgentRunResult → W → Type 0) → AgentState W → Turn W → Type 0
  Proceeds I R st x =
      OnTurn (λ st'. I st' × (length st'.trace ≡ suc (length st.trace)))
        (λ st'. R (closing env s ask active st') st'.world) R x

  -- An invariant of the loop holds until it ends, and with enough fuel it ends.
  module _ (I : AgentState W → Type 0) (R : AgentRunResult → W → Type 0)
      (step : (st : AgentState W)
        → I st
        → length st.trace < s.max_tool_calls
        → Proceeds I R st (turn env s ask active st))
      (stop : (st : AgentState W) → I st → R (closing env s ask active st) st.world) where
    after-Ends :
        (k : AgentState W → Ran W) (st : AgentState W) (x : Turn W)
        → ((st' : AgentState W) → I st' → length st'.trace ≡ suc (length st.trace) → Ends R (k st'))
        → Proceeds I R st x
        → Ends R (after env s ask active k x)
    after-Ends k st (again st') rest h = rest st' h.0 h.1
    after-Ends k st (leaves st') rest h = h
    after-Ends k st (returns r w) rest h = h
    after-Ends k st (raises w) rest h = tt

    pub loop-Ends :
        (fuel : ℕ) (st : AgentState W)
        → I st
        → s.max_tool_calls < fuel + length st.trace
        → length st.trace ≤ s.max_tool_calls
        → Ends R (loop env s ask active fuel st)
    unfolding loop
    loop-Ends zero st i enough within = absurd (omega (arith, enough, within))
    loop-Ends (suc fuel) st i enough within =
        if_rule (Ends R) (ltb (length st.trace) s.max_tool_calls) _ _
          (λ h.
            let lt : length st.trace < s.max_tool_calls = ltb→lt _ _ h in
            after-Ends (loop env s ask active fuel) st (turn env s ask active st)
              (λ st' i' one_more.
                loop-Ends fuel st' i' (omega (arith, one_more, enough))
                  (omega (arith, one_more, lt)))
              (step st i lt))
          (λ _. stop st i)
