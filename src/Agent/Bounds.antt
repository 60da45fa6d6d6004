-- ===== src/Agent/Bounds.antt =====
-- The limits of AgentQuestionService.answer in backend/app/agent/service.py: calls, steps and bytes.
use code_naut.Prelude.{
  ℕ, suc, ◌+◌, ◌≤◌, ◌<◌, ◌≡◌, refl, ◌∙◌, ap, String, Bool, false, not, ◌&&◌, ◌||◌, ◌==◌, Option,
  none, some, List, [], ◌∷◌, ◌++◌, arith, ltb, any, length, length-append, str_eq, if◌then◌else◌,
}
use code_naut.Prelude.Table.{if_rule}
use code_naut.Rag.Citations.{unique, is_empty}
use code_naut.Jobs.Model.{Repository}
use code_naut.Agent.Model.{
  AgentDecision, AgentStepStatus, AgentTraceStep, AgentRunResult, ActiveIndex, AgentSettings,
  Environment,
}
use code_naut.Agent.Index.{load_active_index, is_same_index}
use code_naut.Agent.State.{
  Asked, AgentState, moved, state_of, is_answer, has_id, cited_in_order, trace_step,
}
use code_naut.Agent.Loop.{checked_result, final_result, finalized, finalize, turn}
use code_naut.Agent.Run.{closing, answer}
use code_naut.Agent.Cases.{OnTurn, Proceeds, Ends, is_rejected, turn_rule}
use code_naut.Agent.Whole.{answer-Ends}
use code_naut.Agent.Traces.{
  Numbered, total_count, is_run, RunsOnce, Gathered, nothing, more, Numbered-append,
  total_count-append, any-is_run-append, RunsOnce-append,
}

-- A trace within the limit, numbered from one, that ran no call twice.
pub record IsOrderly (s : AgentSettings) (trace : List AgentTraceStep) : Type 0 where
  pub bounded : length trace ≤ s.max_tool_calls
  pub numbered : Numbered 0 trace
  pub once : RunsOnce trace

module _ {W : Type 0} (env : Environment W) (s : AgentSettings) (ask : Asked) where
  -- What holds of every reply.
  pub record IsWithin (r : AgentRunResult) (w : W) : Type 0 where
    pub orderly : IsOrderly s r.trace
    pub counted : r.retrieved_evidence_count ≤ total_count r.trace
    pub bytes : ℕ
    pub batches : Gathered env.encoded_size s r.evidence bytes
    pub limited : bytes ≤ s.max_total_evidence_bytes

  -- The invariant of the loop.
  pub record Holds (st : AgentState W) : Type 0 where
    pub orderly : IsOrderly s st.trace
    pub counted : length st.evidence ≡ total_count st.trace
    pub batches : Gathered env.encoded_size s st.evidence st.total_evidence_bytes
    pub limited : st.total_evidence_bytes ≤ s.max_total_evidence_bytes
    pub known : (fp : String) → any (is_run fp) st.trace ≡ any (str_eq fp) st.fingerprints

  one_more :
      (trace : List AgentTraceStep) (t : AgentTraceStep)
      → IsOrderly s trace
      → length trace < s.max_tool_calls
      → t.step ≡ suc (length trace)
      → (if is_rejected t.status then false else any (is_run t.argument_fingerprint) trace) ≡ false
      → IsOrderly s (trace ++ (t ∷ []))
  one_more trace t o lt numbered fresh = record {
    bounded = let e = length-append trace (t ∷ []) in omega (arith, e, lt);
    numbered = Numbered-append 0 trace t o.numbered (numbered ∙ omega arith);
    once = RunsOnce-append trace t o.once fresh;
  }

  -- A reply without evidence.
  bare :
      (r : AgentRunResult) (w : W)
      → IsOrderly s r.trace
      → r.retrieved_evidence_count ≤ total_count r.trace
      → r.evidence ≡ []
      → IsWithin r w
  bare r w o c e = record {
    orderly = o;
    counted = c;
    bytes = 0;
    batches = rw e nothing;
    limited = omega arith;
  }

  module _ (active : ActiveIndex) (st : AgentState W) (h : Holds st) where
    closing-IsWithin : IsWithin (closing env s ask active st) st.world
    closing-IsWithin = bare _ _ h.orderly (let e = h.counted in omega (arith, e)) refl

    result-IsWithin :
        (d : AgentDecision) (w : W) → IsWithin (checked_result env s ask active st d) w
    result-IsWithin d w =
        let full : (cited : List String) → IsWithin (final_result env s ask active st d cited) w =
          λ cited. record {
            orderly = h.orderly;
            counted = let e = h.counted in omega (arith, e);
            bytes = st.total_evidence_bytes;
            batches = h.batches;
            limited = h.limited;
          } in
        let ids = unique d.evidence_ids in
        if_rule (λ x. IsWithin x w) (is_answer (state_of d.answerability)) _ _
          (λ _.
            if_rule (λ x. IsWithin x w) (is_empty ids || any (λ i. not (has_id st.evidence i)) ids)
              _ _ (λ _. bare _ _ h.orderly (let e = h.counted in omega (arith, e)) refl)
              (λ _. full (cited_in_order st.evidence ids)))
          (λ _. full [])

    finalized-IsWithin :
        (d : AgentDecision) (x : Option Repository × W) (A L : AgentState W → Type 0)
        → OnTurn A L IsWithin (finalized env s ask active st d x)
    finalized-IsWithin d (none, w) A L = tt
    finalized-IsWithin d (some r, w) A L =
        if_rule (OnTurn A L IsWithin)
          (r.id == st.repository.id && is_same_index (load_active_index s (env.builds w) r) active)
          _ _ (λ _. result-IsWithin d w) (λ _. bare _ _ h.orderly (omega arith) refl)

  module _ (active : ActiveIndex) (st : AgentState W) (h : Holds st) where
    -- The bounds after a step in the trace, and the fingerprints that it leaves.
    stepped :
        (fp : String) (t : AgentTraceStep)
        → length st.trace < s.max_tool_calls
        → any (str_eq fp) st.fingerprints ≡ false
        → t.step ≡ suc (length st.trace)
        → t.argument_fingerprint ≡ fp
        → IsOrderly s (st.trace ++ (t ∷ []))
    stepped fp t lt fresh numbered own =
        let seen = h.known fp in
        one_more st.trace t h.orderly lt numbered (rw own (ground (arith, seen, fresh)))

    run-known :
        (fp : String) (t : AgentTraceStep)
        → is_rejected t.status ≡ false
        → t.argument_fingerprint ≡ fp
        → (x : String)
        → any (is_run x) (st.trace ++ (t ∷ [])) ≡ any (str_eq x) (fp ∷ st.fingerprints)
    run-known fp t ran own x =
        let before = h.known x in
        let added = any-is_run-append x st.trace t in
        let same : str_eq x t.argument_fingerprint ≡ str_eq x fp = ap (str_eq x) own in
        ground (arith, before, added, same, ran)

    moved-Holds : (r : Repository) (w : W) → Holds (moved st r st.fingerprints w)
    moved-Holds r w = record {
      orderly = h.orderly;
      counted = h.counted;
      batches = h.batches;
      limited = h.limited;
      known = h.known;
    }

    grown : (t : AgentTraceStep) → length (st.trace ++ (t ∷ [])) ≡ suc (length st.trace)
    grown t = length-append st.trace (t ∷ []) ∙ omega arith

    counted_on :
        (t : AgentTraceStep)
        → total_count (st.trace ++ (t ∷ [])) ≡ length st.evidence + t.result_count
    counted_on t =
        let before = h.counted in
        let sum = total_count-append st.trace (t ∷ []) in omega (arith, before, sum)

    turn-Holds :
        length st.trace < s.max_tool_calls
        → Proceeds env s ask active Holds IsWithin st (turn env s ask active st)
    unfolding finalize
    turn-Holds lt =
        turn_rule env s ask active (Proceeds env s ask active Holds IsWithin st) st (record {
          at_raise = λ w. tt;
          at_unavailable = λ w. bare _ _ h.orderly (let e = h.counted in omega (arith, e)) refl;
          at_final = λ r w d.
              finalized-IsWithin active (moved st r st.fingerprints w) (moved-Holds r w) d _ _ _;
          at_repeat = λ r w t fp seen.
              let step =
                trace_step (suc (length st.trace)) t fp AgentStepStatus.rejected 0
                  (some "repeated_tool_call") false in
              bare _ _ (one_more st.trace step h.orderly lt refl refl)
                (let e = counted_on step in omega (arith, e)) refl;
          at_failure = λ r w t fp status code fresh ran.
              let step = trace_step (suc (length st.trace)) t fp status 0 (some code) false in
              (
                record {
                  orderly = stepped fp step lt fresh refl refl;
                  counted = let e = counted_on step in omega (arith, e);
                  batches = h.batches;
                  limited = h.limited;
                  known = run-known fp step ran refl;
                },
                grown step,
              );
          at_evidence = λ r w t fp items fresh fits.
              let step =
                trace_step (suc (length st.trace)) t fp AgentStepStatus.completed (length items)
                  none (ltb 0 (length items)) in
              (
                record {
                  orderly = stepped fp step lt fresh refl refl;
                  counted =
                      let e = counted_on step in length-append st.evidence items ∙ omega (arith, e);
                  batches = more items h.batches (ground (arith, fits)) (ground (arith, fits));
                  limited = ground (arith, fits);
                  known = run-known fp step refl refl;
                },
                grown step,
              );
        })

  -- Whatever the provider and the tools do, a run ends with an error of the authorization or with
  -- a reply, whose trace has at most the allowed number of tool calls, numbered from one, with no
  -- call run twice, and whose evidence is made of tool answers that are each within the limit of
  -- one answer and together within the limit of all.
  pub answer-IsWithin :
      (is_unsupported : Bool) (late : Option W) (w : W)
      → Ends IsWithin (answer env s ask is_unsupported late w)
  answer-IsWithin is_unsupported late w =
      answer-Ends env s ask IsWithin (λ _. Holds) is_unsupported late w
        (record {
          starts = λ active r w. record {
            orderly = record { bounded = omega arith; numbered = tt; once = tt };
            counted = refl;
            batches = nothing;
            limited = omega arith;
            known = λ fp. refl;
          };
          steps = turn-Holds;
          stops = closing-IsWithin;
          refuses = λ state active r w _.
              bare _ _ (record { bounded = omega arith; numbered = tt; once = tt }) (omega arith)
                refl;
        })
