-- ===== src/Agent/Grounded.antt =====
-- What the replies of AgentQuestionService.answer (backend/app/agent/service.py) rest on.
use code_naut.Prelude.{
  ◌≡◌, refl, Bool, true, false, not, ◌&&◌, ◌||◌, ◌==◌, Option, none, some, [], arith, any, length,
  length-append, ◌∙◌, All, str_eq,
}
use code_naut.Prelude.Table.{if_rule}
use code_naut.Rag.Model.{Answerability}
use code_naut.Rag.Citations.{unique, is_empty}
use code_naut.Jobs.Model.{Repository}
use code_naut.Agent.Model.{AgentDecision, AgentRunResult, ActiveIndex, AgentSettings, Environment}
use code_naut.Agent.Index.{load_active_index, is_same_index, no_answer}
use code_naut.Agent.State.{Asked, AgentState, moved, state_of, is_answer, has_id, unavailable_codes}
use code_naut.Agent.Loop.{rejected, checked_result, finalized, finalize, turn}
use code_naut.Agent.Run.{closing, answer}
use code_naut.Agent.Cases.{OnTurn, Proceeds, Ends, turn_rule}
use code_naut.Agent.Whole.{answer-Ends}
use code_naut.Agent.Cited.{cited-known, cited-some}

module _ {W : Type 0} (env : Environment W) (s : AgentSettings) (ask : Asked) where
  -- A reply in the world that its last access check left: the check gave a repository whose active
  -- index is the one that the reply names.
  pub record Backing (active : ActiveIndex) (r : AgentRunResult) (w : W) : Type 0 where
    pub commit : r.commit_sha ≡ some active.commit_sha
    pub version : r.index_version ≡ active.index_version
    pub cites : is_empty r.cited_evidence_ids ≡ false
    pub supported : All (λ i. has_id r.evidence i ≡ true) r.cited_evidence_ids
    pub before : W
    pub current : Repository
    pub checked : env.authorize ask.user_id ask.repository_id before ≡ (some current, w)
    pub served : is_same_index (load_active_index s (env.builds w) current) active ≡ true

  abbrev pub Backed : Bool → AgentRunResult → W → Type 0
  Backed true r w = (active : ActiveIndex) × Backing active r w
  Backed false r w = r.cited_evidence_ids ≡ []

  -- An answer is backed, and anything else cites nothing.
  abbrev pub IsGrounded : AgentRunResult → W → Type 0
  IsGrounded r w = Backed (is_answer r.answerability) r w

  module _ (active : ActiveIndex) where
    closing-IsGrounded : (st : AgentState W) → IsGrounded (closing env s ask active st) st.world
    closing-IsGrounded st =
        if_rule
          (λ (a : Answerability).
            IsGrounded
              (no_answer ask.repository_id a (some active) none (length st.evidence) st.trace)
              st.world)
          (any (λ c. any (str_eq c) unavailable_codes) st.failure_codes) _ _ (λ _. refl) (λ _. refl)

    result-IsGrounded :
        (st : AgentState W) (d : AgentDecision) (r : Repository) (w : W)
        → env.authorize ask.user_id ask.repository_id st.world ≡ (some r, w)
        → is_same_index (load_active_index s (env.builds w) r) active ≡ true
        → IsGrounded (checked_result env s ask active st d) w
    result-IsGrounded st d r w checked served =
        let ids = unique d.evidence_ids in
        if_rule (λ x. IsGrounded x w) (is_answer (state_of d.answerability)) _ _
          (λ answers.
            if_rule (λ x. IsGrounded x w)
              (is_empty ids || any (λ i. not (has_id st.evidence i)) ids) _ _ (λ _. refl)
              (λ ok. rw answers (
                active,
                record {
                  commit = refl;
                  version = refl;
                  cites = cited-some st.evidence ids (ground (arith, ok)) (ground (arith, ok));
                  supported = cited-known st.evidence ids;
                  before = st.world;
                  current = r;
                  checked = checked;
                  served = served;
                },
              )))
          (λ refuses. rw refuses refl)

    finalized-IsGrounded :
        (st : AgentState W) (d : AgentDecision) (x : Option Repository × W)
        → env.authorize ask.user_id ask.repository_id st.world ≡ x
        → (A L : AgentState W → Type 0) → OnTurn A L IsGrounded (finalized env s ask active st d x)
    finalized-IsGrounded st d (none, w) checked A L = tt
    finalized-IsGrounded st d (some r, w) checked A L =
        if_rule (OnTurn A L IsGrounded)
          (r.id == st.repository.id && is_same_index (load_active_index s (env.builds w) r) active)
          _ _ (λ same. result-IsGrounded st d r w checked (ground (arith, same))) (λ _. refl)

    turn-IsGrounded :
        (st : AgentState W)
        → Proceeds env s ask active (λ _. Unit) IsGrounded st (turn env s ask active st)
    unfolding finalize
    turn-IsGrounded st =
        turn_rule env s ask active (Proceeds env s ask active (λ _. Unit) IsGrounded st) st
          (record {
            at_raise = λ w. tt;
            at_unavailable = λ w. refl;
            at_final = λ r w d.
                finalized-IsGrounded (moved st r st.fingerprints w) d
                  (env.authorize ask.user_id ask.repository_id w) refl _ _;
            at_repeat = λ r w t fp seen.
                closing-IsGrounded (rejected env s ask active (moved st r st.fingerprints w) t fp);
            at_failure = λ r w t fp status code _ _. (tt, length-append st.trace _ ∙ omega arith);
            at_evidence = λ r w t fp items _ _. (tt, length-append st.trace _ ∙ omega arith);
          })

  -- Whatever the provider, the tools and the database do, a run ends, and a reply that answers or
  -- answers in part cites at least one id, cites only ids of the evidence in the reply, names the
  -- commit and version of an index, and comes directly after an authorization that gave a
  -- repository whose active index is this one; any other reply cites nothing.
  pub answer-IsGrounded :
      (is_unsupported : Bool) (late : Option W) (w : W)
      → Ends IsGrounded (answer env s ask is_unsupported late w)
  answer-IsGrounded is_unsupported late w =
      answer-Ends env s ask IsGrounded (λ active st. Unit) is_unsupported late w
        (record {
          starts = λ active r w. tt;
          steps = λ active st _ _. turn-IsGrounded active st;
          stops = λ active st _. closing-IsGrounded active st;
          refuses = λ state active r w not_one. rw not_one refl;
        })
