-- ===== src/Agent/Index.antt =====
-- _load_active_index and _no_answer of backend/app/agent/service.py.
use code_naut.Prelude.{
  ℕ, String, Bool, true, false, ◌&&◌, ◌||◌, Option, none, some, List, [], ◌==◌, ltb, is_none,
  opt_str_eq, str_eq, if◌then◌else◌,
}
use code_naut.Prelude.Table.{select, if_found}
use code_naut.Rag.Model.{Answerability}
use code_naut.Jobs.Model.{Repository, Build, IndexingStatus, Embedding}
use code_naut.Jobs.Rows.{is_active}
use code_naut.Agent.Model.{
  AnswerUncertainty, AgentRunResult, AgentTraceStep, ActiveIndex, AgentSettings,
}

-- NOT_INDEXED, ACCESS_REVOKED and DELETING.
abbrev pub is_unservable : IndexingStatus → Bool
is_unservable IndexingStatus.not_indexed = true
is_unservable IndexingStatus.access_revoked = true
is_unservable IndexingStatus.deleting = true
is_unservable _ = false

abbrev pub same_embedding : Embedding → Embedding → Bool
same_embedding a b =
    str_eq a.model_identifier b.model_identifier
    && (str_eq a.model_revision b.model_revision && a.dimension == b.dimension)

-- The WHERE clause of the query for the active build.
abbrev pub is_served_build : AgentSettings → Repository → Build → Bool
is_served_build s r b =
    b.repository_id == r.id
    && (b.index_version == r.index_version
        && (is_active b.state
            && (opt_str_eq r.last_indexed_commit_sha b.commit_sha
                && (same_embedding b.embedding s.embedding
                    && (str_eq b.preprocessing_fingerprint s.policy_fingerprint
                        && b.vector_count == r.active_vector_count)))))

abbrev pub active_index_of : Build → ActiveIndex
active_index_of b = record {
  index_version = b.index_version;
  commit_sha = b.commit_sha;
  preprocessing_fingerprint = b.preprocessing_fingerprint;
}

unfoldable pub load_active_index : AgentSettings → List Build → Repository → Option ActiveIndex
load_active_index s builds r =
    if is_unservable r.indexing_status
      || (ltb r.index_version 1
          || (is_none r.last_indexed_commit_sha || ltb r.active_vector_count 1))
    then none
    else if_found (select (is_served_build s r) builds) none (λ b. some (active_index_of b))

abbrev pub same_index : ActiveIndex → ActiveIndex → Bool
same_index a b =
    a.index_version == b.index_version
    && (str_eq a.commit_sha b.commit_sha
        && str_eq a.preprocessing_fingerprint b.preprocessing_fingerprint)

-- `current_active != expected_active`, negated.
abbrev pub is_same_index : Option ActiveIndex → ActiveIndex → Bool
is_same_index none expected = false
is_same_index (some a) expected = same_index a expected

abbrev pub insufficient_text : String
insufficient_text =
    "The authorized evidence does not contain enough support to answer this question."

abbrev pub refusal_text : Answerability → String
refusal_text Answerability.unsupported_question =
    "This question requires capabilities outside the current repository agent."
refusal_text Answerability.temporarily_unavailable =
    "Repository analysis is temporarily unavailable. Please try again."
refusal_text _ = insufficient_text

abbrev pub refusal_uncertainty : Answerability → AnswerUncertainty
refusal_uncertainty Answerability.insufficient_evidence = AnswerUncertainty.high
refusal_uncertainty _ = AnswerUncertainty.not_applicable

abbrev pub commit_of : Option ActiveIndex → Option Repository → Option String
commit_of (some a) r = some a.commit_sha
commit_of none (some r) = r.last_indexed_commit_sha
commit_of none none = none

abbrev pub version_of : Option ActiveIndex → Option Repository → ℕ
version_of (some a) r = a.index_version
version_of none (some r) = r.index_version
version_of none none = 0

-- _no_answer
abbrev pub no_answer :
    ℕ
    → Answerability
    → Option ActiveIndex
    → Option Repository
    → ℕ
    → List AgentTraceStep
    → AgentRunResult
no_answer repository_id state active repository evidence_count trace = record {
  repository_id = repository_id;
  answer = refusal_text state;
  answerability = state;
  uncertainty = refusal_uncertainty state;
  evidence = [];
  cited_evidence_ids = [];
  commit_sha = commit_of active repository;
  index_version = version_of active repository;
  retrieved_evidence_count = evidence_count;
  trace = trace;
}
