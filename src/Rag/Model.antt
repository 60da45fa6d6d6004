-- ===== src/Rag/Model.antt =====
-- The values of backend/app/rag/models.py, with the hits of backend/app/vector/qdrant.py and the
-- draft of backend/app/llm/client.py. A score is a number with the order of the float.
use code_naut.Prelude.{ℕ, String, Option, List}

pub record RetrievalHit : Type 0 where
  pub score : ℕ
  pub file_path : String
  pub language : String
  pub chunk_type : String
  pub symbol_name : Option String
  pub qualified_symbol_name : Option String
  pub start_line : ℕ
  pub end_line : ℕ
  pub content : String
  pub stable_chunk_hash : String

pub record EvidenceItem : Type 0 where
  pub evidence_id : String
  pub score : ℕ
  pub file_path : String
  pub language : String
  pub chunk_type : String
  pub symbol_name : Option String
  pub qualified_symbol_name : Option String
  pub start_line : ℕ
  pub end_line : ℕ
  pub stable_chunk_hash : String
  pub content : String

pub record Citation : Type 0 where
  pub evidence_id : String
  pub file_path : String
  pub start_line : ℕ
  pub end_line : ℕ
  pub symbol_name : Option String
  pub qualified_symbol_name : Option String
  pub chunk_type : String
  pub commit_sha : String
  pub supporting_excerpt : String

pub data Answerability : Type 0 where
  answered : Answerability
  partially_answered : Answerability
  insufficient_evidence : Answerability
  unsupported_question : Answerability
  temporarily_unavailable : Answerability

pub data DraftAnswerability : Type 0 where
  answered : DraftAnswerability
  insufficient_evidence : DraftAnswerability
  unsupported_question : DraftAnswerability

pub data DraftUncertainty : Type 0 where
  low : DraftUncertainty
  medium : DraftUncertainty
  high : DraftUncertainty

pub record GroundedAnswerDraft : Type 0 where
  pub answer : String
  pub answerability : DraftAnswerability
  pub uncertainty : DraftUncertainty
  pub evidence_ids : List String

-- The settings that EvidenceSelector reads.
pub record Limits : Type 0 where
  pub limit : ℕ
  pub max_per_file : ℕ
  pub max_total_bytes : ℕ
  pub max_item_bytes : ℕ
