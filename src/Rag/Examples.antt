-- ===== src/Rag/Examples.antt =====
-- The theorems on evidence and citations at concrete hits, and runs of the code.
use Prim.Native.Char.{Char, code}
use code_naut.Prelude.{
  ℕ, String, Bool, true, ◌&&◌, leb, ◌≡◌, refl, ◌⊎◌, none, List, [], ◌∷◌, map, arith, length, All,
}
use code_naut.Rag.Model.{
  RetrievalHit, EvidenceItem, DraftAnswerability, DraftUncertainty, GroundedAnswerDraft, Limits,
}
use code_naut.Rag.Evidence.{
  decimal, decimal_from, select, selected_hits, numbered, select_from, order_hits, insert_hit,
}
use code_naut.Rag.Promise.{IsEvidence, hit_of, refused, select-IsEvidence, select_exhaustive}
use code_naut.Rag.Citations.{inline_ids, find_ids, unique, validate}
use code_naut.Rag.Grounding.{Returns, validate_sound}

abbrev hit : ℕ → String → ℕ → ℕ → String → RetrievalHit
hit score path first last hash = record {
  score = score;
  file_path = path;
  language = "python";
  chunk_type = "function";
  symbol_name = none;
  qualified_symbol_name = none;
  start_line = first;
  end_line = last;
  content = "def f(): pass";
  stable_chunk_hash = hash;
}

abbrev limits : Limits
limits = record { limit = 2; max_per_file = 1; max_total_bytes = 40; max_item_bytes = 20 }

abbrev hits : List RetrievalHit
hits =
    hit 3 "a.py" 1 9 "h1"
    ∷ hit 9 "b.py" 1 5 "h2"
    ∷ hit 5 "b.py" 4 8 "h3"
    ∷ hit 2 "c.py" 1 2 "h4"
    ∷ []

select_two : map (λ e. e.stable_chunk_hash) (select limits hits) ≡ "h2" ∷ "h1" ∷ []
unfolding select selected_hits select_from order_hits insert_hit numbered
select_two = refl

decimal_two : decimal 20 ≡ "20"
unfolding decimal_from
decimal_two = refl

select-IsEvidence_example : IsEvidence limits hits (select limits hits)
select-IsEvidence_example = select-IsEvidence limits hits (omega arith)

select_exhaustive_example :
    (length (map hit_of (select limits hits)) ≡ 2)
    ⊎ All (λ h. refused limits (map hit_of (select limits hits)) h ≡ true) hits
select_exhaustive_example = select_exhaustive limits hits

abbrev is_ascii_digit : Char → Bool
is_ascii_digit c = leb 48 (code c) && leb (code c) 57

abbrev draft : GroundedAnswerDraft
draft = record {
  answer = "It parses [E1] and [[E2], not [Ex].";
  answerability = DraftAnswerability.answered;
  uncertainty = DraftUncertainty.low;
  evidence_ids = "E2" ∷ "E1" ∷ "E2" ∷ [];
}

abbrev items : List EvidenceItem
items = numbered 1 (hit 3 "a.py" 1 9 "h1" ∷ hit 9 "b.py" 1 5 "h2" ∷ [])

inline_two : inline_ids is_ascii_digit "It parses [E1] and [[E2], not [Ex]." ≡ "E1" ∷ "E2" ∷ []
unfolding find_ids
inline_two = refl

unique_two : unique ("E2" ∷ "E1" ∷ "E2" ∷ []) ≡ "E2" ∷ "E1" ∷ []
unfolding unique
unique_two = refl

validate_sound_example :
    Returns is_ascii_digit draft items "sha" (validate is_ascii_digit draft items "sha")
validate_sound_example = validate_sound is_ascii_digit draft items "sha"
