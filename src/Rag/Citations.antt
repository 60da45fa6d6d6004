-- ===== src/Rag/Citations.antt =====
-- CitationValidator of backend/app/rag/evidence.py. The class of decimal digits of `\d` is the
-- argument `is_decimal`, a KeyError is `none`, and a set of ids is a list.
use Prim.Native.Char.{Char, code}
use Prim.Native.String.{◌++◌ as append}
use mathlib.Core.Option.{map as map_option}
use code_naut.Prelude.{
  String, Bool, true, false, not, ◌&&◌, ◌||◌, Option, none, some, List, [], ◌∷◌, ◌==◌, any, all,
  keep_if, is_some, str_eq, if◌then◌else◌,
}
use code_naut.Rag.Model.{
  EvidenceItem, Citation, Answerability, DraftAnswerability, GroundedAnswerDraft,
}

abbrev pub chars : String → List Char
chars String.[] = []
chars (String.◌∷◌ c s) = c ∷ chars s

abbrev pub one_char : Char → String
one_char c = String.◌∷◌ c String.[]

-- How much of `[E`, digits and `]` the search has read.
pub data Scan : Type 0 where
  outside : Scan
  bracket : Scan
  letter : Scan
  digits : String → Scan

-- The next state but for a closing bracket, which the search itself handles.
abbrev pub scan_char : (Char → Bool) → Scan → Char → Scan
scan_char is_decimal bracket c =
    if code c == 91 then bracket else (if code c == 69 then letter else outside)
scan_char is_decimal letter c =
    if code c == 91 then bracket else (if is_decimal c then digits (one_char c) else outside)
scan_char is_decimal (digits found) c =
    if code c == 91
    then bracket
    else (if is_decimal c then digits (append found (one_char c)) else outside)
scan_char is_decimal outside c = if code c == 91 then bracket else outside

-- The id that a closing bracket ends.
abbrev pub closed_id : Scan → Char → Option String
closed_id (digits found) c = if code c == 93 then some (append "E" found) else none
closed_id outside c = none
closed_id bracket c = none
closed_id letter c = none

abbrev pub add_found : Option String → List String → List String
add_found none found = found
add_found (some i) found = i ∷ found

-- findall of `\[(E\d+)\]`.
unfoldable pub find_ids : (Char → Bool) → Scan → List Char → List String
find_ids is_decimal st [] = []
find_ids is_decimal st (c ∷ cs) =
    add_found (closed_id st c) (find_ids is_decimal (scan_char is_decimal st c) cs)

abbrev pub inline_ids : (Char → Bool) → String → List String
inline_ids is_decimal answer = find_ids is_decimal outside (chars answer)

-- dict.fromkeys: the first occurrence of each key.
unfoldable pub unique : List String → List String
unique [] = []
unique (i ∷ is) = i ∷ keep_if (λ j. not (str_eq i j)) (unique is)

abbrev pub or_else : Option EvidenceItem → Option EvidenceItem → Option EvidenceItem
or_else none d = d
or_else (some e) d = some e

-- The dict by id: a later item replaces an earlier one.
unfoldable pub lookup_id : List EvidenceItem → String → Option EvidenceItem
lookup_id [] i = none
lookup_id (e ∷ es) i = or_else (lookup_id es i) (if str_eq e.evidence_id i then some e else none)

abbrev pub is_known : List EvidenceItem → String → Bool
is_known es i = is_some (lookup_id es i)

abbrev pub citation_of : String → EvidenceItem → Citation
citation_of commit_sha e = record {
  evidence_id = e.evidence_id;
  file_path = e.file_path;
  start_line = e.start_line;
  end_line = e.end_line;
  symbol_name = e.symbol_name;
  qualified_symbol_name = e.qualified_symbol_name;
  chunk_type = e.chunk_type;
  commit_sha = commit_sha;
  supporting_excerpt = e.content;
}

abbrev pub cons_both :
    Option EvidenceItem → Option (List Citation) → String → Option (List Citation)
cons_both none rest commit_sha = none
cons_both (some e) none commit_sha = none
cons_both (some e) (some cs) commit_sha = some (citation_of commit_sha e ∷ cs)

unfoldable pub cite_all : List EvidenceItem → String → List String → Option (List Citation)
cite_all es commit_sha [] = some []
cite_all es commit_sha (i ∷ is) = cons_both (lookup_id es i) (cite_all es commit_sha is) commit_sha

abbrev pub is_answered : DraftAnswerability → Bool
is_answered DraftAnswerability.answered = true
is_answered DraftAnswerability.insufficient_evidence = false
is_answered DraftAnswerability.unsupported_question = false

-- Answerability(draft.answerability.value).
abbrev pub as_declared : DraftAnswerability → Answerability
as_declared DraftAnswerability.answered = Answerability.answered
as_declared DraftAnswerability.insufficient_evidence = Answerability.insufficient_evidence
as_declared DraftAnswerability.unsupported_question = Answerability.unsupported_question

abbrev pub is_empty : List String → Bool
is_empty [] = true
is_empty (_ ∷ _) = false

-- The first condition of validate.
abbrev pub is_ungrounded : List EvidenceItem → List String → List String → Bool
is_ungrounded es unique_ids inline =
    any (λ i. not (is_known es i)) unique_ids
    || (not (all (is_known es) inline) || not (all (λ i. any (str_eq i) unique_ids) inline))

unfoldable pub validate :
    (Char → Bool)
    → GroundedAnswerDraft
    → List EvidenceItem
    → String
    → Option (Answerability × List Citation)
validate is_decimal draft es commit_sha =
    let unique_ids = unique draft.evidence_ids in
    let inline = inline_ids is_decimal draft.answer in
    if is_ungrounded es unique_ids inline
    then some (Answerability.insufficient_evidence, [])
    else (if is_answered draft.answerability && is_empty unique_ids
        then some (Answerability.insufficient_evidence, [])
        else (if not (is_answered draft.answerability)
            then some (as_declared draft.answerability, [])
            else map_option (λ cs. (Answerability.answered, cs))
                (cite_all es commit_sha unique_ids)))
