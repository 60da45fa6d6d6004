-- ===== src/Rag/Evidence.antt =====
-- EvidenceSelector of backend/app/rag/evidence.py: which hits become evidence. The set of hashes
-- is a list, and the counters of files are a function that is 0 where nothing was counted.
use Prim.Native.Nat.{compare, Ordering, ◌/◌, ◌%◌}
use Prim.Native.String.{len, compare as compare_text, ◌++◌ as append, slice}
use code_naut.Prelude.{
  ℕ, zero, suc, ◌+◌, String, Bool, true, false, not, ◌&&◌, ◌||◌, List, [], ◌∷◌, ◌++◌, ltb, leb,
  ◌==◌, any, length, str_eq, if◌then◌else◌,
}
use code_naut.Rag.Model.{RetrievalHit, EvidenceItem, Limits}

-- Tuple comparison: the next key decides where this one is equal.
abbrev pub then_by : Ordering → Bool → Bool
then_by o next = elim o [ Ordering.lt ↦ true | Ordering.eq ↦ next | Ordering.gt ↦ false ]

abbrev pub precedes : RetrievalHit → RetrievalHit → Bool
precedes a b = then_by (compare b.score a.score) (
    then_by (compare_text a.file_path b.file_path) (
      then_by (compare a.start_line b.start_line) (
        then_by (compare a.end_line b.end_line)
          (then_by (compare_text a.stable_chunk_hash b.stable_chunk_hash) true))))

unfoldable pub insert_hit : RetrievalHit → List RetrievalHit → List RetrievalHit
insert_hit h [] = h ∷ []
insert_hit h (k ∷ ks) = if precedes h k then h ∷ k ∷ ks else k ∷ insert_hit h ks

unfoldable pub order_hits : List RetrievalHit → List RetrievalHit
order_hits [] = []
order_hits (h ∷ hs) = insert_hit h (order_hits hs)

-- What the loop keeps.
pub record Selection : Type 0 where
  pub selected : List RetrievalHit
  pub seen_hashes : List String
  pub per_file : String → ℕ
  pub total_bytes : ℕ

abbrev pub nothing_selected : Selection
nothing_selected = record { selected = []; seen_hashes = []; per_file = λ _. 0; total_bytes = 0 }

abbrev pub item_bytes : RetrievalHit → ℕ
item_bytes h = len h.content

abbrev pub overlaps : RetrievalHit → RetrievalHit → Bool
overlaps candidate item =
    str_eq candidate.file_path item.file_path
    && (leb candidate.start_line item.end_line && leb item.start_line candidate.end_line)

abbrev pub overlaps_selected : RetrievalHit → List RetrievalHit → Bool
overlaps_selected candidate selected = any (overlaps candidate) selected

-- The condition of `continue`.
abbrev pub is_skipped : Limits → Selection → RetrievalHit → Bool
is_skipped l sel h =
    any (str_eq h.stable_chunk_hash) sel.seen_hashes
    || (ltb l.max_item_bytes (item_bytes h)
        || (leb l.max_per_file (sel.per_file h.file_path)
            || (ltb l.max_total_bytes (sel.total_bytes + item_bytes h)
                || overlaps_selected h sel.selected)))

abbrev pub admit : RetrievalHit → Selection → Selection
admit h sel = record {
  selected = sel.selected ++ (h ∷ []);
  seen_hashes = h.stable_chunk_hash ∷ sel.seen_hashes;
  per_file = λ path. if str_eq path h.file_path then suc (sel.per_file path) else sel.per_file path;
  total_bytes = sel.total_bytes + item_bytes h;
}

abbrev pub visit : Limits → RetrievalHit → Selection → Selection
visit l h sel = if is_skipped l sel h then sel else admit h sel

-- The condition of `break`.
abbrev pub is_last : Limits → RetrievalHit → Selection → Bool
is_last l h sel = not (is_skipped l sel h) && length (admit h sel).selected == l.limit

unfoldable pub select_from : Limits → List RetrievalHit → Selection → Selection
select_from l [] sel = sel
select_from l (h ∷ hs) sel =
    let next = visit l h sel in
    let rest = select_from l hs next in if is_last l h sel then next else rest

abbrev pub digit : ℕ → String
digit d = slice "0123456789" d (suc d)

-- The decimal digits of a number; the number itself is enough fuel.
unfoldable pub decimal_from : ℕ → ℕ → String
decimal_from zero n = digit n
decimal_from (suc fuel) n =
    let front = decimal_from fuel (n / 10) in
    if ltb n 10 then digit n else append front (digit (n % 10))

abbrev pub decimal : ℕ → String
decimal n = decimal_from n n

abbrev pub evidence_of : ℕ → RetrievalHit → EvidenceItem
evidence_of index h = record {
  evidence_id = append "E" (decimal index);
  score = h.score;
  file_path = h.file_path;
  language = h.language;
  chunk_type = h.chunk_type;
  symbol_name = h.symbol_name;
  qualified_symbol_name = h.qualified_symbol_name;
  start_line = h.start_line;
  end_line = h.end_line;
  stable_chunk_hash = h.stable_chunk_hash;
  content = h.content;
}

unfoldable pub numbered : ℕ → List RetrievalHit → List EvidenceItem
numbered index [] = []
numbered index (h ∷ hs) = evidence_of index h ∷ numbered (suc index) hs

unfoldable pub selected_hits : Limits → List RetrievalHit → List RetrievalHit
selected_hits l hits = (select_from l (order_hits hits) nothing_selected).selected

unfoldable pub select : Limits → List RetrievalHit → List EvidenceItem
select l hits = numbered 1 (selected_hits l hits)
