-- ===== src/Rag/Promise.antt =====
-- The contract of EvidenceSelector.select, stated of the evidence that it returns.
use Prim.Native.String.{◌++◌ as append}
use mathlib.Core.List.{Memᴰ}
use code_naut.Prelude.{
  ℕ, zero, suc, ◌+◌, ◌≤◌, String, Bool, true, ◌||◌, ◌≡◌, refl, sym, ap, ◌⊎◌, inl, inr, List, [],
  ◌∷◌, map, arith, ltb, leb, any, length, count_if, All, All-map,
}
use code_naut.Prelude.Ordered.{AllPairs, All-Memᴰ}
use code_naut.Rag.Model.{RetrievalHit, EvidenceItem, Limits}
use code_naut.Rag.Evidence.{
  Selection, nothing_selected, item_bytes, overlaps, is_skipped, select_from, order_hits,
  selected_hits, select, numbered, decimal,
}
use code_naut.Rag.Selection.{
  in_file, bytes_of, same_hash, Fits, Tracks, visit-Tracks, select_from_rule, select_from-length,
}
use code_naut.Rag.Ranking.{
  Ranked, All-order, order-All, order-AllPairs, select_from-All, select_from-AllPairs,
  select_from-Done,
}

-- The hit that a piece of evidence was made of.
abbrev pub hit_of : EvidenceItem → RetrievalHit
hit_of e = record {
  score = e.score;
  file_path = e.file_path;
  language = e.language;
  chunk_type = e.chunk_type;
  symbol_name = e.symbol_name;
  qualified_symbol_name = e.qualified_symbol_name;
  start_line = e.start_line;
  end_line = e.end_line;
  content = e.content;
  stable_chunk_hash = e.stable_chunk_hash;
}

-- E1, E2 and so on.
abbrev pub ids_from : ℕ → ℕ → List String
ids_from first zero = []
ids_from first (suc n) = append "E" (decimal first) ∷ ids_from (suc first) n

-- The hit cannot be added to the evidence: a duplicate, too long, its file or the budget used up,
-- or an overlap.
abbrev pub refused : Limits → List RetrievalHit → RetrievalHit → Bool
refused l hs h =
    any (same_hash h) hs
    || (ltb l.max_item_bytes (item_bytes h)
        || (leb l.max_per_file (count_if (in_file h.file_path) hs)
            || (ltb l.max_total_bytes (bytes_of hs + item_bytes h) || any (overlaps h) hs)))

numbered-hits : (n : ℕ) (hs : List RetrievalHit) → map hit_of (numbered n hs) ≡ hs
unfolding numbered
numbered-hits n [] = refl
numbered-hits n (h ∷ hs) = ap (λ xs. h ∷ xs) (numbered-hits (suc n) hs)

numbered-ids :
    (n : ℕ) (hs : List RetrievalHit)
    → map (λ e. e.evidence_id) (numbered n hs) ≡ ids_from n (length hs)
unfolding numbered
numbered-ids n [] = refl
numbered-ids n (h ∷ hs) = ap (λ xs. append "E" (decimal n) ∷ xs) (numbered-ids (suc n) hs)

-- What the evidence is, given the hits.
pub record IsEvidence (l : Limits) (hits : List RetrievalHit) (es : List EvidenceItem)
    : Type 0 where
  pub fits : Fits l (map hit_of es)
  pub bounded : length (map hit_of es) ≤ l.limit
  pub ranked : AllPairs Ranked (map hit_of es)
  pub found : All (λ h. Memᴰ h hits) (map hit_of es)
  pub names : map (λ e. e.evidence_id) es ≡ ids_from 1 (length (map hit_of es))

-- The loop's test agrees with the independent one.
skipped-refused :
    (l : Limits) (sel : Selection) (h : RetrievalHit)
    → Tracks l sel
    → is_skipped l sel h ≡ true
    → refused l sel.selected h ≡ true
skipped-refused l sel h t e =
    rw (sym (t.seen h.stable_chunk_hash), sym (t.counted h.file_path), sym t.summed) e

module _ (l : Limits) (hits : List RetrievalHit) where
  start-Tracks : Tracks l nothing_selected
  start-Tracks = record {
    seen = λ x. refl;
    counted = λ path. refl;
    summed = refl;
    fits = record { files = λ path. omega arith; items = tt; total = omega arith; apart = tt };
  }

  final-Tracks : Tracks l (select_from l (order_hits hits) nothing_selected)
  final-Tracks =
      select_from_rule l (Tracks l) (order_hits hits) nothing_selected
        (λ h now t. visit-Tracks l h now t) start-Tracks

  select-hits : map hit_of (select l hits) ≡ selected_hits l hits
  unfolding select
  select-hits = numbered-hits 1 (selected_hits l hits)

  -- For every list of hits and a limit of at least 1, the evidence has at most that many items, at most
  -- the configured number of each file, no item above the item's limit and all together within the total
  -- limit of bytes; no two have one hash or overlap in a file; each is one of the hits, no worse score
  -- stands before a better one, and the ids are E1, E2 and so on.
  pub select-IsEvidence : 1 ≤ l.limit → IsEvidence l hits (select l hits)
  unfolding select selected_hits
  select-IsEvidence h = record {
    fits = rw select-hits final-Tracks.fits;
    bounded = rw select-hits (select_from-length l (order_hits hits) nothing_selected h);
    ranked =
        rw select-hits
          (select_from-AllPairs l (order_hits hits) nothing_selected tt tt (order-AllPairs hits));
    found = rw select-hits (
        select_from-All l (λ x. Memᴰ x hits) (order_hits hits) nothing_selected tt
          (All-order (λ x. Memᴰ x hits) hits (All-Memᴰ hits)));
    names = rw select-hits (numbered-ids 1 (selected_hits l hits));
  }

  -- The evidence has exactly the limit's number of items, or every hit is refused beside it: it repeats a
  -- hash, is too long, its file or the budget of bytes has no room, or it overlaps.
  pub select_exhaustive :
      (length (map hit_of (select l hits)) ≡ l.limit)
      ⊎ All (λ h. refused l (map hit_of (select l hits)) h ≡ true) hits
  unfolding selected_hits
  select_exhaustive = rw select-hits (elim (select_from-Done l (order_hits hits) nothing_selected) [
    | inl full ↦ inl full
    | inr all ↦ inr (
        All-map hits
          (λ h e.
            skipped-refused l (select_from l (order_hits hits) nothing_selected) h final-Tracks e)
          (order-All (λ h. is_skipped l (select_from l (order_hits hits) nothing_selected) h ≡ true)
            hits all))
  ])
