-- ===== src/Rag/Selection.antt =====
-- What the selection of evidence promises: the limits, no duplicate or overlap, and the order.
use code_naut.Prelude.Table.{if_rule}
use code_naut.Prelude.{
  ℕ, ◌+◌, ◌≤◌, ◌<◌, String, Bool, false, ◌≡◌, refl, sym, eq_iff, ◌∙◌, inl, inr, List, [], ◌∷◌, ◌++◌,
  arith, ◌==◌, ◌||◌, any, length, count_if, All, All-zip, str_eq, Bool-cases, if◌then◌else◌,
  length-append,
}
use code_naut.Prelude.Ordered.{AllPairs, AllPairs-snoc, All-snoc, any-none, count_if-snoc}
use code_naut.Rag.Model.{RetrievalHit, Limits}
use code_naut.Rag.Evidence.{
  Selection, item_bytes, overlaps, overlaps_selected, is_skipped, admit, visit, is_last,
  select_from,
}

abbrev pub in_file : String → RetrievalHit → Bool
in_file path h = str_eq path h.file_path

abbrev pub bytes_of : List RetrievalHit → ℕ
bytes_of [] = 0
bytes_of (h ∷ hs) = item_bytes h + bytes_of hs

abbrev pub same_hash : RetrievalHit → RetrievalHit → Bool
same_hash a b = str_eq a.stable_chunk_hash b.stable_chunk_hash

-- Two hits that may both be evidence, the earlier first.
abbrev pub Apart : RetrievalHit → RetrievalHit → Type 0
Apart a b = (same_hash b a ≡ false) × (overlaps b a ≡ false)

-- The promise of the settings, but for the number of hits.
pub record Fits (l : Limits) (hs : List RetrievalHit) : Type 0 where
  pub files : (path : String) → count_if (in_file path) hs ≤ l.max_per_file
  pub items : All (λ h. item_bytes h ≤ l.max_item_bytes) hs
  pub total : bytes_of hs ≤ l.max_total_bytes
  pub apart : AllPairs Apart hs

-- The loop's counters say what they stand for, and the hits selected so far fit.
pub record Tracks (l : Limits) (sel : Selection) : Type 0 where
  pub seen :
      (x : String)
      → any (str_eq x) sel.seen_hashes ≡ any (λ h. str_eq x h.stable_chunk_hash) sel.selected
  pub counted : (path : String) → sel.per_file path ≡ count_if (in_file path) sel.selected
  pub summed : sel.total_bytes ≡ bytes_of sel.selected
  pub fits : Fits l sel.selected

bytes_of-snoc :
    (hs : List RetrievalHit) (h : RetrievalHit)
    → bytes_of (hs ++ (h ∷ [])) ≡ bytes_of hs + item_bytes h
bytes_of-snoc [] h = omega arith
bytes_of-snoc (k ∷ ks) h = omega (arith, bytes_of-snoc ks h)

any-snoc-eq :
    (p : RetrievalHit → Bool) (hs : List RetrievalHit) (h : RetrievalHit)
    → any p (hs ++ (h ∷ [])) ≡ (p h || any p hs)
any-snoc-eq p [] h = ground arith
any-snoc-eq p (k ∷ ks) h = ground (arith, any-snoc-eq p ks h)

one_file :
    (path : String) (h : RetrievalHit)
    → count_if (in_file path) (h ∷ []) ≡ (if str_eq path h.file_path then 1 else 0)
one_file path h = ground arith

module _ (l : Limits) where
  admit-Fits :
      (sel : Selection) (h : RetrievalHit)
      → Tracks l sel
      → is_skipped l sel h ≡ false
      → Fits l (sel.selected ++ (h ∷ []))
  admit-Fits sel h t e =
      let new_hash : any (str_eq h.stable_chunk_hash) sel.seen_hashes ≡ false = ground arith in
      let clear : overlaps_selected h sel.selected ≡ false = ground arith in
      let file_left : sel.per_file h.file_path < l.max_per_file = ground arith in
      let bytes_left : sel.total_bytes + item_bytes h ≤ l.max_total_bytes = ground arith in
      record {
        files = λ path. elim (Bool-cases (str_eq path h.file_path)) [
          | inl q ↦
              let same : path ≡ h.file_path = (eq_iff path h.file_path).0 q in
              rw (count_if-snoc (in_file path) sel.selected h, q, same, sym (t.counted h.file_path))
                (omega (arith, file_left))
          | inr q ↦
              rw (count_if-snoc (in_file path) sel.selected h, q) (omega (arith, t.fits.files path))
        ];
        items =
            All-snoc (λ k. item_bytes k ≤ l.max_item_bytes) sel.selected h t.fits.items
              (ground arith);
        total = rw (bytes_of-snoc sel.selected h, sym t.summed) bytes_left;
        apart = AllPairs-snoc Apart sel.selected h t.fits.apart (
            All-zip (λ k. same_hash h k ≡ false) (λ k. overlaps h k ≡ false) sel.selected
              (any-none (same_hash h) sel.selected (sym (t.seen h.stable_chunk_hash) ∙ new_hash))
              (any-none (overlaps h) sel.selected clear));
      }

  admit-Tracks :
      (sel : Selection) (h : RetrievalHit)
      → Tracks l sel
      → is_skipped l sel h ≡ false
      → Tracks l (admit h sel)
  admit-Tracks sel h t e = record {
    seen = λ x. rw (any-snoc-eq (λ k. str_eq x k.stable_chunk_hash) sel.selected h, t.seen x) refl;
    counted = λ path.
        rw (count_if-snoc (in_file path) sel.selected h)
          (elim (Bool-cases (str_eq path h.file_path)) [
            | inl q ↦ rw q (omega (arith, t.counted path))
            | inr q ↦ rw q (omega (arith, t.counted path))
          ]);
    summed = rw (bytes_of-snoc sel.selected h, t.summed) refl;
    fits = admit-Fits sel h t e;
  }

  pub visit-Tracks : (h : RetrievalHit) (sel : Selection) → Tracks l sel → Tracks l (visit l h sel)
  visit-Tracks h sel t =
      if_rule (Tracks l) (is_skipped l sel h) sel (admit h sel) (λ _. t)
        (λ e. admit-Tracks sel h t e)

  -- What every step keeps, the loop keeps.
  pub select_from_rule :
      (P : Selection → Type 0) (hs : List RetrievalHit) (sel : Selection)
      → ((h : RetrievalHit) (now : Selection) → P now → P (visit l h now))
      → P sel
      → P (select_from l hs sel)
  unfolding select_from
  select_from_rule P [] sel step p = p
  select_from_rule P (h ∷ hs) sel step p =
      if_rule P (is_last l h sel) (visit l h sel) (select_from l hs (visit l h sel))
        (λ _. step h sel p) (λ _. select_from_rule P hs (visit l h sel) step (step h sel p))

  pub select_from-length :
      (hs : List RetrievalHit) (sel : Selection)
      → length sel.selected < l.limit
      → length (select_from l hs sel).selected ≤ l.limit
  unfolding select_from
  select_from-length [] sel h = omega (arith, h)
  select_from-length (k ∷ ks) sel h =
      let grows : length (sel.selected ++ (k ∷ [])) ≡ length sel.selected + 1 =
        length-append sel.selected (k ∷ []) in
      elim (Bool-cases (is_skipped l sel k)) [
        | inl e ↦ rw e (select_from-length ks sel h)
        | inr e ↦ rw e (elim (Bool-cases (length (sel.selected ++ (k ∷ [])) == l.limit)) [
          | inl full ↦ rw full (ground arith)
          | inr more ↦ rw more (select_from-length ks (admit k sel) (ground arith))
        ])
      ]
