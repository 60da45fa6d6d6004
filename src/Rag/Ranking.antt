-- ===== src/Rag/Ranking.antt =====
-- Which hits the selection takes: the best first, and none is left that would still fit.
use text.Mathlib.TextPositions.{eq_refl}
use code_naut.Prelude.{
  ◌≤◌, true, false, ◌≡◌, refl, ◌⊎◌, inl, inr, List, [], ◌∷◌, ◌++◌, arith, ◌==◌, length, All,
  All-map, Bool-cases,
}
use code_naut.Prelude.Table.{if_rule}
use code_naut.Prelude.Ordered.{AllPairs, AllPairs-snoc, All-snoc, any-snoc}
use code_naut.Rag.Model.{RetrievalHit, Limits}
use code_naut.Rag.Evidence.{
  Selection, overlaps, is_skipped, admit, visit, is_last, select_from, insert_hit, order_hits,
  precedes,
}
use code_naut.Rag.Selection.{select_from_rule}

-- No worse score comes later.
abbrev pub Ranked : RetrievalHit → RetrievalHit → Type 0
Ranked a b = b.score ≤ a.score

All-insert {κ} :
    (P : RetrievalHit → Type κ) (h : RetrievalHit) (hs : List RetrievalHit)
    → P h
    → All P hs
    → All P (insert_hit h hs)
unfolding insert_hit
All-insert P h [] p ps = (p, tt)
All-insert P h (k ∷ ks) p ps = elim (Bool-cases (precedes h k)) [
  | inl e ↦ rw e (p, ps)
  | inr e ↦ rw e (ps.0, All-insert P h ks p ps.1)
]

pub All-order {κ} :
    (P : RetrievalHit → Type κ) (hs : List RetrievalHit) → All P hs → All P (order_hits hs)
unfolding order_hits
All-order P [] ps = tt
All-order P (h ∷ hs) ps = All-insert P h (order_hits hs) ps.0 (All-order P hs ps.1)

-- Insertion loses nothing.
insert-All {κ} :
    (P : RetrievalHit → Type κ) (h : RetrievalHit) (hs : List RetrievalHit)
    → All P (insert_hit h hs)
    → P h × All P hs
unfolding insert_hit
insert-All P h [] ps = (ps.0, tt)
insert-All P h (k ∷ ks) ps = elim (Bool-cases (precedes h k)) [
  | inl e ↦ rw e at ps
  | inr e ↦
      let qs : All P (k ∷ insert_hit h ks) = rw e at ps in
      let rest = insert-All P h ks qs.1 in (rest.0, (qs.0, rest.1))
]

precedes-Ranked : (a b : RetrievalHit) → precedes a b ≡ true → Ranked a b
precedes-Ranked a b h = ground arith

not_precedes-Ranked : (a b : RetrievalHit) → precedes a b ≡ false → Ranked b a
not_precedes-Ranked a b h = ground arith

pub order-All {κ} :
    (P : RetrievalHit → Type κ) (hs : List RetrievalHit) → All P (order_hits hs) → All P hs
unfolding order_hits
order-All P [] ps = tt
order-All P (h ∷ hs) ps = let qs = insert-All P h (order_hits hs) ps in (qs.0, order-All P hs qs.1)

insert-AllPairs :
    (h : RetrievalHit) (hs : List RetrievalHit)
    → AllPairs Ranked hs
    → AllPairs Ranked (insert_hit h hs)
unfolding insert_hit
insert-AllPairs h [] ps = (tt, tt)
insert-AllPairs h (k ∷ ks) ps = elim (Bool-cases (precedes h k)) [
  | inl e ↦
      let first : k.score ≤ h.score = precedes-Ranked h k e in
      rw e ((first, All-map ks (λ x r. omega (arith, first, r)) ps.0), ps)
  | inr e ↦
      rw e (All-insert (Ranked k) h ks (not_precedes-Ranked h k e) ps.0, insert-AllPairs h ks ps.1)
]

pub order-AllPairs : (hs : List RetrievalHit) → AllPairs Ranked (order_hits hs)
unfolding order_hits
order-AllPairs [] = tt
order-AllPairs (h ∷ hs) = insert-AllPairs h (order_hits hs) (order-AllPairs hs)

module _ (l : Limits) where
  pub select_from-All :
      (P : RetrievalHit → Type 0) (hs : List RetrievalHit) (sel : Selection)
      → All P sel.selected
      → All P hs
      → All P (select_from l hs sel).selected
  unfolding select_from
  select_from-All P [] sel now ps = now
  select_from-All P (h ∷ hs) sel now ps = elim (Bool-cases (is_skipped l sel h)) [
    | inl e ↦ rw e (select_from-All P hs sel now ps.1)
    | inr e ↦
        let next = All-snoc P sel.selected h now ps.0 in
        rw e (elim (Bool-cases (length (sel.selected ++ (h ∷ [])) == l.limit)) [
          | inl full ↦ rw full next
          | inr more ↦ rw more (select_from-All P hs (admit h sel) next ps.1)
        ])
  ]

  pub select_from-AllPairs :
      (hs : List RetrievalHit) (sel : Selection)
      → AllPairs Ranked sel.selected
      → All (λ a. All (Ranked a) hs) sel.selected
      → AllPairs Ranked hs
      → AllPairs Ranked (select_from l hs sel).selected
  unfolding select_from
  select_from-AllPairs [] sel now before ps = now
  select_from-AllPairs (h ∷ hs) sel now before ps =
      let later = All-map sel.selected (λ a (r : All (Ranked a) (h ∷ hs)). r.1) before in
      elim (Bool-cases (is_skipped l sel h)) [
        | inl e ↦ rw e (select_from-AllPairs hs sel now later ps.1)
        | inr e ↦
            let next =
              AllPairs-snoc Ranked sel.selected h now
                (All-map sel.selected (λ a (r : All (Ranked a) (h ∷ hs)). r.0) before) in
            rw e (elim (Bool-cases (length (sel.selected ++ (h ∷ [])) == l.limit)) [
              | inl full ↦ rw full next
              | inr more ↦ rw more (
                  select_from-AllPairs hs (admit h sel) next
                    (All-snoc (λ a. All (Ranked a) hs) sel.selected h later ps.0) ps.1)
            ])
      ]

  -- A hit that was passed over would be passed over at the end too.
  visit-skipped :
      (g h : RetrievalHit) (sel : Selection)
      → is_skipped l sel g ≡ true
      → is_skipped l (visit l h sel) g ≡ true
  visit-skipped g h sel e = elim (Bool-cases (is_skipped l sel h)) [
    | inl q ↦ rw q e
    | inr q ↦ rw q (ground (arith, any-snoc (overlaps g) sel.selected h))
  ]

  visit-done : (h : RetrievalHit) (sel : Selection) → is_skipped l (visit l h sel) h ≡ true
  visit-done h sel = elim (Bool-cases (is_skipped l sel h)) [
    | inl q ↦ rw q q
    | inr q ↦ rw (q, eq_refl h.stable_chunk_hash) refl
  ]

  -- Nothing more can be taken.
  abbrev pub Done : List RetrievalHit → Selection → Type 0
  Done hs sel = (length sel.selected ≡ l.limit) ⊎ All (λ h. is_skipped l sel h ≡ true) hs

  is_last-full :
      (h : RetrievalHit) (sel : Selection)
      → is_last l h sel ≡ true
      → length (visit l h sel).selected ≡ l.limit
  is_last-full h sel e = elim (Bool-cases (is_skipped l sel h)) [
    | inl q ↦ absurd (ground (arith, q, e))
    | inr q ↦ rw q (ground (arith, q, e))
  ]

  pub select_from-Done : (hs : List RetrievalHit) (sel : Selection) → Done hs (select_from l hs sel)
  unfolding select_from
  select_from-Done [] sel = inr tt
  select_from-Done (h ∷ hs) sel =
      if_rule (Done (h ∷ hs)) (is_last l h sel) (visit l h sel) (select_from l hs (visit l h sel))
        (λ e. inl (is_last-full h sel e))
        (λ e. elim (select_from-Done hs (visit l h sel)) [
          | inl full ↦ inl full
          | inr rest ↦ inr (
            select_from_rule l (λ now. is_skipped l now h ≡ true) hs (visit l h sel)
                (λ k now q. visit-skipped h k now q) (visit-done h sel),
            rest,
          )
        ])
