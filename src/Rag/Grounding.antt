-- ===== src/Rag/Grounding.antt =====
-- What a validated answer cites.
use Prim.Native.Char.{Char}
use mathlib.Core.List.{Memᴰ}
use code_naut.Prelude.{
  suc, ◌≤◌, String, Bool, true, false, not, ◌&&◌, ◌≡◌, refl, ap, inl, inr, Option, none, some, List,
  [], ◌∷◌, map, arith, any, all, length, All, str_eq, eq_iff, is_some, Bool-cases,
}
use code_naut.Prelude.Table.{if_rule}
use code_naut.Rag.Model.{
  EvidenceItem, Citation, Answerability, DraftAnswerability, GroundedAnswerDraft,
}
use code_naut.Rag.Citations.{
  inline_ids, unique, lookup_id, is_known, citation_of, cite_all, is_answered, as_declared,
  is_empty, is_ungrounded, validate,
}

-- The citation copies an item of the server's evidence.
abbrev pub Resolves : List EvidenceItem → String → Citation → Type 0
Resolves es commit_sha c = (e : EvidenceItem) × Memᴰ e es × (c ≡ citation_of commit_sha e)

-- An answer that may be shown with these citations.
pub record Grounded (is_decimal : Char → Bool) (draft : GroundedAnswerDraft)
    (es : List EvidenceItem) (commit_sha : String) (cs : List Citation) : Type 0 where
  pub declared : is_answered draft.answerability ≡ true
  pub cited : map (λ c. c.evidence_id) cs ≡ unique draft.evidence_ids
  pub some_citation : 1 ≤ length cs
  pub resolved : All (Resolves es commit_sha) cs
  pub inline :
      All
        (λ i. any (str_eq i) (map (λ c. c.evidence_id) cs) ≡ true)
        (inline_ids is_decimal draft.answer)

abbrev pub Verdict :
    (Char → Bool)
    → GroundedAnswerDraft
    → List EvidenceItem
    → String
    → Answerability × List Citation
    → Type 0
Verdict is_decimal draft es commit_sha (Answerability.answered, cs) =
    Grounded is_decimal draft es commit_sha cs
Verdict is_decimal draft es commit_sha (Answerability.partially_answered, cs) = ⊥
Verdict is_decimal draft es commit_sha (Answerability.insufficient_evidence, cs) = cs ≡ []
Verdict is_decimal draft es commit_sha (Answerability.unsupported_question, cs) = cs ≡ []
Verdict is_decimal draft es commit_sha (Answerability.temporarily_unavailable, cs) = ⊥

all-All : (p : String → Bool) (xs : List String) → all p xs ≡ true → All (λ x. p x ≡ true) xs
all-All p [] h = tt
all-All p (x ∷ xs) h = (ground arith, all-All p xs (ground arith))

none_found : (o : Option EvidenceItem) → is_some o ≡ false → o ≡ none
none_found none h = refl
none_found (some e) h = absurd (ground arith)

lookup_id-Memᴰ :
    (es : List EvidenceItem) (i : String)
    → is_known es i ≡ true
    → (e : EvidenceItem) × (lookup_id es i ≡ some e) × Memᴰ e es × (e.evidence_id ≡ i)
unfolding lookup_id
lookup_id-Memᴰ [] i h = absurd (ground arith)
lookup_id-Memᴰ (e ∷ es) i h = elim (Bool-cases (is_known es i)) [
  | inl later ↦
      let found = lookup_id-Memᴰ es i later in
      (found.0, rw found.1 refl, Memᴰ.tail found.2, found.3)
  | inr missing ↦ elim (Bool-cases (str_eq e.evidence_id i)) [
    | inl q ↦ (
      e,
      rw (none_found (lookup_id es i) missing, q) refl,
      Memᴰ.head refl,
      (eq_iff e.evidence_id i).0 q,
    )
    | inr q ↦ absurd (ground (arith, rw (none_found (lookup_id es i) missing, q) at h))
  ]
]

-- Known ids are cited in order, each by an item of the evidence.
cite_all-known :
    (es : List EvidenceItem) (commit_sha : String) (is : List String)
    → any (λ i. not (is_known es i)) is ≡ false
    → (cs : List Citation) × (cite_all es commit_sha is ≡ some cs)
      × (map (λ c. c.evidence_id) cs ≡ is)
      × All (Resolves es commit_sha) cs
unfolding cite_all
cite_all-known es commit_sha [] h = ([], refl, refl, tt)
cite_all-known es commit_sha (i ∷ is) h =
    let first = lookup_id-Memᴰ es i (ground arith) in
    let rest = cite_all-known es commit_sha is (ground arith) in
    (
      citation_of commit_sha first.0 ∷ rest.0,
      rw (first.1, rest.1) refl,
      rw (first.3, rest.2) refl,
      ((first.0, first.2, refl), rest.3),
    )

not_empty :
    (is : List String) (cs : List Citation)
    → is_empty is ≡ false
    → map (λ c. c.evidence_id) cs ≡ is
    → 1 ≤ length cs
not_empty [] cs h e = absurd (ground arith)
not_empty (i ∷ is) [] h e = absurd (let q : 0 ≡ suc (length is) = ap length e in ground (arith, q))
not_empty (i ∷ is) (c ∷ cs) h e = omega arith

as_declared-Verdict :
    (is_decimal : Char → Bool) (draft : GroundedAnswerDraft) (es : List EvidenceItem)
    (commit_sha : String) (a : DraftAnswerability)
    → is_answered a ≡ false
    → Verdict is_decimal draft es commit_sha (as_declared a, [])
as_declared-Verdict is_decimal draft es commit_sha DraftAnswerability.answered h =
    absurd (ground arith)
as_declared-Verdict is_decimal draft es commit_sha DraftAnswerability.insufficient_evidence h = refl
as_declared-Verdict is_decimal draft es commit_sha DraftAnswerability.unsupported_question h = refl

module _ (is_decimal : Char → Bool) (draft : GroundedAnswerDraft) (es : List EvidenceItem)
    (commit_sha : String) where
  abbrev pub ids : List String
  ids = unique draft.evidence_ids

  abbrev pub in_answer : List String
  in_answer = inline_ids is_decimal draft.answer

  -- The method returns, and with this verdict.
  abbrev pub Returns : Option (Answerability × List Citation) → Type 0
  Returns o =
      (r : Answerability × List Citation) × (o ≡ some r) × Verdict is_decimal draft es commit_sha r

  cites-Grounded :
      is_ungrounded es ids in_answer ≡ false
      → is_answered draft.answerability ≡ true
      → is_empty ids ≡ false
      → (cs : List Citation) × (cite_all es commit_sha ids ≡ some cs)
        × Grounded is_decimal draft es commit_sha cs
  cites-Grounded grounded ans full =
      let r = cite_all-known es commit_sha ids (ground arith) in
      let inside : all (λ i. any (str_eq i) ids) in_answer ≡ true = ground arith in
      (
        r.0,
        r.1,
        record {
          declared = ans;
          cited = r.2;
          some_citation = not_empty ids r.0 full r.2;
          resolved = r.3;
          inline = rw r.2 (all-All (λ i. any (str_eq i) ids) in_answer inside);
        },
      )

  -- For every draft, evidence, commit and class of digits, validate returns. If it returns answered, the
  -- draft declared an answer, the citations are in order exactly the draft's distinct ids and at least
  -- one, each copies an item of the server's evidence with the given commit, and every id that stands
  -- inline in the answer is cited. Otherwise it returns no citation, and neither partially_answered nor
  -- temporarily_unavailable.
  pub validate_sound : Returns (validate is_decimal draft es commit_sha)
  unfolding validate
  validate_sound =
      if_rule Returns (is_ungrounded es ids in_answer) _ _
        (λ _. ((Answerability.insufficient_evidence, []), refl, refl))
        (λ grounded.
          if_rule Returns (is_answered draft.answerability && is_empty ids) _ _
            (λ _. ((Answerability.insufficient_evidence, []), refl, refl))
            (λ some_ids.
              if_rule Returns (not (is_answered draft.answerability)) _ _
                (λ e. (
                  (as_declared draft.answerability, []),
                  refl,
                  as_declared-Verdict is_decimal draft es commit_sha draft.answerability
                      (ground arith),
                ))
                (λ e.
                  let r = cites-Grounded grounded (ground arith) (ground arith) in
                  ((Answerability.answered, r.0), rw r.1 refl, r.2))))
