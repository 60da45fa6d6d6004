-- ===== src/Agent/Cited.antt =====
-- The cited ids of a checked answer: cited_in_order of AgentQuestionService._finalize.
use code_naut.Prelude.{
  ◌≡◌, refl, sym, subst, inl, inr, String, true, false, not, List, [], ◌∷◌, arith, any, All,
  All-map, str_eq, eq_iff, Bool-cases,
}
use code_naut.Rag.Citations.{is_empty}
use code_naut.Agent.Model.{AgentEvidence, evidence_id}
use code_naut.Agent.State.{has_id, cited_in_order}

-- Every cited id is the id of an evidence.
pub cited-known :
    (es : List AgentEvidence) (ids : List String)
    → All (λ i. has_id es i ≡ true) (cited_in_order es ids)
cited-known [] ids = tt
cited-known (e ∷ es) ids =
    let rest : All (λ i. has_id (e ∷ es) i ≡ true) (cited_in_order es ids) =
      All-map (cited_in_order es ids) (λ i h. ground (arith, h)) (cited-known es ids) in
    elim (Bool-cases (any (str_eq (evidence_id e)) ids)) [
      | inl kept ↦
          let own = (eq_iff (evidence_id e) (evidence_id e)).1 refl in
          rw kept ((ground (arith, own)), rest)
      | inr left_out ↦ rw left_out rest
    ]

-- Where an id that was given is known, an id is cited.
cited_given :
    (es : List AgentEvidence) (ids : List String) (i : String)
    → has_id es i ≡ true
    → any (str_eq i) ids ≡ true
    → is_empty (cited_in_order es ids) ≡ false
cited_given [] ids i known given = absurd (ground (arith, known))
cited_given (e ∷ es) ids i known given = elim (Bool-cases (any (str_eq (evidence_id e)) ids)) [
  | inl kept ↦ rw kept refl
  | inr left_out ↦ rw left_out (elim (Bool-cases (str_eq (evidence_id e) i)) [
    | inl same ↦
        let given_too =
          subst (λ (x : String). any (str_eq x) ids ≡ true)
            (sym ((eq_iff (evidence_id e) i).0 same)) given in
        absurd (ground (arith, given_too, left_out))
    | inr other ↦ cited_given es ids i (ground (arith, other, known)) given
  ])
]

pub cited-some :
    (es : List AgentEvidence) (ids : List String)
    → is_empty ids ≡ false
    → any (λ i. not (has_id es i)) ids ≡ false
    → is_empty (cited_in_order es ids) ≡ false
cited-some es [] some_given known = absurd (ground (arith, some_given))
cited-some es (i ∷ ids) some_given known =
    let own = (eq_iff i i).1 refl in
    cited_given es (i ∷ ids) i (ground (arith, known)) (ground (arith, own))
