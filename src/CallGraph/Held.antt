-- ===== src/CallGraph/Held.antt =====
-- The candidates of a call in PythonCallGraphBuilder._resolve (backend/app/indexing/call_graph.py).
use code_naut.Prelude.{
  ◌≡◌, refl, sym, subst, inl, inr, String, Bool, true, false, ◌||◌, Option, none, some, List, [],
  ◌∷◌, arith, all, keep_if, count_if, str_eq, eq_iff, Bool-cases, if◌then◌else◌,
}
use code_naut.Prelude.Table.{select, if_rule, select-passes}
use code_naut.Jobs.Model.{ResolutionType, Confidence}
use code_naut.Jobs.Results.{SymbolRecord}
use code_naut.Jobs.Graph.{is_probable, is_ambiguous, is_unresolved}
use Prim.Native.String.{◌++◌ as append}
use code_naut.CallGraph.Names.{split_dot, join_dot}
use code_naut.CallGraph.Resolve.{
  ParsedCallSite, ParsedFile, Resolution, is_named, is_method_named, unresolved_call, judged,
  matching, is_found, first_unique, local_candidates, direct_import_candidates, resolve_identifier,
  resolve_member, resolve_attribute, resolve_parts, resolve,
}

-- Another candidate for a call that resolved in this way: a method of the same name for a probable call,
-- a symbol of the same qualified name for an exact one.
abbrev pub rival_by : Bool → SymbolRecord → SymbolRecord → Bool
rival_by true c = is_method_named c.symbol_name
rival_by false c = is_named c.qualified_name

abbrev pub is_rival : ResolutionType → SymbolRecord → SymbolRecord → Bool
is_rival kind c = rival_by (is_probable kind) c

abbrev pub is_unsettled : ResolutionType → Bool
is_unsettled kind = is_ambiguous kind || is_unresolved kind

abbrev pub trust : ResolutionType → Confidence
trust kind = if is_probable kind then Confidence.medium else Confidence.high

-- A resolved call has a callee among the symbols without a rival; one that is not is ambiguous or
-- unresolved, with low confidence.
abbrev pub Held : List SymbolRecord → Option SymbolRecord → ResolutionType → Confidence → Type 0
Held symbols none kind confidence = (is_unsettled kind ≡ true) × (confidence ≡ Confidence.low)
Held symbols (some c) kind confidence =
    (select (is_rival kind c) symbols ≡ some c)
    × (count_if (is_rival kind c) symbols ≡ 1)
    × (is_unsettled kind ≡ false)
    × (confidence ≡ trust kind)

abbrev pub IsHeld : List SymbolRecord → Resolution → Type 0
IsHeld symbols r = Held symbols r.callee r.kind r.confidence

pub keep_if-none : {A : Type 0} (p : A → Bool) (xs : List A) → keep_if p xs ≡ [] → count_if p xs ≡ 0
keep_if-none p [] h = refl
keep_if-none p (x ∷ xs) h = elim (Bool-cases (p x)) [
  | inl e ↦ absurd (let k = rw e at h in ground (arith, k))
  | inr e ↦ rw e (keep_if-none p xs (rw e at h))
]

-- A filter that keeps one row keeps the row that a SELECT finds, and no other passes.
pub keep_if-one :
    {A : Type 0} (p : A → Bool) (xs : List A) (x : A)
    → keep_if p xs ≡ x ∷ []
    → (select p xs ≡ some x) × (count_if p xs ≡ 1)
unfolding select
keep_if-one p [] x h = absurd (ground (arith, h))
keep_if-one p (y ∷ xs) x h = elim (Bool-cases (p y)) [
  | inl e ↦
      let k : y ∷ keep_if p xs ≡ x ∷ [] = rw e at h in
      let same : y ≡ x = ground (arith, k) in
      let alone : keep_if p xs ≡ [] = ground (arith, k) in
      rw (e, same, keep_if-none p xs alone) (refl, refl)
  | inr e ↦ rw e (keep_if-one p xs x (rw e at h))
]

module _ (symbols : List SymbolRecord) where
  judged-named :
      (name : String) (kind : ResolutionType) (ms : List SymbolRecord)
      → keep_if (is_named name) symbols ≡ ms
      → is_probable kind ≡ false
      → is_unsettled kind ≡ false
      → IsHeld symbols (judged ms kind Confidence.high)
  judged-named name kind [] h exact resolved = (refl, refl)
  judged-named name kind (c ∷ []) h exact resolved =
      let found = keep_if-one (is_named name) symbols c h in
      let same : name ≡ c.qualified_name =
        sym ((eq_iff c.qualified_name name).0 (select-passes (is_named name) symbols found.0)) in
      let held : (select (is_named c.qualified_name) symbols ≡ some c)
          × (count_if (is_named c.qualified_name) symbols ≡ 1) =
        subst
          (λ (x : String).
            (select (is_named x) symbols ≡ some c) × (count_if (is_named x) symbols ≡ 1))
          same found in
      let goal : Held symbols (some c) kind Confidence.high =
        rw exact (held.0, held.1, resolved, refl) in
      goal
  judged-named name kind (c ∷ d ∷ ms) h exact resolved = (refl, refl)

  judged-method :
      (name : String) (ms : List SymbolRecord)
      → keep_if (is_method_named name) symbols ≡ ms
      → IsHeld symbols (judged ms ResolutionType.probable_method Confidence.medium)
  judged-method name [] h = (refl, refl)
  judged-method name (c ∷ []) h =
      let found = keep_if-one (is_method_named name) symbols c h in
      let named : str_eq c.symbol_name name ≡ true =
        let passes = select-passes (is_method_named name) symbols found.0 in
        ground (arith, passes) in
      let same : name ≡ c.symbol_name = sym ((eq_iff c.symbol_name name).0 named) in
      let held : (select (is_method_named c.symbol_name) symbols ≡ some c)
          × (count_if (is_method_named c.symbol_name) symbols ≡ 1) =
        subst
          (λ (x : String).
            (select (is_method_named x) symbols ≡ some c)
            × (count_if (is_method_named x) symbols ≡ 1))
          same found in
      (held.0, held.1, refl, refl)
  judged-method name (c ∷ d ∷ ms) h = (refl, refl)

  module _ (is_identifier : String → Bool) (stem : String → String) where
    first_unique-IsHeld :
        (names : List String) (kind : ResolutionType) (otherwise : Resolution)
        → is_probable kind ≡ false
        → is_unsettled kind ≡ false
        → IsHeld symbols otherwise
        → IsHeld symbols (first_unique is_identifier stem symbols names kind otherwise)
    first_unique-IsHeld [] kind otherwise exact resolved h = h
    first_unique-IsHeld (name ∷ names) kind otherwise exact resolved h =
        if_rule (IsHeld symbols)
          (is_found is_identifier stem symbols (keep_if (is_named name) symbols)) _ _
          (λ _. judged-named name kind _ refl exact resolved)
          (λ _. first_unique-IsHeld names kind otherwise exact resolved h)

    identifier-IsHeld :
        (expression : String) (caller : SymbolRecord) (f : ParsedFile)
        → IsHeld symbols (resolve_identifier is_identifier stem symbols expression caller f)
    identifier-IsHeld expression caller f =
        first_unique-IsHeld (local_candidates caller f.module_name expression)
          ResolutionType.exact_same_file
          (first_unique is_identifier stem symbols
            (direct_import_candidates is_identifier stem f f.imports expression)
            ResolutionType.exact_direct_import unresolved_call)
          refl refl
          (first_unique-IsHeld (direct_import_candidates is_identifier stem f f.imports expression)
            ResolutionType.exact_direct_import unresolved_call refl refl (refl, refl))

    member-IsHeld :
        (head : String) (parts : List String) (f : ParsedFile)
        → IsHeld symbols (resolve_member is_identifier stem symbols head parts f)
    member-IsHeld head parts f =
        if_rule (IsHeld symbols)
          (is_found is_identifier stem symbols (
            matching is_identifier stem symbols
              (append f.module_name (append "." (join_dot (head ∷ parts))))))
          _ _ (λ _. judged-named _ ResolutionType.exact_same_file _ refl refl refl)
          (λ _. judged-method _ _ refl)

    attribute-IsHeld :
        (head : String) (parts : List String) (caller : SymbolRecord) (f : ParsedFile)
        → IsHeld symbols (resolve_attribute is_identifier stem symbols head parts caller f)
    attribute-IsHeld head parts caller f =
        if_rule (IsHeld symbols) (str_eq head "self" || str_eq head "cls") _ _
          (λ _. judged-named _ ResolutionType.exact_same_file _ refl refl refl)
          (λ _.
            first_unique-IsHeld _ ResolutionType.qualified_module _ refl refl
              (member-IsHeld head parts f))

    parts-IsHeld :
        (parts : List String) (caller : SymbolRecord) (f : ParsedFile)
        → IsHeld symbols (resolve_parts is_identifier stem symbols parts caller f)
    parts-IsHeld [] caller f = (refl, refl)
    parts-IsHeld (head ∷ []) caller f = (refl, refl)
    parts-IsHeld (head ∷ next ∷ parts) caller f =
        if_rule (IsHeld symbols) (all is_identifier (head ∷ next ∷ parts)) _ _
          (λ _. attribute-IsHeld head (next ∷ parts) caller f) (λ _. (refl, refl))

    pub resolve-IsHeld :
        (site : ParsedCallSite) (caller : SymbolRecord) (f : ParsedFile)
        → IsHeld symbols (resolve is_identifier stem symbols site caller f)
    unfolding resolve
    resolve-IsHeld site caller f =
        if_rule (IsHeld symbols) (is_identifier site.expression) _ _
          (λ _. identifier-IsHeld site.expression caller f)
          (λ _. parts-IsHeld (split_dot site.expression) caller f)
