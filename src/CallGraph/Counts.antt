-- ===== src/CallGraph/Counts.antt =====
-- The graph that PythonCallGraphBuilder.build returns (backend/app/indexing/call_graph.py).
use code_naut.Prelude.{
  ℕ, suc, ◌+◌, ◌≡◌, refl, subst, String, Bool, not, ◌&&◌, Option, none, some, List, [], ◌∷◌, ◌++◌,
  arith, ltb, length, length-append, All, All-append, count_if, keep_if, is_some, is_none,
}
use code_naut.Prelude.Table.{select, if_rule}
use code_naut.Prelude.Sorting.{sort_by, sum_by, sum-sort, All-sort}
use code_naut.Jobs.Results.{SymbolRecord, CallEdgeRecord}
use code_naut.Jobs.Graph.{is_probable, is_ambiguous, is_unresolved}
use code_naut.CallGraph.Resolve.{ParsedCallSite, ParsedFile, Resolution, is_named, resolve}
use code_naut.CallGraph.Build.{
  CallGraph, Tally, Identities, of_bool, one, file_at, all_sites, name_unless, id_of, is_exact_call,
  edge_of, counted, visit_site, visit_sites, graph_of, no_edges, build,
}
use code_naut.CallGraph.Held.{Held, IsHeld, keep_if-one, resolve-IsHeld}

-- As validate_graph of the job store counts the stored edges.
abbrev pub is_exact_edge : CallEdgeRecord → Bool
is_exact_edge e = not (is_none e.callee_symbol_id) && not (is_probable e.resolution_type)

-- An edge from the only symbol of its caller's name, to a callee without a rival or to a name.
pub record Defended (symbol_id : SymbolRecord → ℕ) (symbols : List SymbolRecord)
    (e : CallEdgeRecord) : Type 0 where
  pub caller : SymbolRecord
  pub caller_name : String
  pub only_caller : count_if (is_named caller_name) symbols ≡ 1
  pub found_caller : select (is_named caller_name) symbols ≡ some caller
  pub caller_id : e.caller_symbol_id ≡ symbol_id caller
  pub callee : Option SymbolRecord
  pub callee_id : e.callee_symbol_id ≡ id_of symbol_id callee
  pub held : Held symbols callee e.resolution_type e.confidence
  pub named : e.unresolved_callee_name ≡ name_unless callee e.call_expression

-- The counts of a graph over so many call sites.
pub record IsFaithful (symbol_id : SymbolRecord → ℕ) (symbols : List SymbolRecord) (sites : ℕ)
    (g : CallGraph) : Type 0 where
  pub defended : All (Defended symbol_id symbols) g.edges
  pub sized : g.call_site_count ≡ length g.edges
  pub exact : g.exact_edge_count ≡ sum_by (λ e. of_bool (is_exact_edge e)) g.edges
  pub ambiguous :
      g.ambiguous_edge_count ≡ sum_by (λ e. of_bool (is_ambiguous e.resolution_type)) g.edges
  pub unresolved :
      g.unresolved_call_count ≡ sum_by (λ e. of_bool (is_unresolved e.resolution_type)) g.edges
  pub warned : g.warning_count + g.call_site_count ≡ g.ambiguous_edge_count + sites

abbrev pub Faithful : (SymbolRecord → ℕ) → List SymbolRecord → ℕ → Option CallGraph → Type 0
Faithful symbol_id symbols sites none = Unit
Faithful symbol_id symbols sites (some g) = IsFaithful symbol_id symbols sites g

sum-append :
    (f : CallEdgeRecord → ℕ) (xs : List CallEdgeRecord) (x : CallEdgeRecord)
    → sum_by f (xs ++ (x ∷ [])) ≡ sum_by f xs + f x
sum-append f [] x = omega arith
sum-append f (y ∷ xs) x = omega (arith, sum-append f xs x)

length-sum : (xs : List CallEdgeRecord) → length xs ≡ sum_by (λ _. 1) xs
length-sum [] = refl
length-sum (x ∷ xs) = omega (arith, length-sum xs)

module _ (ids : Identities) (commit_sha : String) (is_identifier : String → Bool)
    (stem : String → String) (symbols : List SymbolRecord) (files : List ParsedFile) where
  -- The invariant of the loop over the call sites.
  pub record IsTallied (sites : ℕ) (t : Tally) : Type 0 where
    pub defended : All (Defended ids.symbol_id symbols) t.edges
    pub exact : t.exact ≡ sum_by (λ e. of_bool (is_exact_edge e)) t.edges
    pub ambiguous : t.ambiguous ≡ sum_by (λ e. of_bool (is_ambiguous e.resolution_type)) t.edges
    pub unresolved : t.unresolved ≡ sum_by (λ e. of_bool (is_unresolved e.resolution_type)) t.edges
    pub all_seen : t.skipped + length t.edges ≡ sites

  same_exact :
      (r : Resolution) (site : ParsedCallSite) (caller : SymbolRecord)
      → of_bool (is_exact_edge (edge_of ids commit_sha site caller r)) ≡ of_bool (is_exact_call r)
  same_exact r site caller = exact_of r.callee
    where
      exact_of :
          (callee : Option SymbolRecord)
          → of_bool (not (is_none (id_of ids.symbol_id callee)) && not (is_probable r.kind))
            ≡ of_bool (is_some callee && not (is_probable r.kind))
      exact_of none = refl
      exact_of (some x) = refl

  skipped-IsTallied :
      (sites : ℕ) (t : Tally)
      → IsTallied sites t
      → IsTallied (suc sites) (record t { skipped = suc t.skipped })
  skipped-IsTallied sites t h = record {
    defended = h.defended;
    exact = h.exact;
    ambiguous = h.ambiguous;
    unresolved = h.unresolved;
    all_seen = let seen = h.all_seen in omega (arith, seen);
  }

  counted-IsTallied :
      (sites : ℕ) (t : Tally) (site : ParsedCallSite) (name : String) (caller : SymbolRecord)
      → (r : Resolution) → keep_if (is_named name) symbols ≡ caller ∷ []
      → IsHeld symbols r
      → IsTallied sites t
      → IsTallied (suc sites) (counted ids commit_sha site caller r t)
  counted-IsTallied sites t site name caller r found held h =
      let e = edge_of ids commit_sha site caller r in
      let only = keep_if-one (is_named name) symbols caller found in
      record {
        defended = All-append (Defended ids.symbol_id symbols) t.edges (e ∷ []) h.defended (
          record {
            caller = caller;
            caller_name = name;
            only_caller = only.1;
            found_caller = only.0;
            caller_id = refl;
            callee = r.callee;
            callee_id = refl;
            held = held;
            named = refl;
          },
          tt,
        );
        exact =
            let before = h.exact in
            let after = sum-append (λ x. of_bool (is_exact_edge x)) t.edges e in
            let same = same_exact r site caller in omega (arith, before, after, same);
        ambiguous =
            let before = h.ambiguous in
            let after = sum-append (λ x. of_bool (is_ambiguous x.resolution_type)) t.edges e in
            omega (arith, before, after);
        unresolved =
            let before = h.unresolved in
            let after = sum-append (λ x. of_bool (is_unresolved x.resolution_type)) t.edges e in
            omega (arith, before, after);
        all_seen =
            let before = h.all_seen in
            let longer = length-append t.edges (e ∷ []) in omega (arith, before, longer);
      }

  visit-IsTallied :
      (sites : ℕ) (t : Tally) (site : ParsedCallSite) (callers : List SymbolRecord)
      → (f : Option ParsedFile) → keep_if (is_named site.caller_qualified_name) symbols ≡ callers
      → IsTallied sites t
      → IsTallied
          (suc sites)
          (visit_site ids commit_sha is_identifier stem symbols files site (one callers) f t)
  visit-IsTallied sites t site [] f found h = skipped-IsTallied sites t h
  visit-IsTallied sites t site (c ∷ d ∷ cs) f found h = skipped-IsTallied sites t h
  visit-IsTallied sites t site (c ∷ []) none found h = skipped-IsTallied sites t h
  visit-IsTallied sites t site (c ∷ []) (some f) found h =
      counted-IsTallied sites t site site.caller_qualified_name c
        (resolve is_identifier stem symbols site c f) found
        (resolve-IsHeld symbols is_identifier stem site c f) h

  sites-IsTallied :
      (seen : ℕ) (sites : List ParsedCallSite) (t : Tally)
      → IsTallied seen t
      → IsTallied
          (seen + length sites)
          (visit_sites ids commit_sha is_identifier stem symbols files sites t)
  sites-IsTallied seen [] t h = record {
    defended = h.defended;
    exact = h.exact;
    ambiguous = h.ambiguous;
    unresolved = h.unresolved;
    all_seen = let before = h.all_seen in omega (arith, before);
  }
  sites-IsTallied seen (site ∷ sites) t h =
      let rest =
        sites-IsTallied (suc seen) sites _
          (visit-IsTallied seen t site _ (file_at files site.file_path) refl h) in
      record {
        defended = rest.defended;
        exact = rest.exact;
        ambiguous = rest.ambiguous;
        unresolved = rest.unresolved;
        all_seen = let after = rest.all_seen in omega (arith, after);
      }

  graph-IsFaithful :
      (sites : ℕ) (t : Tally)
      → IsTallied sites t
      → IsFaithful ids.symbol_id symbols sites
          (graph_of ids commit_sha is_identifier stem symbols files t)
  graph-IsFaithful sites t h = record {
    defended = All-sort ids.precedes (Defended ids.symbol_id symbols) t.edges h.defended;
    sized = refl;
    exact =
        let before = h.exact in
        let same = sum-sort ids.precedes (λ e. of_bool (is_exact_edge e)) t.edges in
        omega (arith, before, same);
    ambiguous =
        let before = h.ambiguous in
        let same = sum-sort ids.precedes (λ e. of_bool (is_ambiguous e.resolution_type)) t.edges in
        omega (arith, before, same);
    unresolved =
        let before = h.unresolved in
        let same = sum-sort ids.precedes (λ e. of_bool (is_unresolved e.resolution_type)) t.edges in
        omega (arith, before, same);
    warned =
        let seen = h.all_seen in
        let same = sum-sort ids.precedes (λ _. 1) t.edges in
        let sorted = length-sum (sort_by ids.precedes t.edges) in
        let unsorted = length-sum t.edges in omega (arith, seen, same, sorted, unsorted);
  }

  -- Where the call sites are within the limit, every edge of the graph goes from the only symbol
  -- of its caller's qualified name, and to a callee that is the only symbol of its qualified name
  -- (for a probable call the only method of its name), with high confidence (medium for a
  -- probable call), or to a name with low confidence, as ambiguous or unresolved; the counts of
  -- sites, of exact, ambiguous and unresolved calls are those of the edges as the job store
  -- counts them, and the warnings are the ambiguous calls and the sites without an edge.
  pub build-IsFaithful :
      (max_total_call_sites : ℕ)
      → Faithful ids.symbol_id symbols
          (length (all_sites files))
          (build ids commit_sha is_identifier stem symbols files max_total_call_sites)
  unfolding build
  build-IsFaithful max_total_call_sites =
      if_rule (Faithful ids.symbol_id symbols (length (all_sites files)))
        (ltb max_total_call_sites (length (all_sites files))) _ _ (λ _. tt)
        (λ _.
          let t =
            visit_sites ids commit_sha is_identifier stem symbols files (all_sites files)
              (no_edges ids commit_sha is_identifier stem symbols files) in
          graph-IsFaithful (length (all_sites files)) t (
            subst (λ (n : ℕ). IsTallied n t) (omega arith)
              (sites-IsTallied 0 (all_sites files)
                (no_edges ids commit_sha is_identifier stem symbols files)
                (record {
                  defended = tt;
                  exact = refl;
                  ambiguous = refl;
                  unresolved = refl;
                  all_seen = refl;
                }))))
