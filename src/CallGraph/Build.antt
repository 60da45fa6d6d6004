-- ===== src/CallGraph/Build.antt =====
-- PythonCallGraphBuilder.build (backend/app/indexing/call_graph.py). UUIDv5, SHA-256 and the order of
-- the sort key, which compares texts, are arguments; `none` is the IndexingError on too many call sites.
use code_naut.Prelude.{
  ℕ, suc, ◌+◌, String, Bool, true, false, not, ◌&&◌, Option, none, some, List, [], ◌∷◌, ◌++◌, ltb,
  length, is_some, str_eq, if◌then◌else◌,
}
use code_naut.Prelude.Sorting.{sort_by}
use code_naut.Jobs.Results.{SymbolRecord, CallEdgeRecord}
use code_naut.Jobs.Graph.{is_probable, is_ambiguous, is_unresolved}
use code_naut.CallGraph.Resolve.{ParsedCallSite, ParsedFile, Resolution, matching, resolve}

pub record CallGraph : Type 0 where
  pub edges : List CallEdgeRecord
  pub call_site_count : ℕ
  pub exact_edge_count : ℕ
  pub ambiguous_edge_count : ℕ
  pub unresolved_call_count : ℕ
  pub warning_count : ℕ
  pub fingerprint : String

-- The variables of the loop, with the edges in the order in which they are made.
pub record Tally : Type 0 where
  pub edges : List CallEdgeRecord
  pub ambiguous : ℕ
  pub unresolved : ℕ
  pub exact : ℕ
  pub skipped : ℕ

-- What the ids and digests are made by.
pub record Identities : Type 0 where
  pub symbol_id : SymbolRecord → ℕ
  pub edge_id : ℕ → String → ℕ
  pub site_fingerprint : ParsedCallSite → String
  pub graph_fingerprint : List CallEdgeRecord → String
  pub precedes : CallEdgeRecord → CallEdgeRecord → Bool

abbrev pub of_bool : Bool → ℕ
of_bool true = 1
of_bool false = 0

-- _one
abbrev pub one : List SymbolRecord → Option SymbolRecord
one (x ∷ []) = some x
one _ = none

-- The dict of files by path: a later file replaces an earlier one.
unfoldable pub file_at : List ParsedFile → String → Option ParsedFile
file_at [] path = none
file_at (f ∷ fs) path = later (file_at fs path) f path
  where
    later : Option ParsedFile → ParsedFile → String → Option ParsedFile
    later (some g) f path = some g
    later none f path = if str_eq f.file_path path then some f else none

abbrev pub all_sites : List ParsedFile → List ParsedCallSite
all_sites [] = []
all_sites (f ∷ fs) = f.call_sites ++ all_sites fs

abbrev pub name_unless : Option SymbolRecord → String → Option String
name_unless none expression = some expression
name_unless (some x) expression = none

abbrev pub id_of : (SymbolRecord → ℕ) → Option SymbolRecord → Option ℕ
id_of symbol_id none = none
id_of symbol_id (some x) = some (symbol_id x)

-- An edge that counts as exact.
abbrev pub is_exact_call : Resolution → Bool
is_exact_call r = is_some r.callee && not (is_probable r.kind)

module _ (ids : Identities) (commit_sha : String) where
  abbrev pub edge_of : ParsedCallSite → SymbolRecord → Resolution → CallEdgeRecord
  edge_of site caller r = record {
    id = ids.edge_id (ids.symbol_id caller) (ids.site_fingerprint site);
    caller_symbol_id = ids.symbol_id caller;
    callee_symbol_id = id_of ids.symbol_id r.callee;
    unresolved_callee_name = name_unless r.callee site.expression;
    file_path = site.file_path;
    call_line = site.start_line;
    call_end_line = site.end_line;
    call_expression = site.expression;
    call_site_fingerprint = ids.site_fingerprint site;
    resolution_type = r.kind;
    confidence = r.confidence;
    commit_sha = commit_sha;
  }

  abbrev pub counted : ParsedCallSite → SymbolRecord → Resolution → Tally → Tally
  counted site caller r t = record {
    edges = t.edges ++ (edge_of site caller r ∷ []);
    ambiguous = t.ambiguous + of_bool (is_ambiguous r.kind);
    unresolved = t.unresolved + of_bool (is_unresolved r.kind);
    exact = t.exact + of_bool (is_exact_call r);
    skipped = t.skipped;
  }

  module _ (is_identifier : String → Bool) (stem : String → String) (symbols : List SymbolRecord)
      (files : List ParsedFile) where
    abbrev pub visit_site : ParsedCallSite → Option SymbolRecord → Option ParsedFile → Tally → Tally
    visit_site site (some caller) (some f) t =
        counted site caller (resolve is_identifier stem symbols site caller f) t
    visit_site site none f t = record t { skipped = suc t.skipped }
    visit_site site (some caller) none t = record t { skipped = suc t.skipped }

    abbrev pub visit_sites : List ParsedCallSite → Tally → Tally
    visit_sites [] t = t
    visit_sites (site ∷ sites) t = visit_sites sites (
        visit_site site (one (matching is_identifier stem symbols site.caller_qualified_name))
          (file_at files site.file_path) t)

    abbrev pub graph_of : Tally → CallGraph
    graph_of t =
        let ordered = sort_by ids.precedes t.edges in
        record {
          edges = ordered;
          call_site_count = length ordered;
          exact_edge_count = t.exact;
          ambiguous_edge_count = t.ambiguous;
          unresolved_call_count = t.unresolved;
          warning_count = t.ambiguous + t.skipped;
          fingerprint = ids.graph_fingerprint ordered;
        }

    abbrev pub no_edges : Tally
    no_edges = record { edges = []; ambiguous = 0; unresolved = 0; exact = 0; skipped = 0 }

    -- build
    unfoldable pub build : ℕ → Option CallGraph
    build max_total_call_sites =
        if ltb max_total_call_sites (length (all_sites files))
        then none
        else some (graph_of (visit_sites (all_sites files) no_edges))
