-- ===== src/CallGraph/Examples.antt =====
-- The theorem on call graphs at two functions of one file, the second of which calls the first.
use code_naut.Prelude.{
  ℕ, String, Bool, true, ◌≡◌, refl, Option, none, some, List, [], ◌∷◌, length, map,
}
use code_naut.Prelude.Sorting.{sort_by, insert_by}
use code_naut.Jobs.Model.{SymbolType}
use code_naut.Jobs.Results.{SymbolRecord}
use code_naut.CallGraph.Resolve.{ParsedFile, resolve, local_loop}
use code_naut.CallGraph.Build.{CallGraph, Identities, file_at, all_sites, build}
use code_naut.CallGraph.Counts.{Faithful, build-IsFaithful}

abbrev ids : Identities
ids = record {
  symbol_id = λ x. x.start_line;
  edge_id = λ caller fingerprint. caller;
  site_fingerprint = λ site. site.expression;
  graph_fingerprint = λ edges. "f";
  precedes = λ a b. true;
}

abbrev symbol : String → String → ℕ → SymbolRecord
symbol name qualified line = record {
  file_path = "a.py";
  language = "python";
  symbol_type = SymbolType.function;
  symbol_name = name;
  qualified_name = qualified;
  start_line = line;
  end_line = line;
  content_hash = "h";
  commit_sha = "c";
}

abbrev symbols : List SymbolRecord
symbols = symbol "f" "a.f" 1 ∷ symbol "g" "a.g" 5 ∷ []

abbrev files : List ParsedFile
files =
    record {
      file_path = "a.py";
      module_name = "a";
      imports = [];
      call_sites =
          record {
            file_path = "a.py";
            caller_qualified_name = "a.g";
            expression = "f";
            start_line = 6;
            end_line = 6;
            start_column = 4;
          }
          ∷ [];
    }
    ∷ []

abbrev is_identifier : String → Bool
is_identifier s = true

abbrev stem : String → String
stem path = "a"

abbrev callees : Option CallGraph → List (Option ℕ)
callees none = []
callees (some g) = map (λ e. e.callee_symbol_id) g.edges

calls_f : callees (build ids "c" is_identifier stem symbols files 10) ≡ some 1 ∷ []
unfolding build resolve local_loop file_at sort_by insert_by
calls_f = refl

build-IsFaithful_example :
    Faithful ids.symbol_id symbols
      (length (all_sites files))
      (build ids "c" is_identifier stem symbols files 10)
build-IsFaithful_example = build-IsFaithful ids "c" is_identifier stem symbols files 10
