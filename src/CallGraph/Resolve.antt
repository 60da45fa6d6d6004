-- ===== src/CallGraph/Resolve.antt =====
-- PythonCallGraphBuilder._resolve and what it calls (backend/app/indexing/call_graph.py). The test of an
-- identifier and the stem of a path are Python's.
use Prim.Native.String.{◌++◌ as append}
use code_naut.Prelude.{
  ℕ, zero, suc, ◌-◌, String, Bool, true, false, not, ◌&&◌, ◌||◌, ◌==◌, Option, none, some, List, [],
  ◌∷◌, ◌++◌, all, length, keep_if, take, is_none, str_eq, if◌then◌else◌,
}
use code_naut.Jobs.Model.{ResolutionType, Confidence, SymbolType}
use code_naut.Jobs.Results.{SymbolRecord}
use code_naut.CallGraph.Names.{
  before_last_dot, is_blank, split_dot, join_dot, nonblank, strip_dots, starts_with, or_text,
  last_from, size,
}

pub record ImportAlias : Type 0 where
  pub name : String
  pub alias : Option String

pub record ParsedImport : Type 0 where
  pub module_name : Option String
  pub relative_level : ℕ
  pub names : List ImportAlias

pub record ParsedCallSite : Type 0 where
  pub file_path : String
  pub caller_qualified_name : String
  pub expression : String
  pub start_line : ℕ
  pub end_line : ℕ
  pub start_column : ℕ

pub record ParsedFile : Type 0 where
  pub file_path : String
  pub module_name : String
  pub imports : List ParsedImport
  pub call_sites : List ParsedCallSite

pub record Resolution : Type 0 where
  pub callee : Option SymbolRecord
  pub kind : ResolutionType
  pub confidence : Confidence

-- The lookups in the groups of _group, over all symbols.
abbrev pub is_named : String → SymbolRecord → Bool
is_named name x = str_eq x.qualified_name name

abbrev pub is_method : SymbolType → Bool
is_method SymbolType.method = true
is_method _ = false

abbrev pub is_method_named : String → SymbolRecord → Bool
is_method_named name x = str_eq x.symbol_name name && is_method x.symbol_type

abbrev pub unresolved_call : Resolution
unresolved_call = record {
  callee = none;
  kind = ResolutionType.unresolved;
  confidence = Confidence.low;
}

abbrev pub ambiguous_call : Resolution
ambiguous_call = record {
  callee = none;
  kind = ResolutionType.ambiguous;
  confidence = Confidence.low;
}

-- One match resolves, more are ambiguous.
abbrev pub judged : List SymbolRecord → ResolutionType → Confidence → Resolution
judged [] kind confidence = unresolved_call
judged (x ∷ []) kind confidence = record { callee = some x; kind = kind; confidence = confidence }
judged (x ∷ _ ∷ _) kind confidence = ambiguous_call

-- _exact_or_ambiguous
abbrev pub exact_or_ambiguous : List SymbolRecord → ResolutionType → Resolution
exact_or_ambiguous matches kind = judged matches kind Confidence.high

abbrev pub is_within : String → String → Bool
is_within module_name parent =
    not (is_blank parent)
    && (str_eq parent module_name || starts_with (append module_name ".") parent)

-- The loop of _local_candidates.
unfoldable pub local_loop : ℕ → String → String → String → List String
local_loop zero module_name target parent = []
local_loop (suc fuel) module_name target parent =
    let rest = local_loop fuel module_name target (before_last_dot parent) in
    if is_within module_name parent
    then append parent (append "." target) ∷ (if str_eq parent module_name then [] else rest)
    else []

abbrev pub local_candidates : SymbolRecord → String → String → List String
local_candidates caller module_name target =
    local_loop (suc (size caller.qualified_name)) module_name target caller.qualified_name

abbrev pub is_plain : ParsedImport → Bool
is_plain i = is_none i.module_name && i.relative_level == 0

abbrev pub bound_name : ImportAlias → String
bound_name x = or_text x.alias x.name

abbrev pub is_binding_of : String → ImportAlias → Bool
is_binding_of target x = not (str_eq x.name "*") && str_eq (bound_name x) target

module _ (is_identifier : String → Bool) (stem : String → String) where
  -- _absolute_module
  abbrev pub absolute_module : ParsedFile → ParsedImport → String
  absolute_module f i =
      if i.relative_level == 0
      then or_text i.module_name ""
      else (let parent_module =
            if str_eq (stem f.file_path) "__init__"
            then f.module_name
            else before_last_dot f.module_name in
          let parts = if is_blank parent_module then [] else split_dot parent_module in
          let kept = take (length parts - (i.relative_level - 1)) parts in
          strip_dots (join_dot (kept ++ split_dot (or_text i.module_name ""))))

  abbrev pub direct_names : String → String → List ImportAlias → List String
  direct_names module_name target [] = []
  direct_names module_name target (x ∷ xs) =
      let rest = direct_names module_name target xs in
      if is_binding_of target x
      then join_dot (nonblank (module_name ∷ x.name ∷ [])) ∷ rest
      else rest

  -- _direct_import_candidates
  abbrev pub direct_import_candidates : ParsedFile → List ParsedImport → String → List String
  direct_import_candidates f [] target = []
  direct_import_candidates f (i ∷ is) target =
      let rest = direct_import_candidates f is target in
      if is_plain i then rest else direct_names (absolute_module f i) target i.names ++ rest

  abbrev pub first_part : List String → String
  first_part [] = ""
  first_part (part ∷ _) = part

  -- `imported.alias or imported.name.split(".")[0]`, and the base of the candidate.
  abbrev pub plain_binding : ImportAlias → String
  plain_binding x = or_text x.alias (first_part (split_dot x.name))

  abbrev pub plain_base : ImportAlias → String → String
  plain_base x head = if is_blank (or_text x.alias "") then head else x.name

  abbrev pub plain_names : String → List String → List ImportAlias → List String
  plain_names head parts [] = []
  plain_names head parts (x ∷ xs) =
      let rest = plain_names head parts xs in
      if str_eq (plain_binding x) head then join_dot (plain_base x head ∷ parts) ∷ rest else rest

  abbrev pub from_names : String → String → List String → List ImportAlias → List String
  from_names module_name head parts [] = []
  from_names module_name head parts (x ∷ xs) =
      let rest = from_names module_name head parts xs in
      if is_binding_of head x
      then join_dot (nonblank (module_name ∷ x.name ∷ parts)) ∷ rest
      else rest

  -- _qualified_import_candidates, with the parts after the first.
  abbrev pub qualified_import_candidates :
      ParsedFile → List ParsedImport → String → List String → List String
  qualified_import_candidates f [] head parts = []
  qualified_import_candidates f (i ∷ is) head parts =
      let rest = qualified_import_candidates f is head parts in
      (if is_plain i
        then plain_names head parts i.names
        else from_names (absolute_module f i) head parts i.names)
      ++ rest

  module _ (symbols : List SymbolRecord) where
    abbrev pub matching : String → List SymbolRecord
    matching name = keep_if (is_named name) symbols

    abbrev pub methods_named : String → List SymbolRecord
    methods_named name = keep_if (is_method_named name) symbols

    abbrev pub is_found : List SymbolRecord → Bool
    is_found [] = false
    is_found (_ ∷ _) = true

    -- _first_unique, and what is done with the matches of the first candidate that has any.
    abbrev pub first_unique : List String → ResolutionType → Resolution → Resolution
    first_unique [] kind otherwise = otherwise
    first_unique (name ∷ names) kind otherwise =
        let rest = first_unique names kind otherwise in
        if is_found (matching name) then exact_or_ambiguous (matching name) kind else rest

    -- _resolve_identifier
    abbrev pub resolve_identifier : String → SymbolRecord → ParsedFile → Resolution
    resolve_identifier expression caller f =
        first_unique (local_candidates caller f.module_name expression)
          ResolutionType.exact_same_file
          (first_unique (direct_import_candidates f f.imports expression)
            ResolutionType.exact_direct_import unresolved_call)

    -- What _resolve_attribute tries after the imports.
    abbrev pub resolve_member : String → List String → ParsedFile → Resolution
    resolve_member head parts f =
        let name = append f.module_name (append "." (join_dot (head ∷ parts))) in
        if is_found (matching name)
        then exact_or_ambiguous (matching name) ResolutionType.exact_same_file
        else judged (methods_named (last_from head parts)) ResolutionType.probable_method
            Confidence.medium

    -- _resolve_attribute, with the parts after the first.
    abbrev pub resolve_attribute : String → List String → SymbolRecord → ParsedFile → Resolution
    resolve_attribute head parts caller f =
        if str_eq head "self" || str_eq head "cls"
        then exact_or_ambiguous
            (matching
              (append (before_last_dot caller.qualified_name) (append "." (last_from head parts))))
            ResolutionType.exact_same_file
        else first_unique (qualified_import_candidates f f.imports head parts)
            ResolutionType.qualified_module (resolve_member head parts f)

    abbrev pub resolve_parts : List String → SymbolRecord → ParsedFile → Resolution
    resolve_parts [] caller f = unresolved_call
    resolve_parts (head ∷ []) caller f = unresolved_call
    resolve_parts (head ∷ next ∷ parts) caller f =
        if all is_identifier (head ∷ next ∷ parts)
        then resolve_attribute head (next ∷ parts) caller f
        else unresolved_call

    -- _resolve
    unfoldable pub resolve : ParsedCallSite → SymbolRecord → ParsedFile → Resolution
    resolve site caller f =
        if is_identifier site.expression
        then resolve_identifier site.expression caller f
        else resolve_parts (split_dot site.expression) caller f
