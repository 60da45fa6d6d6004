-- ===== src/Jobs/Trace/Content.antt =====
-- The symbols and call edges that a repository serves.
use mathlib.Core.List.{append-nil}
use code_naut.Prelude.{
  ℕ, ◌+◌, String, ◌≡◌, refl, Bool, true, false, not, ◌&&◌, some, List, ◌++◌, map, ◌==◌, ==→≡, arith,
  keep_if, Bool-cases, inl, inr,
}
use code_naut.Prelude.Table.{
  select, if_found_rule, if_rule, select-passes, select-All, delete_where,
}
use code_naut.Prelude.Counting.{keep_if-delete_where, keep_if-append, keep_if-map_none}
use code_naut.Jobs.Model.{Repository, Build, Settings, Db, Commits, ClaimedJob}
use code_naut.Jobs.Rows.{symbol_at, edge_at, delete_symbols, leased, repository_at, build_at}
use code_naut.Jobs.Results.{SymbolRecord, CallEdgeRecord, Discovery, Processing}
use code_naut.Jobs.Prepare.{
  prepare_build, symbol_row, edge_row, mismatched, next_version, is_foreign,
}
use code_naut.Jobs.Cleanup.{
  record_failed_build_cleanup, complete_superseded_cleanup, can_cleanup_inactive, inactive_at,
}
use code_naut.Jobs.Index.{version_of, IsTruthful}
use code_naut.Jobs.Index.Prepare.{version_of-select}
use code_naut.Jobs.Trace.Serving.{ServesTruly}

-- What a version's readers see is the same.
pub record SameContent (r v : ℕ) (a b : Db) : Type 0 where
  pub symbols : keep_if (symbol_at r v) b.symbols ≡ keep_if (symbol_at r v) a.symbols
  pub edges : keep_if (edge_at r v) b.edges ≡ keep_if (edge_at r v) a.edges

pub SameContent-refl : (r v : ℕ) (a : Db) → SameContent r v a a
SameContent-refl r v a = record { symbols = refl; edges = refl }

-- A version other than the one deleted keeps its rows.
module _ (r v i k : ℕ) (apart : ((i == r) && (k == v)) ≡ false) (db : Db) where
  symbols_apart :
      keep_if (symbol_at r v) (delete_where (symbol_at i k) db.symbols)
      ≡ keep_if (symbol_at r v) db.symbols
  symbols_apart =
      keep_if-delete_where (symbol_at r v) (symbol_at i k) db.symbols (λ x h. ground arith)

  edges_apart :
      keep_if (edge_at r v) (delete_where (edge_at i k) db.edges) ≡ keep_if (edge_at r v) db.edges
  edges_apart = keep_if-delete_where (edge_at r v) (edge_at i k) db.edges (λ x h. ground arith)

  delete_symbols-SameContent : SameContent r v db (delete_symbols i k db)
  unfolding delete_symbols
  delete_symbols-SameContent = record { symbols = symbols_apart; edges = edges_apart }

  -- New rows of that other version are not seen either.
  inserted_symbols :
      (ids : ℕ → ℕ → SymbolRecord → ℕ) (news : List SymbolRecord)
      → keep_if
          (symbol_at r v)
          (delete_where (symbol_at i k) db.symbols ++ map (symbol_row ids i k) news)
        ≡ keep_if (symbol_at r v) db.symbols
  unfolding symbol_row
  inserted_symbols ids news =
      rw
        (
          keep_if-append (symbol_at r v) (delete_where (symbol_at i k) db.symbols)
              (map (symbol_row ids i k) news),
          keep_if-map_none (symbol_at r v) (symbol_row ids i k) news (λ y. apart),
          append-nil,
        )
        symbols_apart

  inserted_edges :
      (news : List CallEdgeRecord)
      → keep_if (edge_at r v) (delete_where (edge_at i k) db.edges ++ map (edge_row i k) news)
        ≡ keep_if (edge_at r v) db.edges
  unfolding edge_row
  inserted_edges news =
      rw
        (
          keep_if-append (edge_at r v) (delete_where (edge_at i k) db.edges)
              (map (edge_row i k) news),
          keep_if-map_none (edge_at r v) (edge_row i k) news (λ y. apart),
          append-nil,
        )
        edges_apart

-- The version after the served one is another.
served-ne-next :
    (r v : ℕ) (x : Repository) (k : ℕ) (xs : List Repository)
    → version_of r xs ≡ some v
    → version_of x.id xs ≡ some x.index_version
    → k ≡ x.index_version + 1
    → ((x.id == r) && (k == v)) ≡ false
served-ne-next r v x k xs served here next = elim (Bool-cases (x.id == r)) [
  | inl e ↦ ground (arith, ==→≡ x.id r e)
  | inr e ↦ rw e
]

module _ (r v : ℕ) (db : Db) (inv : ServesTruly db)
    (served : version_of r db.repositories ≡ some v) where
  abbrev Same : Db → Type 0
  Same = SameContent r v db

  pub prepare_build-SameContent :
      (ids : ℕ → ℕ → SymbolRecord → ℕ) (s : Settings) (c : ClaimedJob) (w sha : String)
      (d : Discovery) (p : Processing) (fingerprint : String)
      → Commits Same (prepare_build ids s c w sha d p fingerprint db)
  unfolding prepare_build
  prepare_build-SameContent ids s c w sha d p fingerprint =
      if_rule (Commits Same) (mismatched c sha p) _ _ (λ _. tt)
        λ _.
          if_found_rule (Commits Same) (select (leased c w) db.jobs) _ _ (λ _. tt)
            λ j _.
              if_found_rule (Commits Same) (select (repository_at j.repository_id) db.repositories)
                _ _ (λ _. tt)
                λ x here.
                  if_rule (Commits Same)
                    (next_version j x p
                      && not (is_foreign c (select (build_at x.id p.index_version) db.builds)))
                    _ _
                    (λ ok.
                      let apart =
                        served-ne-next r v x p.index_version db.repositories served
                          (version_of-select j.repository_id db.repositories x here)
                          (ground arith) in
                      record {
                        symbols = inserted_symbols r v x.id p.index_version apart db ids p.symbols;
                        edges = inserted_edges r v x.id p.index_version apart db p.call_edges;
                      })
                    (λ _. tt)

  -- A failed build that is cleaned up is not the served one.
  inactive_apart :
      (i k : ℕ) (b : Build)
      → select (inactive_at i k) db.builds ≡ some b
      → ((i == r) && (k == v)) ≡ false
  inactive_apart i k b found = ground (
    arith,
    served,
    select-passes (inactive_at i k) db.builds found,
    select-All (IsTruthful db.repositories) (inactive_at i k) db.builds b inv.truthful found,
    ==→≡ i r,
    ==→≡ b.repository_id i,
  )

  pub record_failed_build_cleanup-SameContent :
      (i k : ℕ) (done : Bool) (now : ℕ) → Same (record_failed_build_cleanup i k done now db)
  unfolding record_failed_build_cleanup
  record_failed_build_cleanup-SameContent i k true now =
      if_found_rule Same (select (inactive_at i k) db.builds) _ _ (λ _. SameContent-refl r v db)
        λ b found.
          let apart = inactive_apart i k b found in
          record { symbols = symbols_apart r v i k apart db; edges = edges_apart r v i k apart db }
  record_failed_build_cleanup-SameContent i k false now =
      if_found_rule Same (select (inactive_at i k) db.builds) _ _ (λ _. SameContent-refl r v db)
        (λ _ _. record { symbols = refl; edges = refl })

  pub complete_superseded_cleanup-SameContent :
      (i k now : ℕ) → Commits Same (complete_superseded_cleanup i k now db)
  unfolding complete_superseded_cleanup version_of
  complete_superseded_cleanup-SameContent i k now =
      if_rule (Commits Same) (can_cleanup_inactive i k db) _ _
        (λ may.
          let apart = cleanup_apart may in
          record { symbols = symbols_apart r v i k apart db; edges = edges_apart r v i k apart db })
        (λ _. tt)
    where
      cleanup_apart : can_cleanup_inactive i k db ≡ true → ((i == r) && (k == v)) ≡ false
      cleanup_apart may = elim (Bool-cases (i == r)) [
        | inl e ↦
            let same : version_of i db.repositories ≡ some v = rw (==→≡ i r e) served in
            ground (arith, same)
        | inr e ↦ rw e
      ]
