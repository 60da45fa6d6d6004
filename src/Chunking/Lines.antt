-- ===== src/Chunking/Lines.antt =====
-- _pack_ranges, _split_lines and _line_slice of the documentation chunker in backend/app/indexing/chunking.py.
-- Line numbers begin at 1. `return None` is `none`.
use mathlib.Core.Option.{map as map_option}
use Prim.Native.String.{len, ◌++◌ as append}
use code_naut.Prelude.{
  ℕ, zero, suc, ◌-◌, String, Option, none, some, List, [], ◌∷◌, ◌++◌, ltb, leb, take, if◌then◌else◌,
}

abbrev pub drop : ℕ → List String → List String
drop zero xs = xs
drop (suc n) [] = []
drop (suc n) (x ∷ xs) = drop n xs

-- The lines with a line break between them.
abbrev pub join_lines : List String → String
join_lines [] = ""
join_lines (x ∷ []) = x
join_lines (x ∷ y ∷ ys) = append x (append "\n" (join_lines (y ∷ ys)))

unfoldable pub line_slice : List String → ℕ → ℕ → String
line_slice lines start_line end_line =
    join_lines (take (end_line - (start_line - 1)) (drop (start_line - 1) lines))

abbrev pub slice_bytes : List String → ℕ → ℕ → ℕ
slice_bytes lines start_line end_line = len (line_slice lines start_line end_line)

-- The loop, with the number of lines left.
unfoldable pub split_loop : ℕ → List String → ℕ → ℕ → List (ℕ × ℕ) → ℕ → ℕ → Option (List (ℕ × ℕ))
split_loop max_bytes lines zero line_number output start last =
    some (output ++ ((start, last) ∷ []))
split_loop max_bytes lines (suc left) line_number output start last =
    let is_full = ltb max_bytes (slice_bytes lines start line_number) in
    let rest =
      split_loop max_bytes lines left (suc line_number)
        (if is_full then output ++ ((start, last) ∷ []) else output)
        (if is_full then line_number else start) line_number in
    if ltb max_bytes (slice_bytes lines line_number line_number) then none else rest

unfoldable pub split_lines : ℕ → List String → ℕ → ℕ → Option (List (ℕ × ℕ))
split_lines max_bytes lines start_line end_line =
    split_loop max_bytes lines (suc end_line - start_line) start_line [] start_line start_line

-- The current range, split where it is too long.
abbrev pub flush : ℕ → List String → List (ℕ × ℕ) → ℕ → ℕ → Option (List (ℕ × ℕ))
flush max_bytes lines output start last =
    if ltb max_bytes (slice_bytes lines start last)
    then map_option (λ rs. output ++ rs) (split_lines max_bytes lines start last)
    else some (output ++ ((start, last) ∷ []))

abbrev pub and_then :
    Option (List (ℕ × ℕ)) → (List (ℕ × ℕ) → Option (List (ℕ × ℕ))) → Option (List (ℕ × ℕ))
and_then none k = none
and_then (some rs) k = k rs

unfoldable pub pack_loop :
    ℕ → List String → List (ℕ × ℕ) → List (ℕ × ℕ) → ℕ → ℕ → Option (List (ℕ × ℕ))
pack_loop max_bytes lines [] output start last = flush max_bytes lines output start last
pack_loop max_bytes lines (candidate ∷ pending) output start last =
    let joins = leb (slice_bytes lines start candidate.1) max_bytes in
    and_then (if joins then some output else flush max_bytes lines output start last) (λ next.
      pack_loop max_bytes lines pending next (if joins then start else candidate.0) candidate.1)

unfoldable pub pack_ranges : ℕ → List String → List (ℕ × ℕ) → Option (List (ℕ × ℕ))
pack_ranges max_bytes lines [] = some []
pack_ranges max_bytes lines (r ∷ rs) = pack_loop max_bytes lines rs [] r.0 r.1
