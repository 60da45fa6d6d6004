-- ===== src/Chunking/Examples.antt =====
-- The split of documentation lines at a concrete text.
use code_naut.Prelude.{ℕ, zero, suc, ◌≤◌, ◌≡◌, refl, String, some, List, [], ◌∷◌, arith, All}
use code_naut.Chunking.Lines.{
  line_slice, slice_bytes, split_loop, split_lines, pack_loop, pack_ranges,
}
use code_naut.Chunking.Packing.{Ascends, Small, pack_ranges-Ascends}
use code_naut.Chunking.Tiling.{Tiles, IsSmall, split_lines-Tiles, split_lines-some}

abbrev three_lines : List String
three_lines = "aa" ∷ "bbb" ∷ "c" ∷ []

split_three : split_lines 6 three_lines 1 3 ≡ some ((1, 2) ∷ (3, 3) ∷ [])
unfolding split_lines split_loop line_slice
split_three = refl

split_lines-Tiles_example :
    Tiles 1 ((1, 2) ∷ (3, 3) ∷ []) 3 × All (IsSmall 6 three_lines) ((1, 2) ∷ (3, 3) ∷ [])
split_lines-Tiles_example = split_lines-Tiles 6 three_lines 0 2 ((1, 2) ∷ (3, 3) ∷ []) split_three

short_lines : (line : ℕ) → 1 ≤ line → line ≤ 3 → slice_bytes three_lines line line ≤ 6
unfolding line_slice
short_lines zero low high = absurd (omega (arith, low))
short_lines (suc zero) low high = omega arith
short_lines (suc (suc zero)) low high = omega arith
short_lines (suc (suc (suc zero))) low high = omega arith
short_lines (suc (suc (suc (suc n)))) low high = absurd (omega (arith, high))

split_lines-some_example : (rs : List (ℕ × ℕ)) × (split_lines 6 three_lines 1 3 ≡ some rs)
split_lines-some_example = split_lines-some 6 three_lines 1 3 short_lines

pack_three : pack_ranges 6 three_lines ((1, 1) ∷ (2, 2) ∷ (3, 3) ∷ []) ≡ some ((1, 2) ∷ (3, 3) ∷ [])
unfolding pack_ranges pack_loop line_slice
pack_three = refl

pack_ranges-Ascends_example :
    Ascends 1 ((1, 2) ∷ (3, 3) ∷ []) 3 × Small 6 three_lines ((1, 2) ∷ (3, 3) ∷ [])
pack_ranges-Ascends_example =
    pack_ranges-Ascends 6 three_lines 0 3 ((1, 1) ∷ (2, 2) ∷ (3, 3) ∷ []) ((1, 2) ∷ (3, 3) ∷ [])
      (
        omega arith,
        omega arith,
        (omega arith, omega arith, (omega arith, omega arith, omega arith)),
      )
      pack_three
