-- ===== src/Chunking/Packing.antt =====
-- The ranges that packing paragraphs gives.
use code_naut.Prelude.{
  ℕ, zero, suc, ◌+◌, ◌-◌, ◌≤◌, String, ◌≡◌, refl, subst, inl, inr, Option, none, some, List, [],
  ◌∷◌, ◌++◌, arith, ltb, leb, All, All-append, Bool-cases, ◌⊎◌,
}
use code_naut.Chunking.Lines.{slice_bytes, split_lines, flush, pack_loop, pack_ranges}
use code_naut.Chunking.Tiling.{Tiles, IsSmall, split_lines-Tiles}

-- The ranges lie between the lines, in order and without overlap.
abbrev pub Ascends : ℕ → List (ℕ × ℕ) → ℕ → Type 0
Ascends low [] high = low ≤ suc high
Ascends low (r ∷ rs) high = (low ≤ r.0) × (r.0 ≤ r.1) × Ascends (suc r.1) rs high

Ascends-lower :
    (low more : ℕ) (rs : List (ℕ × ℕ)) (high : ℕ)
    → low ≤ more
    → Ascends more rs high
    → Ascends low rs high
Ascends-lower low more [] high h a = omega (arith, h, a)
Ascends-lower low more (r ∷ rs) high h a = (omega (arith, h, a.0), a.1, a.2)

Ascends-raise :
    (low : ℕ) (rs : List (ℕ × ℕ)) (p high : ℕ) → p ≤ high → Ascends low rs p → Ascends low rs high
Ascends-raise low [] p high h a = omega (arith, h, a)
Ascends-raise low (r ∷ rs) p high h a = (a.0, a.1, Ascends-raise (suc r.1) rs p high h a.2)

Ascends-append :
    (low p : ℕ) (xs ys : List (ℕ × ℕ)) (high : ℕ)
    → Ascends low xs p
    → Ascends (suc p) ys high
    → Ascends low (xs ++ ys) high
Ascends-append low p [] ys high a b = Ascends-lower low (suc p) ys high a b
Ascends-append low p (x ∷ xs) ys high a b = (a.0, a.1, Ascends-append (suc x.1) p xs ys high a.2 b)

Tiles-Ascends : (low : ℕ) (rs : List (ℕ × ℕ)) (high : ℕ) → Tiles low rs high → Ascends low rs high
Tiles-Ascends low [] high t = omega (arith, t)
Tiles-Ascends low (r ∷ rs) high t = (omega (arith, t.0), t.1, Tiles-Ascends (suc r.1) rs high t.2)

found_ranges : (o : Option (List (ℕ × ℕ))) → (o ≡ none) ⊎ ((rs : List (ℕ × ℕ)) × (o ≡ some rs))
found_ranges none = inl refl
found_ranges (some rs) = inr (rs, refl)

module _ (max_bytes : ℕ) (lines : List String) where
  abbrev pub Small : List (ℕ × ℕ) → Type 0
  Small rs = All (IsSmall max_bytes lines) rs

  -- The output so far ends before the line p + 1, where the current range begins.
  flush-Ascends :
      (low p n : ℕ) (output rs : List (ℕ × ℕ))
      → Ascends low output p
      → Small output
      → flush max_bytes lines output (suc p) (suc p + n) ≡ some rs
      → Ascends low rs (suc p + n) × Small rs
  flush-Ascends low p n output rs a small e =
      elim (Bool-cases (ltb max_bytes (slice_bytes lines (suc p) (suc p + n)))) [
        | inl long ↦ elim (found_ranges (split_lines max_bytes lines (suc p) (suc p + n))) [
          | inl q ↦ absurd (ground (arith, rw (long, q) at e))
          | inr found ↦
              let parts = split_lines-Tiles max_bytes lines p n found.0 found.1 in
              let e' : some (output ++ found.0) ≡ some rs = rw (long, found.1) at e in
              let q : output ++ found.0 ≡ rs = ground (arith, e') in
              subst (λ xs. Ascends low xs (suc p + n) × Small xs) q
                (
                  Ascends-append low p output found.0 (suc p + n) a
                      (Tiles-Ascends (suc p) found.0 (suc p + n) parts.0),
                  All-append (IsSmall max_bytes lines) output found.0 small parts.1,
                )
        ]
        | inr short ↦
            let e' : some (output ++ ((suc p, suc p + n) ∷ [])) ≡ some rs = rw short at e in
            let q : output ++ ((suc p, suc p + n) ∷ []) ≡ rs = ground (arith, e') in
            subst (λ xs. Ascends low xs (suc p + n) × Small xs) q
              (
                Ascends-append low p output ((suc p, suc p + n) ∷ []) (suc p + n) a
                    (omega arith, omega arith, omega arith),
                All-append (IsSmall max_bytes lines) output ((suc p, suc p + n) ∷ []) small
                    (ground (arith, short), tt),
              )
      ]

  flush-between :
      (low p start last : ℕ) (output rs : List (ℕ × ℕ))
      → Ascends low output p
      → Small output
      → suc p ≤ start
      → start ≤ last
      → flush max_bytes lines output start last ≡ some rs
      → Ascends low rs last × Small rs
  flush-between low p zero last output rs a small h k e = absurd (omega (arith, h))
  flush-between low p (suc q) last output rs a small h k e =
      let sum : suc q + (last - suc q) ≡ last = omega (arith, k) in
      subst
        (λ (x : ℕ). flush max_bytes lines output (suc q) x ≡ some rs → Ascends low rs x × Small rs)
        sum
        (flush-Ascends low q (last - suc q) output rs
          (Ascends-raise low output p q (omega (arith, h)) a) small)
        e

  pack_loop-Ascends :
      (pending : List (ℕ × ℕ)) (low p start last high : ℕ) (output rs : List (ℕ × ℕ))
      → Ascends low output p
      → Small output
      → suc p ≤ start
      → start ≤ last
      → Ascends (suc last) pending high
      → pack_loop max_bytes lines pending output start last ≡ some rs
      → Ascends low rs high × Small rs
  unfolding pack_loop
  pack_loop-Ascends [] low p start last high output rs a small h k more e =
      let r = flush-between low p start last output rs a small h k e in
      (Ascends-raise low rs last high (omega (arith, more)) r.0, r.1)
  pack_loop-Ascends (c ∷ pending) low p start last high output rs a small h k more e =
      elim (Bool-cases (leb (slice_bytes lines start c.1) max_bytes)) [
        | inl joins ↦
            pack_loop-Ascends pending low p start c.1 high output rs a small h
              (omega (arith, k, more.0, more.1)) more.2 (rw joins at e)
        | inr apart ↦ elim (found_ranges (flush max_bytes lines output start last)) [
          | inl q ↦ absurd (ground (arith, rw (apart, q) at e))
          | inr next ↦
              let r = flush-between low p start last output next.0 a small h k next.1 in
              pack_loop-Ascends pending low last c.0 c.1 high next.0 rs r.0 r.1 more.0 more.1 more.2
                (rw (apart, next.1) at e)
        ]
      ]

  -- From ranges that lie in order and without overlap between two lines, of which the first is at least
  -- 1, packing, where it succeeds, gives ranges in order and without overlap between the same lines, each
  -- within the limit of bytes.
  pub pack_ranges-Ascends :
      (low high : ℕ) (ranges rs : List (ℕ × ℕ))
      → Ascends (suc low) ranges high
      → pack_ranges max_bytes lines ranges ≡ some rs
      → Ascends (suc low) rs high × Small rs
  unfolding pack_ranges
  pack_ranges-Ascends low high [] rs a e =
      let q : [] ≡ rs = ground (arith, e) in
      subst (λ (xs : List (ℕ × ℕ)). Ascends (suc low) xs high × Small xs) q (a, tt)
  pack_ranges-Ascends low high (r ∷ ranges) rs a e =
      pack_loop-Ascends ranges (suc low) low r.0 r.1 high [] rs (omega arith) tt a.0 a.1 a.2 e
