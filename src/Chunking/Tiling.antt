-- ===== src/Chunking/Tiling.antt =====
-- The ranges that a split gives.
use code_naut.Prelude.{
  ℕ, zero, suc, ◌+◌, ◌-◌, ◌≤◌, String, false, ◌≡◌, refl, sym, subst, inl, inr, some, List, [], ◌∷◌,
  ◌++◌, arith, ltb, All, Bool-cases, if◌then◌else◌,
}
use code_naut.Prelude.Ordered.{All-snoc}
use code_naut.Chunking.Lines.{slice_bytes, split_loop, split_lines}

-- The ranges follow one another without a gap, from the first line to the last.
abbrev pub Tiles : ℕ → List (ℕ × ℕ) → ℕ → Type 0
Tiles first [] last = first ≡ suc last
Tiles first (r ∷ rs) last = (r.0 ≡ first) × (r.0 ≤ r.1) × Tiles (suc r.1) rs last

Tiles-snoc :
    (first : ℕ) (rs : List (ℕ × ℕ)) (p last : ℕ)
    → Tiles first rs p
    → suc p ≤ last
    → Tiles first (rs ++ ((suc p, last) ∷ [])) last
Tiles-snoc first [] p last t h = (sym t, h, refl)
Tiles-snoc first (r ∷ rs) p last t h = (t.0, t.1, Tiles-snoc (suc r.1) rs p last t.2 h)

module _ (max_bytes : ℕ) (lines : List String) where
  abbrev pub IsSmall : ℕ × ℕ → Type 0
  IsSmall r = slice_bytes lines r.0 r.1 ≤ max_bytes

  loop-Tiles :
      (left first p last stop : ℕ) (output rs : List (ℕ × ℕ))
      → left + last ≡ stop
      → Tiles first output p
      → All IsSmall output
      → suc p ≤ last
      → IsSmall (suc p, last)
      → split_loop max_bytes lines left (suc last) output (suc p) last ≡ some rs
      → Tiles first rs stop × All IsSmall rs
  unfolding split_loop
  loop-Tiles zero first p last stop output rs sum t small le fits e =
      let q : output ++ ((suc p, last) ∷ []) ≡ rs = ground arith in
      let here : last ≡ stop = omega (arith, sum) in
      subst (λ n. Tiles first rs n × All IsSmall rs) here
        (subst (λ xs. Tiles first xs last × All IsSmall xs) q
          (Tiles-snoc first output p last t le, All-snoc IsSmall output (suc p, last) small fits))
  loop-Tiles (suc left) first p last stop output rs sum t small le fits e =
      elim (Bool-cases (ltb max_bytes (slice_bytes lines (suc last) (suc last)))) [
        | inl long ↦ absurd (ground (arith, rw long at e))
        | inr single ↦ elim (Bool-cases (ltb max_bytes (slice_bytes lines (suc p) (suc last)))) [
          | inl full ↦
              loop-Tiles left first last (suc last) stop (output ++ ((suc p, last) ∷ [])) rs
                (omega (arith, sum)) (Tiles-snoc first output p last t le)
                (All-snoc IsSmall output (suc p, last) small fits) (omega arith)
                (ground (arith, single)) (rw (single, full) at e)
          | inr more ↦
              loop-Tiles left first p (suc last) stop output rs (omega (arith, sum)) t small
                (omega (arith, le)) (ground (arith, more)) (rw (single, more) at e)
        ]
      ]

  -- A split from line p + 1 to line p + 1 + n that succeeds gives ranges that follow one another without a
  -- gap from the first line to the last, and the text of each is within the limit of bytes.
  pub split_lines-Tiles :
      (p n : ℕ) (rs : List (ℕ × ℕ))
      → split_lines max_bytes lines (suc p) (suc p + n) ≡ some rs
      → Tiles (suc p) rs (suc p + n) × All IsSmall rs
  unfolding split_lines split_loop
  split_lines-Tiles p n rs e =
      let turns : suc (suc p + n) - suc p ≡ suc n = omega arith in
      let e' : split_loop max_bytes lines (suc n) (suc p) [] (suc p) (suc p) ≡ some rs =
        rw turns at e in
      elim (Bool-cases (ltb max_bytes (slice_bytes lines (suc p) (suc p)))) [
        | inl long ↦ absurd (ground (arith, rw long at e'))
        | inr single ↦
            loop-Tiles n (suc p) p (suc p) (suc p + n) [] rs (omega arith) refl tt (omega arith)
              (ground (arith, single)) (rw single at e')
      ]

  loop-some :
      (left number start last : ℕ) (output : List (ℕ × ℕ))
      → ((line : ℕ)
          → number ≤ line
          → suc line ≤ number + left
          → slice_bytes lines line line ≤ max_bytes)
      → (rs : List (ℕ × ℕ)) × (split_loop max_bytes lines left number output start last ≡ some rs)
  unfolding split_loop
  loop-some zero number start last output short = (output ++ ((start, last) ∷ []), refl)
  loop-some (suc left) number start last output short =
      let single = short number (omega arith) (omega arith) in
      let fits : ltb max_bytes (slice_bytes lines number number) ≡ false = ground (arith, single) in
      let is_full = ltb max_bytes (slice_bytes lines start number) in
      let rest =
        loop-some left (suc number) (if is_full then number else start) number
          (if is_full then output ++ ((start, last) ∷ []) else output)
          (λ line low high. short line (omega (arith, low)) (omega (arith, high))) in
      (rest.0, rw fits rest.1)

  -- Where every line from the first to the last is within the limit of bytes, a split succeeds.
  pub split_lines-some :
      (start_line end_line : ℕ)
      → ((line : ℕ) → start_line ≤ line → line ≤ end_line → slice_bytes lines line line ≤ max_bytes)
      → (rs : List (ℕ × ℕ)) × (split_lines max_bytes lines start_line end_line ≡ some rs)
  unfolding split_lines
  split_lines-some start_line end_line short =
      loop-some (suc end_line - start_line) start_line start_line start_line []
        (λ line low high. short line low (omega (arith, low, high)))
