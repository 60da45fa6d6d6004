-- ===== src/Prelude/Pairwise.antt =====
-- Two versions of one table, compared row by row.
use mathlib.Core.Logic.{inl, inr}
use Prim.Native.Nat.{◌≤◌}
use mathlib.Core.Path.{◌≡◌}
use mathlib.Core.Bool.{Bool, true}
use mathlib.Core.List.{List, [], ◌∷◌}
use native.Mathlib.Omega.{arith}
use code_naut.Prelude.Tests.{Bool-cases}
use code_naut.Prelude.Lists.{All, count_if}
use code_naut.Prelude.Table.{update_where, update_first}

module _ {ℓ} {A : Type ℓ} where
  -- The rows of the two tables correspond, and each pair is in the relation.
  abbrev pub Each : (A → A → Type 0) → List A → List A → Type 0
  Each R [] [] = Unit
  Each R (x ∷ xs) (y ∷ ys) = R x y × Each R xs ys
  Each R [] (y ∷ ys) = ⊥
  Each R (x ∷ xs) [] = ⊥

  pub Each-refl : (R : A → A → Type 0) (xs : List A) → ((x : A) → R x x) → Each R xs xs
  Each-refl R [] same = tt
  Each-refl R (x ∷ xs) same = (same x, Each-refl R xs same)

  pub Each-map :
      {R S : A → A → Type 0} (xs ys : List A)
      → ((x y : A) → R x y → S x y)
      → Each R xs ys
      → Each S xs ys
  Each-map [] [] f h = tt
  Each-map (x ∷ xs) (y ∷ ys) f h = (f x y h.0, Each-map xs ys f h.1)
  Each-map [] (y ∷ ys) f h = elim h [ ]
  Each-map (x ∷ xs) [] f h = elim h [ ]

  module _ (R : A → A → Type 0) (p : A → Bool) (f : A → A) (same : (x : A) → R x x)
      (step : (x : A) → p x ≡ true → R x (f x)) where
    pub Each-update_where : (xs : List A) → Each R xs (update_where p f xs)
    unfolding update_where
    Each-update_where [] = tt
    Each-update_where (x ∷ xs) = elim (Bool-cases (p x)) [
      | inl e ↦ rw e (step x e, Each-update_where xs)
      | inr e ↦ rw e (same x, Each-update_where xs)
    ]

    pub Each-update_first : (xs : List A) → Each R xs (update_first p f xs)
    unfolding update_first
    Each-update_first [] = tt
    Each-update_first (x ∷ xs) = elim (Bool-cases (p x)) [
      | inl e ↦ rw e (step x e, Each-refl R xs same)
      | inr e ↦ rw e (same x, Each-update_first xs)
    ]

  pub All-transfer {μ} :
      (R : A → A → Type 0) (P Q : A → Type μ) (xs ys : List A)
      → ((x y : A) → R x y → P x → Q y)
      → Each R xs ys
      → All P xs
      → All Q ys
  All-transfer R P Q [] [] k e all = tt
  All-transfer R P Q (x ∷ xs) (y ∷ ys) k e all =
      (k x y e.0 all.0, All-transfer R P Q xs ys k e.1 all.1)
  All-transfer R P Q [] (y ∷ ys) k e all = elim e [ ]
  All-transfer R P Q (x ∷ xs) [] k e all = elim e [ ]

  pub All-Each {μ} :
      (R : A → A → Type 0) (P : A → Type μ) (xs ys : List A)
      → ((x y : A) → R x y → P x → P y)
      → Each R xs ys
      → All P xs
      → All P ys
  All-Each R P = All-transfer R P P

  -- If no row comes to pass the test, the number of rows that pass it does not rise.
  pub count_if-Each :
      (R : A → A → Type 0) (q : A → Bool) (xs ys : List A)
      → ((x y : A) → R x y → q y ≡ true → q x ≡ true)
      → Each R xs ys
      → count_if q ys ≤ count_if q xs
  count_if-Each R q [] [] k e = omega arith
  count_if-Each R q (x ∷ xs) (y ∷ ys) k e = ground (arith, k x y e.0, count_if-Each R q xs ys k e.1)
  count_if-Each R q [] (y ∷ ys) k e = elim e [ ]
  count_if-Each R q (x ∷ xs) [] k e = elim e [ ]
