-- ===== src/Prelude/Sorting.antt =====
-- sorted(…, key=…) as an insertion sort: what it keeps of a list.
use Prim.Native.Nat.{ℕ, ◌+◌}
use mathlib.Core.Logic.{inl, inr}
use mathlib.Core.Path.{◌≡◌}
use mathlib.Core.Bool.{Bool, ◌||◌}
use mathlib.Core.List.{List, [], ◌∷◌}
use native.Mathlib.Omega.{arith}
use code_naut.Prelude.Tests.{if◌then◌else◌, Bool-cases}
use code_naut.Prelude.Lists.{All, any}

module _ {ℓ} {A : Type ℓ} where
  abbrev pub sum_by : (A → ℕ) → List A → ℕ
  sum_by f [] = 0
  sum_by f (x ∷ xs) = f x + sum_by f xs

  module _ (precedes : A → A → Bool) where
    unfoldable pub insert_by : A → List A → List A
    insert_by x [] = x ∷ []
    insert_by x (y ∷ ys) = if precedes x y then x ∷ y ∷ ys else y ∷ insert_by x ys

    unfoldable pub sort_by : List A → List A
    sort_by [] = []
    sort_by (x ∷ xs) = insert_by x (sort_by xs)

    insert-All {κ} :
        (P : A → Type κ) (x : A) (xs : List A) → All P (insert_by x xs) → P x × All P xs
    unfolding insert_by
    insert-All P x [] h = (h.0, tt)
    insert-All P x (y ∷ ys) h = elim (Bool-cases (precedes x y)) [
      | inl e ↦ rw e at h
      | inr e ↦
          let k : All P (y ∷ insert_by x ys) = rw e at h in
          let rest = insert-All P x ys k.1 in (rest.0, (k.0, rest.1))
    ]

    pub sort-All {κ} : (P : A → Type κ) (xs : List A) → All P (sort_by xs) → All P xs
    unfolding sort_by
    sort-All P [] h = tt
    sort-All P (x ∷ xs) h = let k = insert-All P x (sort_by xs) h in (k.0, sort-All P xs k.1)

    All-insert {κ} :
        (P : A → Type κ) (x : A) (xs : List A) → P x → All P xs → All P (insert_by x xs)
    unfolding insert_by
    All-insert P x [] h hs = (h, tt)
    All-insert P x (y ∷ ys) h hs = elim (Bool-cases (precedes x y)) [
      | inl e ↦ rw e (h, hs)
      | inr e ↦ rw e (hs.0, All-insert P x ys h hs.1)
    ]

    pub All-sort {κ} : (P : A → Type κ) (xs : List A) → All P xs → All P (sort_by xs)
    unfolding sort_by
    All-sort P [] h = tt
    All-sort P (x ∷ xs) h = All-insert P x (sort_by xs) h.0 (All-sort P xs h.1)

    sum-insert : (f : A → ℕ) (x : A) (xs : List A) → sum_by f (insert_by x xs) ≡ f x + sum_by f xs
    unfolding insert_by
    sum-insert f x [] = omega arith
    sum-insert f x (y ∷ ys) = elim (Bool-cases (precedes x y)) [
      | inl e ↦ rw e (omega arith)
      | inr e ↦ rw e (omega (arith, sum-insert f x ys))
    ]

    pub sum-sort : (f : A → ℕ) (xs : List A) → sum_by f (sort_by xs) ≡ sum_by f xs
    unfolding sort_by
    sum-sort f [] = omega arith
    sum-sort f (x ∷ xs) = omega (arith, sum-insert f x (sort_by xs), sum-sort f xs)

    any-insert : (p : A → Bool) (x : A) (xs : List A) → any p (insert_by x xs) ≡ (p x || any p xs)
    unfolding insert_by
    any-insert p x [] = ground arith
    any-insert p x (y ∷ ys) = elim (Bool-cases (precedes x y)) [
      | inl e ↦ rw e (ground arith)
      | inr e ↦ rw e (ground (arith, any-insert p x ys))
    ]

    pub any-sort : (p : A → Bool) (xs : List A) → any p (sort_by xs) ≡ any p xs
    unfolding sort_by
    any-sort p [] = ground arith
    any-sort p (x ∷ xs) = rw (any-insert p x (sort_by xs), any-sort p xs) (ground arith)
