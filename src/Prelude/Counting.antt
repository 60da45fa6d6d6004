-- ===== src/Prelude/Counting.antt =====
-- How many rows of a table pass a test, before and after an update.
use Prim.Native.Nat.{◌+◌, ◌≤◌}
use mathlib.Core.Path.{◌≡◌, refl}
use mathlib.Core.Bool.{Bool, true, false, ◌&&◌}
use mathlib.Core.Option.{some, none}
use mathlib.Core.List.{List, [], ◌∷◌, ◌++◌, map}
use mathlib.Core.Logic.{inl, inr}
use native.Mathlib.Omega.{arith}
use code_naut.Prelude.Tests.{Bool-cases}
use code_naut.Prelude.Lists.{any, length, count_if, keep_if, All}
use code_naut.Prelude.Table.{select, update_where, update_first, delete_where}

module _ {ℓ} {A : Type ℓ} where
  pub count_if-eq-zero : (q : A → Bool) (xs : List A) → any q xs ≡ false → count_if q xs ≡ 0
  count_if-eq-zero q [] h = omega arith
  count_if-eq-zero q (x ∷ xs) h = ground (arith, count_if-eq-zero q xs)

  pub count_if_mono :
      (p q : A → Bool) (xs : List A)
      → ((x : A) → p x ≡ true → q x ≡ true)
      → count_if p xs ≤ count_if q xs
  count_if_mono p q [] k = omega arith
  count_if_mono p q (x ∷ xs) k = ground (arith, k x, count_if_mono p q xs k)

  pub count_if-append :
      (p : A → Bool) (xs ys : List A) → count_if p (xs ++ ys) ≡ count_if p xs + count_if p ys
  count_if-append p [] ys = omega arith
  count_if-append p (x ∷ xs) ys = ground (arith, count_if-append p xs ys)

  -- An update adds at most the updated rows that come to pass the test.
  pub count_if-update_where_add :
      (q p s : A → Bool) (f : A → A) (xs : List A)
      → ((x : A) → p x ≡ true → q (f x) ≡ true → s x ≡ true)
      → count_if q (update_where p f xs) ≤ count_if q xs + count_if (λ x. p x && s x) xs
  unfolding update_where
  count_if-update_where_add q p s f [] k = omega arith
  count_if-update_where_add q p s f (x ∷ xs) k =
      ground (arith, k x, count_if-update_where_add q p s f xs k)

  -- A row that is the only one of its kind stands for all of them.
  pub count_if-select :
      (p s : A → Bool) (xs : List A) (x : A)
      → select p xs ≡ some x
      → count_if p xs ≤ 1
      → s x ≡ false
      → count_if (λ y. p y && s y) xs ≡ 0
  unfolding select
  count_if-select p s [] x h one no_s = omega arith
  count_if-select p s (y ∷ xs) x h one no_s =
      ground (
        arith,
        count_if-select p s xs x,
        count_if_mono (λ z. p z && s z) p xs (λ z hz. ground arith),
      )

  pub select-eq-none : (p : A → Bool) (xs : List A) → select p xs ≡ none → count_if p xs ≡ 0
  unfolding select
  select-eq-none p [] h = omega arith
  select-eq-none p (x ∷ xs) h = ground (arith, select-eq-none p xs)

  pub select-any : (p : A → Bool) (xs : List A) → any p xs ≡ false → select p xs ≡ none
  unfolding select
  select-any p [] h = refl
  select-any p (x ∷ xs) h = ground (arith, select-any p xs)

  pub select-counts :
      (p : A → Bool) (xs : List A) (x : A) → select p xs ≡ some x → 1 ≤ count_if p xs
  unfolding select
  select-counts p [] x h = absurd (ground arith)
  select-counts p (y ∷ xs) x h = ground (arith, select-counts p xs x)

  pub update_where-idle :
      (p : A → Bool) (f : A → A) (xs : List A) → count_if p xs ≡ 0 → update_where p f xs ≡ xs
  unfolding update_where
  update_where-idle p f [] h = refl
  update_where-idle p f (x ∷ xs) h = elim (Bool-cases (p x)) [
    | inl e ↦ absurd (ground arith)
    | inr e ↦ rw (e, update_where-idle p f xs (ground arith))
  ]

  All-none :
      (p q : A → Bool) (xs : List A) → count_if p xs ≡ 0 → All (λ y. p y ≡ true → q y ≡ true) xs
  All-none p q [] h = tt
  All-none p q (x ∷ xs) h = (λ hp. absurd (ground arith), All-none p q xs (ground arith))

  -- Where at most one row passes, a write through the row found is the UPDATE.
  pub update_first_unique :
      (p : A → Bool) (f : A → A) (xs : List A)
      → count_if p xs ≤ 1
      → update_first p f xs ≡ update_where p f xs
  unfolding update_first update_where
  update_first_unique p f [] one = refl
  update_first_unique p f (x ∷ xs) one = elim (Bool-cases (p x)) [
    | inl e ↦ rw (e, update_where-idle p f xs (ground arith))
    | inr e ↦ rw (e, update_first_unique p f xs (ground arith))
  ]

  -- Where a kind has at most one row, and a row of it has the property, all rows of it have.
  pub All-only :
      (p q : A → Bool) (xs : List A) (x : A)
      → ((y : A) → q y ≡ true → p y ≡ true)
      → count_if p xs ≤ 1
      → select q xs ≡ some x
      → All (λ y. p y ≡ true → q y ≡ true) xs
  unfolding select
  All-only p q [] x k one h = tt
  All-only p q (y ∷ xs) x k one h = elim (Bool-cases (q y)) [
    | inl e ↦ (λ _. e, All-none p q xs (ground (arith, k y)))
    | inr e ↦
        let found : select q xs ≡ some x = rw e at h in
        (
          λ hp. absurd (ground (arith, select-counts q xs x, count_if_mono q p xs k)),
          All-only p q xs x k (ground arith) found,
        )
  ]

  -- Deleting rows, or inserting some, that a view does not show.
  pub keep_if-delete_where :
      (q p : A → Bool) (xs : List A)
      → ((x : A) → q x ≡ true → p x ≡ false)
      → keep_if q (delete_where p xs) ≡ keep_if q xs
  unfolding delete_where
  keep_if-delete_where q p [] k = refl
  keep_if-delete_where q p (x ∷ xs) k = ground (arith, k x, keep_if-delete_where q p xs k)

  pub keep_if-append :
      (q : A → Bool) (xs ys : List A) → keep_if q (xs ++ ys) ≡ keep_if q xs ++ keep_if q ys
  keep_if-append q [] ys = refl
  keep_if-append q (x ∷ xs) ys = ground (arith, keep_if-append q xs ys)

  pub keep_if-map_none {κ} :
      {B : Type κ} (q : A → Bool) (f : B → A) (ys : List B)
      → ((y : B) → q (f y) ≡ false)
      → keep_if q (map f ys) ≡ []
  keep_if-map_none q f [] k = refl
  keep_if-map_none q f (y ∷ ys) k = rw (k y) (keep_if-map_none q f ys k)

  -- An update after which no updated row passes the test that selected it.
  pub count_if-update_where_zero :
      (p : A → Bool) (f : A → A) (xs : List A)
      → ((x : A) → p x ≡ true → p (f x) ≡ false)
      → count_if p (update_where p f xs) ≡ 0
  unfolding update_where
  count_if-update_where_zero p f [] k = refl
  count_if-update_where_zero p f (x ∷ xs) k =
      ground (arith, k x, count_if-update_where_zero p f xs k)

  pub length-keep_if : (p : A → Bool) (xs : List A) → length (keep_if p xs) ≡ count_if p xs
  length-keep_if p [] = refl
  length-keep_if p (x ∷ xs) = ground (arith, length-keep_if p xs)
