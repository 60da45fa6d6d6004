-- ===== src/Prelude/Selecting.antt =====
-- What a SELECT finds in a table after an update of other rows, or of the row it found.
use Prim.Native.Nat.{◌≤◌}
use mathlib.Core.Logic.{inl, inr}
use mathlib.Core.Path.{◌≡◌, refl, subst}
use mathlib.Core.Bool.{Bool, true, false, ◌&&◌}
use mathlib.Core.Option.{none, some}
use mathlib.Core.List.{List, [], ◌∷◌}
use native.Mathlib.Omega.{arith}
use code_naut.Prelude.Tests.{Bool-cases}
use code_naut.Prelude.Lists.{All, any, count_if, keep_if}
use code_naut.Prelude.Table.{select, update_where, update_first}

module _ {ℓ} {A : Type ℓ} where
  -- A row that was found counts for every test that it passes.
  pub select-counts_too :
      (p q : A → Bool) (xs : List A) (x : A) → select p xs ≡ some x → q x ≡ true → 1 ≤ count_if q xs
  unfolding select
  select-counts_too p q [] x h k = absurd (ground arith)
  select-counts_too p q (y ∷ xs) x h k = elim (Bool-cases (p y)) [
    | inl e ↦ let same : y ≡ x = ground (arith, rw e at h) in rw (same, k) (omega arith)
    | inr e ↦ ground (arith, select-counts_too p q xs x (rw e at h) k)
  ]

  -- Where a test has at most one row, any way to find that row finds it.
  pub select_only :
      (p q : A → Bool) (xs : List A) (x : A)
      → select p xs ≡ some x
      → q x ≡ true
      → count_if q xs ≤ 1
      → select q xs ≡ some x
  unfolding select
  select_only p q [] x h k one = absurd (ground arith)
  select_only p q (y ∷ xs) x h k one = elim (Bool-cases (p y)) [
    | inl e ↦ let same : y ≡ x = ground (arith, rw e at h) in rw (same, k) refl
    | inr e ↦ elim (Bool-cases (q y)) [
      | inl live ↦ absurd (ground (arith, select-counts_too p q xs x (rw e at h) k))
      | inr dead ↦ rw dead (select_only p q xs x (rw e at h) k (ground arith))
    ]
  ]

  pub select-update_where_other :
      (q p : A → Bool) (f : A → A) (xs : List A)
      → ((x : A) → p x ≡ true → (q x ≡ false) × (q (f x) ≡ false))
      → select q (update_where p f xs) ≡ select q xs
  unfolding select update_where
  select-update_where_other q p f [] k = refl
  select-update_where_other q p f (x ∷ xs) k = elim (Bool-cases (p x)) [
    | inl e ↦ rw (e, (k x e).0, (k x e).1) (select-update_where_other q p f xs k)
    | inr e ↦ rw (e, select-update_where_other q p f xs k) refl
  ]

  pub select-none : (q : A → Bool) (xs : List A) → count_if q xs ≡ 0 → select q xs ≡ none
  unfolding select
  select-none q [] h = refl
  select-none q (x ∷ xs) h = elim (Bool-cases (q x)) [
    | inl e ↦ absurd (ground arith)
    | inr e ↦ rw e (select-none q xs (ground arith))
  ]

  -- An update of all rows that pass a test, to rows that do not.
  pub count_if-update_where_gone :
      (q p : A → Bool) (f : A → A) (xs : List A)
      → All (λ x. q x ≡ true → p x ≡ true) xs
      → ((x : A) → p x ≡ true → q (f x) ≡ false)
      → count_if q (update_where p f xs) ≡ 0
  unfolding update_where
  count_if-update_where_gone q p f [] all k = refl
  count_if-update_where_gone q p f (x ∷ xs) all k = elim (Bool-cases (p x)) [
    | inl e ↦ rw (e, k x e) (count_if-update_where_gone q p f xs all.1 k)
    | inr e ↦ elim (Bool-cases (q x)) [
      | inl live ↦ absurd (ground (arith, all.0 live))
      | inr dead ↦ rw (e, dead) (count_if-update_where_gone q p f xs all.1 k)
    ]
  ]

  pub any-update_where :
      (q p : A → Bool) (f : A → A) (xs : List A)
      → ((x : A) → q x ≡ true → q (f x) ≡ true)
      → any q xs ≡ true
      → any q (update_where p f xs) ≡ true
  unfolding update_where
  any-update_where q p f [] k h = absurd (ground arith)
  any-update_where q p f (x ∷ xs) k h = ground (arith, k x, any-update_where q p f xs k)

  pub All-every {κ} : (P : A → Type κ) (xs : List A) → ((x : A) → P x) → All P xs
  All-every P [] k = tt
  All-every P (x ∷ xs) k = (k x, All-every P xs k)

  pub select-update_first_other :
      (q p : A → Bool) (f : A → A) (xs : List A) (x : A)
      → select p xs ≡ some x
      → q x ≡ false
      → q (f x) ≡ false
      → select q (update_first p f xs) ≡ select q xs
  unfolding select update_first
  select-update_first_other q p f [] x h k k' = refl
  select-update_first_other q p f (y ∷ xs) x h k k' = elim (Bool-cases (p y)) [
    | inl e ↦
        let same : y ≡ x = ground (arith, rw e at h) in
        let old : q y ≡ false = rw same k in
        let new : q (f y) ≡ false = rw same k' in rw (e, old, new) refl
    | inr e ↦ rw (e, select-update_first_other q p f xs x (rw e at h) k k') refl
  ]

  pub any-update_first :
      (q p : A → Bool) (f : A → A) (xs : List A)
      → ((x : A) → q x ≡ true → q (f x) ≡ true)
      → any q xs ≡ true
      → any q (update_first p f xs) ≡ true
  unfolding update_first
  any-update_first q p f [] k h = absurd (ground (arith, h))
  any-update_first q p f (x ∷ xs) k h = ground (arith, k x, any-update_first q p f xs k)

  -- The row that was written is there.
  pub any-update_first_hit :
      (q p : A → Bool) (f : A → A) (xs : List A) (x : A)
      → select p xs ≡ some x
      → ((y : A) → p y ≡ true → q (f y) ≡ true)
      → any q (update_first p f xs) ≡ true
  unfolding select update_first
  any-update_first_hit q p f [] x h k = absurd (ground (arith, h))
  any-update_first_hit q p f (y ∷ xs) x h k = elim (Bool-cases (p y)) [
    | inl e ↦ rw (e, k y e) refl
    | inr e ↦ rw e (ground (arith, any-update_first_hit q p f xs x (rw e at h) k))
  ]

  any-zero :
      (q p : A → Bool) (xs : List A)
      → ((x : A) → q x ≡ true → p x ≡ true)
      → count_if p xs ≡ 0
      → any q xs ≡ false
  any-zero q p [] k h = refl
  any-zero q p (x ∷ xs) k h = ground (arith, k x, any-zero q p xs k)

  pub any-weaken :
      (q p : A → Bool) (xs : List A)
      → ((x : A) → q x ≡ true → p x ≡ true)
      → any q xs ≡ true
      → any p xs ≡ true
  any-weaken q p [] k h = absurd (ground (arith, h))
  any-weaken q p (x ∷ xs) k h = ground (arith, k x, any-weaken q p xs k)

  pub any-select :
      (q p : A → Bool) (xs : List A) (x : A) → select p xs ≡ some x → q x ≡ true → any q xs ≡ true
  unfolding select
  any-select q p [] x h k = absurd (ground (arith, h))
  any-select q p (y ∷ xs) x h k = elim (Bool-cases (p y)) [
    | inl e ↦ let same : y ≡ x = ground (arith, rw e at h) in rw (same, k) refl
    | inr e ↦ ground (arith, any-select q p xs x (rw e at h) k)
  ]

  pub select-some :
      (p : A → Bool) (xs : List A) → any p xs ≡ true → (x : A) × (select p xs ≡ some x)
  unfolding select
  select-some p [] h = absurd (ground (arith, h))
  select-some p (x ∷ xs) h = elim (Bool-cases (p x)) [
    | inl e ↦ (x, rw e refl)
    | inr e ↦ let rest = select-some p xs (ground (arith, e, h)) in (rest.0, rw e rest.1)
  ]

  -- Where a test has at most one row, and one of its rows passes a second test, the row found passes it.
  pub select_shared :
      (p d : A → Bool) (xs : List A) (x : A)
      → select p xs ≡ some x
      → count_if p xs ≤ 1
      → any (λ y. p y && d y) xs ≡ true
      → d x ≡ true
  unfolding select
  select_shared p d [] x found one h = absurd (ground (arith, found))
  select_shared p d (y ∷ xs) x found one h = elim (Bool-cases (p y)) [
    | inl e ↦
        let same : y ≡ x = ground (arith, rw e at found) in
        let only =
          any-zero (λ z. p z && d z) p xs (λ z k. ground (arith, k)) (ground (arith, one, e)) in
        subst (λ z. d z ≡ true) same (ground (arith, only, h))
    | inr e ↦ select_shared p d xs x (rw e at found) (ground (arith, one, e)) (ground (arith, h, e))
  ]

  pub keep_if-none : (q : A → Bool) (xs : List A) → count_if q xs ≡ 0 → keep_if q xs ≡ []
  keep_if-none q [] h = refl
  keep_if-none q (x ∷ xs) h = elim (Bool-cases (q x)) [
    | inl e ↦ absurd (ground (arith, e, h))
    | inr e ↦ rw e (keep_if-none q xs (ground (arith, e, h)))
  ]

  -- Where a test has at most one row, and that row was found by another, a filter keeps that row alone.
  pub keep_if-only :
      (p q : A → Bool) (xs : List A) (x : A)
      → select p xs ≡ some x
      → q x ≡ true
      → count_if q xs ≤ 1
      → keep_if q xs ≡ x ∷ []
  unfolding select
  keep_if-only p q [] x h k one = absurd (ground (arith, h))
  keep_if-only p q (y ∷ xs) x h k one = elim (Bool-cases (p y)) [
    | inl e ↦
        let same : y ≡ x = ground (arith, rw e at h) in
        let here : q y ≡ true = rw same k in
        let rest : keep_if q xs ≡ [] = keep_if-none q xs (ground (arith, one, here)) in
        rw (here, rest, same) refl
    | inr e ↦ elim (Bool-cases (q y)) [
      | inl live ↦ absurd (ground (arith, one, live, select-counts_too p q xs x (rw e at h) k))
      | inr dead ↦ rw dead (keep_if-only p q xs x (rw e at h) k (ground (arith, one, dead)))
    ]
  ]

  pub keep_if-update_where_other :
      (q p : A → Bool) (f : A → A) (xs : List A)
      → ((x : A) → p x ≡ true → (q x ≡ false) × (q (f x) ≡ false))
      → keep_if q (update_where p f xs) ≡ keep_if q xs
  unfolding update_where
  keep_if-update_where_other q p f [] k = refl
  keep_if-update_where_other q p f (x ∷ xs) k = elim (Bool-cases (p x)) [
    | inl e ↦ rw (e, (k x e).0, (k x e).1) (keep_if-update_where_other q p f xs k)
    | inr e ↦ rw (e, keep_if-update_where_other q p f xs k) refl
  ]

  pub keep_if-update_first_other :
      (q p : A → Bool) (f : A → A) (xs : List A) (x : A)
      → select p xs ≡ some x
      → q x ≡ false
      → q (f x) ≡ false
      → keep_if q (update_first p f xs) ≡ keep_if q xs
  unfolding select update_first
  keep_if-update_first_other q p f [] x h k k' = refl
  keep_if-update_first_other q p f (y ∷ xs) x h k k' = elim (Bool-cases (p y)) [
    | inl e ↦
        let same : y ≡ x = ground (arith, rw e at h) in
        let old : q y ≡ false = rw same k in
        let new : q (f y) ≡ false = rw same k' in rw (e, old, new) refl
    | inr e ↦ rw (e, keep_if-update_first_other q p f xs x (rw e at h) k k') refl
  ]
