-- ===== src/Prelude/Table.antt =====
-- A database table as the list of its rows, with the statements that the services issue:
-- SELECT of one row, UPDATE … WHERE and DELETE … WHERE.
use mathlib.Core.Logic.{inl, inr}
use Prim.Native.Nat.{◌≤◌}
use mathlib.Core.Path.{◌≡◌, refl, subst}
use mathlib.Core.Bool.{Bool, true, false}
use mathlib.Core.Option.{Option, none, some}
use mathlib.Core.List.{List, [], ◌∷◌}
use native.Mathlib.Omega.{arith}
use code_naut.Prelude.Tests.{if◌then◌else◌, Bool-cases}
use code_naut.Prelude.Lists.{All, count_if}

-- What a method does with the row that it looked for.
abbrev pub if_found {ℓ κ} : {A : Type ℓ} {B : Type κ} → Option A → B → (A → B) → B
if_found none d k = d
if_found (some x) d k = k x

-- To prove a fact about either outcome.
pub if_found_rule {ℓ κ μ} :
    {A : Type ℓ} {B : Type κ} (P : B → Type μ) (o : Option A) (d : B) (k : A → B)
    → (o ≡ none → P d)
    → ((x : A) → o ≡ some x → P (k x))
    → P (if_found o d k)
if_found_rule P none d k hd hk = hd refl
if_found_rule P (some x) d k hd hk = hk x refl

pub if_rule {ℓ κ} :
    {B : Type ℓ} (P : B → Type κ) (b : Bool) (x y : B)
    → (b ≡ true → P x)
    → (b ≡ false → P y)
    → P (if b then x else y)
if_rule P true x y hx hy = hx refl
if_rule P false x y hx hy = hy refl

module _ {ℓ} {A : Type ℓ} where
  -- The first row that a SELECT returns.
  unfoldable pub select : (A → Bool) → List A → Option A
  select p [] = none
  select p (x ∷ xs) = if p x then some x else select p xs

  unfoldable pub update_where : (A → Bool) → (A → A) → List A → List A
  update_where p f [] = []
  update_where p f (x ∷ xs) = (if p x then f x else x) ∷ update_where p f xs

  -- A write through the one row that a SELECT returned.
  unfoldable pub update_first : (A → Bool) → (A → A) → List A → List A
  update_first p f [] = []
  update_first p f (x ∷ xs) = if p x then f x ∷ xs else x ∷ update_first p f xs

  unfoldable pub delete_where : (A → Bool) → List A → List A
  delete_where p [] = []
  delete_where p (x ∷ xs) = let rest = delete_where p xs in if p x then rest else x ∷ rest

module _ {ℓ} {A : Type ℓ} where
  pub select-passes : (p : A → Bool) (xs : List A) {x : A} → select p xs ≡ some x → p x ≡ true
  unfolding select
  select-passes p [] h = ground arith
  select-passes p (y ∷ xs) h = elim (Bool-cases (p y)) [
    | inl e ↦ ground arith
    | inr e ↦ select-passes p xs (rw e at h)
  ]

  pub select-All {κ} :
      (P : A → Type κ) (p : A → Bool) (xs : List A) (x : A) → All P xs → select p xs ≡ some x → P x
  unfolding select
  select-All P p [] x all h = absurd (ground arith)
  select-All P p (y ∷ xs) x all h = elim (Bool-cases (p y)) [
    | inl e ↦ let q : y ≡ x = ground arith in subst P q all.0
    | inr e ↦ select-All P p xs x all.1 (rw e at h)
  ]

  pub All-update_where {κ} :
      (P : A → Type κ) (p : A → Bool) (f : A → A) (xs : List A)
      → ((x : A) → p x ≡ true → P x → P (f x))
      → All P xs
      → All P (update_where p f xs)
  unfolding update_where
  All-update_where P p f [] k all = tt
  All-update_where P p f (x ∷ xs) k all = elim (Bool-cases (p x)) [
    | inl e ↦ rw e (k x e all.0, All-update_where P p f xs k all.1)
    | inr e ↦ rw e (all.0, All-update_where P p f xs k all.1)
  ]

  -- An update that makes no row pass a test does not raise the number of rows that pass it.
  pub count_if-update_where-le :
      (q p : A → Bool) (f : A → A) (xs : List A)
      → ((x : A) → p x ≡ true → q (f x) ≡ true → q x ≡ true)
      → count_if q (update_where p f xs) ≤ count_if q xs
  unfolding update_where
  count_if-update_where-le q p f [] k = omega arith
  count_if-update_where-le q p f (x ∷ xs) k =
      ground (arith, k x, count_if-update_where-le q p f xs k)

  pub All-update_first {κ} :
      (P : A → Type κ) (p : A → Bool) (f : A → A) (xs : List A)
      → ((x : A) → p x ≡ true → P x → P (f x))
      → All P xs
      → All P (update_first p f xs)
  unfolding update_first
  All-update_first P p f [] k all = tt
  All-update_first P p f (x ∷ xs) k all = elim (Bool-cases (p x)) [
    | inl e ↦ rw e (k x e all.0, all.1)
    | inr e ↦ rw e (all.0, All-update_first P p f xs k all.1)
  ]

  pub count_if-update_first-le :
      (q p : A → Bool) (f : A → A) (xs : List A)
      → ((x : A) → p x ≡ true → q (f x) ≡ true → q x ≡ true)
      → count_if q (update_first p f xs) ≤ count_if q xs
  unfolding update_first
  count_if-update_first-le q p f [] k = omega arith
  count_if-update_first-le q p f (x ∷ xs) k =
      ground (arith, k x, count_if-update_first-le q p f xs k)

  pub All-delete_where {κ} :
      (P : A → Type κ) (p : A → Bool) (xs : List A) → All P xs → All P (delete_where p xs)
  unfolding delete_where
  All-delete_where P p [] all = tt
  All-delete_where P p (x ∷ xs) all = elim (Bool-cases (p x)) [
    | inl e ↦ rw e (All-delete_where P p xs all.1)
    | inr e ↦ rw e (all.0, All-delete_where P p xs all.1)
  ]

  -- Rows that pass and rows that do not, each with what is known of the row before.
  pub All-update_where_split {κ} :
      (P Q : A → Type κ) (p : A → Bool) (f : A → A) (xs : List A)
      → ((x : A) → p x ≡ true → P x → Q (f x))
      → ((x : A) → p x ≡ false → P x → Q x)
      → All P xs
      → All Q (update_where p f xs)
  unfolding update_where
  All-update_where_split P Q p f [] hit miss all = tt
  All-update_where_split P Q p f (x ∷ xs) hit miss all = elim (Bool-cases (p x)) [
    | inl e ↦ rw e (hit x e all.0, All-update_where_split P Q p f xs hit miss all.1)
    | inr e ↦ rw e (miss x e all.0, All-update_where_split P Q p f xs hit miss all.1)
  ]
