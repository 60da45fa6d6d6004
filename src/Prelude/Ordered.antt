-- ===== src/Prelude/Ordered.antt =====
-- Lists in which each element is related to all later ones, and searches that find nothing.
use Prim.Native.Nat.{◌+◌}
use mathlib.Core.Path.{◌≡◌, refl}
use mathlib.Core.Bool.{Bool, true, false}
use mathlib.Core.List.{List, [], ◌∷◌, ◌++◌, Memᴰ}
use native.Mathlib.Omega.{arith}
use code_naut.Prelude.Lists.{All, any, count_if, All-map}

module _ {ℓ} {A : Type ℓ} where
  abbrev pub AllPairs : (A → A → Type 0) → List A → Type 0
  AllPairs R [] = Unit
  AllPairs R (x ∷ xs) = All (R x) xs × AllPairs R xs

  pub All-snoc {κ} :
      (P : A → Type κ) (xs : List A) (y : A) → All P xs → P y → All P (xs ++ (y ∷ []))
  All-snoc P [] y h p = (p, tt)
  All-snoc P (x ∷ xs) y h p = (h.0, All-snoc P xs y h.1 p)

  pub AllPairs-snoc :
      (R : A → A → Type 0) (xs : List A) (y : A)
      → AllPairs R xs
      → All (λ x. R x y) xs
      → AllPairs R (xs ++ (y ∷ []))
  AllPairs-snoc R [] y h k = (tt, tt)
  AllPairs-snoc R (x ∷ xs) y h k = (All-snoc (R x) xs y h.0 k.0, AllPairs-snoc R xs y h.1 k.1)

  pub any-none : (p : A → Bool) (xs : List A) → any p xs ≡ false → All (λ x. p x ≡ false) xs
  any-none p [] h = tt
  any-none p (x ∷ xs) h = (ground arith, any-none p xs (ground arith))

  -- Adding an element at the end keeps what a search finds.
  pub any-snoc :
      (p : A → Bool) (xs : List A) (y : A) → any p xs ≡ true → any p (xs ++ (y ∷ [])) ≡ true
  any-snoc p [] y h = absurd (ground arith)
  any-snoc p (x ∷ xs) y h = ground (arith, any-snoc p xs y)

  pub any-snoc-last :
      (p : A → Bool) (xs : List A) (y : A) → p y ≡ true → any p (xs ++ (y ∷ [])) ≡ true
  any-snoc-last p [] y h = ground arith
  any-snoc-last p (x ∷ xs) y h = ground (arith, any-snoc-last p xs y h)

  pub count_if-snoc :
      (p : A → Bool) (xs : List A) (y : A)
      → count_if p (xs ++ (y ∷ [])) ≡ count_if p xs + count_if p (y ∷ [])
  count_if-snoc p [] y = omega arith
  count_if-snoc p (x ∷ xs) y = ground (arith, count_if-snoc p xs y)

  pub All-Memᴰ : (xs : List A) → All (λ x. Memᴰ x xs) xs
  All-Memᴰ [] = tt
  All-Memᴰ (x ∷ xs) = (Memᴰ.head refl, All-map xs (λ y m. Memᴰ.tail m) (All-Memᴰ xs))
