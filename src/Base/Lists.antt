-- ===== src/Base/Lists.antt =====
-- Lists measured by native numbers, and predicates over them.
use Prim.Native.Nat.{ℕ, zero, suc, ◌+◌}
use mathlib.Core.Path.{◌≡◌, refl, sym, subst}
use mathlib.Core.Logic.{◌⊎◌, inl, inr}
use mathlib.Core.List.{List, [], ◌∷◌, ◌++◌}
use native.Mathlib.Omega.{arith}

module _ {ℓ} {A : Type ℓ} where
  abbrev pub length : List A → ℕ
  length [] = 0
  length (x ∷ xs) = suc (length xs)

  abbrev pub drop : ℕ → List A → List A
  drop zero xs = xs
  drop (suc n) [] = []
  drop (suc n) (x ∷ xs) = drop n xs

  abbrev pub take : ℕ → List A → List A
  take zero xs = []
  take (suc n) [] = []
  take (suc n) (x ∷ xs) = x ∷ take n xs

  pub length-append : (xs ys : List A) → length (xs ++ ys) ≡ length xs + length ys
  length-append [] ys = omega arith
  length-append (x ∷ xs) ys = omega (arith, length-append xs ys)

-- Every element satisfies `P`.
abbrev pub All {ℓ κ} : {A : Type ℓ} → (A → Type κ) → List A → Type κ
All P [] = Unit
All P (x ∷ xs) = P x × All P xs

-- `a` is an element, with its place kept.
abbrev pub In : {A : Type 0} → A → List A → Type 0
In a [] = ⊥
In a (x ∷ xs) = (a ≡ x) ⊎ In a xs

-- What holds of every element holds of one that is there.
pub All-In {κ} : {A : Type 0} (P : A → Type κ) (a : A) (xs : List A) → All P xs → In a xs → P a
All-In P a [] h i = absurd i
All-In P a (x ∷ xs) h (inl e) = subst P (sym e) h.0
All-In P a (x ∷ xs) h (inr i) = All-In P a xs h.1 i

pub All-map {κ} :
    {A : Type 0} (P Q : A → Type κ) (xs : List A) → ((a : A) → P a → Q a) → All P xs → All Q xs
All-map P Q [] f h = tt
All-map P Q (x ∷ xs) f h = (f x h.0, All-map P Q xs f h.1)

pub All-of {κ} : {A : Type 0} (P : A → Type κ) (xs : List A) → ((a : A) → In a xs → P a) → All P xs
All-of P [] f = tt
All-of P (x ∷ xs) f = (f x (inl refl), All-of P xs (λ a i. f a (inr i)))

module _ {A : Type 0} where
  pub In_left : (a : A) (xs ys : List A) → In a xs → In a (xs ++ ys)
  In_left a [] ys i = absurd i
  In_left a (x ∷ xs) ys (inl e) = inl e
  In_left a (x ∷ xs) ys (inr i) = inr (In_left a xs ys i)

  pub In_last : (a : A) (xs : List A) → In a (xs ++ a ∷ [])
  In_last a [] = inl refl
  In_last a (x ∷ xs) = inr (In_last a xs)

  pub All-snoc {κ} : (P : A → Type κ) (a : A) (xs : List A) → All P xs → P a → All P (xs ++ a ∷ [])
  All-snoc P a [] h p = (p, tt)
  All-snoc P a (x ∷ xs) h p = (h.0, All-snoc P a xs h.1 p)
