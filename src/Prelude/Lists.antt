-- ===== src/Prelude/Lists.antt =====
-- Lists measured by native numbers, with the end of a list in reach.
use Prim.Native.Nat.{ℕ, zero, suc, ◌+◌, ◌-◌}
use mathlib.Core.Path.{◌≡◌, refl, ap, sym, subst}
use mathlib.Core.Logic.{◌⊎◌, inl, inr}
use mathlib.Core.List.{List, [], ◌∷◌, ◌++◌}
use mathlib.Core.Bool.{Bool, true, false, not}
use native.Mathlib.Omega.{arith}
use rdstail.Prelude.Tests.{if◌then◌else◌}

module _ {ℓ} {A : Type ℓ} where
  abbrev pub length : List A → ℕ
  length [] = 0
  length (x ∷ xs) = suc (length xs)

  pub length-append : (xs ys : List A) → length (xs ++ ys) ≡ length xs + length ys
  length-append [] ys = omega arith
  length-append (x ∷ xs) ys = omega (arith, length-append xs ys)

module _ {ℓ} {A : Type ℓ} where
  abbrev pub drop : ℕ → List A → List A
  drop zero xs = xs
  drop (suc n) [] = []
  drop (suc n) (x ∷ xs) = drop n xs

  abbrev pub take : ℕ → List A → List A
  take zero xs = []
  take (suc n) [] = []
  take (suc n) (x ∷ xs) = x ∷ take n xs

  abbrev pub is_empty : List A → Bool
  is_empty [] = true
  is_empty (x ∷ xs) = false

  -- The elements that pass a test, in order.
  abbrev pub keep_if : (A → Bool) → List A → List A
  keep_if p [] = []
  keep_if p (x ∷ xs) = if p x then x ∷ keep_if p xs else keep_if p xs

  -- xs[:len(xs)-1]
  abbrev pub init : List A → List A
  init [] = []
  init (x ∷ []) = []
  init (x ∷ y ∷ xs) = x ∷ init (y ∷ xs)

  -- xs[len(xs)-1], in a list, which is empty when xs is
  abbrev pub last : List A → List A
  last [] = []
  last (x ∷ []) = x ∷ []
  last (x ∷ y ∷ xs) = last (y ∷ xs)

  pub init-append-last : (xs : List A) → init xs ++ last xs ≡ xs
  init-append-last [] = refl
  init-append-last (x ∷ []) = refl
  init-append-last (x ∷ y ∷ xs) = ap (◌∷◌ x) (init-append-last (y ∷ xs))

  pub take-append-drop : (n : ℕ) (xs : List A) → take n xs ++ drop n xs ≡ xs
  take-append-drop zero xs = refl
  take-append-drop (suc n) [] = refl
  take-append-drop (suc n) (x ∷ xs) = ap (◌∷◌ x) (take-append-drop n xs)

  pub length-drop : (n : ℕ) (xs : List A) → length (drop n xs) ≡ length xs - n
  length-drop zero xs = omega arith
  length-drop (suc n) [] = omega arith
  length-drop (suc n) (x ∷ xs) = omega (arith, length-drop n xs)

-- What passes a test and what does not are the list.
pub length-keep_if {ℓ} :
    {A : Type ℓ} (p : A → Bool) (xs : List A)
    → length (keep_if p xs) + length (keep_if (λ x. not (p x)) xs) ≡ length xs
length-keep_if p [] = omega arith
length-keep_if p (x ∷ xs) = ground (arith, length-keep_if p xs)

-- Every element of the list has the property.
module _ {ℓ κ} {A : Type ℓ} (P : A → Type κ) where
  abbrev pub All : List A → Type κ
  All [] = Unit
  All (x ∷ xs) = P x × All xs

pub All-append {ℓ κ} :
    {A : Type ℓ} (P : A → Type κ) (xs ys : List A) → All P xs → All P ys → All P (xs ++ ys)
All-append P [] ys h k = k
All-append P (x ∷ xs) ys h k = (h.0, All-append P xs ys h.1 k)

pub All-map {ℓ} :
    {A : Type ℓ} (P Q : A → Type 0) (xs : List A) → ((x : A) → P x → Q x) → All P xs → All Q xs
All-map P Q [] f h = tt
All-map P Q (x ∷ xs) f h = (f x h.0, All-map P Q xs f h.1)

pub All-keep_if {ℓ} :
    {A : Type ℓ} (P : A → Type 0) (p : A → Bool) (xs : List A) → All P xs → All P (keep_if p xs)
All-keep_if P p [] h = h
All-keep_if P p (x ∷ xs) h =
    elim (p x) as (λ b. All P (if b then x ∷ keep_if p xs else keep_if p xs)) [
      | true ↦ (h.0, All-keep_if P p xs h.1)
      | false ↦ All-keep_if P p xs h.1
    ]

-- The element occurs in the list.
pub data IsIn {ℓ} {A : Type ℓ} (a : A) : List A → Type ℓ where
  first : {xs : List A} → IsIn a (a ∷ xs)
  further : {x : A} {xs : List A} → IsIn a xs → IsIn a (x ∷ xs)

pub IsIn-cases {ℓ} : {A : Type ℓ} {a x : A} {xs : List A} → IsIn a (x ∷ xs) → (x ≡ a) ⊎ IsIn a xs
IsIn-cases first = inl refl
IsIn-cases (further later) = inr later

pub IsIn-keep_if {ℓ} :
    {A : Type ℓ} (p : A → Bool) (a : A) (xs : List A)
    → p a ≡ true
    → IsIn a xs
    → IsIn a (keep_if p xs)
IsIn-keep_if p a [] h nowhere = elim nowhere [ ]
IsIn-keep_if p a (x ∷ xs) h first =
    subst (λ b. IsIn a (if b then a ∷ keep_if p xs else keep_if p xs)) (sym h) first
IsIn-keep_if p a (x ∷ xs) h (further later) =
    elim (p x) as (λ b. IsIn a (if b then x ∷ keep_if p xs else keep_if p xs)) [
      | true ↦ further (IsIn-keep_if p a xs h later)
      | false ↦ IsIn-keep_if p a xs h later
    ]

pub All-IsIn {ℓ} :
    {A : Type ℓ} (P : A → Type 0) (xs : List A) → ((x : A) → IsIn x xs → P x) → All P xs
All-IsIn P [] f = tt
All-IsIn P (x ∷ xs) f = (f x first, All-IsIn P xs (λ y later. f y (further later)))

pub All-at {ℓ} : {A : Type ℓ} (P : A → Type 0) (a : A) (xs : List A) → All P xs → IsIn a xs → P a
All-at P a [] h nowhere = elim nowhere [ ]
All-at P a (x ∷ xs) h first = h.0
All-at P a (x ∷ xs) h (further later) = All-at P a xs h.1 later
