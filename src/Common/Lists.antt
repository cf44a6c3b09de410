-- ===== src/Common/Lists.antt =====
-- Lists measured by native numbers, predicates on all members, and sorting by a numeric key.
use Prim.Native.Nat.{ℕ, zero, suc, ◌+◌, ◌-◌, ◌≤◌}
use mathlib.Core.Path.{◌≡◌}
use mathlib.Core.List.{List, [], ◌∷◌, ◌++◌}
use mathlib.Core.Option.{Option, none, some}
use mathlib.Core.Path.{sym, subst}
use mathlib.Core.Logic.{◌⊎◌, inl, inr}
use native.Mathlib.Omega.{arith}
use blob_indexer_api.Common.Tests.{leb, ◌==◌, if◌then◌else◌, leb→le, Bool-cases}

module _ {ℓ} {A : Type ℓ} where
  abbrev pub length : List A → ℕ
  length [] = 0
  length (x ∷ xs) = suc (length xs)

  abbrev pub get_elem? : List A → ℕ → Option A
  get_elem? [] i = none
  get_elem? (x ∷ xs) zero = some x
  get_elem? (x ∷ xs) (suc i) = get_elem? xs i

  abbrev pub drop : ℕ → List A → List A
  drop zero xs = xs
  drop (suc n) [] = []
  drop (suc n) (x ∷ xs) = drop n xs

  pub length-append : (xs ys : List A) → length (xs ++ ys) ≡ length xs + length ys
  length-append [] ys = omega arith
  length-append (x ∷ xs) ys = omega (arith, length-append xs ys)

  pub length-drop : (n : ℕ) (xs : List A) → length (drop n xs) ≡ length xs - n
  length-drop zero xs = omega arith
  length-drop (suc n) [] = omega arith
  length-drop (suc n) (x ∷ xs) = omega (arith, length-drop n xs)

module _ {ℓ} {A : Type ℓ} where
  abbrev pub All {κ} : (A → Type κ) → List A → Type κ
  All P [] = Unit
  All P (x ∷ xs) = P x × All P xs

  pub All-append {κ} : (P : A → Type κ) (xs ys : List A) → All P xs → All P ys → All P (xs ++ ys)
  All-append P [] ys hx hy = hy
  All-append P (x ∷ xs) ys hx hy = (hx.0, All-append P xs ys hx.1 hy)

  pub All-map {κ μ} :
      (P : A → Type κ) (Q : A → Type μ)
      → ((x : A) → P x → Q x)
      → (xs : List A) → All P xs
      → All Q xs
  All-map P Q f [] h = tt
  All-map P Q f (x ∷ xs) h = (f x h.0, All-map P Q f xs h.1)

-- Insertion sort: the result of `sort.Slice` by `<` on numbers.
pub insert_sorted : ℕ → List ℕ → List ℕ
insert_sorted a [] = a ∷ []
insert_sorted a (x ∷ xs) = if leb a x then a ∷ x ∷ xs else x ∷ insert_sorted a xs

unfoldable pub sort : List ℕ → List ℕ
unfolding insert_sorted
sort [] = []
sort (x ∷ xs) = insert_sorted x (sort xs)

abbrev pub In : {A : Type 0} → A → List A → Type 0
In a [] = ⊥
In a (x ∷ xs) = (a ≡ x) ⊎ In a xs

abbrev pub Sorted : List ℕ → Type 0
Sorted [] = Unit
Sorted (x ∷ xs) = All (λ y. x ≤ y) xs × Sorted xs

pub All-In {κ} : {A : Type 0} (P : A → Type κ) (xs : List A) (a : A) → All P xs → In a xs → P a
All-In P [] a h i = absurd i
All-In P (x ∷ xs) a h (inl e) = subst P (sym e) h.0
All-In P (x ∷ xs) a h (inr i) = All-In P xs a h.1 i

All-insert_sorted :
    (P : ℕ → Type 0) (a : ℕ) (xs : List ℕ) → P a → All P xs → All P (insert_sorted a xs)
unfolding insert_sorted
All-insert_sorted P a [] ha h = (ha, tt)
All-insert_sorted P a (x ∷ xs) ha h = elim (Bool-cases (leb a x)) [
  | inl e ↦ rw e (ha, h)
  | inr e ↦ rw e (h.0, All-insert_sorted P a xs ha h.1)
]

insert_sorted-Sorted : (a : ℕ) (xs : List ℕ) → Sorted xs → Sorted (insert_sorted a xs)
unfolding insert_sorted
insert_sorted-Sorted a [] h = (tt, tt)
insert_sorted-Sorted a (x ∷ xs) h = elim (Bool-cases (leb a x)) [
  | inl e ↦ rw e (
    (leb→le a x e, All-map (λ y. x ≤ y) (λ y. a ≤ y) (λ y p. omega (arith, leb→le a x e)) xs h.0),
    h,
  )
  | inr e ↦
      rw e (All-insert_sorted (λ y. x ≤ y) a xs (ground arith) h.0, insert_sorted-Sorted a xs h.1)
]

pub sort-Sorted : (xs : List ℕ) → Sorted (sort xs)
unfolding sort
sort-Sorted [] = tt
sort-Sorted (x ∷ xs) = insert_sorted-Sorted x (sort xs) (sort-Sorted xs)

pub All-sort : (P : ℕ → Type 0) (xs : List ℕ) → All P xs → All P (sort xs)
unfolding sort
All-sort P [] h = tt
All-sort P (x ∷ xs) h = All-insert_sorted P x (sort xs) h.0 (All-sort P xs h.1)

In-swap : (a b c : ℕ) (xs : List ℕ) → In c (a ∷ b ∷ xs) → (c ≡ b) ⊎ In c (a ∷ xs)
In-swap a b c xs (inl p) = inr (inl p)
In-swap a b c xs (inr (inl p)) = inl p
In-swap a b c xs (inr (inr p)) = inr (inr p)

inr-map : {A B C : Type 0} → (B → C) → A ⊎ B → A ⊎ C
inr-map f (inl a) = inl a
inr-map f (inr b) = inr (f b)

In-insert_sorted : (a b : ℕ) (xs : List ℕ) → In b (a ∷ xs) → In b (insert_sorted a xs)
unfolding insert_sorted
In-insert_sorted a b [] h = h
In-insert_sorted a b (x ∷ xs) h = elim (Bool-cases (leb a x)) [
  | inl e ↦ rw e h
  | inr e ↦ rw e (inr-map (In-insert_sorted a b xs) (In-swap a x b xs h))
]

pub In-sort : (b : ℕ) (xs : List ℕ) → In b xs → In b (sort xs)
unfolding sort
In-sort b [] h = h
In-sort b (x ∷ xs) (inl e) = In-insert_sorted x b (sort xs) (inl e)
In-sort b (x ∷ xs) (inr i) = In-insert_sorted x b (sort xs) (inr (In-sort b xs i))

-- How often a number is in a list.
abbrev pub occurs : List ℕ → ℕ → ℕ
occurs [] n = 0
occurs (x ∷ xs) n = (if x == n then 1 else 0) + occurs xs n
