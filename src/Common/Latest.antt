-- ===== src/Common/Latest.antt =====
-- The last member of a sorted list that satisfies a test, and membership in sorted lists.
use blob_indexer_api.Common.{
  ◌≡◌, refl, ◌⊎◌, inl, inr, Bool, true, false, if◌then◌else◌, List, [], ◌∷◌, Option, none, some,
  arith, Bool-cases, All, All-map, All-In, In,
}
use blob_indexer_api.Common.Sorting.{insert_by, stable_sort, IsStrictWeak, Ordered, irrefl}

-- The last member that satisfies the test.
unfoldable pub find_last : {A : Type 0} → (A → Bool) → List A → Option A
find_last p [] = none
find_last p (x ∷ xs) = elim (find_last p xs) [
  | some y ↦ some y
  | none ↦ if p x then some x else none
]

-- What is last among the members of a list that satisfy the test, by an order.
pub data Latest {A : Type 0} (less : A → A → Bool) (p : A → Bool) (xs : List A)
    : Option A → Type 0 where
  nothing : All (λ x. p x ≡ false) xs → Latest less p xs none
  found :
      (x : A)
      → In x xs
      → p x ≡ true
      → All (λ y. (p y ≡ false) ⊎ (less x y ≡ false)) xs
      → Latest less p xs (some x)

module _ {A : Type 0} (less : A → A → Bool) (o : IsStrictWeak less) (p : A → Bool) where
  Latest-cons :
      (x : A) (xs : List A) (r : Option A)
      → All (λ y. less y x ≡ false) xs
      → Latest less p xs r
      → Latest less p (x ∷ xs) (elim r [ some y ↦ some y | none ↦ if p x then some x else none ])
  Latest-cons x xs r h (found y i e a) =
      Latest.found y (inr i) e (inr (All-In (λ z. less z x ≡ false) xs y h i), a)
  Latest-cons x xs r h (nothing a) = elim (Bool-cases (p x)) [
    | inl e ↦
        rw e
          (Latest.found x (inl refl) e (inr (irrefl less o p x), All-map _ _ (λ y k. inl k) xs a))
    | inr e ↦ rw e (Latest.nothing (e, a))
  ]

  pub find_last-Latest : (xs : List A) → Ordered less xs → Latest less p xs (find_last p xs)
  unfolding find_last
  find_last-Latest [] h = Latest.nothing tt
  find_last-Latest (x ∷ xs) h = Latest-cons x xs (find_last p xs) h.0 (find_last-Latest xs h.1)

module _ {A : Type 0} (less : A → A → Bool) where
  In-insert_by_back : (x y : A) (ys : List A) → In x (insert_by less y ys) → (x ≡ y) ⊎ In x ys
  unfolding insert_by
  In-insert_by_back x y [] i = i
  In-insert_by_back x y (z ∷ ys) i = ground (arith, In-insert_by_back x y ys)

  pub In-of_stable_sort : (x : A) (xs : List A) → In x (stable_sort less xs) → In x xs
  unfolding stable_sort
  In-of_stable_sort x [] i = i
  In-of_stable_sort x (y ∷ xs) i = elim (In-insert_by_back x y (stable_sort less xs) i) [
    | inl q ↦ inl q
    | inr j ↦ inr (In-of_stable_sort x xs j)
  ]

  In-insert_by : (x y : A) (ys : List A) → (x ≡ y) ⊎ In x ys → In x (insert_by less y ys)
  unfolding insert_by
  In-insert_by x y [] i = i
  In-insert_by x y (z ∷ ys) i = ground (arith, In-insert_by x y ys)

  pub In-stable_sort : (x : A) (xs : List A) → In x xs → In x (stable_sort less xs)
  unfolding stable_sort
  In-stable_sort x [] i = i
  In-stable_sort x (y ∷ xs) (inl q) = In-insert_by x y (stable_sort less xs) (inl q)
  In-stable_sort x (y ∷ xs) (inr j) =
      In-insert_by x y (stable_sort less xs) (inr (In-stable_sort x xs j))
