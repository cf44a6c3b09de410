-- ===== src/Common/Sorting.antt =====
-- `sort.SliceStable` by a strict weak order, as insertion sort, and the search for the first member
-- that satisfies a test.
use blob_indexer_api.Common.{
  ◌≡◌, refl, ◌∙◌, ap, ◌⊎◌, inl, inr, Bool, true, false, if◌then◌else◌, List, [], ◌∷◌, Option, none,
  some, arith, Bool-cases, Option-cases, All, All-map, In,
}

module _ {A : Type 0} (less : A → A → Bool) where
  unfoldable pub insert_by : A → List A → List A
  insert_by x [] = x ∷ []
  insert_by x (y ∷ ys) = let rest = insert_by x ys in if less y x then y ∷ rest else x ∷ y ∷ ys

  unfoldable pub stable_sort : List A → List A
  stable_sort [] = []
  stable_sort (x ∷ xs) = insert_by x (stable_sort xs)

module _ {A : Type 0} where
  unfoldable pub find : (A → Bool) → List A → Option A
  find p [] = none
  find p (x ∷ xs) = let rest = find p xs in if p x then some x else rest

  -- The later of two candidates counts only if it is strictly before the earlier one.
  unfoldable pub prefer : (A → A → Bool) → A → Option A → Option A
  prefer less x none = some x
  prefer less x (some y) = if less y x then some y else some x

  -- Among the members that satisfy the test, the first one of those that no other precedes.
  unfoldable pub best_of : (A → A → Bool) → (A → Bool) → List A → Option A
  unfolding prefer
  best_of less p [] = none
  best_of less p (x ∷ xs) = let rest = best_of less p xs in if p x then prefer less x rest else rest

-- The laws of a strict weak order.
pub record IsStrictWeak {A : Type 0} (less : A → A → Bool) : Type 0 where
  pub asym : (a b : A) → less a b ≡ true → less b a ≡ false
  pub split : (a b c : A) → less a c ≡ true → (less a b ≡ true) ⊎ (less b c ≡ true)

abbrev pub Ordered : {A : Type 0} → (A → A → Bool) → List A → Type 0
Ordered less [] = Unit
Ordered less (x ∷ xs) = All (λ y. less y x ≡ false) xs × Ordered less xs

module _ {A : Type 0} (less : A → A → Bool) (o : IsStrictWeak less) where
  All-insert_by :
      (P : A → Type 0) (x : A) (ys : List A) → P x → All P ys → All P (insert_by less x ys)
  unfolding insert_by
  All-insert_by P x [] h hs = (h, tt)
  All-insert_by P x (y ∷ ys) h hs = elim (Bool-cases (less y x)) [
    | inl e ↦ rw e (hs.0, All-insert_by P x ys h hs.1)
    | inr e ↦ rw e (h, hs)
  ]

  not_before : (x y z : A) → less y x ≡ false → less z y ≡ false → less z x ≡ false
  not_before x y z h k = ground (arith, o.split z y x)

  insert_by-Ordered : (x : A) (ys : List A) → Ordered less ys → Ordered less (insert_by less x ys)
  unfolding insert_by
  insert_by-Ordered x [] h = (tt, tt)
  insert_by-Ordered x (y ∷ ys) h = elim (Bool-cases (less y x)) [
    | inl e ↦
        rw e (
          All-insert_by (λ z. less z y ≡ false) x ys (o.asym y x e) h.0,
          insert_by-Ordered x ys h.1,
        )
    | inr e ↦ rw e (
      (
        e,
        All-map (λ z. less z y ≡ false) (λ z. less z x ≡ false) (λ z k. not_before x y z e k) ys
            h.0,
      ),
      h,
    )
  ]

  pub stable_sort-Ordered : (xs : List A) → Ordered less (stable_sort less xs)
  unfolding stable_sort
  stable_sort-Ordered [] = tt
  stable_sort-Ordered (x ∷ xs) = insert_by-Ordered x (stable_sort less xs) (stable_sort-Ordered xs)

  pub All-stable_sort : (P : A → Type 0) (xs : List A) → All P xs → All P (stable_sort less xs)
  unfolding stable_sort
  All-stable_sort P [] h = tt
  All-stable_sort P (x ∷ xs) h =
      All-insert_by P x (stable_sort less xs) h.0 (All-stable_sort P xs h.1)

  found-All :
      (P : A → Type 0) (p : A → Bool) (ys : List A) (y : A) → All P ys → find p ys ≡ some y → P y
  unfolding find
  found-All P p [] y h e = cc
  found-All P p (z ∷ ys) y h e = ground (arith, found-All P p ys y h.1)

  find-insert_by :
      (p : A → Bool) (x : A) (ys : List A)
      → Ordered less ys
      → find p (insert_by less x ys) ≡ (if p x then prefer less x (find p ys) else find p ys)
  unfolding find insert_by prefer
  find-insert_by p x [] h = refl
  find-insert_by p x (y ∷ ys) h = elim (Option-cases (find p ys)) [
    | inl e ↦ ground (arith, find-insert_by p x ys h.1, e)
    | inr (z, e) ↦ ground (
      arith,
      find-insert_by p x ys h.1,
      e,
      found-All (λ z. less z y ≡ false) p ys z h.0 e,
      o.split z y x,
      o.asym y z,
    )
  ]

  -- The first match in the sorted list is the best match of the list.
  pub find-stable_sort :
      (p : A → Bool) (xs : List A) → find p (stable_sort less xs) ≡ best_of less p xs
  unfolding stable_sort best_of find
  find-stable_sort p [] = refl
  find-stable_sort p (x ∷ xs) =
      find-insert_by p x (stable_sort less xs) (stable_sort-Ordered xs)
      ∙ ap (λ r. if p x then prefer less x r else r) (find-stable_sort p xs)

-- What is best in a list: nothing that satisfies the test, or a member that does and that no other
-- member that does precedes.
pub data Best {A : Type 0} (less : A → A → Bool) (p : A → Bool) (xs : List A)
    : Option A → Type 0 where
  nothing : All (λ x. p x ≡ false) xs → Best less p xs none
  found :
      (x : A)
      → In x xs
      → p x ≡ true
      → All (λ y. (p y ≡ false) ⊎ (less y x ≡ false)) xs
      → Best less p xs (some x)

module _ {A : Type 0} (less : A → A → Bool) (o : IsStrictWeak less) (p : A → Bool) where
  pub irrefl : (x : A) → less x x ≡ false
  irrefl x = elim (Bool-cases (less x x)) [ inl e ↦ o.asym x x e | inr e ↦ e ]

  -- The test fails or the order does for what is not before `y`, so it does for what is not before `x`.
  behind :
      (x y z : A)
      → less y x ≡ false
      → (p z ≡ false) ⊎ (less z y ≡ false)
      → (p z ≡ false) ⊎ (less z x ≡ false)
  behind x y z h (inl e) = inl e
  behind x y z h (inr e) = inr (not_before less o x y z h e)

  Best-skip :
      (x : A) (xs : List A) (r : Option A) → p x ≡ false → Best less p xs r → Best less p (x ∷ xs) r
  Best-skip x xs r e (nothing h) = nothing (e, h)
  Best-skip x xs r e (found y i h a) = found y (inr i) h (inl e, a)

  Best-prefer :
      (x : A) (xs : List A) (r : Option A)
      → p x ≡ true
      → Best less p xs r
      → Best less p (x ∷ xs) (prefer less x r)
  unfolding prefer
  Best-prefer x xs r e (nothing h) =
      found x (inl refl) e (inr (irrefl x), All-map _ _ (λ y k. inl k) xs h)
  Best-prefer x xs r e (found y i h a) = elim (Bool-cases (less y x)) [
    | inl t ↦ rw t (found y (inr i) h (inr (o.asym y x t), a))
    | inr t ↦ rw t (found x (inl refl) e (inr (irrefl x), All-map _ _ (λ z. behind x y z t) xs a))
  ]

  pub best_of-Best : (xs : List A) → Best less p xs (best_of less p xs)
  unfolding best_of
  best_of-Best [] = nothing tt
  best_of-Best (x ∷ xs) = elim (Bool-cases (p x)) [
    | inl e ↦ rw e (Best-prefer x xs (best_of less p xs) e (best_of-Best xs))
    | inr e ↦ rw e (Best-skip x xs (best_of less p xs) e (best_of-Best xs))
  ]

-- The best of an earlier candidate and of one found behind it.
unfoldable pub merge_best : {A : Type 0} → (A → A → Bool) → Option A → Option A → Option A
merge_best less none r = r
merge_best less (some x) none = some x
merge_best less (some x) (some y) = if less y x then some y else some x

module _ {A : Type 0} (less : A → A → Bool) (o : IsStrictWeak less) where
  pub merge_best-prefer :
      (x y : A) (r : Option A)
      → merge_best less (some (if less x y then x else y)) r
        ≡ merge_best less (some y) (prefer less x r)
  unfolding merge_best prefer
  merge_best-prefer x y none = ground arith
  merge_best-prefer x y (some z) =
      ground
        (arith, o.asym x y, o.asym z x, o.asym z y, o.split z x y, o.split x z y, o.split z y x)
