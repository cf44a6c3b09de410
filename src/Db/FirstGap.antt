-- ===== src/Db/FirstGap.antt =====
-- `GetFirstUnindexedBlock` against its description: the first block of the range with no row.
use blob_indexer_api.Common.{
  ℕ, ◌+◌, ◌≤◌, ◌<◌, ◌≡◌, refl, ◌∙◌, ap, ◌⊎◌, inl, inr, true, false, ◌&&◌, ◌||◌, if◌then◌else◌, ltb,
  leb, ◌==◌, List, [], ◌∷◌, ◌++◌, sort, All, Sorted, sort-Sorted, arith, Bool-cases, subst, dec_lt,
  All-sort, All-map, insert_sorted, ltb→lt,
}
use blob_indexer_api.Db.Blocks.{
  contains, between, gap_starts, last_row, minimum, coalesce, after_last, gap_candidates,
  get_first_unindexed_block,
}

-- The first number after `x` that the sorted rows behind it leave out.
abbrev walk : ℕ → List ℕ → ℕ
walk x [] = x + 1
walk x (y ∷ ys) = let rest = walk y ys in if ltb (x + 1) y then x + 1 else rest

walk-gt : (x : ℕ) (ys : List ℕ) → Sorted (x ∷ ys) → x < walk x ys
walk-gt x [] s = omega arith
walk-gt x (y ∷ ys) s = ground (arith, walk-gt y ys s.1)

walk-le : (b x : ℕ) (ys : List ℕ) → All (λ n. n ≤ b) (x ∷ ys) → walk x ys ≤ b + 1
walk-le b x [] h = omega arith
walk-le b x (y ∷ ys) h = ground (arith, walk-le b y ys h.1)

walk_below :
    (x n : ℕ) (ys : List ℕ) → Sorted (x ∷ ys) → x ≤ n → n < walk x ys → contains (x ∷ ys) n ≡ true
unfolding contains
walk_below x n [] s h lt = ground arith
walk_below x n (y ∷ ys) s h lt = ground (arith, walk_below y n ys s.1)

not-contains_below : (n : ℕ) (ys : List ℕ) → All (λ y. n < y) ys → contains ys n ≡ false
unfolding contains
not-contains_below n [] h = refl
not-contains_below n (y ∷ ys) h = ground (arith, not-contains_below n ys h.1)

not-contains_above :
    (x n : ℕ) (ys : List ℕ) → x < n → All (λ y. n < y) ys → contains (x ∷ ys) n ≡ false
unfolding contains
not-contains_above x n ys lt h = ground (arith, not-contains_below n ys h)

walk_missing : (x : ℕ) (ys : List ℕ) → Sorted (x ∷ ys) → contains (x ∷ ys) (walk x ys) ≡ false
unfolding contains
walk_missing x [] s = ground arith
walk_missing x (y ∷ ys) s = elim (Bool-cases (ltb (x + 1) y)) [
  | inl e ↦ rw e (
      not-contains_above x (x + 1) (y ∷ ys) (omega arith) (
        ltb→lt (x + 1) y e,
        All-map (λ n. y ≤ n) (λ n. x + 1 < n) (λ n p. omega (arith, ltb→lt (x + 1) y e)) ys s.1.0,
      ))
  | inr e ↦ rw e (ground (arith, walk_missing y ys s.1, walk-gt y ys s.1))
]

-- The candidates of the query behind a first row.
candidates-eq-walk :
    (b x : ℕ) (ys : List ℕ)
    → Sorted (x ∷ ys)
    → All (λ n. n ≤ b) (x ∷ ys)
    → coalesce (minimum (gap_starts (x ∷ ys) ++ after_last (last_row (x ∷ ys)) b)) (b + 1)
      ≡ walk x ys
unfolding gap_starts last_row minimum
candidates-eq-walk b x [] s h = ground arith
candidates-eq-walk b x (y ∷ ys) s h =
    ground (arith, candidates-eq-walk b y ys s.1 h.1, walk-gt y ys s.1)

contains-between :
    (a b n : ℕ) (rows : List ℕ)
    → contains (between a b rows) n ≡ ((leb a n && leb n b) && contains rows n)
unfolding contains between
contains-between a b n [] = ground arith
contains-between a b n (x ∷ rows) = ground (arith, contains-between a b n rows)

contains-insert_sorted :
    (x n : ℕ) (xs : List ℕ) → contains (insert_sorted x xs) n ≡ (x == n || contains xs n)
unfolding contains sort
contains-insert_sorted x n [] = refl
contains-insert_sorted x n (y ∷ xs) = ground (arith, contains-insert_sorted x n xs)

pub contains-sort : (n : ℕ) (xs : List ℕ) → contains (sort xs) n ≡ contains xs n
unfolding contains sort
contains-sort n [] = refl
contains-sort n (x ∷ xs) =
    contains-insert_sorted x n (sort xs) ∙ ap (λ b. x == n || b) (contains-sort n xs)

All-between :
    (a b : ℕ) (rows : List ℕ)
    → All (λ n. a ≤ n) (between a b rows) × All (λ n. n ≤ b) (between a b rows)
unfolding between
All-between a b [] = (tt, tt)
All-between a b (x ∷ rows) = ground (arith, All-between a b rows)

-- `r` is the first number from `a` with no row, or `b + 1` if each number up to `b` has one.
pub record IsFirstGap (rows : List ℕ) (a b r : ℕ) : Type 0 where
  pub low : a ≤ r
  pub high : r ≤ b + 1
  pub covered : (n : ℕ) → (n < a) ⊎ (r ≤ n) ⊎ (contains rows n ≡ true)
  pub open_end : (r ≡ b + 1) ⊎ (contains rows r ≡ false)

gap_at_start : (rows : List ℕ) (a b : ℕ) → a ≤ b → contains rows a ≡ false → IsFirstGap rows a b a
gap_at_start rows a b le e = record {
  low = omega arith;
  high = omega arith;
  covered = λ n. ground arith;
  open_end = inr e;
}

-- The first sorted row of a range whose start has a row is that start.
first-eq_of_contains :
    (a x : ℕ) (xs : List ℕ) → Sorted (x ∷ xs) → a ≤ x → contains (x ∷ xs) a ≡ true → x ≡ a
first-eq_of_contains a x xs s lo e = elim (dec_lt a x) [
  | yes lt ↦ cc (
    e,
    not-contains_below a (x ∷ xs)
        (lt, All-map (λ y. x ≤ y) (λ y. a < y) (λ y p. omega arith) xs s.0),
  )
  | no ge ↦ omega arith
]

module _ (rows : List ℕ) (a b : ℕ) (le : a ≤ b) (x : ℕ) (xs : List ℕ) (s : Sorted (x ∷ xs))
    (lo : a ≤ x) (hi : All (λ n. n ≤ b) (x ∷ xs))
    (c : (n : ℕ) → contains (x ∷ xs) n ≡ ((leb a n && leb n b) && contains rows n)) where
  gap_after_rows : contains rows a ≡ true → IsFirstGap rows a b (walk x xs)
  gap_after_rows e = record {
    low = omega (arith, walk-gt x xs s);
    high = walk-le b x xs hi;
    covered = λ n. ground (arith, walk_below x n xs s, c n, first-eq_of_contains a x xs s lo, c a);
    open_end =
        ground (arith, walk_missing x xs s, walk-gt x xs s, walk-le b x xs hi, c (walk x xs));
  }

module _ (rows : List ℕ) (a b : ℕ) (le : a ≤ b) where
  -- The rows of the range, sorted, as a number and the numbers behind it.
  IsFirstGap-rows :
      (l : List ℕ)
      → sort (between a b rows) ≡ l
      → Sorted l
      → All (λ n. a ≤ n) l
      → All (λ n. n ≤ b) l
      → ((n : ℕ) → contains l n ≡ ((leb a n && leb n b) && contains rows n))
      → IsFirstGap rows a b (coalesce (minimum (gap_candidates rows a b)) (b + 1))
  unfolding gap_candidates minimum
  IsFirstGap-rows [] e s lo hi c =
      let absent : contains rows a ≡ false = unfold contains in ground (arith, c a) in
      rw (e, absent) (unfold gap_starts last_row in gap_at_start rows a b le absent)
  IsFirstGap-rows (x ∷ xs) e s lo hi c = elim (Bool-cases (contains rows a)) [
    | inl there ↦
        rw (e, there, candidates-eq-walk b x xs s hi)
          (gap_after_rows rows a b le x xs s lo.0 hi c there)
    | inr absent ↦
        rw (e, absent)
          (subst (IsFirstGap rows a b)
            (ground (arith, candidates-eq-walk b x xs s hi, walk-gt x xs s))
            (gap_at_start rows a b le absent))
  ]

-- Of a range that is not empty, `GetFirstUnindexedBlock` returns the first block, its ends included,
-- that has no row, and the number behind the range where every block has one.
pub get_first_unindexed_block-IsFirstGap :
    (rows : List ℕ) (a b : ℕ) → a ≤ b → IsFirstGap rows a b (get_first_unindexed_block rows a b)
unfolding get_first_unindexed_block
get_first_unindexed_block-IsFirstGap rows a b le = rw (not-ltb b a le) (
    IsFirstGap-rows rows a b le (sort rows') refl (sort-Sorted rows')
      (All-sort (λ n. a ≤ n) rows' (All-between a b rows).0)
      (All-sort (λ n. n ≤ b) rows' (All-between a b rows).1)
      (λ n. contains-sort n rows' ∙ contains-between a b n rows))
  where
    rows' : List ℕ
    rows' = between a b rows

    not-ltb : (m n : ℕ) → n ≤ m → ltb m n ≡ false
    not-ltb m n h = ground arith
