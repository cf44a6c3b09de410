-- ===== src/Indexer/CommitOrder/Committed.antt =====
-- `predecessorsCommitted` against its description: each block of the window has a row.
use blob_indexer_api.Common.{
  ℕ, zero, suc, ◌+◌, ◌-◌, ◌≤◌, ◌<◌, ◌≡◌, ◌↔◌, refl, ◌∙◌, ap, inl, inr, true, false, if◌then◌else◌,
  ltb, ◌==◌, none, some, List, [], ◌∷◌, All, All-map, arith, Bool-cases, Option-cases, dec_lt,
  subst,
}
use blob_indexer_api.Db.Blocks.{contains, minimum}
use blob_indexer_api.Indexer.CommitOrder.{
  Timing, candidate_snapshot_predecessors, snapshot_predecessor_range, count_between,
  predecessors_committed,
}

-- The primary key of `indexed_blocks`.
abbrev pub Distinct : List ℕ → Type 0
Distinct [] = Unit
Distinct (x ∷ xs) = (contains xs x ≡ false) × Distinct xs

count_between_one :
    (n : ℕ) (rows : List ℕ)
    → Distinct rows
    → count_between n n rows ≡ (if contains rows n then 1 else 0)
unfolding count_between contains
count_between_one n [] d = refl
count_between_one n (x ∷ rows) d = ground (arith, count_between_one n rows d.1)

count_between_step :
    (a b : ℕ) (rows : List ℕ)
    → a ≤ b + 1
    → count_between a (b + 1) rows ≡ count_between a b rows + count_between (b + 1) (b + 1) rows
unfolding count_between
count_between_step a b [] h = omega arith
count_between_step a b (x ∷ rows) h = ground (arith, count_between_step a b rows h)

-- The count of `w + 1` numbers from `a` on, one number at a time.
abbrev upto : ℕ → ℕ → List ℕ → ℕ
upto a w rows = count_between a (a + w) rows

upto_zero :
    (a : ℕ) (rows : List ℕ) → Distinct rows → upto a 0 rows ≡ (if contains rows a then 1 else 0)
upto_zero a rows d = ap (λ b. count_between a b rows) (omega arith) ∙ count_between_one a rows d

upto-suc :
    (a w : ℕ) (rows : List ℕ)
    → Distinct rows
    → upto a (suc w) rows ≡ upto a w rows + (if contains rows (a + suc w) then 1 else 0)
upto-suc a w rows d =
    let shift : a + suc w ≡ a + w + 1 = omega arith in
    rw shift (
      count_between_step a (a + w) rows (omega arith)
      ∙ ap (λ c. upto a w rows + c) (count_between_one (a + w + 1) rows d))

upto-le : (a w : ℕ) (rows : List ℕ) → Distinct rows → upto a w rows ≤ w + 1
upto-le a zero rows d = ground (arith, upto_zero a rows d)
upto-le a (suc w) rows d = ground (arith, upto-le a w rows d, upto-suc a w rows d)

-- With distinct rows a full count means that each number has a row, and the other way round.
contains_of_full :
    (a w k : ℕ) (rows : List ℕ)
    → Distinct rows
    → upto a w rows ≡ w + 1
    → a ≤ k
    → k ≤ a + w
    → contains rows k ≡ true
contains_of_full a zero k rows d e lo hi =
    let same : k ≡ a = omega arith in rw same (ground (arith, upto_zero a rows d))
contains_of_full a (suc w) k rows d e lo hi = elim (dec_lt k (a + suc w)) [
  | yes lt ↦
      contains_of_full a w k rows d (ground (arith, upto-suc a w rows d, upto-le a w rows d)) lo
        (omega arith)
  | no ge ↦
      let same : k ≡ a + suc w = omega arith in
      rw same (ground (arith, upto-suc a w rows d, upto-le a w rows d))
]

full_of_contains :
    (a w : ℕ) (rows : List ℕ)
    → Distinct rows
    → ((k : ℕ) → a ≤ k → k ≤ a + w → contains rows k ≡ true)
    → upto a w rows ≡ w + 1
full_of_contains a zero rows d all =
    ground (arith, upto_zero a rows d, all a (omega arith) (omega arith))
full_of_contains a (suc w) rows d all = ground (
  arith,
  upto-suc a w rows d,
  all (a + suc w) (omega arith) (omega arith),
  full_of_contains a w rows d (λ k lo hi. all k lo (omega arith)),
)

-- `MIN` is one of the rows and bounds every row.
contains-minimum : (rows : List ℕ) (m : ℕ) → minimum rows ≡ some m → contains rows m ≡ true
unfolding minimum contains
contains-minimum [] m h = cc
contains-minimum (x ∷ rows) m h = elim (Option-cases (minimum rows)) [
  | inl e ↦ ground arith
  | inr (y, e) ↦ ground (arith, contains-minimum rows y e)
]

minimum-none : (rows : List ℕ) → minimum rows ≡ none → rows ≡ []
unfolding minimum
minimum-none [] h = refl
minimum-none (x ∷ rows) h = ground arith

-- Rows below the first number of a range do not count.
count_between-from :
    (a m b : ℕ) (rows : List ℕ)
    → a ≤ m
    → All (λ x. m ≤ x) rows
    → count_between a b rows ≡ count_between m b rows
unfolding count_between
count_between-from a m b [] le h = refl
count_between-from a m b (x ∷ rows) le h = ground (arith, count_between-from a m b rows le h.1)

All-minimum : (rows : List ℕ) (m : ℕ) → minimum rows ≡ some m → All (λ x. m ≤ x) rows
unfolding minimum
All-minimum [] m h = tt
All-minimum (x ∷ rows) m h = elim (Option-cases (minimum rows)) [
  | inl e ↦ rw (minimum-none rows e) (ground arith)
  | inr (y, e) ↦ (
    ground arith,
    All-map (λ z. y ≤ z) (λ z. m ≤ z) (λ z p. ground arith) rows (All-minimum rows y e),
  )
]

All-contains : (P : ℕ → Type 0) (rows : List ℕ) (k : ℕ) → All P rows → contains rows k ≡ true → P k
unfolding contains
All-contains P [] k h e = cc
All-contains P (x ∷ rows) k h e = elim (Bool-cases (x == k)) [
  | inl same ↦ subst P (ground arith) h.0
  | inr other ↦ All-contains P rows k h.1 (ground arith)
]

-- Each block of the snapshot window of `n` that is not below the first indexed block has a row.
abbrev pub AllCommitted : Timing → List ℕ → ℕ → Type 0
AllCommitted t rows n =
    (k r : ℕ)
    → k < n
    → n ≤ k + candidate_snapshot_predecessors t
    → contains rows r ≡ true
    → r ≤ k
    → contains rows k ≡ true

module _ (t : Timing) (rows : List ℕ) (n : ℕ) (distinct : Distinct rows) where
  committed_window :
      (from to earliest : ℕ)
      → snapshot_predecessor_range t n ≡ some (from, to)
      → minimum rows ≡ some earliest
      → predecessors_committed t rows n ≡ (
          let start = if ltb from earliest then earliest else from in
          if ltb to start then true else count_between start to rows == to - start + 1)
  unfolding predecessors_committed
  committed_window from to earliest range first = ground (
    arith,
    range,
    first,
    count_between-from from earliest to rows,
    All-minimum rows earliest first,
  )

preds-pos : (t : Timing) → 1 ≤ candidate_snapshot_predecessors t
unfolding candidate_snapshot_predecessors
preds-pos t = omega arith

range_some :
    (t : Timing) (n from to : ℕ)
    → snapshot_predecessor_range t n ≡ some (from, to)
    → (from ≡ n - candidate_snapshot_predecessors t) × (to + 1 ≡ n)
unfolding snapshot_predecessor_range
range_some t n from to e = ground arith

not-contains-nil : (r : ℕ) → contains [] r ≡ false
unfolding contains
not-contains-nil r = refl

range_none : (t : Timing) (n : ℕ) → snapshot_predecessor_range t n ≡ none → n ≡ 0
unfolding snapshot_predecessor_range
range_none t n e = ground (arith, preds-pos t)

module _ (t : Timing) (rows : List ℕ) (n : ℕ) (distinct : Distinct rows) where
  module _ (from to earliest : ℕ) (range : snapshot_predecessor_range t n ≡ some (from, to))
      (first : minimum rows ≡ some earliest) where
    start : ℕ
    start = if ltb from earliest then earliest else from

    committed_start :
        predecessors_committed t rows n
        ≡ (if ltb to start then true else upto start (to - start) rows == to - start + 1)
    unfolding start
    committed_start = committed_window t rows n distinct from to earliest range first ∙ ground arith

    AllCommitted-of_true : predecessors_committed t rows n ≡ true → AllCommitted t rows n
    unfolding start
    AllCommitted-of_true e k r hi lo there le =
        let earliest-le =
          All-contains (λ x. earliest ≤ x) rows r (All-minimum rows earliest first) there in
        ground (
          arith,
          earliest-le,
          committed_start,
          range_some t n from to range,
          contains_of_full start (to - start) k rows distinct,
        )

    true_of_AllCommitted : AllCommitted t rows n → predecessors_committed t rows n ≡ true
    unfolding start
    true_of_AllCommitted all =
        let (from_eq, to_eq) = range_some t n from to range in
        let full : start ≤ to → upto start (to - start) rows ≡ to - start + 1 = λ le.
          full_of_contains start (to - start) rows distinct λ k lo hi.
            all k earliest (omega arith) (ground arith) (contains-minimum rows earliest first)
              (ground arith) in
        elim (Bool-cases (ltb to start)) [
          | inl above ↦ committed_start ∙ rw above
          | inr below ↦ committed_start ∙ rw below (ground (arith, full (ground arith)))
        ]

-- `predecessorsCommitted` reports true exactly if every block of the snapshot window that is not
-- below the first indexed block is indexed, for a table whose block numbers are distinct.
pub predecessors_committed_iff :
    (t : Timing) (rows : List ℕ) (n : ℕ)
    → Distinct rows
    → (predecessors_committed t rows n ≡ true) ↔ AllCommitted t rows n
unfolding predecessors_committed
predecessors_committed_iff t rows n distinct =
    elim (Option-cases (snapshot_predecessor_range t n)) [
      | inl empty ↦ (
        λ _ k r hi lo there le. absurd (omega (arith, range_none t n empty)),
        λ _. rw (empty, predecessors_committed),
      )
      | inr ((from, to), range) ↦ elim (Option-cases (minimum rows)) [
        | inl unindexed ↦ (
          λ _ k r hi lo there le.
              cc (there, ap (λ l. contains l r) (minimum-none rows unindexed), not-contains-nil r),
          λ _. rw (range, unindexed, predecessors_committed),
        )
        | inr (earliest, first) ↦ (
          AllCommitted-of_true t rows n distinct from to earliest range first,
          true_of_AllCommitted t rows n distinct from to earliest range first,
        )
      ]
    ]
