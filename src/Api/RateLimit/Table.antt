-- ===== src/Api/RateLimit/Table.antt =====
-- The two sides of the limiter's table: the map of visitors and the order of their use.
use blob_indexer_api.Common.{
  ℕ, ◌+◌, ◌≡◌, refl, sym, ◌∙◌, ap, subst, Bool, true, false, not, ◌&&◌, if◌then◌else◌, is_some,
  none, some, List, [], ◌∷◌, length, All, String, string_discrete, arith,
}
use blob_indexer_api.Common.Maps.{
  lookup, insert, delete, lookup-insert, lookup-delete, ite_yes, ite_no,
}
use blob_indexer_api.Api.RateLimit.{Visitor, unlink, back, drop_back}

abbrev Table : Type 0
Table = List (String × Visitor)

abbrev pub string_is : String → String → Bool
string_is a b = elim (string_discrete a b) [ yes _ ↦ true | no _ ↦ false ]

unfoldable pub listed : List String → String → Bool
listed [] ip = false
listed (x ∷ xs) ip = let rest = listed xs ip in if string_is x ip then true else rest

pub listed_cons :
    (x ip : String) (xs : List String)
    → listed (x ∷ xs) ip ≡ (if string_is x ip then true else listed xs ip)
unfolding listed
listed_cons x ip xs = refl

abbrev pub NoDuplicates : List String → Type 0
NoDuplicates [] = Unit
NoDuplicates (x ∷ xs) = (listed xs x ≡ false) × NoDuplicates xs

abbrev pub DistinctKeys : Table → Type 0
DistinctKeys [] = Unit
DistinctKeys ((k, _) ∷ m) = (lookup string_discrete k m ≡ none) × DistinctKeys m

abbrev pub one_if : Bool → ℕ
one_if b = if b then 1 else 0

pub listed-unlink :
    (ip j : String) (xs : List String)
    → NoDuplicates xs
    → listed (unlink ip xs) j ≡ (listed xs j && not (string_is ip j))
unfolding listed unlink
listed-unlink ip j [] h = refl
listed-unlink ip j (x ∷ xs) h = elim (string_discrete x ip) [
  | yes p ↦ elim (string_discrete ip j) [
    | yes q ↦ ground (arith, p, q, h.0, ap (listed xs) (p ∙ q))
    | no q ↦ ground (arith, p, q)
  ]
  | no p ↦ ground (arith, p, listed-unlink ip j xs h.1)
]

pub NoDuplicates-unlink :
    (ip : String) (xs : List String) → NoDuplicates xs → NoDuplicates (unlink ip xs)
unfolding unlink
NoDuplicates-unlink ip [] h = tt
NoDuplicates-unlink ip (x ∷ xs) h = elim (string_discrete x ip) [
  | yes p ↦ subst NoDuplicates (sym (ite_yes (string_discrete x ip) _ _ p)) h.1
  | no p ↦
      let absent : listed (unlink ip xs) x ≡ false =
        ground (arith, listed-unlink ip x xs h.1, h.0) in
      subst NoDuplicates (sym (ite_no (string_discrete x ip) _ _ p))
        (absent, NoDuplicates-unlink ip xs h.1)
]

pub length-unlink :
    (ip : String) (xs : List String) → length (unlink ip xs) + one_if (listed xs ip) ≡ length xs
unfolding unlink listed
length-unlink ip [] = refl
length-unlink ip (x ∷ xs) = ground (arith, length-unlink ip xs)

-- The last element is the only one with its value, so that to drop it is to unlink the value.
pub unlink-back :
    (xs : List String) (ip : String)
    → NoDuplicates xs
    → back xs ≡ some ip
    → (unlink ip xs ≡ drop_back xs) × (listed xs ip ≡ true)
unfolding unlink back drop_back listed
unlink-back [] ip h e = cc
unlink-back (x ∷ []) ip h e = ground (arith, e)
unlink-back (x ∷ y ∷ xs) ip h e = ground (arith, unlink-back (y ∷ xs) ip h.1 e, h.0)

pub back-none : (xs : List String) → back xs ≡ none → length xs ≡ 0
unfolding back
back-none [] e = refl
back-none (x ∷ []) e = cc
back-none (x ∷ y ∷ xs) e = absurd (ground (arith, e, back-none (y ∷ xs) e))

pub length-insert :
    (k : String) (v : Visitor) (m : Table)
    → length (insert string_discrete k v m)
      ≡ length m + one_if (not (is_some (lookup string_discrete k m)))
unfolding insert lookup
length-insert k v [] = refl
length-insert k v ((j, w) ∷ m) = ground (arith, length-insert k v m)

pub length-delete :
    (k : String) (m : Table)
    → DistinctKeys m
    → length (delete string_discrete k m) + one_if (is_some (lookup string_discrete k m)) ≡ length m
unfolding delete lookup
length-delete k [] h = refl
length-delete k ((j, w) ∷ m) h = elim (string_discrete j k) [
  | yes p ↦ ground (arith, p, h.0, length-delete k m h.1, ap (λ t. lookup string_discrete t m) p)
  | no p ↦ ground (arith, p, length-delete k m h.1)
]

pub DistinctKeys-insert :
    (k : String) (v : Visitor) (m : Table)
    → DistinctKeys m
    → DistinctKeys (insert string_discrete k v m)
unfolding insert lookup
DistinctKeys-insert k v [] h = (refl, tt)
DistinctKeys-insert k v ((j, w) ∷ m) h = elim (string_discrete j k) [
  | yes p ↦
      let free : lookup string_discrete k m ≡ none =
        subst (λ t. lookup string_discrete t m ≡ none) p h.0 in
      subst DistinctKeys (sym (ite_yes (string_discrete j k) _ _ p)) (free, h.1)
  | no p ↦
      let free : lookup string_discrete j (insert string_discrete k v m) ≡ none =
        ground (arith, lookup-insert string_discrete k j v m, h.0, p) in
      subst DistinctKeys (sym (ite_no (string_discrete j k) _ _ p))
        (free, DistinctKeys-insert k v m h.1)
]

pub DistinctKeys-delete :
    (k : String) (m : Table) → DistinctKeys m → DistinctKeys (delete string_discrete k m)
unfolding delete
DistinctKeys-delete k [] h = tt
DistinctKeys-delete k ((j, w) ∷ m) h = elim (string_discrete j k) [
  | yes p ↦
      subst DistinctKeys (sym (ite_yes (string_discrete j k) _ _ p)) (DistinctKeys-delete k m h.1)
  | no p ↦
      let free : lookup string_discrete j (delete string_discrete k m) ≡ none =
        ground (arith, lookup-delete string_discrete k j m, h.0) in
      subst DistinctKeys (sym (ite_no (string_discrete j k) _ _ p))
        (free, DistinctKeys-delete k m h.1)
]

module _ (P : Visitor → Type 0) where
  pub All-insert :
      (k : String) (v : Visitor) (m : Table)
      → P v
      → All (λ e. P e.1) m
      → All (λ e. P e.1) (insert string_discrete k v m)
  unfolding insert
  All-insert k v [] p h = (p, tt)
  All-insert k v ((j, w) ∷ m) p h = elim (string_discrete j k) [
    | yes q ↦ subst (All (λ e. P e.1)) (sym (ite_yes (string_discrete j k) _ _ q)) (p, h.1)
    | no q ↦
        subst (All (λ e. P e.1)) (sym (ite_no (string_discrete j k) _ _ q))
          (h.0, All-insert k v m p h.1)
  ]

  pub All-delete :
      (k : String) (m : Table) → All (λ e. P e.1) m → All (λ e. P e.1) (delete string_discrete k m)
  unfolding delete
  All-delete k [] h = tt
  All-delete k ((j, w) ∷ m) h = elim (string_discrete j k) [
    | yes q ↦
        subst (All (λ e. P e.1)) (sym (ite_yes (string_discrete j k) _ _ q)) (All-delete k m h.1)
    | no q ↦
        subst (All (λ e. P e.1)) (sym (ite_no (string_discrete j k) _ _ q))
          (h.0, All-delete k m h.1)
  ]

  pub lookup-All :
      (k : String) (m : Table) (v : Visitor)
      → All (λ e. P e.1) m
      → lookup string_discrete k m ≡ some v
      → P v
  unfolding lookup
  lookup-All k [] v h e = cc
  lookup-All k ((j, w) ∷ m) v h e = elim (string_discrete j k) [
    | yes q ↦ subst P (ground (arith, e, q)) h.0
    | no q ↦ lookup-All k m v h.1 (ground (arith, e, q))
  ]
