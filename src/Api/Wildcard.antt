-- ===== src/Api/Wildcard.antt =====
-- `wildcardMatch` of internal/api/cors.go: its greedy search for the parts between the stars, and what
-- it means for a text to match a pattern, with no search order in it.
pub mod Search
pub mod Matching
use blob_indexer_api.Common.{
  ℕ, suc, ◌+◌, ◌≤◌, ◌≡◌, ◌≢◌, refl, sym, ◌∙◌, ap, ap₂, subst, ◌⊎◌, inl, inr, ◌↔◌, Bool, true, false,
  ◌||◌, if◌then◌else◌, Option, none, some, List, [], ◌∷◌, ◌++◌, length, length-append, arith,
  Bool-cases, Option-cases, ℕ_discrete, ite,
}
use blob_indexer_api.Common.Text.{Text, text_is}

abbrev pub star : ℕ
star = b'*'

abbrev pub is_empty : Text → Bool
is_empty [] = true
is_empty (_ ∷ _) = false

-- `strings.Split` at the stars: the first part and the others.
unfoldable pub split : Text → Text × List Text
split [] = ([], [])
split (c ∷ p) =
    let (first, rest) = split p in ite (ℕ_discrete c star) ([], first ∷ rest) (c ∷ first, rest)

-- `strings.HasPrefix`, with what is behind the prefix.
unfoldable pub strip_prefix : Text → Text → Option Text
strip_prefix [] t = some t
strip_prefix (c ∷ p) [] = none
strip_prefix (c ∷ p) (d ∷ t) = let rest = strip_prefix p t in ite (ℕ_discrete c d) rest none

-- `strings.Index`, with what is behind the first occurrence.
unfoldable pub after_index : Text → Text → Option Text
unfolding strip_prefix
after_index part [] = strip_prefix part []
after_index part (c ∷ t) = elim (strip_prefix part (c ∷ t)) [
  | some r ↦ some r
  | none ↦ after_index part t
]

unfoldable pub has_suffix : Text → Text → Bool
has_suffix last [] = is_empty last
has_suffix last (c ∷ t) = let rest = has_suffix last t in text_is (c ∷ t) last || rest

-- The loop over the middle parts and the test of the last one. The text is what is behind `position`.
unfoldable pub match_parts : Text → List Text → Text → Bool
unfolding after_index has_suffix
match_parts last [] t = is_empty last || has_suffix last t
match_parts part (next ∷ parts) t =
    let unmoved = match_parts next parts t in
    if is_empty part
    then unmoved
    else elim (after_index part t) [ none ↦ false | some r ↦ match_parts next parts r ]

unfoldable pub match_split : Text × List Text → Text → Text → Bool
unfolding strip_prefix match_parts
match_split (first, []) pattern t = text_is pattern t
match_split (first, next ∷ parts) pattern t = elim (strip_prefix first t) [
  | none ↦ false
  | some r ↦ match_parts next parts r
]

unfoldable pub wildcard_match : Text → Text → Bool
unfolding split match_split
wildcard_match pattern t =
    if text_is pattern (star ∷ []) then true else match_split (split pattern) pattern t

-- What a pattern means: a star stands for any text, and every other character for itself.
pub data Matches : Text → Text → Type 0 where
  empty : Matches [] []
  char : {c : ℕ} {p s : Text} → c ≢ star → Matches p s → Matches (c ∷ p) (c ∷ s)
  leave : {p s : Text} → Matches p s → Matches (star ∷ p) s
  take : {c : ℕ} {p s : Text} → Matches (star ∷ p) s → Matches (star ∷ p) (c ∷ s)
