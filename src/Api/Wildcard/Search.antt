-- ===== src/Api/Wildcard/Search.antt =====
-- The greedy search of `wildcardMatch` finds the parts in order wherever they can be found at all.
use blob_indexer_api.Common.{
  ◌≤◌, ◌≡◌, refl, sym, ◌∙◌, ap, subst, inl, inr, ◌↔◌, true, some, List, [], ◌∷◌, ◌++◌, length,
  length-append, arith, Bool-cases, Option-cases,
}
use blob_indexer_api.Common.Text.{Text, text_is, tails}
use blob_indexer_api.Api.Wildcard.{is_empty, strip_prefix, after_index, has_suffix, match_parts}

pub append_assoc : (a b c : Text) → (a ++ b) ++ c ≡ a ++ (b ++ c)
append_assoc [] b c = refl
append_assoc (x ∷ a) b c = ap (◌∷◌ x) (append_assoc a b c)

pub append_nil : (t : Text) → t ++ [] ≡ t
append_nil [] = refl
append_nil (c ∷ t) = ap (◌∷◌ c) (append_nil t)

-- A part, and those behind it, with any text before each and none behind the last.
abbrev pub Tail : Text → List Text → Text → Type 0
Tail part [] t = (u : Text) × (t ≡ u ++ part)
Tail part (next ∷ parts) t = (u : Text) × (v : Text) × (t ≡ u ++ (part ++ v)) × Tail next parts v

pub Tail-prepend :
    (w part : Text) (parts : List Text) (t : Text) → Tail part parts t → Tail part parts (w ++ t)
Tail-prepend w part [] t (u, e) = (w ++ u, ap (λ x. w ++ x) e ∙ sym (append_assoc w u part))
Tail-prepend w part (next ∷ parts) t (u, v, e, h) =
    (w ++ u, v, ap (λ x. w ++ x) e ∙ sym (append_assoc w u (part ++ v)), h)

pub strip_prefix_sound : (p t r : Text) → strip_prefix p t ≡ some r → t ≡ p ++ r
unfolding strip_prefix
strip_prefix_sound [] t r e = ground (arith, e)
strip_prefix_sound (c ∷ p) [] r e = ground (arith, e)
strip_prefix_sound (c ∷ p) (d ∷ t) r e = ground (arith, e, strip_prefix_sound p t r)

pub strip_prefix-append : (p r : Text) → strip_prefix p (p ++ r) ≡ some r
unfolding strip_prefix
strip_prefix-append [] r = refl
strip_prefix-append (c ∷ p) r = ground (arith, strip_prefix-append p r)

after_index_sound :
    (part t r : Text) → after_index part t ≡ some r → (u : Text) × (t ≡ u ++ (part ++ r))
unfolding after_index
after_index_sound part [] r e = ([], strip_prefix_sound part [] r e)
after_index_sound part (c ∷ t) r e = elim (Option-cases (strip_prefix part (c ∷ t))) [
  | inl none_here ↦
      let (u, p) = after_index_sound part t r (ground (arith, e, none_here)) in
      (c ∷ u, ap (◌∷◌ c) p)
  | inr (r', here) ↦ ([], strip_prefix_sound part (c ∷ t) r (ground (arith, e, here)))
]

-- Of two splittings of a text, the one with the shorter front has the longer back.
longer_back : (a r b v : Text) → a ++ r ≡ b ++ v → length a ≤ length b → (w : Text) × (r ≡ w ++ v)
longer_back [] r b v e h = (b, e)
longer_back (x ∷ a) r [] v e h = absurd (omega arith)
longer_back (x ∷ a) r (y ∷ b) v e h =
    longer_back a r b v (tails x y (a ++ r) (b ++ v) e) (omega arith)

after_index-prefix : (part t r : Text) → strip_prefix part t ≡ some r → after_index part t ≡ some r
unfolding after_index
after_index-prefix part [] r e = e
after_index-prefix part (c ∷ t) r e = ground (arith, e)

-- An occurrence of the part has the first one at or before it.
after_index-first :
    (part u v t : Text)
    → t ≡ u ++ (part ++ v)
    → (r : Text) × (w : Text) × (after_index part t ≡ some r) × (r ≡ w ++ v)
unfolding after_index
after_index-first part [] v t e = (
  v,
  [],
  after_index-prefix part t v (ap (strip_prefix part) e ∙ strip_prefix-append part v),
  refl,
)
after_index-first part (c ∷ u) v [] e = absurd (ground (arith, e))
after_index-first part (c ∷ u) v (d ∷ t) e = elim (Option-cases (strip_prefix part (d ∷ t))) [
  | inl none_here ↦
      let (r, w, p, q) = after_index-first part u v t (tails d c t (u ++ (part ++ v)) e) in
      (r, w, ground (arith, p, none_here), q)
  | inr (r, here) ↦
      let (w, q) =
        longer_back part r ((c ∷ u) ++ part) v
          (sym (strip_prefix_sound part (d ∷ t) r here) ∙ (e ∙ sym (append_assoc (c ∷ u) part v)))
          (omega (arith, length-append (c ∷ u) part)) in
      (r, w, after_index-prefix part (d ∷ t) r here, q)
]

pub text_is_sound : (a b : Text) → text_is a b ≡ true → a ≡ b
text_is_sound a b e = ground (arith, e)

pub text_is_refl : (a : Text) → text_is a a ≡ true
text_is_refl a = ground arith

has_suffix_sound : (last t : Text) → has_suffix last t ≡ true → (u : Text) × (t ≡ u ++ last)
unfolding has_suffix
has_suffix_sound [] [] e = ([], refl)
has_suffix_sound (x ∷ last) [] e = absurd (ground (arith, e))
has_suffix_sound last (c ∷ t) e = elim (Bool-cases (text_is (c ∷ t) last)) [
  | inl here ↦ ([], text_is_sound (c ∷ t) last here)
  | inr no_here ↦
      let (u, p) = has_suffix_sound last t (ground (arith, e, no_here)) in (c ∷ u, ap (◌∷◌ c) p)
]

has_suffix-append : (last u : Text) → has_suffix last (u ++ last) ≡ true
unfolding has_suffix
has_suffix-append [] [] = refl
has_suffix-append (x ∷ last) [] = ground (arith, text_is_refl (x ∷ last))
has_suffix-append last (c ∷ u) = ground (arith, has_suffix-append last u)

empty-eq : (t : Text) → is_empty t ≡ true → t ≡ []
empty-eq [] e = refl
empty-eq (x ∷ t) e = absurd (ground (arith, e))

match_parts_sound :
    (part : Text) (parts : List Text) (t : Text)
    → match_parts part parts t ≡ true
    → Tail part parts t
unfolding match_parts
match_parts_sound part [] t e = elim (Bool-cases (is_empty part)) [
  | inl h ↦ (t, sym (append_nil t) ∙ ap (λ x. t ++ x) (sym (empty-eq part h)))
  | inr h ↦ has_suffix_sound part t (ground (arith, e, h))
]
match_parts_sound part (next ∷ parts) t e = elim (Bool-cases (is_empty part)) [
  | inl h ↦ (
    [],
    t,
    ap (λ x. x ++ t) (sym (empty-eq part h)),
    match_parts_sound next parts t (ground (arith, e, h)),
  )
  | inr h ↦ elim (Option-cases (after_index part t)) [
    | inl missing ↦ absurd (ground (arith, e, h, missing))
    | inr (r, at) ↦
        let (u, p) = after_index_sound part t r at in
        (u, r, p, match_parts_sound next parts r (ground (arith, e, h, at)))
  ]
]

-- The search finds the parts wherever they can be found.
match_parts_complete :
    (part : Text) (parts : List Text) (t : Text)
    → Tail part parts t
    → match_parts part parts t ≡ true
unfolding match_parts
match_parts_complete part [] t (u, e) =
    ground (arith, ap (has_suffix part) e, has_suffix-append part u)
match_parts_complete part (next ∷ parts) t (u, v, e, h) = elim (Bool-cases (is_empty part)) [
  | inl k ↦
      let same : t ≡ u ++ v = e ∙ ap (λ x. u ++ (x ++ v)) (empty-eq part k) in
      let later : Tail next parts t =
        subst (Tail next parts) (sym same) (Tail-prepend u next parts v h) in
      ground (arith, k, match_parts_complete next parts t later)
  | inr k ↦
      let (r, w, at, q) = after_index-first part u v t e in
      let later : Tail next parts r =
        subst (Tail next parts) (sym q) (Tail-prepend w next parts v h) in
      ground (arith, k, at, match_parts_complete next parts r later)
]

pub match_parts_iff :
    (part : Text) (parts : List Text) (t : Text)
    → (match_parts part parts t ≡ true) ↔ Tail part parts t
match_parts_iff part parts t = (match_parts_sound part parts t, match_parts_complete part parts t)
