-- ===== src/Api/Wildcard/Matching.antt =====
-- `wildcardMatch` decides what a pattern means.
use blob_indexer_api.Common.{
  ℕ, ◌≡◌, ◌≢◌, refl, sym, ◌∙◌, ap, subst, inl, inr, ◌↔◌, true, some, List, [], ◌∷◌, ◌++◌, arith,
  Bool-cases, Option-cases, ℕ_discrete, ite,
}
use blob_indexer_api.Common.Text.{Text, text_is}
use blob_indexer_api.Api.Wildcard.{
  star, split, strip_prefix, match_split, wildcard_match, Matches, empty, char, leave, take,
}
use blob_indexer_api.Api.Wildcard.Search.{
  Tail, Tail-prepend, append_nil, strip_prefix_sound, strip_prefix-append, match_parts_iff,
  text_is_sound, text_is_refl,
}

-- The parts of a pattern, the first at the start of the text.
abbrev Whole : Text × List Text → Text → Type 0
Whole (first, []) t = t ≡ first
Whole (first, next ∷ parts) t = (v : Text) × (t ≡ first ++ v) × Tail next parts v

split-star : (p : Text) → split (star ∷ p) ≡ ([], (split p).0 ∷ (split p).1)
unfolding split ℕ_discrete
split-star p = refl

split-char : (c : ℕ) (p : Text) → c ≢ star → split (c ∷ p) ≡ (c ∷ (split p).0, (split p).1)
unfolding split
split-char c p n = ite_no (ℕ_discrete c star) _ _ n
  where
    ite_no : {A : Type 0} {P : Type 0} (d : Dec P) (x y : A) → ¬ P → ite d x y ≡ y
    ite_no (yes q) x y m = absurd (m q)
    ite_no (no _) x y m = refl

Whole-char :
    (c : ℕ) (f : Text) (gs : List Text) (t : Text) → Whole (f, gs) t → Whole (c ∷ f, gs) (c ∷ t)
Whole-char c f [] t e = ap (◌∷◌ c) e
Whole-char c f (g ∷ gs) t (v, e, h) = (v, ap (◌∷◌ c) e, h)

Whole-Tail : (f : Text) (gs : List Text) (t : Text) → Whole (f, gs) t → Tail f gs t
Whole-Tail f [] t e = ([], e)
Whole-Tail f (g ∷ gs) t (v, e, h) = ([], v, e, h)

Whole-leave : (f : Text) (gs : List Text) (t : Text) → Whole (f, gs) t → Whole ([], f ∷ gs) t
Whole-leave f gs t h = (t, refl, Whole-Tail f gs t h)

Whole-take :
    (c : ℕ) (f : Text) (gs : List Text) (t : Text)
    → Whole ([], f ∷ gs) t
    → Whole ([], f ∷ gs) (c ∷ t)
Whole-take c f gs t (v, e, h) =
    (c ∷ t, refl, Tail-prepend (c ∷ []) f gs t (subst (Tail f gs) (sym e) h))

Matches-Whole : {p t : Text} → Matches p t → Whole (split p) t
Matches-Whole empty = unfold split in refl
Matches-Whole (char {c} {p} {s = t} n d) =
    subst (λ q. Whole q (c ∷ t)) (sym (split-char c p n))
      (Whole-char c (split p).0 (split p).1 t (Matches-Whole d))
Matches-Whole (leave {p} {s = t} d) =
    subst (λ q. Whole q t) (sym (split-star p))
      (Whole-leave (split p).0 (split p).1 t (Matches-Whole d))
Matches-Whole (take {c} {p} {s = t} d) =
    subst (λ q. Whole q (c ∷ t)) (sym (split-star p))
      (Whole-take c (split p).0 (split p).1 t
        (subst (λ q. Whole q t) (split-star p) (Matches-Whole d)))

Tail-Whole :
    (f : Text) (gs : List Text) (t : Text)
    → Tail f gs t
    → (u : Text) × (s : Text) × (t ≡ u ++ s) × Whole (f, gs) s
Tail-Whole f [] t (u, e) = (u, f, e, refl)
Tail-Whole f (g ∷ gs) t (u, v, e, h) = (u, f ++ v, e, (v, refl, h))

Whole-uncons :
    (c : ℕ) (f : Text) (gs : List Text) (t : Text)
    → Whole (c ∷ f, gs) t
    → (s : Text) × (t ≡ c ∷ s) × Whole (f, gs) s
Whole-uncons c f [] t e = (f, e, refl)
Whole-uncons c f (g ∷ gs) t (v, e, h) = (f ++ v, e, (v, refl, h))

star-takes : (p u t : Text) → Matches p t → Matches (star ∷ p) (u ++ t)
star-takes p [] t d = leave d
star-takes p (c ∷ u) t d = take (star-takes p u t d)

Whole-nil : (t : Text) → Whole (split []) t → t ≡ []
unfolding split
Whole-nil t h = h

Whole-Matches : (p t : Text) → Whole (split p) t → Matches p t
Whole-Matches [] t h = subst (Matches []) (sym (Whole-nil t h)) empty
Whole-Matches (c ∷ p) t h = elim (ℕ_discrete c star) [
  | yes e ↦
      let at_star : Whole ([], (split p).0 ∷ (split p).1) t =
        subst (λ w. Whole w t) (split-star p) (subst (λ x. Whole (split (x ∷ p)) t) e h) in
      let (u, s, q, k) = Tail-Whole (split p).0 (split p).1 (at_star.0) (at_star.2) in
      subst (λ x. Matches (x ∷ p) t) (sym e)
        (subst (Matches (star ∷ p)) (sym (at_star.1 ∙ q)) (star-takes p u s (Whole-Matches p s k)))
  | no n ↦
      let (s, q, k) =
        Whole-uncons c (split p).0 (split p).1 t (subst (λ w. Whole w t) (split-char c p n) h) in
      subst (Matches (c ∷ p)) (sym q) (char n (Whole-Matches p s k))
]

no-star : (p : Text) → (split p).1 ≡ [] → (split p).0 ≡ p
unfolding split
no-star [] h = refl
no-star (c ∷ p) h = ground (arith, h, no-star p)

match_split_iff :
    (q : Text × List Text) (p t : Text)
    → (q.1 ≡ [] → q.0 ≡ p)
    → (match_split q p t ≡ true) ↔ Whole q t
unfolding match_split
match_split_iff (f, []) p t h = (
  λ e. sym (text_is_sound p t e) ∙ sym (h refl),
  λ e. ap (text_is p) (e ∙ h refl) ∙ text_is_refl p,
)
match_split_iff (f, g ∷ gs) p t h = (sound, complete)
  where
    sound : match_split (f, g ∷ gs) p t ≡ true → Whole (f, g ∷ gs) t
    sound e = elim (Option-cases (strip_prefix f t)) [
      | inl missing ↦ absurd (ground (arith, e, missing))
      | inr (r, there) ↦
          (r, strip_prefix_sound f t r there, (match_parts_iff g gs r).0 (ground (arith, e, there)))
    ]

    complete : Whole (f, g ∷ gs) t → match_split (f, g ∷ gs) p t ≡ true
    complete (v, e, k) =
        let there : strip_prefix f t ≡ some v = ap (strip_prefix f) e ∙ strip_prefix-append f v in
        ground (arith, there, (match_parts_iff g gs v).1 k)

all-star : (t : Text) → Matches (star ∷ []) t
all-star t = subst (Matches (star ∷ [])) (append_nil t) (star-takes [] t [] empty)

-- `wildcardMatch` answers true exactly on the texts that the pattern means, where each star stands for
-- any text and every other character for itself.
pub wildcard_match_iff : (p t : Text) → (wildcard_match p t ≡ true) ↔ Matches p t
unfolding wildcard_match
wildcard_match_iff p t =
    let (sound, complete) = match_split_iff (split p) p t (no-star p) in
    elim (Bool-cases (text_is p (star ∷ []))) [
      | inl e ↦ (
        λ _. subst (λ q. Matches q t) (sym (text_is_sound p (star ∷ []) e)) (all-star t),
        λ _. ground (arith, e),
      )
      | inr e ↦ (
        λ h. Whole-Matches p t (sound (ground (arith, h, e))),
        λ d. ground (arith, e, complete (Matches-Whole d)),
      )
    ]
