-- ===== src/Api/Cors/Single.antt =====
-- A configuration that names a single origin, and the origin that its policy is pinned to,
-- internal/api/cors.go.
use blob_indexer_api.Common.{
  ◌≡◌, ◌≢◌, refl, sym, ◌∙◌, ap, ◌⊎◌, inl, inr, false, List, [], ◌∷◌, length, arith, All, subst,
}
use blob_indexer_api.Common.Text.{Text, is_member, to_lower, trim_space, text_discrete}
use blob_indexer_api.Api.Wildcard.{is_empty}
use blob_indexer_api.Api.Cors.{
  CorsConfig, OriginScan, any_text, kept, add_origin, read_origins, new_cors_policy,
  normalize_origin_patterns, add_member,
}
use blob_indexer_api.Api.Cors.Origins.{
  Any, IsLiteral, not_empty, all-read_origins, literals-read_origins,
}
use blob_indexer_api.Api.Cors.Pinned.{pinned_origin-IsPinned, only_literal, single, lower_empty}

-- The first of the configured origins that is not blank.
abbrev pub FirstLiteral : List Text → Text → Type 0
FirstLiteral [] k = ⊥
FirstLiteral (t ∷ ts) k =
    ((trim_space t ≡ []) × FirstLiteral ts k) ⊎ ((trim_space t ≢ []) × (trim_space t ≡ k))

-- The configuration allows one literal origin, however often and in whatever case of letters it names
-- it, and neither all origins nor a pattern.
pub record SingleOrigin (cfg : CorsConfig) (k : Text) : Type 0 where
  pub not_all : cfg.allow_all_origins ≡ false
  pub no_star : All (λ t. trim_space t ≢ any_text) cfg.allowed_origins
  pub alike :
      All (λ t. (trim_space t ≡ []) ⊎ (to_lower (trim_space t) ≡ to_lower k)) cfg.allowed_origins
  pub first : FirstLiteral cfg.allowed_origins k
  pub no_patterns : All (λ t. trim_space t ≡ []) cfg.allowed_origin_patterns

same_add_origin :
    (t : Text) (s : OriginScan)
    → t ≢ any_text
    → s.first_literal ≢ []
    → ((add_origin t s).all ≡ s.all) × ((add_origin t s).first_literal ≡ s.first_literal)
unfolding add_origin
same_add_origin t s n f = ground (arith, not_empty s.first_literal)

literals_add_origin :
    (t x : Text) (s : OriginScan)
    → t ≢ any_text
    → (t ≡ []) ⊎ (to_lower t ≡ x)
    → s.literals ≡ x ∷ []
    → (add_origin t s).literals ≡ x ∷ []
unfolding add_origin add_member
literals_add_origin t x s n h e =
    ground (arith, not_empty t, single x (to_lower t), ap (λ l. is_member l (to_lower t)) e)

rest_of_scan :
    (ts : List Text) (x : Text) (s : OriginScan)
    → All (λ t. trim_space t ≢ any_text) ts
    → All (λ t. (trim_space t ≡ []) ⊎ (to_lower (trim_space t) ≡ x)) ts
    → s.first_literal ≢ []
    → s.literals ≡ x ∷ []
    → let r = read_origins ts s in
      (r.all ≡ s.all) × (r.first_literal ≡ s.first_literal) × (r.literals ≡ x ∷ [])
unfolding read_origins
rest_of_scan [] x s n h f l = (refl, refl, l)
rest_of_scan (t ∷ ts) x s n h f l =
    let (a, b) = same_add_origin (trim_space t) s n.0 f in
    let (a', b', c') =
      rest_of_scan ts x (add_origin (trim_space t) s) n.1 h.1 (λ e. f (sym b ∙ e))
        (literals_add_origin (trim_space t) x s n.0 h.0 l) in
    (a' ∙ a, b' ∙ b, c')

first_add_origin :
    (t : Text) (s : OriginScan)
    → t ≢ any_text
    → t ≢ []
    → s.first_literal ≡ []
    → s.literals ≡ []
    → let r = add_origin t s in
      (r.all ≡ s.all) × (r.first_literal ≡ t) × (r.literals ≡ to_lower t ∷ [])
unfolding add_origin add_member is_member
first_add_origin t s n m f l =
    ground (arith, not_empty t, ap is_empty f, ap (λ l. is_member l (to_lower t)) l)

blank_add_origin : (t : Text) (s : OriginScan) → t ≡ [] → add_origin t s ≡ s
unfolding add_origin
blank_add_origin t s e = ap (λ u. add_origin u s) e

scan-first :
    (ts : List Text) (k : Text) (s : OriginScan)
    → All (λ t. trim_space t ≢ any_text) ts
    → All (λ t. (trim_space t ≡ []) ⊎ (to_lower (trim_space t) ≡ to_lower k)) ts
    → FirstLiteral ts k
    → s.first_literal ≡ []
    → s.literals ≡ []
    → let r = read_origins ts s in
      (r.all ≡ s.all) × (r.first_literal ≡ k) × (r.literals ≡ to_lower k ∷ [])
unfolding read_origins
scan-first [] k s n h i f l = absurd i
scan-first (t ∷ ts) k s n h (inl (e, i)) f l =
    subst
      (λ q.
        let r = read_origins ts q in
        (r.all ≡ s.all) × (r.first_literal ≡ k) × (r.literals ≡ to_lower k ∷ []))
      (sym (blank_add_origin (trim_space t) s e)) (scan-first ts k s n.1 h.1 i f l)
scan-first (t ∷ ts) k s n h (inr (m, e)) f l =
    let (a, b, c) = first_add_origin (trim_space t) s n.0 m f l in
    let (a', b', c') =
      rest_of_scan ts (to_lower k) (add_origin (trim_space t) s) n.1 h.1 (λ z. m (sym b ∙ z))
        (c ∙ ap (λ u. to_lower u ∷ []) e) in
    (a' ∙ a, b' ∙ (b ∙ e), c')

kept-blank : (f : Text → Text) (ts : List Text) → All (λ t. f t ≡ []) ts → length (kept f ts) ≡ 0
unfolding kept
kept-blank f [] h = refl
kept-blank f (t ∷ ts) h = ground (arith, ap is_empty h.0, kept-blank f ts h.1)

blank-kept : (f : Text → Text) (ts : List Text) → length (kept f ts) ≡ 0 → All (λ t. f t ≡ []) ts
unfolding kept
blank-kept f [] h = tt
blank-kept f (t ∷ ts) h = ground (arith, not_empty (f t), blank-kept f ts)

lower_blank :
    (ts : List Text) → All (λ t. trim_space t ≡ []) ts → All (λ t. to_lower (trim_space t) ≡ []) ts
unfolding to_lower
lower_blank [] h = tt
lower_blank (t ∷ ts) h = (ap to_lower h.0, lower_blank ts h.1)

blank_lower :
    (ts : List Text) → All (λ t. to_lower (trim_space t) ≡ []) ts → All (λ t. trim_space t ≡ []) ts
blank_lower [] h = tt
blank_lower (t ∷ ts) h = (lower_empty (trim_space t) h.0, blank_lower ts h.1)

first_not_blank : (ts : List Text) (k : Text) → FirstLiteral ts k → k ≢ []
first_not_blank [] k i = absurd i
first_not_blank (t ∷ ts) k (inl (e, i)) = first_not_blank ts k i
first_not_blank (t ∷ ts) k (inr (m, e)) = λ z. m (e ∙ z)

-- The policy of a configuration with a single origin is pinned to it.
pub pinned_of_single :
    (cfg : CorsConfig) (k : Text) → SingleOrigin cfg k → (new_cors_policy cfg).pinned_origin ≡ k
unfolding new_cors_policy normalize_origin_patterns
pinned_of_single cfg k h =
    let (a, b, c) =
      scan-first cfg.allowed_origins k
        (record { all = cfg.allow_all_origins; literals = []; first_literal = [] }) h.no_star
        h.alike h.first refl refl in
    ground (
      arith,
      a,
      b,
      ap length c,
      h.not_all,
      kept-blank (λ t. to_lower (trim_space t)) cfg.allowed_origin_patterns
          (lower_blank cfg.allowed_origin_patterns h.no_patterns),
    )

none-Any : (P : Text → Type 0) (ts : List Text) → ¬ Any P ts → All (λ t. ¬ P t) ts
none-Any P [] n = tt
none-Any P (t ∷ ts) n = (λ p. n (inl p), none-Any P ts (λ i. n (inr i)))

keeps_first :
    (ts : List Text) (s : OriginScan)
    → All (λ t. trim_space t ≢ any_text) ts
    → s.first_literal ≢ []
    → (read_origins ts s).first_literal ≡ s.first_literal
unfolding read_origins
keeps_first [] s n f = refl
keeps_first (t ∷ ts) s n f =
    let (a, b) = same_add_origin (trim_space t) s n.0 f in
    keeps_first ts (add_origin (trim_space t) s) n.1 (λ e. f (sym b ∙ e)) ∙ b

found_first :
    (t : Text) (s : OriginScan)
    → t ≢ any_text
    → t ≢ []
    → s.first_literal ≡ []
    → (add_origin t s).first_literal ≡ t
unfolding add_origin
found_first t s n m f = ground (arith, not_empty t, ap is_empty f)

FirstLiteral-read_origins :
    (ts : List Text) (s : OriginScan)
    → All (λ t. trim_space t ≢ any_text) ts
    → s.first_literal ≡ []
    → (read_origins ts s).first_literal ≢ []
    → FirstLiteral ts (read_origins ts s).first_literal
unfolding read_origins
FirstLiteral-read_origins [] s n f m = absurd (m f)
FirstLiteral-read_origins (t ∷ ts) s n f m = elim (text_discrete (trim_space t) []) [
  | yes e ↦
      let b = ap (λ q. q.first_literal) (blank_add_origin (trim_space t) s e) in
      inl (e, FirstLiteral-read_origins ts (add_origin (trim_space t) s) n.1 (b ∙ f) m)
  | no e ↦
      let b = found_first (trim_space t) s n.0 e f in
      inr (e, sym (keeps_first ts (add_origin (trim_space t) s) n.1 (λ z. e (sym b ∙ z)) ∙ b))
]

alike_members :
    (x : Text) (ts : List Text)
    → All (λ t. trim_space t ≢ any_text) ts
    → ((y : Text) → Any (λ t. IsLiteral y (trim_space t)) ts → x ≡ y)
    → All (λ t. (trim_space t ≡ []) ⊎ (to_lower (trim_space t) ≡ x)) ts
alike_members x [] n h = tt
alike_members x (t ∷ ts) n h = (
  elim (text_discrete (trim_space t) []) [
    | yes e ↦ inl e
    | no e ↦ inr (sym (h (to_lower (trim_space t)) (inl (e, n.0, refl))))
  ],
  alike_members x ts n.1 (λ y i. h y (inr i)),
)

-- A policy that is pinned has been read from a configuration with a single origin.
pub single_of_pinned :
    (cfg : CorsConfig)
    → (new_cors_policy cfg).pinned_origin ≢ []
    → SingleOrigin cfg (new_cors_policy cfg).pinned_origin
unfolding normalize_origin_patterns
single_of_pinned cfg n =
    let i = pinned_origin-IsPinned cfg n in
    let start : OriginScan = record {
      all = cfg.allow_all_origins;
      literals = [];
      first_literal = [];
    } in
    let stars = all-read_origins cfg.allowed_origins start in
    let no_star : All (λ t. trim_space t ≢ any_text) cfg.allowed_origins =
      none-Any (λ t. trim_space t ≡ any_text) cfg.allowed_origins
        (λ a. absurd (ground (arith, i.not_all, stars.1 (inr a)))) in
    record {
      not_all = ground (arith, i.not_all, stars);
      no_star = no_star;
      alike =
          alike_members (to_lower (new_cors_policy cfg).pinned_origin) cfg.allowed_origins no_star
            (λ y a. (single (to_lower (new_cors_policy cfg).pinned_origin) y).0 (
              ap (λ l. is_member l y) (sym (only_literal cfg n))
              ∙ (literals-read_origins cfg.allowed_origins y start).1 (inr a)));
      first =
          subst (FirstLiteral cfg.allowed_origins) (sym i.first) (
            FirstLiteral-read_origins cfg.allowed_origins start no_star refl
              (λ e. n (i.first ∙ e)));
      no_patterns =
          blank_lower cfg.allowed_origin_patterns
            (blank-kept (λ t. to_lower (trim_space t)) cfg.allowed_origin_patterns i.patterns);
    }

pub single_not_blank : (cfg : CorsConfig) (k : Text) → SingleOrigin cfg k → k ≢ []
single_not_blank cfg k h = first_not_blank cfg.allowed_origins k h.first
