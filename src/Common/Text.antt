-- ===== src/Common/Text.antt =====
-- Go's `string` as a list of character codes: its order, `strings.ToLower` and `strings.EqualFold`.
-- The case mapping is the one of ASCII.
use Prim.Native.Char.{code}
use blob_indexer_api.Common.{
  ℕ, zero, suc, ◌+◌, ◌*◌, ◌/◌, ◌%◌, Option, none, some, ◌≡◌, refl, ap, ap₂, ◌⊎◌, inl, inr, Bool,
  true, false, ◌&&◌, ◌||◌, ◌-◌, ◌++◌, ite, if◌then◌else◌, ltb, leb, String, List, [], ◌∷◌, map,
  ℕ_discrete, arith,
}

abbrev pub Text : Type 0
Text = List ℕ

abbrev pub codes : String → Text
codes String.[] = []
codes (String.◌∷◌ c s) = code c ∷ codes s

head_or_zero : Text → ℕ
head_or_zero [] = 0
head_or_zero (x ∷ xs) = x

tail_of : Text → Text
tail_of [] = []
tail_of (x ∷ xs) = xs

pub heads : (x y : ℕ) (xs ys : Text) → ◌≡◌ {A = Text} (x ∷ xs) (y ∷ ys) → x ≡ y
unfolding head_or_zero
heads x y xs ys p = ap head_or_zero p

pub tails : (x y : ℕ) (xs ys : Text) → ◌≡◌ {A = Text} (x ∷ xs) (y ∷ ys) → xs ≡ ys
unfolding tail_of
tails x y xs ys p = ap tail_of p

unfoldable pub text_discrete : Discrete Text
unfolding heads tails
text_discrete [] [] = yes refl
text_discrete [] (y ∷ ys) = no (λ p. cc)
text_discrete (x ∷ xs) [] = no (λ p. cc)
text_discrete (x ∷ xs) (y ∷ ys) = both (ℕ_discrete x y) (text_discrete xs ys)
  where
    both : Dec (x ≡ y) → Dec (xs ≡ ys) → Dec (◌≡◌ {A = Text} (x ∷ xs) (y ∷ ys))
    both (yes p) (yes q) = yes (ap₂ ◌∷◌ p q)
    both (no n) d = no (λ p. n (heads x y xs ys p))
    both (yes p) (no n) = no (λ r. n (tails x y xs ys r))

abbrev pub text_is : Text → Text → Bool
text_is a b = elim (text_discrete a b) [ yes _ ↦ true | no _ ↦ false ]

-- `a < b` on strings.
unfoldable pub ltb_text : Text → Text → Bool
ltb_text xs [] = false
ltb_text [] (y ∷ ys) = true
ltb_text (x ∷ xs) (y ∷ ys) =
    let rest = ltb_text xs ys in if ltb x y then true else if ltb y x then false else rest

pub ltb_text_asym : (a b : Text) → ltb_text a b ≡ true → ltb_text b a ≡ false
unfolding ltb_text
ltb_text_asym [] [] h = cc
ltb_text_asym [] (y ∷ ys) h = refl
ltb_text_asym (x ∷ xs) [] h = cc
ltb_text_asym (x ∷ xs) (y ∷ ys) h = ground (arith, ltb_text_asym xs ys)

-- What lies between two texts in order is after the first or before the second.
pub ltb_text_split :
    (a b c : Text) → ltb_text a c ≡ true → (ltb_text a b ≡ true) ⊎ (ltb_text b c ≡ true)
unfolding ltb_text
ltb_text_split a b [] h = cc
ltb_text_split a [] (z ∷ zs) h = inr refl
ltb_text_split [] (y ∷ ys) (z ∷ zs) h = inl refl
ltb_text_split (x ∷ xs) (y ∷ ys) (z ∷ zs) h = ground (arith, ltb_text_split xs ys zs)

unfoldable pub lower_char : ℕ → ℕ
lower_char c = if leb b'A' c && leb c b'Z' then c + 32 else c

unfoldable pub to_lower : Text → Text
to_lower = map lower_char

unfoldable pub equal_fold : Text → Text → Bool
equal_fold a b = elim (text_discrete (to_lower a) (to_lower b)) [ yes _ ↦ true | no _ ↦ false ]

lower_char_idem : (c : ℕ) → lower_char (lower_char c) ≡ lower_char c
unfolding lower_char
lower_char_idem c = ground arith

pub to_lower_idem : (t : Text) → to_lower (to_lower t) ≡ to_lower t
unfolding to_lower
to_lower_idem [] = refl
to_lower_idem (c ∷ t) = ap₂ ◌∷◌ (lower_char_idem c) (to_lower_idem t)

-- The keys of a Go map to empty structs.
unfoldable pub is_member : List Text → Text → Bool
is_member [] a = false
is_member (b ∷ bs) a = let rest = is_member bs a in if text_is b a then true else rest

unfoldable pub upper_char : ℕ → ℕ
upper_char c = if leb b'a' c && leb c b'z' then c - 32 else c

unfoldable pub to_upper : Text → Text
unfolding upper_char
to_upper = map upper_char

-- The white space of ASCII: tab to carriage return, and the blank.
unfoldable pub is_space : ℕ → Bool
is_space c = leb 9 c && leb c 13 || leb 32 c && leb c 32

unfoldable pub trim_left : Text → Text
unfolding is_space
trim_left [] = []
trim_left (c ∷ t) = let rest = trim_left t in if is_space c then rest else c ∷ t

unfoldable pub trim_right : Text → Text
unfolding is_space
trim_right [] = []
trim_right (c ∷ t) = trimmed (trim_right t)
  where
    trimmed : Text → Text
    trimmed [] = if is_space c then [] else c ∷ []
    trimmed (d ∷ u) = c ∷ d ∷ u

-- `strings.TrimSpace`
unfoldable pub trim_space : Text → Text
unfolding trim_left trim_right
trim_space t = trim_right (trim_left t)

-- `strings.Split` at one character.
unfoldable pub split_at : ℕ → Text → List Text
split_at sep [] = [] ∷ []
split_at sep (c ∷ t) = elim (split_at sep t) [
  | [] ↦ []
  | first ∷ rest ↦ ite (ℕ_discrete c sep) ([] ∷ first ∷ rest) ((c ∷ first) ∷ rest)
]

-- `strings.Join` with ", "
unfoldable pub join_comma : List Text → Text
join_comma [] = []
join_comma (t ∷ []) = t
join_comma (t ∷ u ∷ ts) = t ++ b',' ∷ b' ' ∷ join_comma (u ∷ ts)

-- Decimal digits, as `strconv.Atoi` reads them.
unfoldable pub digits_value : ℕ → Text → Option ℕ
digits_value acc [] = some acc
digits_value acc (c ∷ t) =
    let rest = digits_value (acc * 10 + (c - b'0')) t in
    if leb b'0' c && leb c b'9' then rest else none

-- The last `f` decimal digits of a number.
unfoldable pub digits : ℕ → ℕ → Text
digits zero n = []
digits (suc f) n =
    let front = digits f (n / 10) in (if ltb n 10 then [] else front) ++ (n % 10 + b'0') ∷ []

-- `%d`
unfoldable pub decimal : ℕ → Text
unfolding digits
decimal n = digits (suc n) n
