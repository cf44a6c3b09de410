-- ===== src/Api/StatsWindow/RoundTrip.antt =====
-- The label of a window that was accepted reads as that window again.
use blob_indexer_api.Common.{
  ℕ, zero, suc, ◌+◌, ◌-◌, ◌*◌, ◌/◌, ◌%◌, ◌^◌, ◌<◌, ◌≡◌, ◌≢◌, refl, sym, ◌∙◌, ap, ap₂, inl, inr,
  Bool, false, ◌&&◌, if◌then◌else◌, ltb, leb, Option, none, some, [], ◌∷◌, ◌++◌, All, All-append,
  arith, Bool-cases, Option-cases,
}
use blob_indexer_api.Common.Text.{
  Text, to_lower, lower_char, is_space, trim_left, trim_right, trim_space, digits_value, digits,
  decimal,
}
use blob_indexer_api.Api.StatsWindow.{
  StatsWindowSpec, split_last, unit_size, amount_of, window_of, window_from, parse_amount,
  parse_value, parse_rolling_stats_window,
}

abbrev is_digit : ℕ → Bool
is_digit c = leb b'0' c && leb c b'9'

abbrev next_value : ℕ → Option ℕ → Option ℕ
next_value c none = none
next_value c (some v) = if is_digit c then some (v * 10 + (c - b'0')) else none

digits_value-append :
    (acc c : ℕ) (t : Text) → digits_value acc (t ++ c ∷ []) ≡ next_value c (digits_value acc t)
unfolding digits_value
digits_value-append acc c [] = refl
digits_value-append acc c (d ∷ t) = ground (arith, digits_value-append (acc * 10 + (d - b'0')) c t)

digits_value-nil : digits_value 0 [] ≡ some 0
unfolding digits_value
digits_value-nil = refl

next_digit : (v n : ℕ) → next_value (n % 10 + b'0') (some v) ≡ some (v * 10 + n % 10)
next_digit v n = ground arith

-- Printed digits read as the number.
digits_value-digits : (f n : ℕ) → n < f → digits_value 0 (digits f n) ≡ some n
unfolding digits
digits_value-digits zero n h = absurd (omega arith)
digits_value-digits (suc f) n h = elim (Bool-cases (ltb n 10)) [
  | inl e ↦ rw e (
      digits_value-append 0 (n % 10 + b'0') []
      ∙ (ap (next_value (n % 10 + b'0')) digits_value-nil
          ∙ (next_digit 0 n ∙ ap some (ground (arith, e)))))
  | inr e ↦ rw e (
      digits_value-append 0 (n % 10 + b'0') (digits f (n / 10))
      ∙ (ap (next_value (n % 10 + b'0')) (digits_value-digits f (n / 10) (ground (arith, e)))
          ∙ (next_digit (n / 10) n ∙ ap some (omega arith))))
]

-- Neither white space nor an upper-case letter.
abbrev IsPlain : ℕ → Type 0
IsPlain c = (is_space c ≡ false) × (lower_char c ≡ c)

digit-IsPlain : (n : ℕ) → IsPlain (n % 10 + b'0')
unfolding is_space lower_char
digit-IsPlain n = (ground arith, ground arith)

digits-IsPlain : (f n : ℕ) → All IsPlain (digits f n)
unfolding digits
digits-IsPlain zero n = tt
digits-IsPlain (suc f) n = elim (Bool-cases (ltb n 10)) [
  | inl e ↦ rw e (digit-IsPlain n, tt)
  | inr e ↦
      rw e
        (All-append IsPlain (digits f (n / 10)) _ (digits-IsPlain f (n / 10)) (digit-IsPlain n, tt))
]

unit-IsPlain : (u size : ℕ) → unit_size u ≡ some size → IsPlain u
unfolding unit_size is_space lower_char
unit-IsPlain u size e = (ground (arith, e), ground (arith, e))

to_lower-plain : (t : Text) → All IsPlain t → to_lower t ≡ t
unfolding to_lower
to_lower-plain [] h = refl
to_lower-plain (c ∷ t) h = ap₂ ◌∷◌ h.0.1 (to_lower-plain t h.1)

trim_left-plain : (t : Text) → All IsPlain t → trim_left t ≡ t
unfolding trim_left
trim_left-plain [] h = refl
trim_left-plain (c ∷ t) h = ground (arith, h.0.0)

trim_right-plain : (t : Text) → All IsPlain t → trim_right t ≡ t
unfolding trim_right
trim_right-plain [] h = refl
trim_right-plain (c ∷ []) h = ground (arith, h.0.0)
trim_right-plain (c ∷ d ∷ t) h = ground (arith, trim_right-plain (d ∷ t) h.1)

split_last-append : (c u : ℕ) (t : Text) → split_last c (t ++ u ∷ []) ≡ (c ∷ t, u)
unfolding split_last
split_last-append c u [] = refl
split_last-append c u (d ∷ t) = ap (λ (x : Text × ℕ). (c ∷ x.0, x.1)) (split_last-append d u t)

parse_value-append : (t : Text) (u : ℕ) → t ≢ [] → parse_value (t ++ u ∷ []) ≡ parse_amount (t, u)
unfolding parse_value
parse_value-append [] u n = absurd (n refl)
parse_value-append (c ∷ []) u n = ap parse_amount (split_last-append c u [])
parse_value-append (c ∷ d ∷ t) u n = ap parse_amount (split_last-append c u (d ∷ t))

append-ne-nil : (t : Text) (c : ℕ) → t ++ c ∷ [] ≢ []
append-ne-nil [] c = λ e. cc
append-ne-nil (d ∷ t) c = λ e. cc

decimal-ne-nil : (n : ℕ) → decimal n ≢ []
unfolding decimal digits
decimal-ne-nil n = append-ne-nil _ (n % 10 + b'0')

amount_of-decimal : (n : ℕ) → 0 < n → n < 2 ^ 63 → amount_of (decimal n) ≡ some n
unfolding amount_of decimal
amount_of-decimal n h k = ground (arith, digits_value-digits (suc n) n (omega arith), h, k)

parse_amount-decimal :
    (n u size : ℕ)
    → unit_size u ≡ some size
    → 0 < n
    → n < 2 ^ 63
    → parse_amount (decimal n, u) ≡ window_of n u (some size)
unfolding parse_amount window_from
parse_amount-decimal n u size e h k =
    ap (window_from u) (amount_of-decimal n h k) ∙ ap (window_of n u) e

-- A label reads as the amount and the unit that it was made of.
parse-label :
    (n u size : ℕ)
    → unit_size u ≡ some size
    → 0 < n
    → n < 2 ^ 63
    → parse_rolling_stats_window (decimal n ++ u ∷ []) ≡ window_of n u (some size)
unfolding parse_rolling_stats_window trim_space
parse-label n u size e h k =
    let label = decimal n ++ u ∷ [] in
    let plain : All IsPlain label =
      All-append IsPlain (decimal n) (u ∷ []) (unfold decimal in digits-IsPlain (suc n) n)
        (unit-IsPlain u size e, tt) in
    ap (λ t. parse_value (to_lower (trim_right t))) (trim_left-plain label plain)
    ∙ (ap (λ t. parse_value (to_lower t)) (trim_right-plain label plain)
        ∙ (ap parse_value (to_lower-plain label plain)
            ∙ (parse_value-append (decimal n) u (decimal-ne-nil n)
                ∙ parse_amount-decimal n u size e h k)))

-- The parts of a window that was read.
pub record IsRead (w : StatsWindowSpec) : Type 0 where
  pub amount : ℕ
  pub unit : ℕ
  pub size : ℕ
  pub unit_known : unit_size unit ≡ some size
  pub positive : 0 < amount
  pub in_range : amount < 2 ^ 63
  pub same : window_of amount unit (some size) ≡ some w
  pub labelled : w.label ≡ decimal amount ++ unit ∷ []

none-ne-some : (w : StatsWindowSpec) → ¬ (◌≡◌ {A = Option StatsWindowSpec} none (some w))
none-ne-some w q = cc

amount_of-range : (t : Text) (n : ℕ) → amount_of t ≡ some n → (0 < n) × (n < 2 ^ 63)
unfolding amount_of
amount_of-range t n e = elim (Option-cases (digits_value 0 t)) [
  | inl m ↦ absurd (ground (arith, e, m))
  | inr (v, m) ↦ (ground (arith, e, m), ground (arith, e, m))
]

window_of-label :
    (n u size : ℕ) (w : StatsWindowSpec)
    → window_of n u (some size) ≡ some w
    → w.label ≡ decimal n ++ u ∷ []
unfolding window_of
window_of-label n u size w e = ground (arith, e)

from_unit :
    (n u : ℕ) (w : StatsWindowSpec)
    → (0 < n) × (n < 2 ^ 63)
    → window_of n u (unit_size u) ≡ some w
    → IsRead w
from_unit n u w h e = elim (Option-cases (unit_size u)) [
  | inl k ↦ absurd (no_unit (sym (ap (window_of n u) k) ∙ e))
  | inr (size, k) ↦
      let read : window_of n u (some size) ≡ some w = sym (ap (window_of n u) k) ∙ e in
      record {
        amount = n;
        unit = u;
        size = size;
        unit_known = k;
        positive = h.0;
        in_range = h.1;
        same = read;
        labelled = window_of-label n u size w read;
      }
]
  where
    no_unit : ¬ (window_of n u none ≡ some w)
    no_unit q = none-ne-some w (unfold window_of in q)

parse_amount-IsRead :
    (front : Text) (u : ℕ) (w : StatsWindowSpec) → parse_amount (front, u) ≡ some w → IsRead w
unfolding parse_amount window_from
parse_amount-IsRead front u w e = elim (Option-cases (amount_of front)) [
  | inl a ↦ absurd (none-ne-some w (sym (ap (window_from u) a) ∙ e))
  | inr (n, a) ↦ from_unit n u w (amount_of-range front n a) (sym (ap (window_from u) a) ∙ e)
]

pub parse_value-IsRead : (t : Text) (w : StatsWindowSpec) → parse_value t ≡ some w → IsRead w
unfolding parse_value
parse_value-IsRead [] w e = absurd (ground (arith, e))
parse_value-IsRead (c ∷ []) w e = absurd (ground (arith, e))
parse_value-IsRead (c ∷ d ∷ t) w e =
    parse_amount-IsRead (split_last c (d ∷ t)).0 (split_last c (d ∷ t)).1 w e

-- A window that was read from a request has a label that reads as the same window, the label and the
-- duration.
pub parse-parse-label :
    (raw : Text) (w : StatsWindowSpec)
    → parse_rolling_stats_window raw ≡ some w
    → parse_rolling_stats_window w.label ≡ some w
parse-parse-label raw w e =
    let r =
      parse_value-IsRead (to_lower (trim_space raw)) w (unfold parse_rolling_stats_window in e) in
    ap parse_rolling_stats_window r.labelled
    ∙ (parse-label r.amount r.unit r.size r.unit_known r.positive r.in_range ∙ r.same)
