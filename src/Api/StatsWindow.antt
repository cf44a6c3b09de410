-- ===== src/Api/StatsWindow.antt =====
-- The windows of the rolling statistics that a request names, internal/api/rolling_stats.go. A
-- duration is a number of nanoseconds in an `int64`, with its wrap-around.
pub mod RoundTrip
pub mod Lists
mod Tests
use blob_indexer_api.Common.{
  ℕ, zero, suc, ◌+◌, ◌*◌, ◌^◌, Bool, true, false, ◌&&◌, ◌||◌, not, if◌then◌else◌, ltb, leb, ◌==◌,
  Option, none, some, List, [], ◌∷◌, ◌++◌, length,
}
use blob_indexer_api.Common.Int.{ℤ, pos, ltb_ℤ, to_int64}
use blob_indexer_api.Common.Text.{
  Text, codes, to_lower, trim_space, split_at, digits_value, decimal, is_member,
}

abbrev pub minute : ℕ
minute = 60_000_000_000

abbrev pub hour : ℕ
hour = 3_600_000_000_000

abbrev pub day : ℕ
day = 86_400_000_000_000

abbrev pub max_rolling_stats_windows : ℕ
max_rolling_stats_windows = 8

abbrev pub min_rolling_stats_window_duration : ℕ
min_rolling_stats_window_duration = 60_000_000_000

abbrev pub max_rolling_stats_window_duration : ℕ
max_rolling_stats_window_duration = 2_592_000_000_000_000

pub record StatsWindowSpec : Type 0 where
  pub label : Text
  pub duration : ℤ

abbrev pub default_rolling_stats_windows : List StatsWindowSpec
default_rolling_stats_windows =
    record { label = codes "5m"; duration = pos 300_000_000_000 }
    ∷ record { label = codes "1h"; duration = pos 3_600_000_000_000 }
    ∷ record { label = codes "24h"; duration = pos 86_400_000_000_000 }
    ∷ record { label = codes "7d"; duration = pos 604_800_000_000_000 }
    ∷ []

-- All but the last character, and the last one.
unfoldable pub split_last : ℕ → Text → Text × ℕ
split_last c [] = ([], c)
split_last c (d ∷ t) = let (front, last) = split_last d t in (c ∷ front, last)

unfoldable pub unit_size : ℕ → Option ℕ
unit_size u =
    if u == b'm'
    then some minute
    else if u == b'h'
    then some hour
    else if u == b'd'
    then some day
    else none

-- `strconv.Atoi` on digits, where it fails beyond the range of an `int`.
unfoldable pub amount_of : Text → Option ℕ
unfolding digits_value
amount_of t = elim (digits_value 0 t) [
  | none ↦ none
  | some n ↦ if ltb 0 n && ltb n (2 ^ 63) then some n else none
]

unfoldable pub is_window_duration : ℤ → Bool
is_window_duration d =
    not (ltb_ℤ d (pos min_rolling_stats_window_duration))
    && not (ltb_ℤ (pos max_rolling_stats_window_duration) d)

unfoldable pub window_of : ℕ → ℕ → Option ℕ → Option StatsWindowSpec
unfolding to_int64 is_window_duration decimal
window_of amount unit none = none
window_of amount unit (some size) =
    if is_window_duration (to_int64 (amount * size))
    then some (record { label = decimal amount ++ unit ∷ []; duration = to_int64 (amount * size) })
    else none

unfoldable pub window_from : ℕ → Option ℕ → Option StatsWindowSpec
unfolding window_of unit_size
window_from unit none = none
window_from unit (some amount) = window_of amount unit (unit_size unit)

unfoldable pub parse_amount : Text × ℕ → Option StatsWindowSpec
unfolding amount_of window_from
parse_amount (front, unit) = window_from unit (amount_of front)

-- A value of at least two characters.
unfoldable pub parse_value : Text → Option StatsWindowSpec
unfolding parse_amount split_last
parse_value [] = none
parse_value (c ∷ []) = none
parse_value (c ∷ d ∷ t) = parse_amount (split_last c (d ∷ t))

unfoldable pub parse_rolling_stats_window : Text → Option StatsWindowSpec
unfolding parse_value to_lower trim_space
parse_rolling_stats_window raw = parse_value (to_lower (trim_space raw))

-- The loop over the parts, with the labels that were seen.
unfoldable pub parse_parts : List Text → List Text → Option (List StatsWindowSpec)
unfolding parse_rolling_stats_window is_member
parse_parts seen [] = some []
parse_parts seen (part ∷ parts) = elim (parse_rolling_stats_window part) [
  | none ↦ none
  | some w ↦
      let rest = parse_parts (w.label ∷ seen) parts in
      if is_member seen w.label then none else elim rest [ none ↦ none | some ws ↦ some (w ∷ ws) ]
]

abbrev pub is_blank : Text → Bool
is_blank [] = true
is_blank (_ ∷ _) = false

unfoldable pub parse_rolling_stats_windows : Text → Option (List StatsWindowSpec)
unfolding parse_parts trim_space split_at
parse_rolling_stats_windows raw =
    if is_blank (trim_space raw)
    then some default_rolling_stats_windows
    else if ltb max_rolling_stats_windows (length (split_at b',' raw))
    then none
    else parse_parts [] (split_at b',' raw)
