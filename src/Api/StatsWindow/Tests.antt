-- ===== src/Api/StatsWindow/Tests.antt =====
-- Windows as requests name them, one of them too large for an `int64`.
use blob_indexer_api.Common.{◌≡◌, refl, some, [], ◌∷◌, ℕ_discrete}
use blob_indexer_api.Common.Int.{pos}
use blob_indexer_api.Common.Text.{codes, text_discrete, lower_char, is_space}
use blob_indexer_api.Api.StatsWindow.{
  StatsWindowSpec, parse_rolling_stats_window, parse_rolling_stats_windows,
  max_rolling_stats_windows,
}
use blob_indexer_api.Api.StatsWindow.RoundTrip.{parse-parse-label}
use blob_indexer_api.Api.StatsWindow.Lists.{IsServed, parse_rolling_stats_windows-IsServed}

abbrev two_hours : StatsWindowSpec
two_hours = record { label = codes "2h"; duration = pos 7_200_000_000_000 }

read_two_hours : parse_rolling_stats_window (codes " 02H ") ≡ some two_hours
unfolding parse_rolling_stats_window lower_char is_space
read_two_hours = refl

parse-parse-label_example : parse_rolling_stats_window (codes "2h") ≡ some two_hours
parse-parse-label_example = parse-parse-label (codes " 02H ") two_hours read_two_hours

one_day : StatsWindowSpec
one_day = record { label = codes "1d"; duration = pos 86_400_000_000_000 }

read_both : parse_rolling_stats_windows (codes "2h,1D") ≡ some (two_hours ∷ one_day ∷ [])
unfolding parse_rolling_stats_windows lower_char is_space text_discrete ℕ_discrete one_day
read_both = refl

parse_rolling_stats_windows-IsServed_example :
    IsServed (two_hours ∷ one_day ∷ []) max_rolling_stats_windows
parse_rolling_stats_windows-IsServed_example =
    parse_rolling_stats_windows-IsServed (codes "2h,1D") (two_hours ∷ one_day ∷ []) read_both

-- More than nine quadrillion minutes, whose nanoseconds wrap around to one minute.
wrapped :
    parse_rolling_stats_window (codes "9007199254740993m")
    ≡ some (record { label = codes "9007199254740993m"; duration = pos 60_000_000_000 })
unfolding parse_rolling_stats_window lower_char is_space
wrapped = refl
