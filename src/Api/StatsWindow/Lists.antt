-- ===== src/Api/StatsWindow/Lists.antt =====
-- The list of windows that a request is served.
use blob_indexer_api.Common.{
  ℕ, suc, ◌*◌, ◌≤◌, ◌≡◌, refl, subst, inl, inr, Bool, true, false, if◌then◌else◌, Option, none,
  some, List, [], ◌∷◌, length, All, All-map, arith, Bool-cases, Option-cases, ℕ_discrete,
}
use blob_indexer_api.Common.Int.{to_int64, ℤ, pos, ◌≤ℤ◌}
use blob_indexer_api.Common.Text.{
  Text, text_discrete, text_is, is_member, to_lower, trim_space, split_at,
}
use blob_indexer_api.Api.StatsWindow.{
  StatsWindowSpec, min_rolling_stats_window_duration, max_rolling_stats_window_duration,
  max_rolling_stats_windows, default_rolling_stats_windows, is_window_duration, window_of,
  parse_rolling_stats_window, parse_parts, parse_rolling_stats_windows, is_blank,
}
use blob_indexer_api.Api.StatsWindow.RoundTrip.{parse_value-IsRead}

abbrev pub InBounds : StatsWindowSpec → Type 0
InBounds w =
    (pos min_rolling_stats_window_duration ≤ℤ w.duration)
    × (w.duration ≤ℤ pos max_rolling_stats_window_duration)

-- No later window has the label.
abbrev pub DistinctLabels : List StatsWindowSpec → Type 0
DistinctLabels [] = Unit
DistinctLabels (w ∷ ws) = All (λ v. text_is w.label v.label ≡ false) ws × DistinctLabels ws

pub record IsServed (ws : List StatsWindowSpec) (most : ℕ) : Type 0 where
  pub few : length ws ≤ most
  pub bounded : All InBounds ws
  pub distinct : DistinctLabels ws

duration-InBounds :
    (d : ℤ)
    → is_window_duration d ≡ true
    → (pos min_rolling_stats_window_duration ≤ℤ d) × (d ≤ℤ pos max_rolling_stats_window_duration)
unfolding is_window_duration
duration-InBounds d h = (ground (arith, h), ground (arith, h))

if_some :
    (b : Bool) (v w : StatsWindowSpec)
    → (if b then some v else none) ≡ some w
    → (b ≡ true) × (v ≡ w)
if_some b v w e = ground (arith, e)

window_of-duration :
    (n u size : ℕ) (w : StatsWindowSpec)
    → window_of n u (some size) ≡ some w
    → is_window_duration w.duration ≡ true
unfolding window_of
window_of-duration n u size w e =
    let (fits, same) = if_some (is_window_duration (to_int64 (n * size))) _ w e in
    subst (λ (v : StatsWindowSpec). is_window_duration v.duration ≡ true) same fits

window-InBounds :
    (raw : Text) (w : StatsWindowSpec) → parse_rolling_stats_window raw ≡ some w → InBounds w
unfolding parse_rolling_stats_window
window-InBounds raw w e =
    let r = parse_value-IsRead (to_lower (trim_space raw)) w e in
    duration-InBounds w.duration (window_of-duration r.amount r.unit r.size w r.same)

-- The windows behind some whose labels were seen.
record IsFresh (seen : List Text) (ws : List StatsWindowSpec) (most : ℕ) : Type 0 where
  served : IsServed ws most
  unseen : All (λ w. is_member seen w.label ≡ false) ws

IsFresh-cons :
    (seen : List Text) (w : StatsWindowSpec) (ws : List StatsWindowSpec) (most : ℕ)
    → InBounds w
    → is_member seen w.label ≡ false
    → IsFresh (w.label ∷ seen) ws most
    → IsFresh seen (w ∷ ws) (suc most)
unfolding is_member
IsFresh-cons seen w ws most b m f = record {
  served = record {
    few = omega (arith, f.served.few);
    bounded = (b, f.served.bounded);
    distinct = (
      All-map _ (λ v. text_is w.label v.label ≡ false) (λ v h. ground (arith, h)) ws f.unseen,
      f.served.distinct,
    );
  };
  unseen =
      (m, All-map _ (λ v. is_member seen v.label ≡ false) (λ v h. ground (arith, h)) ws f.unseen);
}

-- What a step of the loop makes of a window and of the windows behind it.
abbrev joined :
    Bool → StatsWindowSpec → Option (List StatsWindowSpec) → Option (List StatsWindowSpec)
joined repeated w rest =
    if repeated then none else elim rest [ none ↦ none | some ws ↦ some (w ∷ ws) ]

joined-some :
    (repeated : Bool) (w : StatsWindowSpec) (rest : Option (List StatsWindowSpec))
    (ws : List StatsWindowSpec)
    → joined repeated w rest ≡ some ws
    → (repeated ≡ false) × ((vs : List StatsWindowSpec) × (rest ≡ some vs) × (w ∷ vs ≡ ws))
joined-some true w rest ws e = absurd (ground (arith, e))
joined-some false w none ws e = absurd (ground (arith, e))
joined-some false w (some vs) ws e = (refl, (vs, refl, ground (arith, e)))

parse_parts-some :
    (seen : List Text) (part : Text) (parts : List Text) (ws : List StatsWindowSpec)
    → parse_parts seen (part ∷ parts) ≡ some ws
    → (w : StatsWindowSpec) × (parse_rolling_stats_window part ≡ some w)
      × (joined (is_member seen w.label) w (parse_parts (w.label ∷ seen) parts) ≡ some ws)
unfolding parse_parts
parse_parts-some seen part parts ws e = elim (Option-cases (parse_rolling_stats_window part)) [
  | inl a ↦ absurd (ground (arith, e, a))
  | inr (w, a) ↦ (w, a, ground (arith, e, a))
]

parse_parts-IsFresh :
    (seen parts : List Text) (ws : List StatsWindowSpec)
    → parse_parts seen parts ≡ some ws
    → IsFresh seen ws (length parts)
parse_parts-IsFresh seen [] ws e =
    subst (λ l. IsFresh seen l 0) (nothing_read e)
      (record { served = record { few = omega arith; bounded = tt; distinct = tt }; unseen = tt })
  where
    nothing_read : parse_parts seen [] ≡ some ws → [] ≡ ws
    nothing_read q = unfold parse_parts in ground (arith, q)
parse_parts-IsFresh seen (part ∷ parts) ws e =
    let (w, read, joins) = parse_parts-some seen part parts ws e in
    let (new, (vs, rest, same)) =
      joined-some (is_member seen w.label) w (parse_parts (w.label ∷ seen) parts) ws joins in
    subst (λ l. IsFresh seen l (suc (length parts))) same
      (IsFresh-cons seen w vs (length parts) (window-InBounds part w read) new
        (parse_parts-IsFresh (w.label ∷ seen) parts vs rest))

defaults-DistinctLabels : DistinctLabels default_rolling_stats_windows
unfolding text_discrete ℕ_discrete
defaults-DistinctLabels = ((refl, (refl, (refl, tt))), ((refl, (refl, tt)), ((refl, tt), (tt, tt))))

defaults-IsServed : IsServed default_rolling_stats_windows max_rolling_stats_windows
defaults-IsServed = record {
  few = omega arith;
  bounded = (
    (omega arith, omega arith),
    ((omega arith, omega arith), ((omega arith, omega arith), ((omega arith, omega arith), tt))),
  );
  distinct = defaults-DistinctLabels;
}

-- The windows that a request is served are at most eight, each of them lasts at least a minute and at
-- most thirty days, and no two have the same label.
pub parse_rolling_stats_windows-IsServed :
    (raw : Text) (ws : List StatsWindowSpec)
    → parse_rolling_stats_windows raw ≡ some ws
    → IsServed ws max_rolling_stats_windows
unfolding parse_rolling_stats_windows
parse_rolling_stats_windows-IsServed raw ws e = elim (Bool-cases (is_blank (trim_space raw))) [
  | inl b ↦
      subst (λ l. IsServed l max_rolling_stats_windows) (ground (arith, e, b)) defaults-IsServed
  | inr b ↦
      let f = (parse_parts-IsFresh [] (split_at b',' raw) ws (ground (arith, e, b))).served in
      record { few = ground (arith, e, b, f.few); bounded = f.bounded; distinct = f.distinct }
]
