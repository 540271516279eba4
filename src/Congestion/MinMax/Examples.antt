-- ===== src/Congestion/MinMax/Examples.antt =====
-- internal/congestion/bbr_tuic_minmax.go on a clock of nanoseconds.
use niulang.Prelude.{ℕ, ◌+◌, ◌-◌, ◌*◌, ◌≤◌, ◌≡◌, refl, arith, true, [], ◌∷◌, ◌==◌, min, max}
use niulang.Congestion.MinMax.{
  Clock, Sample, MinMax, second, new_min_max, get, set_round_trip, expired, stale,
  sub_window_update, lower, update_max,
}
use niulang.Congestion.MinMax.Window.{
  Ascending, Among, recorded, get-recorded, set_round_trip_bounds,
}

abbrev nanoseconds : Clock
nanoseconds = record { Time = ℕ; zero_time = 0; is_zero = λ t. t == 0; sub = λ t u. t - u }

abbrev burst : Sample nanoseconds
burst = record { round = 1; at = second; value = 500 }

abbrev steady : Sample nanoseconds
steady = record { round = 4; at = 2 * second; value = 17 }

abbrev later : Sample nanoseconds
later = record { round = 12; at = 3 * second; value = 16 }

-- The burst stands for ten rounds.
get-burst : get nanoseconds (recorded nanoseconds (steady ∷ burst ∷ [])) ≡ 500
unfolding get recorded new_min_max update_max expired lower sub_window_update
get-burst = refl

get-later : get nanoseconds (recorded nanoseconds (later ∷ steady ∷ burst ∷ [])) ≡ 17
unfolding get recorded new_min_max update_max expired lower sub_window_update
get-later = refl

samples-Ascending : Ascending nanoseconds (later ∷ steady ∷ burst ∷ [])
samples-Ascending = (omega arith, omega arith, (omega arith, omega arith, omega arith))

get-recorded_example :
    (t : Sample nanoseconds) × Among nanoseconds t (later ∷ steady ∷ burst ∷ [])
    × (get nanoseconds (recorded nanoseconds (later ∷ steady ∷ burst ∷ [])) ≡ t.value)
    × (16 ≤ t.value)
    × (12 ≤ t.round + 10)
get-recorded_example = get-recorded nanoseconds later (steady ∷ burst ∷ []) samples-Ascending

abbrev standing : MinMax nanoseconds
standing = record { window = 10; time_window = 2 * second; s0 = burst; s1 = burst; s2 = burst }

standing-stale : stale nanoseconds standing (4 * second) ≡ true
unfolding stale expired
standing-stale = refl

set_round_trip_bounds_example :
    (set_round_trip nanoseconds standing 226000000).time_window
    ≡ max second (min (10 * 226000000) (10 * second))
set_round_trip_bounds_example = set_round_trip_bounds nanoseconds standing 226000000 (omega arith)
