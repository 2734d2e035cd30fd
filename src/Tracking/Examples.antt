-- ===== src/Tracking/Examples.antt =====
-- Streaks on a concrete window.
use task_buddy_backend.Prelude.{ℕ, ◌≤◌, ◌≡◌, refl, List, [], ◌∷◌, ℤ, pos}
use task_buddy_backend.Tracking.{DayRow, rows_left, streaks, longest_loop, current_loop}
use task_buddy_backend.Tracking.Streaks.{IsRun, IsLongest, streaks-exact}

abbrev day_of : ℕ → ℤ → DayRow
day_of d points = record { date = d; score = points }

-- Three scored days, a gap, two scored days and a scoreless last day.
abbrev week : List DayRow
week =
    day_of 1 (pos 50)
    ∷ day_of 2 (pos 200)
    ∷ day_of 3 (pos 1)
    ∷ day_of 4 (pos 0)
    ∷ day_of 5 (pos 300)
    ∷ day_of 6 (pos 1250)
    ∷ day_of 7 (pos 0)
    ∷ []

test-today : streaks week 7 ≡ (2, 3)
unfolding streaks rows_left longest_loop current_loop
test-today = refl

test-past : streaks week 8 ≡ (0, 3)
unfolding streaks rows_left longest_loop current_loop
test-past = refl

test-no_days : streaks [] 8 ≡ (0, 0)
unfolding streaks rows_left longest_loop current_loop
test-no_days = refl

streaks-exact_example : IsRun 2 6 week × IsLongest 3 week × (2 ≤ 3)
unfolding streaks rows_left longest_loop current_loop
streaks-exact_example = streaks-exact week 7
