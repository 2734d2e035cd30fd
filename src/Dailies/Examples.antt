-- ===== src/Dailies/Examples.antt =====
-- Concrete dailies, and the theorems on them.
use task_buddy_backend.Prelude.{
  ltb, ℕ, ◌+◌, ◌≤◌, ◌≡◌, refl, Bool, true, false, ◌&&◌, Option, none, some, List, [], ◌∷◌, String,
  pos, arith, count, bit, leb, ◌==◌, length, ok,
}
use task_buddy_backend.Json.{Json, Fields}
use task_buddy_backend.Dailies.Recurrence.{
  Recurrence, weekdays, times_per_week, parse_recurrence, parse_schedule, is_schedulable,
  scheduled_units, effective_anchor,
}
use task_buddy_backend.Dailies.Recurrence.Units.{
  scheduled_units_exact, weekly_units_exact, is_week_unit,
}
use task_buddy_backend.Dailies.Recurrence.{prior_units, prior_days, on_schedule}
use task_buddy_backend.Dailies.Recurrence.Prior.{prior_units_complete}
use task_buddy_backend.Dailies.Recurrence.Parsed.{IsSchedule, parse_recurrence-IsSchedule}
use task_buddy_backend.Dailies.Check.{
  Day, Daily, unscored, whole, score_check, settle, transition_marks, uncheck_mark, outcome_of,
  raises_streak,
}
use task_buddy_backend.Dailies.Check.Once.{Call, run_calls, run_calls_pay_once}

abbrev twice_a_week : Recurrence
twice_a_week = record { schedule = times_per_week 2; since = none }

abbrev mondays : Recurrence
mondays = record { schedule = weekdays (0 ∷ []); since = some 3 }

-- A `fromisoformat` that refuses every text.
abbrev no_date : String → Option ℕ
no_date s = none

abbrev stored_rule : Json
stored_rule = Json.obj (
    Fields.field "kind" (Json.str "times_per_week")
      (Fields.field "count" (Json.int (pos 2)) Fields.end))

scheduled_units_exact_example :
    count (λ u. u == 8) (scheduled_units mondays 1 1 14)
    ≡ bit (leb 1 8 && leb 8 14 && is_schedulable mondays 8 1)
scheduled_units_exact_example = scheduled_units_exact mondays 1 8 1 14 refl

weekly_units_exact_example :
    count (λ u. u == 14) (scheduled_units twice_a_week 3 5 20)
    ≡ bit (is_week_unit 2 (effective_anchor twice_a_week 3) 5 20 14)
weekly_units_exact_example =
    weekly_units_exact twice_a_week 2 3 5 20 14 refl (omega arith) (omega arith)

parsed : parse_recurrence no_date stored_rule ≡ some twice_a_week
unfolding parse_recurrence parse_schedule
parsed = refl

parse_recurrence-IsSchedule_example : IsSchedule twice_a_week.schedule
parse_recurrence-IsSchedule_example =
    parse_recurrence-IsSchedule no_date stored_rule twice_a_week parsed

two_mondays : length (prior_units mondays 1 20 5) ≡ 2
unfolding prior_units prior_days is_schedulable on_schedule
two_mondays = refl

prior_units_complete_example :
    count (λ u. u == 8) (prior_units mondays 1 20 5) ≡ bit (ltb 8 20 && is_schedulable mondays 8 1)
prior_units_complete_example =
    prior_units_complete mondays 1 8 20 5 refl (omega arith) (omega arith) (omega arith)
      (omega (arith, two_mondays))

abbrev chores : Daily
chores = record { active = true; created = 1; recurrence = stored_rule; items = 11 ∷ 12 ∷ [] }

abbrev fresh : Day
fresh = record { marks = record { master = none; items = [] }; paid = 0; streak = 4 }

abbrev never_missed : ℕ → Bool
never_missed unit = false

-- Check, uncheck and check again: an item, then the day.
abbrev toggles : List Call
toggles =
    record { item = some 11; done = none }
    ∷ record { item = some 11; done = some (Json.bool false) }
    ∷ record { item = none; done = none }
    ∷ record { item = none; done = some (Json.bool false) }
    ∷ record { item = some 12; done = none }
    ∷ []

run_calls_pay_once_example :
    ((run_calls no_date never_missed chores 9 8 toggles fresh).paid ≤ whole (length chores.items))
    × ((run_calls no_date never_missed chores 9 8 toggles fresh).streak ≤ 4 + 1)
run_calls_pay_once_example =
    run_calls_pay_once no_date never_missed chores 9 8 4 toggles fresh refl refl

nothing_to_uncheck :
    score_check no_date never_missed chores 9 fresh none 8 (some (Json.bool false))
    ≡ ok (unscored "nothing_to_uncheck", fresh)
unfolding score_check settle transition_marks uncheck_mark outcome_of raises_streak
nothing_to_uncheck = refl
