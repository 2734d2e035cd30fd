-- ===== src/Dailies/Recurrence/Parsed.antt =====
-- The schedules that the parser of app/game/daily_service.py lets through.
use mathlib.Core.Path.{subst, ap}
use task_buddy_backend.Prelude.{
  ℕ, zero, suc, ◌+◌, ◌≤◌, ◌≡◌, inl, inr, Option, none, some, List, [], ◌∷◌, String, pos, negsuc,
  arith, length, Bool-cases, Option-cases,
}
use task_buddy_backend.Json.{Json, Items, Fields, get}
use task_buddy_backend.Dailies.Recurrence.{
  Schedule, Recurrence, daily, weekdays, every_n_days, times_per_week, int_between, map_option,
  is_text, has_day, clean_days, weekdays_of, parse_days, parse_date, parse_schedule,
  parse_recurrence,
}

-- Days in increasing order, from `lo` up to 6.
abbrev pub Ascending : ℕ → List ℕ → Type 0
Ascending lo [] = Unit
Ascending lo (d ∷ ds) = (lo ≤ d) × (d ≤ 6) × Ascending (suc d) ds

-- The schedules that a stored recurrence may have.
abbrev pub IsSchedule : Schedule → Type 0
IsSchedule daily = Unit
IsSchedule (weekdays ds) = (1 ≤ length ds) × Ascending 0 ds
IsSchedule (every_n_days interval start) = (1 ≤ interval) × (interval ≤ 365)
IsSchedule (times_per_week wanted) = (1 ≤ wanted) × (wanted ≤ 7)

Ascending-weaken : (lo : ℕ) (ds : List ℕ) → Ascending (suc lo) ds → Ascending lo ds
Ascending-weaken lo [] h = tt
Ascending-weaken lo (d ∷ ds) (l, s, rest) = (omega arith, s, rest)

clean_days-Ascending :
    (left d : ℕ) (days : Items) → d + left ≤ 7 → Ascending d (clean_days left d days)
unfolding clean_days
clean_days-Ascending zero d days h = tt
clean_days-Ascending (suc left) d days h =
    let rest = clean_days-Ascending left (suc d) days (omega arith) in
    elim (Bool-cases (has_day d days)) [
      | inl here ↦ rw (here) (omega arith, omega arith, rest)
      | inr gone ↦ rw (gone) (Ascending-weaken d (clean_days left (suc d) days) rest)
    ]

int_between-bounds :
    (lo hi n : ℕ) (v : Option Json) → int_between lo hi v ≡ some n → (lo ≤ n) × (n ≤ hi)
int_between-bounds lo hi n none h = absurd (cc)
int_between-bounds lo hi n (some (Json.int (pos m))) h = (ground arith, ground arith)
int_between-bounds lo hi n (some (Json.int (negsuc m))) h = absurd (cc)
int_between-bounds lo hi n (some Json.null) h = absurd (cc)
int_between-bounds lo hi n (some (Json.bool b)) h = absurd (cc)
int_between-bounds lo hi n (some (Json.float m x)) h = absurd (cc)
int_between-bounds lo hi n (some (Json.str s)) h = absurd (cc)
int_between-bounds lo hi n (some (Json.arr xs)) h = absurd (cc)
int_between-bounds lo hi n (some (Json.obj d)) h = absurd (cc)

-- Nothing, or a schedule of the permitted form.
AllowsOnly : Option Schedule → Type 0
AllowsOnly none = Unit
AllowsOnly (some s) = IsSchedule s

weekdays_of-AllowsOnly : (ds : List ℕ) → Ascending 0 ds → AllowsOnly (weekdays_of ds)
unfolding AllowsOnly weekdays_of
weekdays_of-AllowsOnly [] a = tt
weekdays_of-AllowsOnly (d ∷ ds) a = (omega arith, a)

parse_days-AllowsOnly : (v : Option Json) → AllowsOnly (parse_days v)
unfolding AllowsOnly parse_days
parse_days-AllowsOnly (some (Json.arr days)) =
    weekdays_of-AllowsOnly (clean_days 7 0 days) (clean_days-Ascending 7 0 days (omega arith))
parse_days-AllowsOnly none = tt
parse_days-AllowsOnly (some Json.null) = tt
parse_days-AllowsOnly (some (Json.bool b)) = tt
parse_days-AllowsOnly (some (Json.int n)) = tt
parse_days-AllowsOnly (some (Json.float m x)) = tt
parse_days-AllowsOnly (some (Json.str t)) = tt
parse_days-AllowsOnly (some (Json.obj d)) = tt

interval-AllowsOnly :
    (start : Option ℕ) (v : Option Json)
    → AllowsOnly (map_option (λ n. every_n_days n start) (int_between 1 365 v))
unfolding AllowsOnly
interval-AllowsOnly start v = elim (Option-cases (int_between 1 365 v)) [
  | inl e ↦ rw (e) tt
  | inr (n, e) ↦ rw (e) (int_between-bounds 1 365 n v e)
]

count-AllowsOnly : (v : Option Json) → AllowsOnly (map_option times_per_week (int_between 1 7 v))
unfolding AllowsOnly
count-AllowsOnly v = elim (Option-cases (int_between 1 7 v)) [
  | inl e ↦ rw (e) tt
  | inr (n, e) ↦ rw (e) (int_between-bounds 1 7 n v e)
]

module _ (fromisoformat : String → Option ℕ) where
  parse_schedule-AllowsOnly : (raw : Fields) → AllowsOnly (parse_schedule fromisoformat raw)
  unfolding AllowsOnly parse_schedule
  parse_schedule-AllowsOnly raw =
      let start = parse_date fromisoformat (get "anchor" raw) in
      elim (Bool-cases (is_text "daily" (get "kind" raw))) [
        | inl e ↦ rw (e) tt
        | inr no_daily ↦ elim (Bool-cases (is_text "weekdays" (get "kind" raw))) [
          | inl e ↦ rw (no_daily, e) (parse_days-AllowsOnly (get "days" raw))
          | inr no_days ↦ elim (Bool-cases (is_text "every_n_days" (get "kind" raw))) [
            | inl e ↦ rw (no_daily, no_days, e) (interval-AllowsOnly start (get "interval" raw))
            | inr no_interval ↦ elim (Bool-cases (is_text "times_per_week" (get "kind" raw))) [
              | inl e ↦ rw (no_daily, no_days, no_interval, e) (count-AllowsOnly (get "count" raw))
              | inr no_count ↦ rw (no_daily, no_days, no_interval, no_count) tt
            ]
          ]
        ]
      ]

  some_schedule : (s : Option Schedule) (t : Schedule) → s ≡ some t → AllowsOnly s → IsSchedule t
  unfolding AllowsOnly
  some_schedule s t e h = let allowed = subst AllowsOnly e h in allowed

  recurrence-AllowsOnly :
      (s : Option Schedule) (since : Option ℕ) (rec : Recurrence)
      → map_option (λ t. record { schedule = t; since = since }) s ≡ some rec
      → s ≡ some rec.schedule
  recurrence-AllowsOnly none since rec h = absurd (cc)
  recurrence-AllowsOnly (some s) since rec h = ap (λ o. map_option (λ r. r.schedule) o) h

  -- A stored value that parses to a recurrence has a schedule with an interval from 1 to 365, a
  -- weekly count from 1 to 7, a non-empty strictly ascending list of weekdays from 0 to 6, or the
  -- daily schedule.
  pub parse_recurrence-IsSchedule :
      (raw : Json) (rec : Recurrence)
      → parse_recurrence fromisoformat raw ≡ some rec
      → IsSchedule rec.schedule
  unfolding parse_recurrence
  parse_recurrence-IsSchedule (Json.obj raw) rec h =
      some_schedule (parse_schedule fromisoformat raw) rec.schedule
        (recurrence-AllowsOnly (parse_schedule fromisoformat raw)
          (parse_date fromisoformat (get "since" raw)) rec h)
        (parse_schedule-AllowsOnly raw)
  parse_recurrence-IsSchedule Json.null rec h = absurd (cc)
  parse_recurrence-IsSchedule (Json.bool b) rec h = absurd (cc)
  parse_recurrence-IsSchedule (Json.int n) rec h = absurd (cc)
  parse_recurrence-IsSchedule (Json.float m x) rec h = absurd (cc)
  parse_recurrence-IsSchedule (Json.str s) rec h = absurd (cc)
  parse_recurrence-IsSchedule (Json.arr xs) rec h = absurd (cc)
