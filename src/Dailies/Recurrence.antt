-- ===== src/Dailies/Recurrence.antt =====
-- The recurrence of a daily, in app/game/daily_service.py. A date is its ordinal: day 1 is a Monday.
-- `date.fromisoformat` is a parameter.
pub mod Units
pub mod Parsed
pub mod Prior
pub mod Descends
pub mod From
use task_buddy_backend.Prelude.{
  ℕ, zero, suc, ◌+◌, ◌-◌, ◌*◌, ◌%◌, Bool, true, false, not, ◌&&◌, ◌||◌, Option, none, some, List,
  [], ◌∷◌, String, ℤ, pos, ltb, leb, ◌==◌, str_eq, any, get_or, is_some, if◌then◌else◌,
}
use task_buddy_backend.Json.{Json, Items, Fields, get, put, truthy}

-- The recurrence kinds, with the fields that define each schedule.
pub data Schedule : Type 0 where
  daily : Schedule
  weekdays : List ℕ → Schedule
  every_n_days : ℕ → Option ℕ → Schedule
  times_per_week : ℕ → Schedule

pub record Recurrence : Type 0 where
  pub schedule : Schedule
  pub since : Option ℕ

-- `_is_int` with the range test that follows it at each use.
abbrev pub int_between : ℕ → ℕ → Option Json → Option ℕ
int_between lo hi (some (Json.int (pos n))) = if leb lo n && leb n hi then some n else none
int_between lo hi _ = none

abbrev pub has_day : ℕ → Items → Bool
has_day d Items.nil = false
has_day d (Items.cons (Json.int (pos n)) xs) = n == d || has_day d xs
has_day d (Items.cons _ xs) = has_day d xs

-- `sorted({d for d in days if _is_int(d) and 0 <= d <= 6})`, from day `d` up to 6.
clean_days : ℕ → ℕ → Items → List ℕ
clean_days zero d days = []
clean_days (suc left) d days =
    let rest = clean_days left (suc d) days in if has_day d days then d ∷ rest else rest

weekdays_of : List ℕ → Option Schedule
weekdays_of [] = none
weekdays_of (d ∷ ds) = some (weekdays (d ∷ ds))

parse_days : Option Json → Option Schedule
unfolding clean_days weekdays_of
parse_days (some (Json.arr days)) = weekdays_of (clean_days 7 0 days)
parse_days _ = none

-- A text equal to `name`.
abbrev pub is_text : String → Option Json → Bool
is_text name (some (Json.str s)) = str_eq s name
is_text name _ = false

abbrev pub map_option {ℓ κ} : {A : Type ℓ} {B : Type κ} → (A → B) → Option A → Option B
map_option f none = none
map_option f (some a) = some (f a)

module _ (fromisoformat : String → Option ℕ) where
  -- `_parse_date` of a stored value
  abbrev pub parse_date : Option Json → Option ℕ
  parse_date (some (Json.str s)) = fromisoformat s
  parse_date _ = none

  -- `_parse_schedule`
  unfoldable pub parse_schedule : Fields → Option Schedule
  unfolding parse_days
  parse_schedule raw =
      let kind = get "kind" raw in
      if is_text "daily" kind
      then some daily
      else if is_text "weekdays" kind
      then parse_days (get "days" raw)
      else if is_text "every_n_days" kind
      then map_option (λ n. every_n_days n (parse_date (get "anchor" raw)))
          (int_between 1 365 (get "interval" raw))
      else if is_text "times_per_week" kind
      then map_option times_per_week (int_between 1 7 (get "count" raw))
      else none

  unfoldable pub parse_recurrence : Json → Option Recurrence
  unfolding parse_schedule
  parse_recurrence (Json.obj raw) =
      map_option (λ s. record { schedule = s; since = parse_date (get "since" raw) })
        (parse_schedule raw)
  parse_recurrence _ = none

-- `effective_anchor`
abbrev pub effective_anchor : Recurrence → ℕ → ℕ
effective_anchor rec anchor = elim rec.since [
  | none ↦ anchor
  | some since ↦ if ltb anchor since then since else anchor
]

-- `date.weekday()`: Monday is 0
abbrev pub weekday : ℕ → ℕ
weekday day = (day + 6) % 7

-- `week_end`
abbrev pub week_end : ℕ → ℕ
week_end day = day + (6 - weekday day)

-- `_first_week_unit` for `rec["count"]`
unfoldable pub first_week_unit : ℕ → ℕ → ℕ
first_week_unit count floor =
    let first = week_end floor in if ltb (first - floor + 1) count then first + 7 else first

unfoldable pub on_schedule : Schedule → ℕ → ℕ → Bool
on_schedule daily day anchor = true
on_schedule (weekdays days) day anchor = any (λ d. d == weekday day) days
on_schedule (every_n_days interval start) day anchor =
    let from = get_or start anchor in if ltb day from then false else (day - from) % interval == 0
on_schedule (times_per_week count) day anchor = true

unfoldable pub is_schedulable : Recurrence → ℕ → ℕ → Bool
unfolding on_schedule
is_schedulable rec day anchor =
    if ltb day (effective_anchor rec anchor) then false else on_schedule rec.schedule day anchor

-- The day loop of `scheduled_units`, with the days left to look at.
pub collect_days : ℕ → Recurrence → ℕ → ℕ → List ℕ
collect_days zero rec anchor day = []
collect_days (suc left) rec anchor day =
    let rest = collect_days left rec anchor (suc day) in
    if is_schedulable rec day anchor then day ∷ rest else rest

-- The week loop of `scheduled_units`; `end + 1` rounds are more than it makes.
pub collect_weeks : ℕ → ℕ → ℕ → List ℕ
collect_weeks zero end d = []
collect_weeks (suc fuel) end d =
    let rest = collect_weeks fuel end (d + 7) in if leb d end then d ∷ rest else []

abbrev pub max : ℕ → ℕ → ℕ
max a b = if ltb a b then b else a

unfoldable pub scheduled_units : Recurrence → ℕ → ℕ → ℕ → List ℕ
unfolding collect_days collect_weeks
scheduled_units rec anchor start end = if ltb end start then [] else elim rec.schedule [
  | times_per_week count ↦
      collect_weeks (suc end) end
        (max (week_end start) (first_week_unit count (effective_anchor rec anchor)))
  | _ ↦ collect_days (end + 1 - start) rec anchor start
]

-- The week loop of `prior_units`: `n` units are still wanted.
pub prior_weeks : ℕ → ℕ → ℕ → List ℕ
prior_weeks zero first d = []
prior_weeks (suc n) first d =
    let rest = prior_weeks n first (d - 7) in if leb first d then d ∷ rest else []

-- The day loop of `prior_units`; the first number is what is left of its 2200 scans.
unfoldable pub prior_days : ℕ → ℕ → Recurrence → ℕ → ℕ → List ℕ
prior_days zero n rec anchor d = []
prior_days (suc left) zero rec anchor d = []
prior_days (suc left) (suc n) rec anchor d =
    let found = d ∷ prior_days left n rec anchor (d - 1) in
    let passed = prior_days left (suc n) rec anchor (d - 1) in
    if ltb d (effective_anchor rec anchor)
    then []
    else if is_schedulable rec d anchor
    then found
    else passed

unfoldable pub prior_units : Recurrence → ℕ → ℕ → ℕ → List ℕ
unfolding prior_weeks prior_days
prior_units rec anchor unit n = elim rec.schedule [
  | times_per_week count ↦
      prior_weeks n (first_week_unit count (effective_anchor rec anchor)) (unit - 7)
  | _ ↦ prior_days 2200 n rec anchor (unit - 1)
]

-- `eval_due`, with `now` in microseconds from the start of day 0.
unfoldable pub eval_due : ℕ → ℕ → ℕ → Bool
eval_due grace_hours unit now = leb (((unit + 1) * 24 + grace_hours) * 3600000000) now
