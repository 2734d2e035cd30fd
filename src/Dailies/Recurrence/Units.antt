-- ===== src/Dailies/Recurrence/Units.antt =====
-- The scheduled units of app/game/daily_service.py, for a day-based recurrence and for a weekly one.
use task_buddy_backend.Prelude.{
  ℕ, zero, suc, ◌+◌, ◌-◌, ◌%◌, ◌≤◌, ◌<◌, ◌≡◌, inl, inr, Bool, true, false, ◌&&◌, arith, ltb, leb,
  ◌==◌, bit, count, Bool-cases,
}
use task_buddy_backend.Dailies.Recurrence.{
  Schedule, Recurrence, times_per_week, collect_days, collect_weeks, is_schedulable,
  scheduled_units, max, week_end, first_week_unit, effective_anchor,
}

abbrev pub is_weekly : Schedule → Bool
is_weekly (times_per_week count) = true
is_weekly s = false

module _ (rec : Recurrence) (anchor d : ℕ) where
  collect_days_exact :
      (left day : ℕ)
      → count (λ u. u == d) (collect_days left rec anchor day)
        ≡ bit (leb day d && ltb d (day + left) && is_schedulable rec d anchor)
  unfolding collect_days
  collect_days_exact zero day = ground arith
  collect_days_exact (suc left) day = elim (Bool-cases (day == d)) [
    | inl here ↦ ground (arith, collect_days_exact left (suc day), here)
    | inr other ↦ ground (arith, collect_days_exact left (suc day), other)
  ]

  -- For a recurrence that is not weekly, the scheduled units of a range hold a day exactly once if
  -- the day is in the range and schedulable, and not at all otherwise.
  pub scheduled_units_exact :
      (start end : ℕ)
      → is_weekly rec.schedule ≡ false
      → count (λ u. u == d) (scheduled_units rec anchor start end)
        ≡ bit (leb start d && leb d end && is_schedulable rec d anchor)
  unfolding scheduled_units
  scheduled_units_exact start end h = ground (arith, collect_days_exact (end + 1 - start) start, h)

module _ (d : ℕ) where
  collect_weeks_exact :
      (fuel end from : ℕ)
      → end < from + fuel
      → count (λ u. u == d) (collect_weeks fuel end from)
        ≡ bit (leb from d && leb d end && ((d - from) % 7 == 0))
  unfolding collect_weeks
  collect_weeks_exact zero end from h = ground arith
  collect_weeks_exact (suc fuel) end from h =
      let later = collect_weeks_exact fuel end (from + 7) (omega arith) in
      elim (Bool-cases (leb from end)) [
        | inr over ↦ ground (arith, over)
        | inl within ↦ elim (Bool-cases (from == d)) [
          | inl here ↦ ground (arith, later, within, here)
          | inr other ↦ ground (arith, later, within, other)
        ]
      ]

-- The Sunday of a day's week.
pub week_end_lem :
    (day : ℕ) → (week_end day % 7 ≡ 0) × (day ≤ week_end day) × (week_end day < day + 7)
week_end_lem day = (omega arith, omega arith, omega arith)

-- The weeks of a `times_per_week` recurrence that are units of a range.
abbrev pub is_week_unit : ℕ → ℕ → ℕ → ℕ → ℕ → Bool
is_week_unit count floor start end d =
    leb start d && leb d end && (d % 7 == 0) && leb (floor + count) (d + 1)

-- The first unit is the first Sunday that leaves `wanted` days from the floor on.
pub first_week_unit_lem :
    (wanted floor : ℕ)
    → 1 ≤ wanted
    → wanted ≤ 7
    → (first_week_unit wanted floor % 7 ≡ 0)
      × (floor + wanted ≤ first_week_unit wanted floor + 1)
      × (first_week_unit wanted floor + 1 < floor + wanted + 7)
unfolding first_week_unit
first_week_unit_lem wanted floor one seven =
    let (z, lo, hi) = week_end_lem floor in ground (arith, z, lo, hi, one, seven)

same_weeks :
    (a b start floor_wanted end d : ℕ)
    → a % 7 ≡ 0
    → b % 7 ≡ 0
    → start ≤ a
    → a < start + 7
    → floor_wanted ≤ b + 1
    → b + 1 < floor_wanted + 7
    → (leb (max a b) d && leb d end && ((d - max a b) % 7 == 0))
      ≡ (leb start d && leb d end && (d % 7 == 0) && leb floor_wanted (d + 1))
same_weeks a b start fw end d a7 b7 lo hi lo' hi' = ground arith

-- For a weekly recurrence with a count from 1 to 7, the scheduled units of a range hold a day
-- exactly once if it is a Sunday of the range with at least that many days from the effective
-- anchor up to it, and not at all otherwise.
pub weekly_units_exact :
    (rec : Recurrence) (wanted anchor start end d : ℕ)
    → rec.schedule ≡ times_per_week wanted
    → 1 ≤ wanted
    → wanted ≤ 7
    → count (λ u. u == d) (scheduled_units rec anchor start end)
      ≡ bit (is_week_unit wanted (effective_anchor rec anchor) start end d)
unfolding scheduled_units
weekly_units_exact rec wanted anchor start end d h one seven =
    let floor = effective_anchor rec anchor in
    let first = first_week_unit wanted floor in
    let (z, lo, hi) = week_end_lem start in
    let (z', lo', hi') = first_week_unit_lem wanted floor one seven in
    let weeks = same_weeks (week_end start) first start (floor + wanted) end d z z' lo hi lo' hi' in
    let exact = collect_weeks_exact d (suc end) end (max (week_end start) first) (omega arith) in
    elim (Bool-cases (ltb end start)) [
      | inl none_left ↦ rw (h) (ground (arith, none_left))
      | inr some_left ↦ rw (h, some_left, exact) (ground (arith, weeks))
    ]
