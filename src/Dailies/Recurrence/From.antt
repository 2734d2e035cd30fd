-- ===== src/Dailies/Recurrence/From.antt =====
-- Where the units of `scheduled_units` of app/game/daily_service.py start.
use task_buddy_backend.Prelude.{
  ℕ, zero, suc, ◌+◌, ◌-◌, ◌≤◌, ◌≡◌, refl, inl, inr, Bool, true, false, List, [], ◌∷◌, arith, ltb,
  leb, keep, Bool-cases,
}
use task_buddy_backend.Dailies.Recurrence.{
  Schedule, Recurrence, daily, weekdays, every_n_days, times_per_week, effective_anchor,
  is_schedulable, first_week_unit, week_end, collect_days, collect_weeks, scheduled_units, max,
}

-- Every unit is `lo` or later.
abbrev pub AllFrom : ℕ → List ℕ → Type 0
AllFrom lo [] = Unit
AllFrom lo (d ∷ ds) = (lo ≤ d) × AllFrom lo ds

pub AllFrom-lower : (lo hi : ℕ) (ds : List ℕ) → lo ≤ hi → AllFrom hi ds → AllFrom lo ds
AllFrom-lower lo hi [] h p = tt
AllFrom-lower lo hi (d ∷ ds) h p = (omega (arith, p.0), AllFrom-lower lo hi ds h (p.1))

pub keep-AllFrom : (lo : ℕ) (p : ℕ → Bool) (ds : List ℕ) → AllFrom lo ds → AllFrom lo (keep p ds)
keep-AllFrom lo p [] h = tt
keep-AllFrom lo p (d ∷ ds) h = elim (Bool-cases (p d)) [
  | inl kept ↦ rw kept (h.0, keep-AllFrom lo p ds (h.1))
  | inr dropped ↦ rw dropped (keep-AllFrom lo p ds (h.1))
]

collect_weeks-AllFrom : (lo fuel end d : ℕ) → lo ≤ d → AllFrom lo (collect_weeks fuel end d)
unfolding collect_weeks
collect_weeks-AllFrom lo zero end d h = tt
collect_weeks-AllFrom lo (suc fuel) end d h = elim (Bool-cases (leb d end)) [
  | inl fits ↦ rw (collect_weeks, fits) (h, collect_weeks-AllFrom lo fuel end (d + 7) (omega arith))
  | inr over ↦ rw (collect_weeks, over) tt
]

module _ (rec : Recurrence) (anchor : ℕ) where
  collect_days-AllFrom : (lo left d : ℕ) → lo ≤ d → AllFrom lo (collect_days left rec anchor d)
  unfolding collect_days
  collect_days-AllFrom lo zero d h = tt
  collect_days-AllFrom lo (suc left) d h =
      let rest = collect_days-AllFrom lo left (suc d) (omega arith) in
      elim (Bool-cases (is_schedulable rec d anchor)) [
        | inl fits ↦ rw (collect_days, fits) (h, rest)
        | inr passes ↦ rw (collect_days, passes) rest
      ]

  -- Days of the range that the schedule asks for.
  by_schedule :
      (start end : ℕ) (s : Schedule)
      → rec.schedule ≡ s
      → ltb end start ≡ false
      → AllFrom start (scheduled_units rec anchor start end)
  unfolding scheduled_units
  by_schedule start end daily e h =
      simp (scheduled_units, e, h)
        (collect_days-AllFrom start (end + 1 - start) start (omega arith))
  by_schedule start end (weekdays ds) e h =
      simp (scheduled_units, e, h)
        (collect_days-AllFrom start (end + 1 - start) start (omega arith))
  by_schedule start end (every_n_days i from) e h =
      simp (scheduled_units, e, h)
        (collect_days-AllFrom start (end + 1 - start) start (omega arith))
  by_schedule start end (times_per_week wanted) e h =
      let first = first_week_unit wanted (effective_anchor rec anchor) in
      simp (scheduled_units, e, h)
        (collect_weeks-AllFrom start (suc end) end (max (week_end start) first) (ground arith))

  pub scheduled_units-AllFrom :
      (start end : ℕ) → AllFrom start (scheduled_units rec anchor start end)
  unfolding scheduled_units
  scheduled_units-AllFrom start end = elim (Bool-cases (ltb end start)) [
    | inl empty ↦ simp (scheduled_units, empty) tt
    | inr some_day ↦ by_schedule start end rec.schedule refl some_day
  ]

  schedulable-from : (d : ℕ) → is_schedulable rec d anchor ≡ true → effective_anchor rec anchor ≤ d
  unfolding is_schedulable
  schedulable-from d h = ground (arith, h)

  collect_days-AllFrom_anchor :
      (left d : ℕ) → AllFrom (effective_anchor rec anchor) (collect_days left rec anchor d)
  unfolding collect_days
  collect_days-AllFrom_anchor zero d = tt
  collect_days-AllFrom_anchor (suc left) d =
      let rest = collect_days-AllFrom_anchor left (suc d) in
      elim (Bool-cases (is_schedulable rec d anchor)) [
        | inl fits ↦ rw (collect_days, fits) (schedulable-from d fits, rest)
        | inr passes ↦ rw (collect_days, passes) rest
      ]

  first_week_unit-from : (wanted floor : ℕ) → floor ≤ first_week_unit wanted floor
  unfolding first_week_unit
  first_week_unit-from wanted floor = ground arith

  anchored :
      (start end : ℕ) (s : Schedule)
      → rec.schedule ≡ s
      → ltb end start ≡ false
      → AllFrom (effective_anchor rec anchor) (scheduled_units rec anchor start end)
  unfolding scheduled_units
  anchored start end daily e h =
      simp (scheduled_units, e, h) (collect_days-AllFrom_anchor (end + 1 - start) start)
  anchored start end (weekdays ds) e h =
      simp (scheduled_units, e, h) (collect_days-AllFrom_anchor (end + 1 - start) start)
  anchored start end (every_n_days i from) e h =
      simp (scheduled_units, e, h) (collect_days-AllFrom_anchor (end + 1 - start) start)
  anchored start end (times_per_week wanted) e h =
      let floor = effective_anchor rec anchor in
      let first = first_week_unit wanted floor in
      simp (scheduled_units, e, h)
        (collect_weeks-AllFrom floor (suc end) end (max (week_end start) first)
          (ground (arith, first_week_unit-from wanted floor)))

  -- No unit lies before the effective anchor.
  pub scheduled_units-AllFrom_anchor :
      (start end : ℕ) → AllFrom (effective_anchor rec anchor) (scheduled_units rec anchor start end)
  unfolding scheduled_units
  scheduled_units-AllFrom_anchor start end = elim (Bool-cases (ltb end start)) [
    | inl empty ↦ simp (scheduled_units, empty) tt
    | inr some_day ↦ anchored start end rec.schedule refl some_day
  ]
