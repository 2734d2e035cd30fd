-- ===== src/Dailies/Recurrence/Descends.antt =====
-- The order of the units that `prior_units` of app/game/daily_service.py lists, for every schedule.
use task_buddy_backend.Prelude.{
  ℕ, zero, suc, ◌-◌, ◌≤◌, ◌<◌, ◌≡◌, refl, ap, inl, inr, true, List, [], ◌∷◌, arith, leb, ◌==◌, any,
  Bool-cases,
}
use task_buddy_backend.Dailies.Recurrence.{
  Schedule, Recurrence, daily, weekdays, every_n_days, times_per_week, effective_anchor,
  first_week_unit, prior_weeks, prior_units,
}
use task_buddy_backend.Dailies.Recurrence.Units.{is_weekly}
use task_buddy_backend.Dailies.Recurrence.Prior.{ArePrior, prior_units-ArePrior}

-- Days in strictly descending order, all of them before `bound`.
abbrev pub Descends : ℕ → List ℕ → Type 0
Descends bound [] = Unit
Descends bound (d ∷ ds) = (d < bound) × Descends d ds

Descends-weaken : (a b : ℕ) (ds : List ℕ) → a ≤ b → Descends a ds → Descends b ds
Descends-weaken a b [] h p = tt
Descends-weaken a b (d ∷ ds) h p = (omega (arith, p.0), p.1)

pub member-below : (b x : ℕ) (ds : List ℕ) → Descends b ds → any (λ u. u == x) ds ≡ true → x < b
member-below b x [] p h = cc
member-below b x (d ∷ ds) p h = elim (Bool-cases (d == x)) [
  | inl same ↦ ground (arith, same, p.0)
  | inr other ↦
      let below = member-below d x ds (p.1) (ground (arith, other, h)) in omega (arith, below, p.0)
]

prior_weeks-Descends : (n first d : ℕ) → 1 ≤ first → Descends (suc d) (prior_weeks n first d)
unfolding prior_weeks
prior_weeks-Descends zero first d h = tt
prior_weeks-Descends (suc n) first d h = elim (Bool-cases (leb first d)) [
  | inl fits ↦
      rw (prior_weeks, fits)
        (
          omega arith,
          Descends-weaken (suc (d - 7)) d (prior_weeks n first (d - 7)) (ground (arith, fits, h))
              (prior_weeks-Descends n first (d - 7) h),
        )
  | inr below ↦ rw (prior_weeks, below) tt
]

first_week_unit-positive : (wanted floor : ℕ) → 1 ≤ floor → 1 ≤ first_week_unit wanted floor
unfolding first_week_unit
first_week_unit-positive wanted floor h = ground (arith, h)

module _ (rec : Recurrence) (anchor : ℕ) (floor : 1 ≤ effective_anchor rec anchor) where
  ArePrior-Descends : (b : ℕ) (ds : List ℕ) → ArePrior rec anchor b ds → Descends b ds
  ArePrior-Descends b [] p = tt
  ArePrior-Descends b (d ∷ ds) p = (p.0, ArePrior-Descends d ds (p.2))

  units_by_week :
      (unit n wanted : ℕ)
      → rec.schedule ≡ times_per_week wanted
      → prior_units rec anchor unit n
        ≡ prior_weeks n (first_week_unit wanted (effective_anchor rec anchor)) (unit - 7)
  unfolding prior_units
  units_by_week unit n wanted e = simp (prior_units, e)

  by_schedule :
      (unit n : ℕ) (s : Schedule)
      → rec.schedule ≡ s
      → 1 ≤ unit
      → Descends unit (prior_units rec anchor unit n)
  by_schedule unit n (times_per_week wanted) e one =
      let first = first_week_unit wanted (effective_anchor rec anchor) in
      let down =
        prior_weeks-Descends n first (unit - 7) (first_week_unit-positive wanted _ floor) in
      rw (units_by_week unit n wanted e)
        (Descends-weaken (suc (unit - 7)) unit (prior_weeks n first (unit - 7)) (omega arith) down)
  by_schedule unit n daily e one =
      ArePrior-Descends unit _
        ((prior_units-ArePrior rec anchor unit n (ap is_weekly e) floor one).1)
  by_schedule unit n (weekdays ds) e one =
      ArePrior-Descends unit _
        ((prior_units-ArePrior rec anchor unit n (ap is_weekly e) floor one).1)
  by_schedule unit n (every_n_days i start) e one =
      ArePrior-Descends unit _
        ((prior_units-ArePrior rec anchor unit n (ap is_weekly e) floor one).1)

  pub prior_units-Descends : (unit n : ℕ) → 1 ≤ unit → Descends unit (prior_units rec anchor unit n)
  prior_units-Descends unit n one = by_schedule unit n rec.schedule refl one
