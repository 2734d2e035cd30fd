-- ===== src/Dailies/Recurrence/Prior.antt =====
-- The window of earlier units in app/game/daily_service.py, which the streak freeze looks at.
use mathlib.Core.Path.{subst}
use task_buddy_backend.Prelude.{
  ℕ, zero, suc, ◌+◌, ◌-◌, ◌≤◌, ◌<◌, ◌≡◌, refl, sym, ap, ◌∙◌, inl, inr, Bool, true, false, List, [],
  ◌∷◌, arith, ltb, leb, ◌==◌, ◌&&◌, bit, count, length, Bool-cases,
}
use task_buddy_backend.Dailies.Recurrence.{
  Schedule, Recurrence, daily, weekdays, every_n_days, times_per_week, is_schedulable,
  effective_anchor, prior_days, prior_units,
}
use task_buddy_backend.Dailies.Recurrence.Units.{is_weekly}

before_unit : (x unit : ℕ) → 1 ≤ unit → ltb x unit ≡ leb x (unit - 1)
before_unit x unit one = ground arith

eq_of_test : (d x : ℕ) → (d == x) ≡ true → d ≡ x
eq_of_test d x h = ground (arith, h)

module _ (rec : Recurrence) (anchor : ℕ) where
  -- Schedulable days in descending order, all of them before `bound`.
  abbrev pub ArePrior : ℕ → List ℕ → Type 0
  ArePrior bound [] = Unit
  ArePrior bound (d ∷ ds) = (d < bound) × (is_schedulable rec d anchor ≡ true) × ArePrior d ds

  ArePrior-weaken : (a b : ℕ) (ds : List ℕ) → a ≤ b → ArePrior a ds → ArePrior b ds
  ArePrior-weaken a b [] h p = tt
  ArePrior-weaken a b (d ∷ ds) h (l, s, rest) = (omega arith, s, rest)

  -- A window of at most `n` such days.
  abbrev Window : ℕ → ℕ → List ℕ → Type 0
  Window n bound ds = (length ds ≤ n) × ArePrior bound ds

  prior_days-Window :
      (left n d : ℕ)
      → 1 ≤ effective_anchor rec anchor
      → Window n (suc d) (prior_days left n rec anchor d)
  unfolding prior_days
  prior_days-Window zero n d h = (omega arith, tt)
  prior_days-Window (suc left) zero d h = (omega arith, tt)
  prior_days-Window (suc left) (suc n) d h =
      elim (Bool-cases (ltb d (effective_anchor rec anchor))) [
        | inl below ↦ rw (prior_days, below) (omega arith, tt)
        | inr above ↦ elim (Bool-cases (is_schedulable rec d anchor)) [
          | inl fits ↦
              let (short, prior) = prior_days-Window left n (d - 1) h in
              rw (prior_days, above, fits)
                (
                  omega (arith, short),
                  (
                    omega arith,
                    fits,
                    ArePrior-weaken (suc (d - 1)) d (prior_days left n rec anchor (d - 1))
                        (ground (arith, above, h)) prior,
                  ),
                )
          | inr passes ↦
              let (short, prior) = prior_days-Window left (suc n) (d - 1) h in
              rw (prior_days, above, passes)
                (
                  short,
                  ArePrior-weaken (suc (d - 1)) (suc d) (prior_days left (suc n) rec anchor (d - 1))
                      (omega arith) prior,
                )
        ]
      ]

  units_by_day :
      (unit n : ℕ) (s : Schedule)
      → rec.schedule ≡ s
      → is_weekly s ≡ false
      → prior_units rec anchor unit n ≡ prior_days 2200 n rec anchor (unit - 1)
  unfolding prior_units
  units_by_day unit n daily e h = simp (prior_units, e)
  units_by_day unit n (weekdays ds) e h = simp (prior_units, e)
  units_by_day unit n (every_n_days i start) e h = simp (prior_units, e)
  units_by_day unit n (times_per_week wanted) e h = absurd (cc)

  -- For a recurrence that is not weekly, with the effective anchor and the unit at day 1 or later,
  -- the prior units of a unit are at most n schedulable days, all before the unit and in strictly
  -- descending order.
  pub prior_units-ArePrior :
      (unit n : ℕ)
      → is_weekly rec.schedule ≡ false
      → 1 ≤ effective_anchor rec anchor
      → 1 ≤ unit
      → (length (prior_units rec anchor unit n) ≤ n) × ArePrior unit (prior_units rec anchor unit n)
  prior_units-ArePrior unit n h floor one =
      let (short, prior) = prior_days-Window 2200 n (unit - 1) floor in
      rw (units_by_day unit n rec.schedule refl h) (
        short,
        ArePrior-weaken (suc (unit - 1)) unit (prior_days 2200 n rec anchor (unit - 1))
            (omega arith) prior,
      )

  module _ (x : ℕ) where
    before_floor : ltb x (effective_anchor rec anchor) ≡ true → is_schedulable rec x anchor ≡ false
    unfolding is_schedulable
    before_floor h = simp (is_schedulable, h)

    nothing_below :
        (d : ℕ)
        → ltb d (effective_anchor rec anchor) ≡ true
        → bit (leb x d && is_schedulable rec x anchor) ≡ 0
    nothing_below d h = elim (Bool-cases (leb x d)) [
      | inl under ↦ rw (under, before_floor (ground (arith, under, h))) refl
      | inr over ↦ rw (over) refl
    ]

    step_down :
        (d k : ℕ) (s : Bool)
        → 1 ≤ d
        → is_schedulable rec d anchor ≡ s
        → k ≡ bit (leb x (d - 1) && is_schedulable rec x anchor)
        → bit (s && (d == x)) + k ≡ bit (leb x d && is_schedulable rec x anchor)
    step_down d k s one e h = elim (Bool-cases (d == x)) [
      | inl same ↦
          let q : d ≡ x = eq_of_test d x same in
          let at_x = sym (ap (λ y. is_schedulable rec y anchor) q) ∙ e in
          ground (arith, same, h, at_x, one)
      | inr other ↦ ground (arith, other, h, one)
    ]

    prior_days_complete :
        (left n d : ℕ)
        → 1 ≤ effective_anchor rec anchor
        → d < left + effective_anchor rec anchor
        → length (prior_days left n rec anchor d) < n
        → count (λ u. u == x) (prior_days left n rec anchor d)
          ≡ bit (leb x d && is_schedulable rec x anchor)
    unfolding prior_days
    prior_days_complete zero n d floor near short = sym (nothing_below d (ground (arith, near)))
    prior_days_complete (suc left) zero d floor near short = absurd (omega arith)
    prior_days_complete (suc left) (suc n) d floor near short =
        elim (Bool-cases (ltb d (effective_anchor rec anchor))) [
          | inl below ↦ rw (prior_days, below) (sym (nothing_below d below))
          | inr above ↦ elim (Bool-cases (is_schedulable rec d anchor)) [
            | inl fits ↦
                let rest =
                  prior_days_complete left n (d - 1) floor (ground (arith, above, near))
                    (ground (arith, above, fits, short)) in
                rw (prior_days, above, fits)
                  (step_down d (count (λ u. u == x) (prior_days left n rec anchor (d - 1))) true
                    (ground (arith, above, floor)) fits rest)
            | inr passes ↦
                let rest =
                  prior_days_complete left (suc n) (d - 1) floor (ground (arith, above, near))
                    (ground (arith, above, passes, short)) in
                rw (prior_days, above, passes)
                  (omega (
                    arith,
                    step_down d (count (λ u. u == x) (prior_days left (suc n) rec anchor (d - 1)))
                        false (ground (arith, above, floor)) passes rest,
                  ))
          ]
        ]

    -- For a recurrence that is not weekly, with the effective anchor and the unit at day 1 or
    -- later and the unit at most 2200 days after the anchor: if fewer than n prior units are
    -- listed, the list holds a day exactly once if it is schedulable and before the unit, and not
    -- at all otherwise.
    pub prior_units_complete :
        (unit n : ℕ)
        → is_weekly rec.schedule ≡ false
        → 1 ≤ effective_anchor rec anchor
        → 1 ≤ unit
        → unit ≤ 2200 + effective_anchor rec anchor
        → length (prior_units rec anchor unit n) < n
        → count (λ u. u == x) (prior_units rec anchor unit n)
          ≡ bit (ltb x unit && is_schedulable rec x anchor)
    prior_units_complete unit n h floor one near short =
        let same = units_by_day unit n rec.schedule refl h in
        let days =
          prior_days_complete 2200 n (unit - 1) floor (omega arith)
            (subst (λ ds. length ds < n) same short) in
        rw (same, before_unit x unit one) days
