-- ===== src/Game/Profile.antt =====
-- The profile that app/game/engine.py scores (GameProfile of app/models/game.py), the stats that it
-- reads, the level curve and the roll for a crit.
pub mod Curve
use task_buddy_backend.Prelude.{
  ℕ, ◌+◌, ◌*◌, ◌/◌, String, Bool, true, false, Option, none, some, ℤ, pos, negsuc, ◌+ℤ◌, ◌-ℤ◌, List,
  [], ◌∷◌, ltb, ◌==◌, str_eq, find_first, if◌then◌else◌,
}
use task_buddy_backend.Json.{Json}
use task_buddy_backend.Game.Number.{
  Numbers, Raises, returns, value_error, arithmetic_error, ◌>>=◌, computed, nought, product, min_of,
  max_of, text_of,
}
use task_buddy_backend.Game.Rates.{
  Rate, GameRates, lvl_curve_early, lvl_curve_lvl5, lvl_curve_quad_a, lvl_curve_quad_b,
  lvl_curve_quad_c, lvl_curve_round, crit_base_chance, crit_str_chance_scale, crit_mult_base,
  crit_mult_span, crit_mult_soft, crit_mult_max, habit_drift_base, habit_value_min, habit_value_max,
}

-- The columns of the allocated pool, `_ALLOCATED_STATS`.
pub data Stat : Type 0 where
  str_stat int_stat con_stat per_stat : Stat

abbrev pub same_stat : Stat → Stat → Bool
same_stat str_stat str_stat = true
same_stat int_stat int_stat = true
same_stat con_stat con_stat = true
same_stat per_stat per_stat = true
same_stat _ _ = false

pub record GameProfile (F : Type 0) : Type 0 where
  pub level : ℕ
  pub xp : ℕ
  pub hp : F
  pub max_hp : F
  pub gold : F
  pub stats : Stat → ℕ
  pub unspent_stat_points : ℕ
  pub xp_today : ℕ
  pub gold_today : F
  pub totals_day : Option ℕ

-- `min(level, 100) // 2`
unfoldable pub level_stat_bonus : ℕ → ℕ
level_stat_bonus level = (if ltb 100 level then 100 else level) / 2

-- `max(1, n)`
abbrev pub at_least_one : ℤ → ℕ
at_least_one (pos n) = if ltb 1 n then n else 1
at_least_one (negsuc n) = 1

-- `m * n` of two `int`s
abbrev pub times : ℤ → ℤ → ℤ
times (pos m) (pos n) = pos (m * n)
times (pos m) (negsuc n) = pos 0 -ℤ pos (m * (n + 1))
times (negsuc m) (pos n) = pos 0 -ℤ pos ((m + 1) * n)
times (negsuc m) (negsuc n) = pos ((m + 1) * (n + 1))

module _ {F : Type 0} (f : Numbers F) where
  -- The gear bonus is a function of the stat, 0 where the mapping has no key.
  unfoldable pub effective_stat : GameProfile F → Stat → (Stat → ℤ) → ℤ
  effective_stat p s bonus = pos (p.stats s) +ℤ bonus s

  abbrev pub quadratic : GameRates F → F → F
  quadratic r n =
      f.add
        (f.add (f.mul (f.mul n n) (r.rate lvl_curve_quad_a)) (f.mul n (r.rate lvl_curve_quad_b)))
        (r.rate lvl_curve_quad_c)

  unfoldable pub xp_to_next_level : GameRates F → ℕ → Raises ℕ
  xp_to_next_level r level =
      let n = f.of_int (pos level) in
      if ltb level 5
      then (computed (f.trunc (f.mul (r.rate lvl_curve_early) n)) >>= λ t. returns (at_least_one t))
      else if level == 5
      then (computed (f.trunc (r.rate lvl_curve_lvl5)) >>= λ t. returns (at_least_one t))
      else (computed (f.div (quadratic r n) (r.rate lvl_curve_round)) >>= λ q.
          computed (f.round q) >>= λ buckets.
          computed (f.trunc (r.rate lvl_curve_round)) >>= λ size.
          returns (at_least_one (times buckets size)))

  -- The multiplier of a draw; 1.0 is no crit.
  unfoldable pub crit_roll : F → ℤ → GameRates F → Raises F
  crit_roll roll str r =
      let one = f.of_int (pos 1) in
      let s = f.of_int str in
      computed (f.div s (r.rate crit_str_chance_scale)) >>= λ part.
      if f.lt roll (f.mul (r.rate crit_base_chance) (f.add one part))
      then (computed (f.div (f.mul (r.rate crit_mult_span) s) (f.add s (r.rate crit_mult_soft)))
          >>= λ span.
              returns (min_of f (f.add (r.rate crit_mult_base) span) (r.rate crit_mult_max)))
      else returns (f.literal 10 1)

  unfoldable pub habit_delta : F → GameRates F → Raises F
  habit_delta value r = computed (f.pow (r.rate habit_drift_base) value)

  unfoldable pub clamp_habit_value : F → GameRates F → F
  clamp_habit_value value r =
      max_of f (r.rate habit_value_min) (min_of f (r.rate habit_value_max) value)

  -- `_difficulty_mult`
  unfoldable pub difficulty_mult : Json → GameRates F → Raises F
  difficulty_mult name r = elim (find_first (λ d. str_eq (d.0) (text_of f name)) r.difficulty) [
    | none ↦ value_error "unknown difficulty"
    | some d ↦ returns (d.1)
  ]
