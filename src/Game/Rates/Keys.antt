-- ===== src/Game/Rates/Keys.antt =====
-- The names of the fields of GameRates in app/game/engine.py.
use mathlib.Core.Option.{some-injective}
use task_buddy_backend.Prelude.{true, ◌≡◌, refl, sym, ap, ◌∙◌, some, str_eq, eq_iff, find_first}
use task_buddy_backend.Game.Rates.{
  Rate, key_of, all_rates, xp_per_minute, gold_per_minute, int_xp_pct, per_gold_pct,
  con_shield_divisor, con_shield_floor, crit_base_chance, crit_str_chance_scale, crit_mult_base,
  crit_mult_span, crit_mult_soft, hp_loss_base, habit_drift_base, habit_value_min, habit_value_max,
  habit_xp_factor, daily_gold_cap, stopwatch_milestone_xp, speedrun_win_xp_bonus, respec_gold_cost,
  lvl_curve_early, lvl_curve_lvl5, lvl_curve_quad_a, lvl_curve_quad_b, lvl_curve_quad_c,
  lvl_curve_round, crit_mult_max,
}

-- A key is read back as the field that it names.
pub key_of-read : (k : Rate) → find_first (λ q. str_eq (key_of q) (key_of k)) all_rates ≡ some k
key_of-read xp_per_minute = refl
key_of-read gold_per_minute = refl
key_of-read int_xp_pct = refl
key_of-read per_gold_pct = refl
key_of-read con_shield_divisor = refl
key_of-read con_shield_floor = refl
key_of-read crit_base_chance = refl
key_of-read crit_str_chance_scale = refl
key_of-read crit_mult_base = refl
key_of-read crit_mult_span = refl
key_of-read crit_mult_soft = refl
key_of-read hp_loss_base = refl
key_of-read habit_drift_base = refl
key_of-read habit_value_min = refl
key_of-read habit_value_max = refl
key_of-read habit_xp_factor = refl
key_of-read daily_gold_cap = refl
key_of-read stopwatch_milestone_xp = refl
key_of-read speedrun_win_xp_bonus = refl
key_of-read respec_gold_cost = refl
key_of-read lvl_curve_early = refl
key_of-read lvl_curve_lvl5 = refl
key_of-read lvl_curve_quad_a = refl
key_of-read lvl_curve_quad_b = refl
key_of-read lvl_curve_quad_c = refl
key_of-read lvl_curve_round = refl
key_of-read crit_mult_max = refl

pub key_of-injective : (q k : Rate) → str_eq (key_of q) (key_of k) ≡ true → q ≡ k
key_of-injective q k h =
    let same = (eq_iff (key_of q) (key_of k)).0 h in
    let named = ap (λ s. find_first (λ j. str_eq (key_of j) s) all_rates) same in
    some-injective q k (sym (key_of-read q) ∙ named ∙ key_of-read k)
