-- ===== src/Game/Rates/Usable.antt =====
-- What the engine may rely on in the rates of GameRates.from_dict in app/game/engine.py.
use task_buddy_backend.Prelude.{false, ◌≡◌, refl}
use task_buddy_backend.Json.{Json}
use task_buddy_backend.Game.Number.{Numbers, returns, nought}
use task_buddy_backend.Game.Number.Laws.{IsSigned}
use task_buddy_backend.Game.Rates.{
  con_shield_divisor, crit_str_chance_scale, crit_mult_soft, habit_drift_base,
  stopwatch_milestone_xp, speedrun_win_xp_bonus, respec_gold_cost, lvl_curve_early, lvl_curve_lvl5,
  lvl_curve_round, GameRates, from_dict,
}
use task_buddy_backend.Game.Rates.Sound.{AllPositive, from_dict-IsSound}

module _ {F : Type 0} (f : Numbers F) where
  abbrev pub Positive : F → Type 0
  Positive x = f.le x (nought f) ≡ false

  abbrev pub NonNegative : F → Type 0
  NonNegative x = f.lt x (nought f) ≡ false

  -- What the engine relies on, rate by rate.
  pub record IsUsable (r : GameRates F) : Type 0 where
    -- the divisors of the shield, of both critical hits and of the rounded level curve
    pub shield : Positive (r.rate con_shield_divisor)
    pub chance : Positive (r.rate crit_str_chance_scale)
    pub soft : Positive (r.rate crit_mult_soft)
    pub rounding : Positive (r.rate lvl_curve_round)
    -- the thresholds of the first levels
    pub early : Positive (r.rate lvl_curve_early)
    pub level_five : Positive (r.rate lvl_curve_lvl5)
    -- the base that is raised to the value of a habit
    pub drift : Positive (r.rate habit_drift_base)
    -- awards and a price that may be zero
    pub milestone : NonNegative (r.rate stopwatch_milestone_xp)
    pub win : NonNegative (r.rate speedrun_win_xp_bonus)
    pub respec : NonNegative (r.rate respec_gold_cost)
    pub difficulties : (AllPositive f) r.difficulty

module _ {F : Type 0} (f : Numbers F) (laws : IsSigned f) where
  -- With numbers whose conversions and literals of few digits keep their sign: in the rates that
  -- `from_dict` returns for any JSON value, the four divisors (of the shield, the critical chance,
  -- the soft cap and the curve's rounding), the first two level thresholds, the base of the habit
  -- drift and every difficulty are positive, and the milestone XP, the bonus for a win and the
  -- price of a respec are not negative.
  pub from_dict-IsUsable : (v : Json) (r : GameRates F) → from_dict f v ≡ returns r → (IsUsable f) r
  from_dict-IsUsable v r e =
      let sound = (from_dict-IsSound f laws) v r e in
      record {
        shield = (sound.rates con_shield_divisor).0 refl;
        chance = (sound.rates crit_str_chance_scale).0 refl;
        soft = (sound.rates crit_mult_soft).0 refl;
        rounding = (sound.rates lvl_curve_round).0 refl;
        early = (sound.rates lvl_curve_early).0 refl;
        level_five = (sound.rates lvl_curve_lvl5).0 refl;
        drift = (sound.rates habit_drift_base).0 refl;
        milestone = (sound.rates stopwatch_milestone_xp).1 refl;
        win = (sound.rates speedrun_win_xp_bonus).1 refl;
        respec = (sound.rates respec_gold_cost).1 refl;
        difficulties = sound.difficulties;
      }
