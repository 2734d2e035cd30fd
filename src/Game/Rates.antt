-- ===== src/Game/Rates.antt =====
-- GameRates of app/game/engine.py: the tunables, their defaults and how stored overrides are read.
pub mod Keys
pub mod Sound
pub mod Usable
use task_buddy_backend.Prelude.{
  ℕ, ◌-◌, String, Bool, true, false, not, ◌&&◌, ◌||◌, Option, none, some, ℤ, pos, List, [], ◌∷◌,
  ◌++◌, str_eq, find_first, if◌then◌else◌,
}
use task_buddy_backend.Json.{Json, Fields}
use task_buddy_backend.Game.Number.{
  Numbers, Raises, returns, value_error, arithmetic_error, ◌>>=◌, computed, number, is_finite,
  nought, text_of,
}

-- The fields of GameRates that hold a number, less `daily_xp_cap`.
pub data Rate : Type 0 where
  xp_per_minute gold_per_minute int_xp_pct per_gold_pct con_shield_divisor con_shield_floor : Rate
  crit_base_chance crit_str_chance_scale crit_mult_base crit_mult_span crit_mult_soft : Rate
  hp_loss_base habit_drift_base habit_value_min habit_value_max habit_xp_factor daily_gold_cap :
      Rate
  stopwatch_milestone_xp speedrun_win_xp_bonus respec_gold_cost lvl_curve_early lvl_curve_lvl5 :
      Rate
  lvl_curve_quad_a lvl_curve_quad_b lvl_curve_quad_c lvl_curve_round crit_mult_max : Rate

abbrev pub key_of : Rate → String
key_of xp_per_minute = "xp_per_minute"
key_of gold_per_minute = "gold_per_minute"
key_of int_xp_pct = "int_xp_pct"
key_of per_gold_pct = "per_gold_pct"
key_of con_shield_divisor = "con_shield_divisor"
key_of con_shield_floor = "con_shield_floor"
key_of crit_base_chance = "crit_base_chance"
key_of crit_str_chance_scale = "crit_str_chance_scale"
key_of crit_mult_base = "crit_mult_base"
key_of crit_mult_span = "crit_mult_span"
key_of crit_mult_soft = "crit_mult_soft"
key_of hp_loss_base = "hp_loss_base"
key_of habit_drift_base = "habit_drift_base"
key_of habit_value_min = "habit_value_min"
key_of habit_value_max = "habit_value_max"
key_of habit_xp_factor = "habit_xp_factor"
key_of daily_gold_cap = "daily_gold_cap"
key_of stopwatch_milestone_xp = "stopwatch_milestone_xp"
key_of speedrun_win_xp_bonus = "speedrun_win_xp_bonus"
key_of respec_gold_cost = "respec_gold_cost"
key_of lvl_curve_early = "lvl_curve_early"
key_of lvl_curve_lvl5 = "lvl_curve_lvl5"
key_of lvl_curve_quad_a = "lvl_curve_quad_a"
key_of lvl_curve_quad_b = "lvl_curve_quad_b"
key_of lvl_curve_quad_c = "lvl_curve_quad_c"
key_of lvl_curve_round = "lvl_curve_round"
key_of crit_mult_max = "crit_mult_max"

-- `_POSITIVE_FIELDS`
abbrev pub must_be_positive : Rate → Bool
must_be_positive con_shield_divisor = true
must_be_positive crit_str_chance_scale = true
must_be_positive crit_mult_soft = true
must_be_positive lvl_curve_round = true
must_be_positive lvl_curve_early = true
must_be_positive lvl_curve_lvl5 = true
must_be_positive habit_drift_base = true
must_be_positive _ = false

-- `_NONNEGATIVE_FIELDS`
abbrev pub must_be_nonnegative : Rate → Bool
must_be_nonnegative stopwatch_milestone_xp = true
must_be_nonnegative respec_gold_cost = true
must_be_nonnegative speedrun_win_xp_bonus = true
must_be_nonnegative _ = false

-- `_INT_FIELDS`, less `daily_xp_cap`
abbrev pub must_be_integral : Rate → Bool
must_be_integral lvl_curve_round = true
must_be_integral _ = false

pub record GameRates (F : Type 0) : Type 0 where
  pub rate : Rate → F
  pub daily_xp_cap : ℤ
  pub difficulty : List (String × F)

abbrev pub all_rates : List Rate
all_rates =
    xp_per_minute ∷ gold_per_minute ∷ int_xp_pct ∷ per_gold_pct ∷ con_shield_divisor
    ∷ con_shield_floor ∷ crit_base_chance ∷ crit_str_chance_scale ∷ crit_mult_base ∷ crit_mult_span
    ∷ crit_mult_soft ∷ hp_loss_base ∷ habit_drift_base ∷ habit_value_min ∷ habit_value_max
    ∷ habit_xp_factor ∷ daily_gold_cap ∷ stopwatch_milestone_xp ∷ speedrun_win_xp_bonus
    ∷ respec_gold_cost ∷ lvl_curve_early ∷ lvl_curve_lvl5 ∷ lvl_curve_quad_a ∷ lvl_curve_quad_b
    ∷ lvl_curve_quad_c ∷ lvl_curve_round ∷ crit_mult_max ∷ []

module _ {F : Type 0} (f : Numbers F) where
  abbrev pub default_rate : Rate → F
  default_rate xp_per_minute = f.literal 10 1
  default_rate gold_per_minute = f.literal 2 1
  default_rate int_xp_pct = f.literal 25 3
  default_rate per_gold_pct = f.literal 2 2
  default_rate con_shield_divisor = f.literal 2500 1
  default_rate con_shield_floor = f.literal 1 1
  default_rate crit_base_chance = f.literal 3 2
  default_rate crit_str_chance_scale = f.literal 1000 1
  default_rate crit_mult_base = f.literal 15 1
  default_rate crit_mult_span = f.literal 40 1
  default_rate crit_mult_soft = f.literal 2000 1
  default_rate hp_loss_base = f.literal 20 1
  default_rate habit_drift_base = f.literal 9747 4
  default_rate habit_value_min = f.neg (f.literal 4727 2)
  default_rate habit_value_max = f.literal 2127 2
  default_rate habit_xp_factor = f.literal 60 1
  default_rate daily_gold_cap = f.literal 1500 1
  default_rate stopwatch_milestone_xp = f.literal 250 1
  default_rate speedrun_win_xp_bonus = f.literal 250 1
  default_rate respec_gold_cost = f.literal 1000 1
  default_rate lvl_curve_early = f.literal 250 1
  default_rate lvl_curve_lvl5 = f.literal 1500 1
  default_rate lvl_curve_quad_a = f.literal 25 2
  default_rate lvl_curve_quad_b = f.literal 100 1
  default_rate lvl_curve_quad_c = f.literal 13975 2
  default_rate lvl_curve_round = f.literal 100 1
  default_rate crit_mult_max = f.literal 30 1

  abbrev pub default_difficulty : List (String × F)
  default_difficulty =
      ("trivial", f.literal 1 1)
      ∷ ("easy", f.literal 10 1)
      ∷ ("medium", f.literal 15 1)
      ∷ ("hard", f.literal 20 1)
      ∷ []

  unfoldable pub defaults : GameRates F
  defaults = record { rate = default_rate; daily_xp_cap = pos 500; difficulty = default_difficulty }

  -- One multiplier of an override, or none that is kept.
  unfoldable pub clean_one : String → Json → Raises (List (String × F))
  clean_one name mult = elim (number f mult) [
    | none ↦ returns []
    | some x ↦ is_finite f mult >>= λ finite.
        if finite && f.lt (nought f) x then returns ((name, f.to_float x) ∷ []) else returns []
  ]

  unfoldable pub clean : Fields → Raises (List (String × F))
  unfolding clean_one
  clean Fields.end = returns []
  clean (Fields.field name mult rest) =
      clean_one name mult >>= λ one. clean rest >>= λ others. returns (one ++ others)

  abbrev pub merge_difficulty : List (String × F) → GameRates F → GameRates F
  merge_difficulty [] r = r
  merge_difficulty (x ∷ xs) r = record {
    rate = r.rate;
    daily_xp_cap = r.daily_xp_cap;
    difficulty = (x ∷ xs) ++ default_difficulty;
  }

  -- Whether a field refuses the number `x`.
  unfoldable pub refuses : Rate → F → Bool
  refuses k x =
      (must_be_positive k && f.le x (nought f))
      || (must_be_nonnegative k && f.lt x (nought f))
      || (must_be_integral k && not (f.is_integer (f.to_float x)))

  abbrev pub put_rate : Rate → F → GameRates F → GameRates F
  put_rate k x r = record {
    rate = λ q. if str_eq (key_of q) (key_of k) then x else r.rate q;
    daily_xp_cap = r.daily_xp_cap;
    difficulty = r.difficulty;
  }

  abbrev pub put_cap : ℤ → GameRates F → GameRates F
  put_cap n r = record { rate = r.rate; daily_xp_cap = n; difficulty = r.difficulty }

  -- `int(v)` for a field that stays integral
  abbrev pub stored_value : Rate → F → Raises F
  stored_value k x =
      if must_be_integral k then (computed (f.trunc x) >>= λ n. returns (f.of_int n)) else returns x

  -- `kwargs[key] = …` of one field
  unfoldable pub override_rate : Rate → Json → GameRates F → Raises (GameRates F)
  unfolding refuses
  override_rate k v r = elim (number f v) [
    | none ↦ returns r
    | some x ↦ is_finite f v >>= λ finite.
        if not finite || refuses k x
        then returns r
        else stored_value k x >>= λ y. returns (put_rate k y r)
  ]

  unfoldable pub override_cap : Json → GameRates F → Raises (GameRates F)
  override_cap v r = elim (number f v) [
    | none ↦ returns r
    | some x ↦ is_finite f v >>= λ finite.
        if not finite || not (f.is_integer (f.to_float x))
        then returns r
        else computed (f.trunc x) >>= λ n. returns (put_cap n r)
  ]

  abbrev pub override_difficulty : Json → GameRates F → Raises (GameRates F)
  override_difficulty (Json.obj names) r = clean names >>= λ xs. returns (merge_difficulty xs r)
  override_difficulty _ r = returns r

  -- One round of the loop of `from_dict`.
  unfoldable pub override : String → Json → GameRates F → Raises (GameRates F)
  unfolding clean override_rate override_cap
  override key v r =
      if str_eq key "difficulty"
      then override_difficulty v r
      else if str_eq key "daily_xp_cap"
      then override_cap v r
      else elim (find_first (λ k. str_eq (key_of k) key) all_rates) [
        | none ↦ returns r
        | some k ↦ override_rate k v r
      ]

  unfoldable pub override_all : Fields → GameRates F → Raises (GameRates F)
  unfolding override
  override_all Fields.end r = returns r
  override_all (Fields.field key v rest) r = override key v r >>= λ q. override_all rest q

  unfoldable pub from_dict : Json → Raises (GameRates F)
  unfolding override_all
  from_dict (Json.obj blob) = override_all blob (defaults)
  from_dict _ = returns (defaults)
