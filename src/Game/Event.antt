-- ===== src/Game/Event.antt =====
-- Damage, daily checks and `apply_event` of app/game/engine.py.
pub mod Valid
pub mod Handlers
pub mod Check
use task_buddy_backend.Prelude.{
  ℕ, String, Bool, true, false, not, ◌&&◌, ◌||◌, Option, none, some, ℤ, pos, negsuc, ◌+ℤ◌, List, [],
  ◌∷◌, ltb, leb, get_or, str_eq, if◌then◌else◌,
}
use task_buddy_backend.Json.{Json, Fields, get}
use task_buddy_backend.Game.Number.{
  Numbers, Raises, returns, value_error, arithmetic_error, ◌>>=◌, computed, number, is_finite,
  nought, zero_point, product, min_of, max_of, round_half_up,
}
use task_buddy_backend.Game.Rates.{
  GameRates, xp_per_minute, gold_per_minute, int_xp_pct, per_gold_pct, hp_loss_base,
  habit_xp_factor, stopwatch_milestone_xp, speedrun_win_xp_bonus,
}
use task_buddy_backend.Game.Profile.{
  Stat, str_stat, int_stat, per_stat, GameProfile, effective_stat, crit_roll, habit_delta,
  clamp_habit_value, difficulty_mult,
}
use task_buddy_backend.Game.Award.{XpAward, award_xp, award_gold}
use task_buddy_backend.Game.Damage.{HpLoss, apply_hp_loss}
use task_buddy_backend.Game.Payload.{
  difficulty_of, lookup, streak_days, Outcome, stored, hurt, check, finite_positive, fraction,
  nonnegative,
}
use task_buddy_backend.Game.Reward.{
  scaled, roll_crit, is_crit, award_both, apply_focus_phase, apply_speedrun_completed,
  apply_habit_click, apply_stopwatch_milestone,
}

module _ {F : Type 0} (f : Numbers F) (p : GameProfile F) (payload : Fields) (r : GameRates F)
    (roll : F) (bonus : Stat → ℤ) where
  -- `rates.hp_loss_base * _difficulty_mult(…)`
  unfoldable pub base_loss : Raises F
  base_loss =
      difficulty_mult f (difficulty_of payload) r >>= λ d. returns (f.mul (r.rate hp_loss_base) d)

  abbrev pub damage_amount : Option Json → Raises F
  damage_amount none = base_loss
  damage_amount (some amount) = finite_positive f amount "damage amount"

  -- `_apply_damage`
  unfoldable pub apply_damage : ℕ → Raises (Outcome F × GameProfile F)
  unfolding base_loss
  apply_damage draw = damage_amount (get "amount" payload) >>= λ base.
      apply_hp_loss f p base r draw bonus >>= λ a. returns (hurt (a.0), a.1)

  -- `_apply_daily_missed`
  unfoldable pub apply_daily_missed : ℕ → Raises (Outcome F × GameProfile F)
  unfolding base_loss
  apply_daily_missed draw =
      base_loss >>= λ base. apply_hp_loss f p base r draw bonus >>= λ a. returns (hurt (a.0), a.1)

  -- The XP of a check: `base` for the whole day, of which `paid` is paid.
  unfoldable pub check_xp : F → F → F → Raises ℤ
  check_xp base share paid = round_half_up f base >>= λ whole.
      round_half_up f (f.mul base share) >>= λ part.
      computed
        (f.trunc (min_of f (f.of_int part) (max_of f (zero_point f) (f.sub (f.of_int whole) paid))))

  -- The gold of a check, in the same way.
  unfoldable pub check_gold : F → F → F → Raises F
  check_gold base share paid = computed (f.ceil base) >>= λ whole.
      computed (f.ceil (f.mul base share)) >>= λ part.
      returns (min_of f (f.of_int part) (max_of f (zero_point f) (f.sub (f.of_int whole) paid)))

  abbrev pub paid_before : String → Raises F
  paid_before key = nonnegative f (get_or (get key payload) (Json.int (pos 0))) key

  -- `xp_base` and `gold_base` of `_apply_daily_check`
  unfoldable pub check_bases : ℕ → Raises (F × F × F)
  check_bases streak = difficulty_mult f (difficulty_of payload) r >>= λ d.
      roll_crit f p payload r roll bonus >>= λ mult.
      let grown = f.add (f.of_int (pos 1)) (f.mul (f.literal 1 2) (f.of_int (pos streak))) in
      returns (
        product f (scaled f p payload r roll bonus (r.rate int_xp_pct) int_stat)
            (d ∷ mult ∷ r.rate habit_xp_factor ∷ []),
        product f d
            (mult ∷ scaled f p payload r roll bonus (r.rate per_gold_pct) per_stat ∷ grown ∷ []),
        mult,
      )

  -- `_apply_daily_check`
  unfoldable pub apply_daily_check : ℕ → Raises (Outcome F × GameProfile F)
  unfolding award_both check_xp check_gold check_bases
  apply_daily_check today = fraction f (lookup "share" payload) >>= λ asked.
      streak_days (get_or (get "streak" payload) (Json.int (pos 0))) >>= λ streak.
      paid_before "paid_share" >>= λ paid_share. paid_before "paid_xp" >>= λ paid_xp.
      paid_before "paid_gold" >>= λ paid_gold. check_bases streak >>= λ bases.
      let share = min_of f asked (max_of f (zero_point f) (f.sub (f.literal 10 1) paid_share)) in
      check_xp (bases.0) share paid_xp >>= λ xp. check_gold (bases.1) share paid_gold >>= λ gold.
      award_both f p payload r roll bonus xp gold today >>= λ a.
      returns (check (is_crit f p payload r roll bonus (bases.2)) share streak (a.0) (a.1), a.2)

  unfoldable pub apply_event : String → ℕ → ℕ → Raises (Outcome F × GameProfile F)
  unfolding apply_focus_phase apply_habit_click apply_damage apply_stopwatch_milestone
      apply_daily_check apply_daily_missed apply_speedrun_completed
  apply_event event_type draw today =
      if str_eq event_type "focus_phase_completed"
      then apply_focus_phase f p payload r roll bonus today
      else if str_eq event_type "habit_click"
      then apply_habit_click f p payload r roll bonus draw today
      else if str_eq event_type "damage"
      then apply_damage draw
      else if str_eq event_type "session_abandoned" || str_eq event_type "speedrun_failed"
      then apply_damage draw
      else if str_eq event_type "stopwatch_milestone"
      then apply_stopwatch_milestone f p payload r roll bonus today
      else if str_eq event_type "daily_check"
      then apply_daily_check today
      else if str_eq event_type "daily_missed"
      then apply_daily_missed draw
      else if str_eq event_type "speedrun_completed"
      then apply_speedrun_completed f p payload r roll bonus today
      else if str_eq event_type "record_set"
      then returns (stored true, p)
      else returns (stored false, p)
