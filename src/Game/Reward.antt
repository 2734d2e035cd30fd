-- ===== src/Game/Reward.antt =====
-- The rewards of app/game/engine.py: focus phases, speedruns, habit clicks and milestones.
use task_buddy_backend.Prelude.{
  ℕ, String, Bool, ◌||◌, ℤ, pos, ◌+ℤ◌, [], ◌∷◌, get_or, str_eq, if◌then◌else◌,
}
use task_buddy_backend.Json.{Json, Fields, get}
use task_buddy_backend.Game.Number.{
  Numbers, Raises, returns, value_error, ◌>>=◌, computed, product, round_half_up,
}
use task_buddy_backend.Game.Rates.{
  GameRates, xp_per_minute, gold_per_minute, int_xp_pct, per_gold_pct, hp_loss_base,
  habit_xp_factor, stopwatch_milestone_xp, speedrun_win_xp_bonus,
}
use task_buddy_backend.Game.Profile.{
  Stat, str_stat, int_stat, per_stat, GameProfile, effective_stat, crit_roll, habit_delta,
  clamp_habit_value, difficulty_mult,
}
use task_buddy_backend.Game.Award.{XpAward, award_xp, award_gold}
use task_buddy_backend.Game.Damage.{apply_hp_loss}
use task_buddy_backend.Game.Payload.{
  difficulty_of, lookup, is_true, read_milestones, Outcome, reward, click, bad_click, milestone,
  finite_positive, click_value,
}

module _ {F : Type 0} (f : Numbers F) (p : GameProfile F) (payload : Fields) (r : GameRates F)
    (roll : F) (bonus : Stat → ℤ) where
  -- `1 + pct * stat`
  abbrev pub scaled : F → Stat → F
  scaled pct s = f.add (f.of_int (pos 1)) (f.mul pct (f.of_int (effective_stat f p s bonus)))

  abbrev pub roll_crit : Raises F
  roll_crit = crit_roll f roll (effective_stat f p str_stat bonus) r

  -- `mult > 1.0`
  abbrev pub is_crit : F → Bool
  is_crit mult = f.lt (f.literal 10 1) mult

  -- `_focus_payout`: the XP, the gold and the multiplier
  unfoldable pub focus_payout : F → Raises (ℤ × ℤ × F)
  focus_payout minutes = difficulty_mult f (difficulty_of payload) r >>= λ d. roll_crit >>= λ mult.
      round_half_up f (
        product f minutes
          (r.rate xp_per_minute ∷ d ∷ scaled (r.rate int_xp_pct) int_stat ∷ mult ∷ []))
      >>= λ xp.
          computed (
            f.ceil (
              product f minutes
                (r.rate gold_per_minute ∷ d ∷ scaled (r.rate per_gold_pct) per_stat ∷ mult ∷ [])))
          >>= λ gold. returns (xp, gold, mult)

  -- `award_xp`, then `award_gold` on the profile that it leaves
  unfoldable pub award_both : ℤ → F → ℕ → Raises (XpAward × F × GameProfile F)
  award_both xp gold today = award_xp f p xp r today >>= λ a.
      let (got, q) = award_gold f (a.1) gold r today in returns (a.0, got, q)

  -- `_apply_focus_phase`
  unfoldable pub apply_focus_phase : ℕ → Raises (Outcome F × GameProfile F)
  unfolding focus_payout award_both
  apply_focus_phase today =
      finite_positive f (lookup "minutes" payload) "focus_phase_completed minutes" >>= λ minutes.
      focus_payout minutes >>= λ pay. award_both (pay.0) (f.of_int (pay.1)) today >>= λ a.
      returns (reward (is_crit (pay.2)) (a.0) (a.1), a.2)

  -- The flat bonus of `payload["win_bonus"]`
  unfoldable pub win_bonus : ℤ → Raises ℤ
  win_bonus xp =
      if is_true (lookup "win_bonus" payload)
      then (round_half_up f (r.rate speedrun_win_xp_bonus) >>= λ n. returns (xp +ℤ n))
      else returns xp

  -- `_apply_speedrun_completed`
  unfoldable pub apply_speedrun_completed : ℕ → Raises (Outcome F × GameProfile F)
  unfolding focus_payout award_both win_bonus
  apply_speedrun_completed today =
      finite_positive f (lookup "minutes" payload) "speedrun_completed minutes" >>= λ minutes.
      focus_payout minutes >>= λ pay. win_bonus (pay.0) >>= λ xp.
      award_both xp (f.of_int (pay.1)) today >>= λ a.
      returns (reward (is_crit (pay.2)) (a.0) (a.1), a.2)

  -- A positive click: the value is clamped, `delta` is its drift and `d` the difficulty.
  unfoldable pub positive_click : F → F → F → ℕ → Raises (Outcome F × GameProfile F)
  unfolding award_both
  positive_click value delta d today = roll_crit >>= λ mult.
      round_half_up f (
        product f delta
          (scaled (r.rate int_xp_pct) int_stat ∷ d ∷ mult ∷ r.rate habit_xp_factor ∷ []))
      >>= λ xp.
          computed
            (f.ceil (product f delta (d ∷ mult ∷ scaled (r.rate per_gold_pct) per_stat ∷ [])))
          >>= λ gold. award_both xp (f.of_int gold) today >>= λ a. returns (
            click (is_crit mult) delta (clamp_habit_value f (f.add value delta) r) (a.0) (a.1),
            a.2,
          )

  unfoldable pub negative_click : F → F → F → ℕ → Raises (Outcome F × GameProfile F)
  negative_click value delta d draw =
      apply_hp_loss f p (product f delta (d ∷ r.rate hp_loss_base ∷ [])) r draw bonus >>= λ a.
      returns (bad_click (a.0) (f.neg delta) (clamp_habit_value f (f.sub value delta) r), a.1)

  abbrev pub is_direction : String → Bool
  is_direction d = str_eq d "positive" || str_eq d "negative"

  abbrev pub direction : Json → Raises String
  direction (Json.str d) =
      if is_direction d
      then returns d
      else value_error "habit_click requires direction 'positive' or 'negative'"
  direction _ = value_error "habit_click requires direction 'positive' or 'negative'"

  -- `_apply_habit_click`; the missing value is 0.0
  unfoldable pub apply_habit_click : ℕ → ℕ → Raises (Outcome F × GameProfile F)
  unfolding positive_click negative_click
  apply_habit_click draw today = direction (lookup "direction" payload) >>= λ way.
      click_value f (get_or (get "value" payload) (Json.float (pos 0) 0)) >>= λ raw.
      let value = clamp_habit_value f raw r in
      habit_delta f value r >>= λ delta. difficulty_mult f (difficulty_of payload) r >>= λ d.
      if str_eq way "negative"
      then negative_click value delta d draw
      else positive_click value delta d today

  -- `_apply_stopwatch_milestone`
  unfoldable pub apply_stopwatch_milestone : ℕ → Raises (Outcome F × GameProfile F)
  apply_stopwatch_milestone today =
      read_milestones (get_or (get "milestones" payload) (Json.int (pos 1))) >>= λ n.
      roll_crit >>= λ mult.
      round_half_up f (product f (f.of_int (pos n)) (r.rate stopwatch_milestone_xp ∷ mult ∷ []))
      >>= λ xp. award_xp f p xp r today >>= λ a. returns (milestone (is_crit mult) (a.0), a.1)
