-- ===== src/Game/Event/Handlers.antt =====
-- The handlers of app/game/engine.py and the profile that each leaves.
use task_buddy_backend.Prelude.{ℕ, String, ◌≡◌, ℤ, true, false, str_eq, ◌||◌}
use task_buddy_backend.Json.{Fields}
use task_buddy_backend.Game.Number.{Numbers, Raises, returns}
use task_buddy_backend.Game.Number.Leaves.{Leaves, after, leaf, branch}
use task_buddy_backend.Game.Rates.{GameRates}
use task_buddy_backend.Game.Profile.{Stat, GameProfile}
use task_buddy_backend.Game.Damage.{apply_hp_loss}
use task_buddy_backend.Game.Payload.{Outcome, stored}
use task_buddy_backend.Game.Reward.{
  award_both, apply_focus_phase, apply_speedrun_completed, apply_habit_click, positive_click,
  negative_click, apply_stopwatch_milestone,
}
use task_buddy_backend.Game.Event.{apply_damage, apply_daily_missed, apply_daily_check, apply_event}
use task_buddy_backend.Game.Event.Valid.{
  IsValid, award_xp-IsValid, award_gold-IsValid, take_loss-IsValid,
}

module _ {F : Type 0} (f : Numbers F) (p : GameProfile F) (payload : Fields) (r : GameRates F)
    (roll : F) (bonus : Stat → ℤ) (v : IsValid f r p) where
  Keeps : Raises (Outcome F × GameProfile F) → Type 0
  Keeps = Leaves λ x. IsValid f r (x.1)

  award_both-IsValid :
      (xp : ℤ) (gold : F) (today : ℕ)
      → Leaves (λ x. IsValid f r (x.2)) (award_both f p payload r roll bonus xp gold today)
  unfolding award_both
  award_both-IsValid xp gold today = after _ _ _ λ a e.
      leaf _ _
        (award_gold-IsValid f r (a.1) gold today (award_xp-IsValid f r p xp today (a.0) (a.1) v e))

  apply_focus_phase-IsValid : (today : ℕ) → Keeps (apply_focus_phase f p payload r roll bonus today)
  unfolding apply_focus_phase Keeps
  apply_focus_phase-IsValid today = after _ _ _ λ minutes _.
      after _ _ _ λ pay _.
        after _ _ _ λ a e. leaf _ _ (award_both-IsValid (pay.0) (f.of_int (pay.1)) today a e)

  apply_speedrun_completed-IsValid :
      (today : ℕ) → Keeps (apply_speedrun_completed f p payload r roll bonus today)
  unfolding apply_speedrun_completed Keeps
  apply_speedrun_completed-IsValid today = after _ _ _ λ minutes _. after _ _ _ λ pay _.
      after _ _ _
        λ xp _. after _ _ _ λ a e. leaf _ _ (award_both-IsValid xp (f.of_int (pay.1)) today a e)

  positive_click-IsValid :
      (value delta d : F) (today : ℕ)
      → Keeps (positive_click f p payload r roll bonus value delta d today)
  unfolding positive_click Keeps
  positive_click-IsValid value delta d today = after _ _ _ λ mult _. after _ _ _ λ xp _.
      after _ _ _
        λ gold _. after _ _ _ λ a e. leaf _ _ (award_both-IsValid xp (f.of_int gold) today a e)

  apply_hp_loss-IsValid :
      (amount : F) (draw : ℕ)
      → Leaves (λ x. IsValid f r (x.1)) (apply_hp_loss f p amount r draw bonus)
  unfolding apply_hp_loss
  apply_hp_loss-IsValid amount draw =
      after _ _ _ λ part _. after _ _ _ λ n _. leaf _ _ (take_loss-IsValid f r p _ draw v)

  negative_click-IsValid :
      (value delta d : F) (draw : ℕ)
      → Keeps (negative_click f p payload r roll bonus value delta d draw)
  unfolding negative_click Keeps
  negative_click-IsValid value delta d draw =
      after _ _ _ λ a e. leaf _ _ (apply_hp_loss-IsValid _ draw a e)

  apply_habit_click-IsValid :
      (draw today : ℕ) → Keeps (apply_habit_click f p payload r roll bonus draw today)
  unfolding apply_habit_click Keeps
  apply_habit_click-IsValid draw today = after _ _ _ λ way _. after _ _ _ λ raw _.
      after _ _ _ λ delta _. after _ _ _ λ d _.
        branch _ _ _ _ (negative_click-IsValid _ delta d draw)
          (positive_click-IsValid _ delta d today)

  apply_damage-IsValid : (draw : ℕ) → Keeps (apply_damage f p payload r roll bonus draw)
  unfolding apply_damage Keeps
  apply_damage-IsValid draw =
      after _ _ _ λ base _. after _ _ _ λ a e. leaf _ _ (apply_hp_loss-IsValid base draw a e)

  apply_daily_missed-IsValid : (draw : ℕ) → Keeps (apply_daily_missed f p payload r roll bonus draw)
  unfolding apply_daily_missed Keeps
  apply_daily_missed-IsValid draw =
      after _ _ _ λ base _. after _ _ _ λ a e. leaf _ _ (apply_hp_loss-IsValid base draw a e)

  apply_stopwatch_milestone-IsValid :
      (today : ℕ) → Keeps (apply_stopwatch_milestone f p payload r roll bonus today)
  unfolding apply_stopwatch_milestone Keeps
  apply_stopwatch_milestone-IsValid today = after _ _ _ λ n _. after _ _ _ λ mult _.
      after _ _ _
        λ xp _. after _ _ _ λ a e. leaf _ _ (award_xp-IsValid f r p xp today (a.0) (a.1) v e)

  apply_daily_check-IsValid : (today : ℕ) → Keeps (apply_daily_check f p payload r roll bonus today)
  unfolding apply_daily_check Keeps
  apply_daily_check-IsValid today = after _ _ _ λ asked _. after _ _ _ λ streak _.
      after _ _ _ λ share _. after _ _ _ λ paid_xp _. after _ _ _ λ paid_gold _.
        after _ _ _ λ bases _. after _ _ _ λ xp _.
          after _ _ _ λ gold _. after _ _ _ λ a e. leaf _ _ (award_both-IsValid xp gold today a e)

  -- Call a profile valid if its level is at least 1, its XP is below the next threshold, the XP of
  -- its day is within the cap, and neither its HP nor its maximal HP is 0 or less: if an event of
  -- any type with any payload returns, it leaves a valid profile valid.
  pub apply_event-IsValid :
      (event_type : String) (draw today : ℕ) (out : Outcome F) (q : GameProfile F)
      → apply_event f p payload r roll bonus event_type draw today ≡ returns (out, q)
      → IsValid f r q
  unfolding apply_event Keeps
  apply_event-IsValid event_type draw today out q =
      let is = str_eq event_type in
      let keeps : Keeps (apply_event f p payload r roll bonus event_type draw today) =
        branch _ (is "focus_phase_completed") _ _ (apply_focus_phase-IsValid today) (
          branch _ (is "habit_click") _ _ (apply_habit_click-IsValid draw today) (
            branch _ (is "damage") _ _ (apply_damage-IsValid draw) (
              branch _ (is "session_abandoned" || is "speedrun_failed") _ _
                (apply_damage-IsValid draw)
                (branch _ (is "stopwatch_milestone") _ _ (apply_stopwatch_milestone-IsValid today) (
                  branch _ (is "daily_check") _ _ (apply_daily_check-IsValid today) (
                    branch _ (is "daily_missed") _ _ (apply_daily_missed-IsValid draw) (
                      branch _ (is "speedrun_completed") _ _
                        (apply_speedrun_completed-IsValid today)
                        (branch _ (is "record_set") _ _ (leaf _ (stored true, p) v)
                          (leaf _ (stored false, p) v))))))))) in
      keeps (out, q)
