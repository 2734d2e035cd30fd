-- ===== src/Game/Damage.antt =====
-- The loss of HP and the death cascade: `apply_hp_loss` and `_death` of app/game/engine.py.
pub mod Points
use task_buddy_backend.Prelude.{
  ℕ, zero, suc, ◌+◌, ◌-◌, Bool, true, false, Option, none, some, ℤ, pos, List, [], ◌∷◌, ltb, keep,
  if◌then◌else◌,
}
use task_buddy_backend.Game.Number.{
  Numbers, Raises, returns, value_error, arithmetic_error, ◌>>=◌, computed, max_of, nought,
  zero_point,
}
use task_buddy_backend.Game.Rates.{GameRates, con_shield_floor, con_shield_divisor}
use task_buddy_backend.Game.Profile.{
  Stat, str_stat, int_stat, con_stat, per_stat, same_stat, GameProfile, effective_stat,
}

abbrev pub all_stats : List Stat
all_stats = str_stat ∷ int_stat ∷ con_stat ∷ per_stat ∷ []

-- `picker.choice` of a list that starts with `s`: the draw is a position in it.
pub choice : ℕ → Stat → List Stat → Stat
choice draw s [] = s
choice zero s (t ∷ rest) = s
choice (suc draw) s (t ∷ rest) = choice draw t rest

abbrev pub take_point : Stat → (Stat → ℕ) → Stat → ℕ
take_point lost stats s = if same_stat lost s then stats s - 1 else stats s

abbrev pub take_lost : Option Stat → (Stat → ℕ) → Stat → ℕ
take_lost none stats = stats
take_lost (some lost) stats = take_point lost stats

abbrev pub lost_from : ℕ → List Stat → Option Stat
lost_from draw [] = none
lost_from draw (s ∷ rest) = some (choice draw s rest)

-- The stat that a death takes a point from.
unfoldable pub stat_lost_by : ℕ → (Stat → ℕ) → Option Stat
unfolding choice
stat_lost_by draw stats = lost_from draw (keep (λ s. ltb 0 (stats s)) all_stats)

-- What `apply_hp_loss` reports.
pub record HpLoss (F : Type 0) : Type 0 where
  pub hp_lost : F
  pub died : Bool
  pub stat_lost : Option Stat

module _ {F : Type 0} (f : Numbers F) where
  -- `_death`; `max(1, level - 1)` is 1 at level 1.
  unfoldable pub death : GameProfile F → ℕ → Option Stat × GameProfile F
  unfolding stat_lost_by
  death p draw =
      let lost = stat_lost_by draw p.stats in
      (
        lost,
        record {
          level = if ltb 2 p.level then p.level - 1 else 1;
          xp = 0;
          hp = p.max_hp;
          max_hp = p.max_hp;
          gold = zero_point f;
          stats = take_lost lost p.stats;
          unspent_stat_points = p.unspent_stat_points;
          xp_today = p.xp_today;
          gold_today = p.gold_today;
          totals_day = p.totals_day;
        },
      )

  abbrev pub shield : GameProfile F → GameRates F → (Stat → ℤ) → Raises F
  shield p r bonus =
      computed (f.div (f.of_int (effective_stat f p con_stat bonus)) (r.rate con_shield_divisor))
      >>= λ part. returns (max_of f (r.rate con_shield_floor) (f.sub (f.of_int (pos 1)) part))

  abbrev pub lose_hp : GameProfile F → F → GameProfile F
  lose_hp p loss = record {
    level = p.level;
    xp = p.xp;
    hp = f.sub p.hp loss;
    max_hp = p.max_hp;
    gold = p.gold;
    stats = p.stats;
    unspent_stat_points = p.unspent_stat_points;
    xp_today = p.xp_today;
    gold_today = p.gold_today;
    totals_day = p.totals_day;
  }

  -- The profile after `loss` HP, and the death that it may bring.
  unfoldable pub take_loss : GameProfile F → F → ℕ → HpLoss F × GameProfile F
  unfolding death
  take_loss p loss draw =
      let hurt = lose_hp p loss in
      let (lost, dead) = death hurt draw in
      if f.le hurt.hp (nought f)
      then (record { hp_lost = loss; died = true; stat_lost = lost }, dead)
      else (record { hp_lost = loss; died = false; stat_lost = none }, hurt)

  unfoldable pub apply_hp_loss :
      GameProfile F → F → GameRates F → ℕ → (Stat → ℤ) → Raises (HpLoss F × GameProfile F)
  unfolding take_loss
  apply_hp_loss p amount r draw bonus = shield p r bonus >>= λ part.
      computed (f.floor (f.mul amount part)) >>= λ n.
      returns (take_loss p (max_of f (f.literal 10 1) (f.to_float (f.of_int n))) draw)
