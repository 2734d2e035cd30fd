-- ===== src/Game/Award.antt =====
-- XP and gold under the daily caps: `_sync_today`, `award_xp` and `award_gold` of app/game/engine.py.
pub mod Climb
pub mod Day
pub mod Levels
pub mod Account
pub mod Split
pub mod Returns
use task_buddy_backend.Prelude.{
  ℕ, zero, suc, ◌+◌, ◌-◌, Bool, true, false, Option, none, some, ℤ, pos, ◌-ℤ◌, pos_part, min_ℤ, leb,
  ◌==◌, if◌then◌else◌,
}
use task_buddy_backend.Game.Number.{
  Numbers, Raises, returns, value_error, arithmetic_error, ◌>>=◌, min_of, max_of, zero_point,
}
use task_buddy_backend.Game.Rates.{GameRates, daily_gold_cap}
use task_buddy_backend.Game.Profile.{GameProfile, xp_to_next_level}

-- What `award_xp` reports: the XP that was applied and the levels gained.
pub record XpAward : Type 0 where
  pub xp : ℕ
  pub levels_gained : ℕ

module _ {F : Type 0} (f : Numbers F) where
  abbrev pub is_day : Option ℕ → ℕ → Bool
  is_day none today = false
  is_day (some d) today = d == today

  -- `_sync_today`
  unfoldable pub sync_today : GameProfile F → ℕ → GameProfile F
  sync_today p today = if is_day p.totals_day today then p else record {
    level = p.level;
    xp = p.xp;
    hp = p.hp;
    max_hp = p.max_hp;
    gold = p.gold;
    stats = p.stats;
    unspent_stat_points = p.unspent_stat_points;
    xp_today = 0;
    gold_today = zero_point f;
    totals_day = some today;
  }

  -- One round of the loop of `award_xp` that pays `t` XP for the next level.
  abbrev pub gain_level : GameProfile F → ℕ → GameProfile F
  gain_level p t = record {
    level = p.level + 1;
    xp = p.xp - t;
    hp = p.max_hp;
    max_hp = p.max_hp;
    gold = p.gold;
    stats = p.stats;
    unspent_stat_points = p.unspent_stat_points + 1;
    xp_today = p.xp_today;
    gold_today = p.gold_today;
    totals_day = p.totals_day;
  }

  -- The `while` loop of `award_xp` on fuel, with `levels_gained`.
  pub level_up : ℕ → GameRates F → GameProfile F → ℕ → Raises (GameProfile F × ℕ)
  level_up zero r p gained = returns (p, gained)
  level_up (suc fuel) r p gained = xp_to_next_level f r p.level >>= λ t. elim (leb t p.xp) [
    | true ↦ level_up fuel r (gain_level p t) (gained + 1)
    | false ↦ returns (p, gained)
  ]

  -- `max(0, min(amount, rates.daily_xp_cap - profile.xp_today))`
  unfoldable pub applied_xp : GameRates F → ℕ → ℤ → ℕ
  applied_xp r xp_today amount = pos_part (min_ℤ amount (r.daily_xp_cap -ℤ pos xp_today))

  abbrev pub add_xp : GameProfile F → ℕ → GameProfile F
  add_xp p n = record {
    level = p.level;
    xp = p.xp + n;
    hp = p.hp;
    max_hp = p.max_hp;
    gold = p.gold;
    stats = p.stats;
    unspent_stat_points = p.unspent_stat_points;
    xp_today = p.xp_today + n;
    gold_today = p.gold_today;
    totals_day = p.totals_day;
  }

  unfoldable pub award_xp : GameProfile F → ℤ → GameRates F → ℕ → Raises (XpAward × GameProfile F)
  unfolding sync_today level_up applied_xp
  award_xp p amount r today =
      let q = sync_today p today in
      let applied = applied_xp r q.xp_today amount in
      let paid = add_xp q applied in
      level_up (suc paid.xp) r paid 0 >>= λ out.
      returns (record { xp = applied; levels_gained = out.1 }, out.0)

  -- `max(0.0, min(amount, rates.daily_gold_cap - profile.gold_today))`
  abbrev pub applied_gold : GameRates F → F → F → F
  applied_gold r gold_today amount =
      max_of f (zero_point f) (min_of f amount (f.sub (r.rate daily_gold_cap) gold_today))

  unfoldable pub award_gold : GameProfile F → F → GameRates F → ℕ → F × GameProfile F
  unfolding sync_today
  award_gold p amount r today =
      let q = sync_today p today in
      let applied = applied_gold r q.gold_today amount in
      (
        applied,
        record {
          level = q.level;
          xp = q.xp;
          hp = q.hp;
          max_hp = q.max_hp;
          gold = f.add q.gold applied;
          stats = q.stats;
          unspent_stat_points = q.unspent_stat_points;
          xp_today = q.xp_today;
          gold_today = f.add q.gold_today applied;
          totals_day = q.totals_day;
        },
      )
