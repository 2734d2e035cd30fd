-- ===== src/Game/Event/Valid.antt =====
-- The profile through the events of app/game/engine.py.
use task_buddy_backend.Prelude.{ℕ, ◌≤◌, ◌≡◌, arith, ℤ, pos_part, Bool-cases, false, inl, inr}
use task_buddy_backend.Game.Number.{Numbers, returns, nought}
use task_buddy_backend.Game.Rates.{GameRates}
use task_buddy_backend.Game.Profile.{GameProfile, xp_to_next_level}
use task_buddy_backend.Game.Profile.Curve.{xp_to_next_level-positive}
use task_buddy_backend.Game.Award.{XpAward, award_xp, award_gold, sync_today}
use task_buddy_backend.Game.Award.Climb.{IsBelow}
use task_buddy_backend.Game.Award.Day.{sync_today-SameTotals, sync_today-counters}
use task_buddy_backend.Game.Award.Account.{award_xp-IsAwarded}
use task_buddy_backend.Game.Award.Split.{applied_xp-within}
use task_buddy_backend.Game.Damage.{take_loss, lose_hp, death}

module _ {F : Type 0} (f : Numbers F) (r : GameRates F) where
  pub record IsValid (p : GameProfile F) : Type 0 where
    pub level : 1 ≤ p.level
    pub below : IsBelow (xp_to_next_level f r) p.level p.xp
    pub counted : p.xp_today ≤ pos_part r.daily_xp_cap
    pub alive : f.le p.hp (nought f) ≡ false
    pub healthy : f.le p.max_hp (nought f) ≡ false

  sync_today-IsValid : (p : GameProfile F) (today : ℕ) → IsValid p → IsValid (sync_today f p today)
  unfolding sync_today
  sync_today-IsValid p today v =
      let s = sync_today-SameTotals f p today in
      record {
        level = rw s.level v.level;
        below = rw (s.level, s.xp) v.below;
        counted = elim (sync_today-counters f p today) [
          | inl same ↦ rw (same.1) v.counted
          | inr other ↦ omega (arith, other.1)
        ];
        alive = rw s.hp v.alive;
        healthy = rw s.max_hp v.healthy;
      }

  pub award_xp-IsValid :
      (p : GameProfile F) (amount : ℤ) (today : ℕ) (a : XpAward) (q : GameProfile F)
      → IsValid p
      → award_xp f p amount r today ≡ returns (a, q)
      → IsValid q
  award_xp-IsValid p amount today a q v h =
      let w = award_xp-IsAwarded f r p amount today a q h in
      let s = sync_today f p today in
      let valid = sync_today-IsValid p today v in
      let lev = w.levelled in
      record {
        level = omega (arith, lev.levels, valid.level);
        below = lev.below;
        counted = elim (applied_xp-within f r s.xp_today amount) [
          | inl none_left ↦ omega (arith, lev.xp_today, w.applied, none_left, valid.counted)
          | inr within ↦ omega (arith, lev.xp_today, w.applied, within)
        ];
        alive = elim lev.refill [ inl k ↦ rw (k.1) valid.alive | inr k ↦ rw (k.1) valid.healthy ];
        healthy = rw lev.max_hp valid.healthy;
      }

  pub award_gold-IsValid :
      (p : GameProfile F) (amount : F) (today : ℕ)
      → IsValid p
      → IsValid ((award_gold f p amount r today).1)
  unfolding award_gold
  award_gold-IsValid p amount today v =
      let valid = sync_today-IsValid p today v in
      record {
        level = valid.level;
        below = valid.below;
        counted = valid.counted;
        alive = valid.alive;
        healthy = valid.healthy;
      }

  death-IsValid :
      (p : GameProfile F) (draw : ℕ)
      → p.xp_today ≤ pos_part r.daily_xp_cap
      → f.le p.max_hp (nought f) ≡ false
      → IsValid ((death f p draw).1)
  unfolding death
  death-IsValid p draw counted healthy = record {
    level = ground arith;
    below = λ t e. xp_to_next_level-positive f r _ t e;
    counted = counted;
    alive = healthy;
    healthy = healthy;
  }

  pub take_loss-IsValid :
      (p : GameProfile F) (loss : F) (draw : ℕ) → IsValid p → IsValid ((take_loss f p loss draw).1)
  unfolding take_loss
  take_loss-IsValid p loss draw v =
      let hurt = lose_hp f p loss in
      elim (Bool-cases (f.le hurt.hp (nought f))) [
        | inl dies ↦ rw dies (death-IsValid hurt draw v.counted v.healthy)
        | inr lives ↦ rw lives (record {
          level = v.level;
          below = v.below;
          counted = v.counted;
          alive = lives;
          healthy = v.healthy;
        })
      ]
