-- ===== src/Game/Award/Levels.antt =====
-- The loop of `award_xp` in app/game/engine.py.
use task_buddy_backend.Prelude.{
  ℕ, zero, suc, ◌+◌, ◌≤◌, ◌<◌, ◌≡◌, refl, sym, ap, ◌∙◌, false, arith, Bool-cases, inl, inr, ◌⊎◌,
  leb,
}
use task_buddy_backend.Game.Number.{Numbers, returns, >>=-returns, returns-injective}
use task_buddy_backend.Game.Rates.{GameRates}
use task_buddy_backend.Game.Profile.{GameProfile, xp_to_next_level}
use task_buddy_backend.Game.Profile.Curve.{xp_to_next_level-positive}
use task_buddy_backend.Game.Award.{level_up, gain_level}
use task_buddy_backend.Game.Award.Climb.{Climb, stay, rise, IsBelow}

module _ {F : Type 0} (f : Numbers F) (r : GameRates F) where
  -- What the loop has done once it returns `q` and `gained` from `p`.
  pub record IsLevelled (p q : GameProfile F) (more : ℕ) : Type 0 where
    pub cost : ℕ
    pub climb : Climb (xp_to_next_level f r) p.level q.level cost
    pub paid : cost + q.xp ≡ p.xp
    pub below : IsBelow (xp_to_next_level f r) q.level q.xp
    pub levels : q.level ≡ p.level + more
    pub points : q.unspent_stat_points ≡ p.unspent_stat_points + more
    pub refill : ((more ≡ 0) × (q.hp ≡ p.hp)) ⊎ ((1 ≤ more) × (q.hp ≡ p.max_hp))
    pub max_hp : q.max_hp ≡ p.max_hp
    pub gold : q.gold ≡ p.gold
    pub stats : q.stats ≡ p.stats
    pub xp_today : q.xp_today ≡ p.xp_today
    pub totals_day : q.totals_day ≡ p.totals_day
    pub gold_today : q.gold_today ≡ p.gold_today

  settled :
      (p : GameProfile F) (t : ℕ)
      → xp_to_next_level f r p.level ≡ returns t
      → leb t p.xp ≡ false
      → IsLevelled p p 0
  settled p t e short = record {
    cost = 0;
    climb = stay;
    paid = omega arith;
    below = λ s k. let same = returns-injective t s (sym e ∙ k) in ground arith;
    levels = omega arith;
    points = omega arith;
    refill = inl (refl, refl);
    max_hp = refl;
    gold = refl;
    stats = refl;
    xp_today = refl;
    totals_day = refl;
    gold_today = refl;
  }

  pub level_up-IsLevelled :
      (fuel : ℕ) (p q : GameProfile F) (before after : ℕ)
      → p.xp < fuel
      → level_up f fuel r p before ≡ returns (q, after)
      → (more : ℕ) × (after ≡ before + more) × IsLevelled p q more
  unfolding level_up
  level_up-IsLevelled zero p q before after small h = ground arith
  level_up-IsLevelled (suc fuel) p q before after small h =
      let (t, e, g) = >>=-returns (xp_to_next_level f r p.level) _ (q, after) h in
      elim (Bool-cases (leb t p.xp)) [
        | inl enough ↦
            let pays = xp_to_next_level-positive f r p.level t e in
            let (more, same, rest) =
              level_up-IsLevelled fuel (gain_level f p t) q (before + 1) after (ground arith)
                (rw enough at g) in
            (
              suc more,
              omega arith,
              record {
                cost = t + rest.cost;
                climb = rise e rest.climb;
                paid = ground (arith, rest.paid);
                below = rest.below;
                levels = omega (arith, rest.levels);
                points = omega (arith, rest.points);
                refill = inr (omega arith, elim rest.refill [ inl k ↦ k.1 | inr k ↦ k.1 ]);
                max_hp = rest.max_hp;
                gold = rest.gold;
                stats = rest.stats;
                xp_today = rest.xp_today;
                totals_day = rest.totals_day;
                gold_today = rest.gold_today;
              },
            )
        | inr short ↦
            let same = returns-injective (p, before) (q, after) (rw short at g) in
            rw (← ap (λ x. x.0) same) (0, omega (arith, ap (λ x. x.1) same), settled p t e short)
      ]
