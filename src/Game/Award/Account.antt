-- ===== src/Game/Award/Account.antt =====
-- `award_xp` of app/game/engine.py against an account that only adds up the XP.
use mathlib.Core.Path.{subst}
use task_buddy_backend.Prelude.{ℕ, suc, ◌+◌, ◌≡◌, refl, arith, ℤ}
use task_buddy_backend.Game.Number.{Numbers, returns, >>=-returns, returns-injective}
use task_buddy_backend.Game.Rates.{GameRates}
use task_buddy_backend.Game.Profile.{GameProfile, xp_to_next_level}
use task_buddy_backend.Game.Award.{XpAward, award_xp, level_up, applied_xp, sync_today, add_xp}
use task_buddy_backend.Game.Award.Climb.{Climb, IsBelow, Climb-trans}
use task_buddy_backend.Game.Award.Day.{sync_today-SameTotals}
use task_buddy_backend.Game.Award.Levels.{IsLevelled, level_up-IsLevelled}

module _ {F : Type 0} (f : Numbers F) (r : GameRates F) where
  -- The levels and the XP that an award of `a` leaves.
  pub record IsAwarded (p : GameProfile F) (amount : ℤ) (today : ℕ) (a : XpAward)
      (q : GameProfile F) : Type 0 where
    pub applied : a.xp ≡ applied_xp f r (sync_today f p today).xp_today amount
    pub levelled : IsLevelled f r (add_xp f (sync_today f p today) a.xp) q a.levels_gained

  pub award_xp-IsAwarded :
      (p : GameProfile F) (amount : ℤ) (today : ℕ) (a : XpAward) (q : GameProfile F)
      → award_xp f p amount r today ≡ returns (a, q)
      → IsAwarded p amount today a q
  unfolding award_xp
  award_xp-IsAwarded p amount today a q h =
      let s = sync_today f p today in
      let n = applied_xp f r s.xp_today amount in
      let paid = add_xp f s n in
      let (out, e, g) = >>=-returns (level_up f (suc paid.xp) r paid 0) _ (a, q) h in
      let same = returns-injective _ (a, q) g in
      let (more, k, levelled) =
        level_up-IsLevelled f r (suc paid.xp) paid (out.0) 0 (out.1) (omega arith) e in
      let count : more ≡ out.1 = omega (arith, k) in
      subst (λ x. IsAwarded p amount today (x.0) (x.1)) same
        (record { applied = refl; levelled = subst (IsLevelled f r paid (out.0)) count levelled })

  -- The account: `total` is all the XP since level 1 that stands behind a level and its XP.
  pub record Represents (total level xp : ℕ) : Type 0 where
    pub spent : ℕ
    pub climb : Climb (xp_to_next_level f r) 1 level spent
    pub sum : spent + xp ≡ total
    pub below : IsBelow (xp_to_next_level f r) level xp

  -- An account adds up all XP since level 1, and a level with its XP stands for a total if the
  -- climb from level 1 costs the total less the XP and the XP is below the next threshold: if a
  -- profile stands for a total and an award returns, the profile it leaves stands for the total
  -- and the applied XP.
  pub award_xp-refines :
      (p : GameProfile F) (amount : ℤ) (today total : ℕ) (a : XpAward) (q : GameProfile F)
      → Represents total p.level p.xp
      → award_xp f p amount r today ≡ returns (a, q)
      → Represents (total + a.xp) q.level q.xp
  award_xp-refines p amount today total a q rep h =
      let done = award_xp-IsAwarded p amount today a q h in
      let lev = done.levelled in
      let start = sync_today-SameTotals f p today in
      let climb = rw start.level at lev.climb in
      record {
        spent = rep.spent + lev.cost;
        climb = Climb-trans (xp_to_next_level f r) rep.climb climb;
        sum = omega (arith, lev.paid, start.xp, rep.sum);
        below = lev.below;
      }
