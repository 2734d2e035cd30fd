-- ===== src/Game/Award/Returns.antt =====
-- When `award_xp` of app/game/engine.py comes back.
use task_buddy_backend.Prelude.{ℕ, zero, suc, ◌+◌, ◌≡◌, refl, Bool-cases, inl, inr, leb, ℤ}
use task_buddy_backend.Game.Number.{Numbers, returns, ◌>>=◌}
use task_buddy_backend.Game.Number.Leaves.{Returns}
use task_buddy_backend.Game.Rates.{GameRates}
use task_buddy_backend.Game.Profile.{GameProfile, xp_to_next_level}
use task_buddy_backend.Game.Award.{
  XpAward, award_xp, level_up, gain_level, sync_today, add_xp, applied_xp,
}
use task_buddy_backend.Game.Award.Climb.{IsBelow}
use task_buddy_backend.Game.Award.Account.{award_xp-IsAwarded}

module _ {F : Type 0} (f : Numbers F) (r : GameRates F)
    (curve : (level : ℕ) → Returns (xp_to_next_level f r level)) where
  level_up-Returns :
      (fuel : ℕ) (p : GameProfile F) (gained : ℕ) → Returns (level_up f fuel r p gained)
  unfolding level_up ◌>>=◌
  level_up-Returns zero p gained = ((p, gained), refl)
  level_up-Returns (suc fuel) p gained =
      let (t, e) = curve p.level in
      elim (Bool-cases (leb t p.xp)) [
        | inl enough ↦
            let (out, g) = level_up-Returns fuel (gain_level f p t) (gained + 1) in
            (out, rw (level_up, e, ◌>>=◌, enough) g)
        | inr short ↦ ((p, gained), rw (level_up, e, ◌>>=◌, short) refl)
      ]

  -- If the level curve has a threshold at every level, an award of any amount to any profile
  -- returns, and leaves the XP below the threshold of the level that it leaves: fuel of one more
  -- than the XP is enough.
  pub award_xp-Returns :
      (p : GameProfile F) (amount : ℤ) (today : ℕ)
      → (a : XpAward) × (q : GameProfile F) × (award_xp f p amount r today ≡ returns (a, q))
        × IsBelow (xp_to_next_level f r) q.level q.xp
  unfolding award_xp ◌>>=◌
  award_xp-Returns p amount today =
      let s = sync_today f p today in
      let n = applied_xp f r s.xp_today amount in
      let paid = add_xp f s n in
      let ((q, gained), e) = level_up-Returns (suc paid.xp) paid 0 in
      let a : XpAward = record { xp = n; levels_gained = gained } in
      let done : award_xp f p amount r today ≡ returns (a, q) = rw (award_xp, e, ◌>>=◌) refl in
      (a, q, done, (award_xp-IsAwarded f r p amount today a q done).levelled.below)
