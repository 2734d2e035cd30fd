-- ===== src/Game/Profile/Curve.antt =====
-- The level curve of app/game/engine.py.
use task_buddy_backend.Prelude.{ℕ, ◌≤◌, ◌≡◌, ℤ, pos, Bool-cases, inl, inr, arith, ltb, ◌==◌}
use task_buddy_backend.Game.Number.{
  Numbers, Raises, returns, computed, ◌>>=◌, >>=-returns, returns-injective,
}
use task_buddy_backend.Game.Rates.{GameRates, lvl_curve_early, lvl_curve_lvl5, lvl_curve_round}
use task_buddy_backend.Game.Profile.{xp_to_next_level, at_least_one, quadratic, times}

at_least_one-positive : (n : ℤ) → 1 ≤ at_least_one n
at_least_one-positive n = ground arith

floored : (m : Raises ℤ) (t : ℕ) → (m >>= λ n. returns (at_least_one n)) ≡ returns t → 1 ≤ t
floored m t h =
    let (n, e, g) = >>=-returns m (λ n. returns (at_least_one n)) t h in
    rw (← returns-injective (at_least_one n) t g) (at_least_one-positive n)

module _ {F : Type 0} (f : Numbers F) where
  -- No level asks for fewer than one XP, whatever the rates.
  pub xp_to_next_level-positive :
      (r : GameRates F) (level t : ℕ) → xp_to_next_level f r level ≡ returns t → 1 ≤ t
  unfolding xp_to_next_level
  xp_to_next_level-positive r level t h =
      let n = f.of_int (pos level) in
      elim (Bool-cases (ltb level 5)) [
        | inl low ↦ floored (computed (f.trunc (f.mul (r.rate lvl_curve_early) n))) t (rw low at h)
        | inr high ↦ elim (Bool-cases (level == 5)) [
          | inl five ↦ floored (computed (f.trunc (r.rate lvl_curve_lvl5))) t (rw (high, five) at h)
          | inr above ↦
              let (q, e1, h1) =
                >>=-returns (computed (f.div (quadratic f r n) (r.rate lvl_curve_round))) _ t
                  (rw (high, above) at h) in
              let (buckets, e2, h2) = >>=-returns (computed (f.round q)) _ t h1 in
              let (size, e3, h3) =
                >>=-returns (computed (f.trunc (r.rate lvl_curve_round))) _ t h2 in
              rw (← returns-injective _ t h3) (at_least_one-positive (times buckets size))
        ]
      ]
