-- ===== src/Game/Event/Check.antt =====
-- The XP of a daily check in app/game/engine.py, against what the day has paid.
use Prim.Native.Nat.{◌^◌}
use mathlib.Core.Option.{some-injective}
use task_buddy_backend.Prelude.{
  refl, ℕ, ◌-◌, ◌≤◌, ◌≡◌, sym, ap, ◌∙◌, arith, Bool-cases, inl, inr, some, ℤ, pos, ◌≤ℤ◌, ltb, ltb_ℤ,
}
use task_buddy_backend.Json.{Fields}
use task_buddy_backend.Game.Number.{
  Numbers, returns, >>=-returns, returns-injective, min_of, max_of, zero_point, round_half_up,
}
use task_buddy_backend.Game.Number.Leaves.{computed-returns}
use task_buddy_backend.Game.Number.Laws.{IsExact}
use task_buddy_backend.Game.Rates.{GameRates}
use task_buddy_backend.Game.Profile.{Stat, GameProfile}
use task_buddy_backend.Game.Event.{check_xp}

module _ {F : Type 0} (f : Numbers F) (laws : IsExact f) where
  max-exact :
      (n : ℕ)
      → n ≤ 2 ^ 53
      → max_of f (zero_point f) (f.to_float (f.of_int (pos n))) ≡ f.to_float (f.of_int (pos n))
  max-exact n h = elim (Bool-cases (ltb 0 n)) [
    | inl some_left ↦
        let e = laws.lt_exact 0 n (omega arith) h ∙ some_left in rw (laws.zero_exact, e) refl
    | inr none_left ↦
        let e = laws.lt_exact 0 n (omega arith) h ∙ none_left in
        let z : n ≡ 0 = ground arith in
        rw (laws.zero_exact, e) (ap (λ m. f.to_float (f.of_int (pos m))) (sym z))
  ]

  trunc-min :
      (k : ℤ) (n : ℕ) (x : ℤ)
      → n ≤ 2 ^ 53
      → f.trunc (min_of f (f.of_int k) (f.to_float (f.of_int (pos n)))) ≡ some x
      → x ≤ℤ pos n
  trunc-min k n x small h = elim (Bool-cases (ltb_ℤ (pos n) k)) [
    | inl less ↦
        let taken = laws.lt_int n k small ∙ less in
        let e = some-injective _ _ (sym (laws.trunc_exact n small) ∙ (rw taken at h)) in
        rw (← e) (omega arith)
    | inr most ↦
        let taken = laws.lt_int n k small ∙ most in
        let e = some-injective _ _ (sym (laws.trunc_int k) ∙ (rw taken at h)) in
        rw (← e) (ground (arith, most))
  ]

  -- With numbers that are exact on whole numbers up to 2^53: if a whole daily check rounds to at
  -- most 2^53 XP under a roll and at most that much was paid, the XP of a check of any share is at
  -- most the whole less what was paid.
  pub check_xp-within :
      (p : GameProfile F) (payload : Fields) (r : GameRates F) (roll : F) (bonus : Stat → ℤ)
      (base share : F) (whole paid : ℕ) (xp : ℤ)
      → round_half_up f base ≡ returns (pos whole)
      → whole ≤ 2 ^ 53
      → paid ≤ whole
      → check_xp f p payload r roll bonus base share (f.to_float (f.of_int (pos paid))) ≡ returns xp
      → xp ≤ℤ pos (whole - paid)
  unfolding check_xp
  check_xp-within p payload r roll bonus base share whole paid xp all small part h =
      let (n, e, g) = >>=-returns (round_half_up f base) _ xp h in
      let (k, _, t) = >>=-returns (round_half_up f (f.mul base share)) _ xp g in
      let same = returns-injective (pos whole) n (sym all ∙ e) in
      let taken = computed-returns _ xp t in
      let fits : whole - paid ≤ 2 ^ 53 = omega (arith, small) in
      let exact = laws.sub_exact whole paid part small in
      let above = max-exact (whole - paid) fits in
      let left = rw (← same, exact, above) at taken in trunc-min k (whole - paid) xp fits left
