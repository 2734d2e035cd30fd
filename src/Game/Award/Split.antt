-- ===== src/Game/Award/Split.antt =====
-- Awards of `award_xp` in app/game/engine.py on one day, and their daily cap.
use task_buddy_backend.Prelude.{
  ℕ, ◌+◌, ◌≤◌, ◌≡◌, ap, ◌∙◌, arith, ℤ, pos, ◌-ℤ◌, min_ℤ, pos_part, true, ◌-◌, ◌⊎◌, ltb,
  if◌then◌else◌, negsuc,
}
use task_buddy_backend.Game.Number.{Numbers, returns}
use task_buddy_backend.Game.Rates.{GameRates}
use task_buddy_backend.Game.Profile.{GameProfile, xp_to_next_level}
use task_buddy_backend.Game.Award.{XpAward, award_xp, applied_xp, sync_today, is_day}
use task_buddy_backend.Game.Award.Climb.{Climb-unique, Climb-trans}
use task_buddy_backend.Game.Award.Day.{sync_today-same, sync_today-is_day}
use task_buddy_backend.Game.Award.Account.{award_xp-IsAwarded}

abbrev least : ℕ → ℕ → ℕ
least a b = if ltb b a then b else a

capped :
    (c amount : ℤ) (b : ℕ)
    → pos_part (min_ℤ amount (c -ℤ pos b)) ≡ least (pos_part amount) (pos_part c - b)
unfolding ◌-ℤ◌
capped (pos c) (pos a) b = ground arith
capped (pos c) (negsuc a) b = ground arith
capped (negsuc c) (pos a) b = ground arith
capped (negsuc c) (negsuc a) b = ground arith

module _ {F : Type 0} (f : Numbers F) (r : GameRates F) where
  applied_xp-least :
      (before : ℕ) (amount : ℤ)
      → applied_xp f r before amount ≡ least (pos_part amount) (pos_part r.daily_xp_cap - before)
  unfolding applied_xp
  applied_xp-least before amount = capped r.daily_xp_cap amount before

  -- What the day has counted is within the cap, or was not raised.
  pub applied_xp-within :
      (before : ℕ) (amount : ℤ)
      → (applied_xp f r before amount ≡ 0)
        ⊎ (before + applied_xp f r before amount ≤ pos_part r.daily_xp_cap)
  applied_xp-within before amount = ground (arith, applied_xp-least before amount)

  -- If two awards of m and n XP on one day and an award of m + n XP to the same profile on that
  -- day all return, the applied amounts of the two sum to that of the one, and both ways leave the
  -- same level, XP and XP counted for the day, the daily cap included.
  pub award_xp-add :
      (p : GameProfile F) (m n today : ℕ) (a b c : XpAward) (p1 p2 q : GameProfile F)
      → award_xp f p (pos m) r today ≡ returns (a, p1)
      → award_xp f p1 (pos n) r today ≡ returns (b, p2)
      → award_xp f p (pos (m + n)) r today ≡ returns (c, q)
      → (a.xp + b.xp ≡ c.xp) × (p2.level ≡ q.level) × (p2.xp ≡ q.xp) × (p2.xp_today ≡ q.xp_today)
  award_xp-add p m n today a b c p1 p2 q h1 h2 h3 =
      let w1 = award_xp-IsAwarded f r p (pos m) today a p1 h1 in
      let w2 = award_xp-IsAwarded f r p1 (pos n) today b p2 h2 in
      let w3 = award_xp-IsAwarded f r p (pos (m + n)) today c q h3 in
      let s = sync_today f p today in
      let l1 = w1.levelled in
      let l2 = w2.levelled in
      let l3 = w3.levelled in
      let is_today : is_day f p1.totals_day today ≡ true =
        ap (λ d. is_day f d today) l1.totals_day ∙ sync_today-is_day f p today in
      let still = sync_today-same f p1 today is_today in
      let cap = pos_part r.daily_xp_cap in
      let count : p1.xp_today ≡ s.xp_today + a.xp = l1.xp_today in
      let e1 : a.xp ≡ least m (cap - s.xp_today) = w1.applied ∙ applied_xp-least _ _ in
      let e2 : b.xp ≡ least n (cap - p1.xp_today) =
        w2.applied ∙ applied_xp-least _ _ ∙ ap (λ x. least n (cap - x.xp_today)) still in
      let e3 : c.xp ≡ least (m + n) (cap - s.xp_today) = w3.applied ∙ applied_xp-least _ _ in
      let sum : a.xp + b.xp ≡ c.xp = ground (arith, count, e1, e2, e3) in
      let same_level = ap (λ x. x.level) still in
      let climb2 = rw same_level at l2.climb in
      let climb = Climb-trans (xp_to_next_level f r) l1.climb climb2 in
      let paid = l2.paid ∙ ap (λ x. x.xp + b.xp) still in
      let (levels, rest) =
        Climb-unique (xp_to_next_level f r) climb l3.climb
          (omega (arith, l1.paid, paid, l3.paid, sum)) l2.below l3.below in
      let today2 = l2.xp_today ∙ ap (λ x. x.xp_today + b.xp) still in
      (sum, levels, rest, omega (arith, today2, count, l3.xp_today, sum))
