-- ===== src/Game/Award/Day.antt =====
-- The rollover of the daily counters, `_sync_today` of app/game/engine.py.
use task_buddy_backend.Prelude.{ℕ, ◌≡◌, ◌⊎◌, refl, inl, inr, some, Bool-cases, true, false, arith}
use task_buddy_backend.Game.Number.{Numbers}
use task_buddy_backend.Game.Profile.{GameProfile}
use task_buddy_backend.Game.Award.{sync_today, is_day}

module _ {F : Type 0} (f : Numbers F) where
  -- The profile `s` has the totals of `p`.
  pub record SameTotals (p s : GameProfile F) : Type 0 where
    pub level : s.level ≡ p.level
    pub xp : s.xp ≡ p.xp
    pub hp : s.hp ≡ p.hp
    pub max_hp : s.max_hp ≡ p.max_hp
    pub gold : s.gold ≡ p.gold
    pub stats : s.stats ≡ p.stats
    pub points : s.unspent_stat_points ≡ p.unspent_stat_points

  pub sync_today-SameTotals : (p : GameProfile F) (today : ℕ) → SameTotals p (sync_today f p today)
  unfolding sync_today
  sync_today-SameTotals p today = elim (Bool-cases (is_day f p.totals_day today)) [
    | inl same ↦ rw same (record {
      level = refl;
      xp = refl;
      hp = refl;
      max_hp = refl;
      gold = refl;
      stats = refl;
      points = refl;
    })
    | inr other ↦ rw other (record {
      level = refl;
      xp = refl;
      hp = refl;
      max_hp = refl;
      gold = refl;
      stats = refl;
      points = refl;
    })
  ]

  -- The counters are those of the day, or start from zero.
  pub sync_today-counters :
      (p : GameProfile F) (today : ℕ)
      → let s = sync_today f p today in
        ((is_day f p.totals_day today ≡ true) × (s ≡ p))
        ⊎ ((is_day f p.totals_day today ≡ false) × (s.xp_today ≡ 0) × (s.totals_day ≡ some today))
  unfolding sync_today
  sync_today-counters p today = elim (Bool-cases (is_day f p.totals_day today)) [
    | inl same ↦ inl (same, rw same refl)
    | inr other ↦ inr (other, rw other refl, rw other refl)
  ]

  pub sync_today-same :
      (p : GameProfile F) (today : ℕ)
      → is_day f p.totals_day today ≡ true
      → sync_today f p today ≡ p
  unfolding sync_today
  sync_today-same p today same = rw same refl

  pub sync_today-is_day :
      (p : GameProfile F) (today : ℕ) → is_day f (sync_today f p today).totals_day today ≡ true
  unfolding sync_today
  sync_today-is_day p today = elim (Bool-cases (is_day f p.totals_day today)) [
    | inl same ↦ rw same same
    | inr other ↦ rw other (ground arith)
  ]
