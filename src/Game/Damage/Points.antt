-- ===== src/Game/Damage/Points.antt =====
-- The stat points that a death takes, in app/game/engine.py.
use task_buddy_backend.Prelude.{
  ℕ, zero, suc, ◌+◌, ◌-◌, ◌≤◌, ◌≡◌, ◌⊎◌, refl, ap, ◌∙◌, arith, Bool-cases, inl, inr, List, [], ◌∷◌,
  ltb, keep, if◌then◌else◌,
}
use task_buddy_backend.Game.Number.{Numbers, nought}
use task_buddy_backend.Game.Profile.{Stat, str_stat, int_stat, con_stat, per_stat, GameProfile}
use task_buddy_backend.Game.Damage.{
  take_loss, lose_hp, death, stat_lost_by, lost_from, choice, take_lost, take_point, all_stats,
}

-- All the allocated points.
abbrev pub points : (Stat → ℕ) → ℕ
points stats = stats str_stat + stats int_stat + stats con_stat + stats per_stat

AllHold : (Stat → ℕ) → List Stat → Type 0
AllHold stats [] = Unit
AllHold stats (s ∷ rest) = (1 ≤ stats s) × AllHold stats rest

keep-AllHold : (stats : Stat → ℕ) (xs : List Stat) → AllHold stats (keep (λ s. ltb 0 (stats s)) xs)
unfolding AllHold
keep-AllHold stats [] = tt
keep-AllHold stats (s ∷ xs) = elim (Bool-cases (ltb 0 (stats s))) [
  | inl has ↦ rw has (ground arith, keep-AllHold stats xs)
  | inr empty ↦ rw empty (keep-AllHold stats xs)
]

choice-holds :
    (draw : ℕ) (stats : Stat → ℕ) (s : Stat) (rest : List Stat)
    → 1 ≤ stats s
    → AllHold stats rest
    → 1 ≤ stats (choice draw s rest)
unfolding choice AllHold
choice-holds draw stats s [] h all = h
choice-holds zero stats s (t ∷ rest) h all = h
choice-holds (suc draw) stats s (t ∷ rest) h all = choice-holds draw stats t rest (all.0) (all.1)

take_point-points :
    (stats : Stat → ℕ) (s : Stat) → 1 ≤ stats s → points (take_point s stats) + 1 ≡ points stats
take_point-points stats str_stat h = omega (arith, h)
take_point-points stats int_stat h = omega (arith, h)
take_point-points stats con_stat h = omega (arith, h)
take_point-points stats per_stat h = omega (arith, h)

keep-none : (stats : Stat → ℕ) → keep (λ s. ltb 0 (stats s)) all_stats ≡ [] → points stats ≡ 0
keep-none stats h = ground arith

List-cases {ℓ} : {A : Type ℓ} (xs : List A) → (xs ≡ []) ⊎ ((y : A) × (ys : List A) × (xs ≡ y ∷ ys))
List-cases [] = inl refl
List-cases (y ∷ ys) = inr (y, ys, refl)

-- A death takes one allocated point, where there is one to take.
stat_lost_by-points :
    (draw : ℕ) (stats : Stat → ℕ)
    → points (take_lost (stat_lost_by draw stats) stats) ≡ points stats - 1
unfolding stat_lost_by AllHold
stat_lost_by-points draw stats =
    let left : List Stat → ℕ = λ xs. points (take_lost (lost_from draw xs) stats) in
    elim (List-cases (keep (λ s. ltb 0 (stats s)) all_stats)) [
      | inl empty ↦ ap left empty ∙ omega (arith, keep-none stats empty)
      | inr found ↦
          let (s, rest, e) = found in
          let kept = keep-AllHold stats all_stats in
          let all = rw e at kept in
          let h = choice-holds draw stats s rest (all.0) (all.1) in
          ap left e ∙ omega (arith, take_point-points stats (choice draw s rest) h)
    ]

module _ {F : Type 0} (f : Numbers F) where
  -- A loss of HP that kills takes one allocated stat point if there is one, and a loss that does
  -- not kill takes none.
  pub take_loss-points :
      (p : GameProfile F) (loss : F) (draw : ℕ)
      → let (a, q) = take_loss f p loss draw in
        points q.stats ≡ (if a.died then points p.stats - 1 else points p.stats)
  unfolding take_loss death
  take_loss-points p loss draw =
      let hurt = lose_hp f p loss in
      elim (Bool-cases (f.le hurt.hp (nought f))) [
        | inl dies ↦ rw dies (stat_lost_by-points draw p.stats)
        | inr lives ↦ rw lives refl
      ]
