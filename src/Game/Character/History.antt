-- ===== src/Game/Character/History.antt =====
-- Every history of a character sheet in app/game/character_service.py, between two events that score.
use task_buddy_backend.Prelude.{
  ℕ, ◌+◌, ◌≡◌, ◌≢◌, refl, ◌∙◌, arith, Bool, true, false, none, some, String, is_some, ok,
}
use mathlib.Core.Path.{subst}
use task_buddy_backend.Json.{Json}
use task_buddy_backend.Game.Number.{Numbers}
use task_buddy_backend.Game.Rates.{GameRates, respec_gold_cost}
use task_buddy_backend.Game.Character.{
  Pool, ClassPick, allocated, allocate_points, distribute_unspent, select_class, respec,
  none_allocated,
}
use task_buddy_backend.Game.Character.Points.{
  all_points, IsCapped, allocate_points-Keeps, distribute_unspent_exact, passed, ok_eq,
}

false_not_true : false ≢ true
false_not_true = cc

-- What the operations on a sheet read and write.
pub record Sheet (F : Type 0) : Type 0 where
  pub level : ℕ
  pub gold : F
  pub pool : Pool
  pub pick : ClassPick

module _ {F : Type 0} (f : Numbers F) (r : GameRates F) where
  abbrev pub with_pool : Sheet F → Pool → Sheet F
  with_pool s q = record { level = s.level; gold = s.gold; pool = q; pick = s.pick }

  abbrev pub with_pick : Sheet F → ClassPick → Sheet F
  with_pick s c = record { level = s.level; gold = s.gold; pool = s.pool; pick = c }

  -- One operation that returned.
  pub data Change (s : Sheet F) : Sheet F → Type 0 where
    spent :
        (points : Json) (q : Pool) → allocate_points points s.pool ≡ ok q → Change s (with_pool s q)
    distributed : Change s (with_pool s ((distribute_unspent s.pick.game_class s.pool).0))
    picked :
        (klass : String) (c : ClassPick)
        → select_class klass s.level s.pick ≡ ok c
        → Change s (with_pick s c)
    respecced :
        (cost gold : F) (q : Pool) (c : ClassPick)
        → respec f r s.gold s.pool s.pick ≡ ok (cost, gold, q, c)
        → Change s (record { level = s.level; gold = gold; pool = q; pick = c })

  pub data Changes (first : Sheet F) : Sheet F → Type 0 where
    begin : Changes first first
    change : {s after : Sheet F} → Changes first s → Change s after → Changes first after

  -- A class that is set has been unlocked.
  abbrev pub IsUnlocked : ClassPick → Type 0
  IsUnlocked c = is_some c.game_class ≡ true → c.class_unlocked ≡ true

  pub record IsKept (a b : Sheet F) : Type 0 where
    pub points : all_points b.pool ≡ all_points a.pool
    pub capped : IsCapped a.pool → IsCapped b.pool
    pub unlocked : IsUnlocked a.pick → IsUnlocked b.pick
    pub sticky : a.pick.class_unlocked ≡ true → b.pick.class_unlocked ≡ true

  select_class-IsKept :
      (s : Sheet F) (klass : String) (c : ClassPick)
      → select_class klass s.level s.pick ≡ ok c
      → IsKept s (with_pick s c)
  unfolding select_class
  select_class-IsKept s klass c h =
      let (_, free) = passed _ _ _ c h in
      let (_, gated) = passed (is_some s.pick.game_class) _ _ c free in
      let (_, final) = passed _ _ _ c gated in
      subst (λ x. IsKept s (with_pick s x)) (ok_eq _ c final)
        (record { points = refl; capped = λ k. k; unlocked = λ k e. refl; sticky = λ k. refl })

  respec-IsKept :
      (s : Sheet F) (cost gold : F) (q : Pool) (c : ClassPick)
      → respec f r s.gold s.pool s.pick ≡ ok (cost, gold, q, c)
      → IsKept s (record { level = s.level; gold = gold; pool = q; pick = c })
  unfolding respec
  respec-IsKept s cost gold q c h =
      let price = f.to_float (r.rate respec_gold_cost) in
      let paid : F × F × Pool × ClassPick = (
        price,
        f.sub s.gold price,
        record { stats = none_allocated; unspent = s.pool.unspent + allocated s.pool.stats },
        record { game_class = none; class_unlocked = s.pick.class_unlocked },
      ) in
      let out : F × F × Pool × ClassPick = (cost, gold, q, c) in
      let unset : Bool = elim s.pick.game_class [ none ↦ true | some k ↦ false ] in
      let (_, rich) = passed unset "no class to respec" _ out h in
      let (_, final) = passed (f.lt s.gold price) "not enough gold for respec" (ok paid) out rich in
      subst (λ x. IsKept s (record { level = s.level; gold = x.1; pool = x.2; pick = x.3 }))
        (ok_eq paid out final)
        (record {
          points = omega arith;
          capped = λ k. omega arith;
          unlocked = λ k e. absurd (false_not_true e);
          sticky = λ k. k;
        })

  Change-IsKept : (s t : Sheet F) → Change s t → IsKept s t
  Change-IsKept s t (spent points q h) =
      let k = allocate_points-Keeps points s.pool q h in
      record { points = k.0; capped = k.1; unlocked = λ u. u; sticky = λ u. u }
  Change-IsKept s t distributed =
      let k = distribute_unspent_exact s.pick.game_class s.pool in
      record { points = k.0; capped = k.2; unlocked = λ u. u; sticky = λ u. u }
  Change-IsKept s t (picked klass c h) = select_class-IsKept s klass c h
  Change-IsKept s t (respecced cost gold q c h) = respec-IsKept s cost gold q c h

  -- Any sequence of successful allocations, distributions, class picks and respecs keeps the sum
  -- of the allocated and unspent points, keeps the allocated points within the cap of 100 if they
  -- were, keeps it so that a class that is set is unlocked, and never takes the unlock back.
  pub Changes-IsKept : (first last : Sheet F) → Changes first last → IsKept first last
  Changes-IsKept first last begin = record {
    points = refl;
    capped = λ k. k;
    unlocked = λ k. k;
    sticky = λ k. k;
  }
  Changes-IsKept first last (change {s = s} so_far next) =
      let a = Changes-IsKept first s so_far in
      let b = Change-IsKept s last next in
      record {
        points = b.points ∙ a.points;
        capped = λ k. b.capped (a.capped k);
        unlocked = λ k. b.unlocked (a.unlocked k);
        sticky = λ k. b.sticky (a.sticky k);
      }
