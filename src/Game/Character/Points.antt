-- ===== src/Game/Character/Points.antt =====
-- The points of a character sheet in app/game/character_service.py: none is lost or made.
use mathlib.Core.Path.{subst}
use task_buddy_backend.Prelude.{
  ℕ, zero, suc, ◌+◌, ◌-◌, ◌≤◌, ◌≡◌, ◌⊎◌, refl, arith, inl, inr, Bool, true, false, ◌||◌, Option,
  List, [], ◌∷◌, String, ltb, leb, ◌==◌, Bool-cases, Result, ok, value_error, ◌>>=◌, ◌>>◌, raise_if,
}
use task_buddy_backend.Json.{Json, Fields}
use task_buddy_backend.Game.Profile.{Stat, str_stat, int_stat, con_stat, per_stat}
use task_buddy_backend.Game.Character.{
  Pool, allocated, add_points, add_all, total_of, read_points, spend, allocate_points, lowest,
  order_of, distribute, distribute_unspent, stat_point_cap,
}

allocated-add_points :
    (s : Stat) (n : ℕ) (stats : Stat → ℕ) → allocated (add_points s n stats) ≡ allocated stats + n
allocated-add_points str_stat n stats = omega arith
allocated-add_points int_stat n stats = omega arith
allocated-add_points con_stat n stats = omega arith
allocated-add_points per_stat n stats = omega arith

allocated-add_all :
    (ps : List (Stat × ℕ)) (stats : Stat → ℕ)
    → allocated (add_all ps stats) ≡ allocated stats + total_of ps
allocated-add_all [] stats = omega arith
allocated-add_all (p ∷ ps) stats =
    let rest = allocated-add_all ps (add_points (p.0) (p.1) stats) in
    let one = allocated-add_points (p.0) (p.1) stats in omega (arith, rest, one)

-- The points of a pool, spent or not.
abbrev pub all_points : Pool → ℕ
all_points p = allocated p.stats + p.unspent

abbrev pub IsCapped : Pool → Type 0
IsCapped p = allocated p.stats ≤ stat_point_cap

-- What a distribution on `fuel` has done.
record IsDistributed (fuel : ℕ) (p : Pool) (before : ℕ) (q : Pool) (after : ℕ) : Type 0 where
  conserved : all_points q ≡ all_points p
  counted : after + q.unspent ≡ before + p.unspent
  capped : IsCapped p → IsCapped q
  spent : p.unspent ≤ fuel → (q.unspent ≡ 0) ⊎ (stat_point_cap ≤ allocated q.stats)

stopped :
    (unspent given : ℕ)
    → (unspent == 0 || leb stat_point_cap given) ≡ true
    → (unspent ≡ 0) ⊎ (stat_point_cap ≤ given)
stopped unspent given h = ground (arith, h)

going :
    (unspent given : ℕ)
    → (unspent == 0 || leb stat_point_cap given) ≡ false
    → (1 ≤ unspent) × (given + 1 ≤ stat_point_cap)
going unspent given h = ground (arith, h)

distribute-IsDistributed :
    (fuel : ℕ) (order : Stat × List Stat) (p : Pool) (k : ℕ)
    → let (q, n) = distribute fuel order p k in IsDistributed fuel p k q n
unfolding distribute
distribute-IsDistributed zero order p k = record {
  conserved = refl;
  counted = refl;
  capped = λ h. h;
  spent = λ h. inl (omega (arith, h));
}
distribute-IsDistributed (suc fuel) order p k =
    elim (Bool-cases (p.unspent == 0 || leb stat_point_cap (allocated p.stats))) [
      | inl stops ↦
          simp (distribute, stops)
            (record {
              conserved = refl;
              counted = refl;
              capped = λ h. h;
              spent = λ h. stopped p.unspent (allocated p.stats) stops;
            })
      | inr goes ↦
          let column = lowest p.stats (order.0) (order.1) in
          let given : Pool = record {
            stats = add_points column 1 p.stats;
            unspent = p.unspent - 1;
          } in
          let rest = distribute-IsDistributed fuel order given (k + 1) in
          let one = allocated-add_points column 1 p.stats in
          let (some_left, room) = going p.unspent (allocated p.stats) goes in
          simp (distribute, goes)
            (record {
              conserved = omega (arith, rest.conserved, one, some_left);
              counted = omega (arith, rest.counted, some_left);
              capped = λ h. rest.capped (omega (arith, one, room));
              spent = λ h. rest.spent (omega (arith, h));
            })
    ]

-- For any class and pool, `distribute_unspent` keeps the sum of the points, assigns as many as the
-- unspent points go down, keeps the allocated points within the cap if they were, and ends with no
-- unspent point or with the cap reached: fuel for each unspent point is enough.
pub distribute_unspent_exact :
    (klass : Option String) (p : Pool)
    → let (q, n) = distribute_unspent klass p in
      (all_points q ≡ all_points p)
      × (n + q.unspent ≡ p.unspent)
      × (IsCapped p → IsCapped q)
      × ((q.unspent ≡ 0) ⊎ (stat_point_cap ≤ allocated q.stats))
unfolding distribute_unspent
distribute_unspent_exact klass p =
    let done = distribute-IsDistributed p.unspent (order_of klass) p 0 in
    (done.conserved, omega (arith, done.counted), done.capped, done.spent (omega arith))

ok_cases {ℓ κ} :
    {A : Type ℓ} {B : Type κ} (m : Result A) (k : A → Result B) (b : B)
    → (m >>= k) ≡ ok b
    → (a : A) × (m ≡ ok a) × (k a ≡ ok b)
ok_cases (ok a) k b h = (a, refl, h)
ok_cases (value_error e) k b h = cc

pub passed {ℓ} :
    {B : Type ℓ} (t : Bool) (e : String) (k : Result B) (b : B)
    → (raise_if t e >> k) ≡ ok b
    → (t ≡ false) × (k ≡ ok b)
passed true e k b h = cc
passed false e k b h = (refl, h)

pub ok_eq {ℓ} : {A : Type ℓ} (a b : A) → ok a ≡ ok b → a ≡ b
ok_eq a b e = cc

-- The points stay the same, and within the cap.
abbrev pub Keeps : Pool → Pool → Type 0
Keeps p q = (all_points q ≡ all_points p) × (IsCapped p → IsCapped q)

spend-Keeps : (clean : List (Stat × ℕ)) (p q : Pool) → spend clean p ≡ ok q → Keeps p q
unfolding spend
spend-Keeps clean p q h =
    let (enough, rest) = passed (ltb p.unspent (total_of clean)) _ _ q h in
    let (room, final) =
      passed (ltb stat_point_cap (allocated p.stats + total_of clean)) _ _ q rest in
    let sum = allocated-add_all clean p.stats in
    subst (Keeps p) (ok_eq _ q final) (ground (arith, sum, enough), λ h. ground (arith, sum, room))

pub allocate_points-Keeps :
    (points : Json) (p q : Pool) → allocate_points points p ≡ ok q → Keeps p q
unfolding allocate_points
allocate_points-Keeps (Json.obj (Fields.field key n rest)) p q h =
    let (clean, _, spent) = ok_cases (read_points (Fields.field key n rest)) _ q h in
    spend-Keeps clean p q spent
allocate_points-Keeps (Json.obj Fields.end) p q h = cc
allocate_points-Keeps Json.null p q h = cc
allocate_points-Keeps (Json.bool b) p q h = cc
allocate_points-Keeps (Json.int n) p q h = cc
allocate_points-Keeps (Json.float m e) p q h = cc
allocate_points-Keeps (Json.str s) p q h = cc
allocate_points-Keeps (Json.arr xs) p q h = cc
