-- ===== src/Game/Character.antt =====
-- The character sheet: stat points, the class and its respec, in app/game/character_service.py.
pub mod Points
pub mod History
mod Examples
use task_buddy_backend.Prelude.{
  ℕ, zero, suc, ◌+◌, ◌-◌, String, Bool, true, false, ◌&&◌, ◌||◌, Option, none, some, ℤ, pos, List,
  [], ◌∷◌, ltb, leb, ◌==◌, str_eq, is_some, if◌then◌else◌, Result, ok, value_error, ◌>>=◌, ◌>>◌,
  raise_if,
}
use task_buddy_backend.Json.{Json, Fields}
use task_buddy_backend.Game.Number.{Numbers}
use task_buddy_backend.Game.Rates.{GameRates, respec_gold_cost}
use task_buddy_backend.Game.Profile.{
  Stat, str_stat, int_stat, con_stat, per_stat, same_stat, GameProfile,
}

-- `STAT_POINT_CAP` and `CLASS_MIN_LEVEL`
abbrev pub stat_point_cap : ℕ
stat_point_cap = 100

abbrev pub class_min_level : ℕ
class_min_level = 10

-- `STAT_COLUMN`
abbrev pub stat_column : String → Option Stat
stat_column key =
    if str_eq key "str"
    then some str_stat
    else if str_eq key "int"
    then some int_stat
    else if str_eq key "con"
    then some con_stat
    else if str_eq key "per"
    then some per_stat
    else none

-- `CLASSES`: the two stats of a class, primary first.
abbrev pub class_stats : String → Option (Stat × Stat)
class_stats klass =
    if str_eq klass "warrior"
    then some (str_stat, con_stat)
    else if str_eq klass "mage"
    then some (int_stat, per_stat)
    else if str_eq klass "healer"
    then some (con_stat, int_stat)
    else if str_eq klass "rogue"
    then some (per_stat, str_stat)
    else none

-- All allocated points of the four columns.
abbrev pub allocated : (Stat → ℕ) → ℕ
allocated stats = stats str_stat + stats int_stat + stats con_stat + stats per_stat

abbrev pub add_points : Stat → ℕ → (Stat → ℕ) → Stat → ℕ
add_points column n stats s = if same_stat column s then stats s + n else stats s

-- The columns and the points of a profile that these functions write.
pub record Pool : Type 0 where
  pub stats : Stat → ℕ
  pub unspent : ℕ

-- One entry of `points`: its column and its count.
abbrev pub read_count : Json → Result ℕ
read_count (Json.int (pos n)) =
    if ltb n 1 || ltb stat_point_cap n
    then value_error "point counts must be positive integers"
    else ok n
read_count _ = value_error "point counts must be positive integers"

abbrev pub read_column : String → Result Stat
read_column key = elim (stat_column key) [ none ↦ value_error "unknown stat" | some s ↦ ok s ]

unfoldable pub read_points : Fields → Result (List (Stat × ℕ))
read_points Fields.end = ok []
read_points (Fields.field key n rest) = read_column key >>= λ column.
    read_count n >>= λ count. read_points rest >>= λ more. ok ((column, count) ∷ more)

abbrev pub total_of : List (Stat × ℕ) → ℕ
total_of [] = 0
total_of (p ∷ ps) = p.1 + total_of ps

abbrev pub add_all : List (Stat × ℕ) → (Stat → ℕ) → Stat → ℕ
add_all [] stats = stats
add_all (p ∷ ps) stats = add_all ps (add_points (p.0) (p.1) stats)

-- The points that have passed every check.
unfoldable pub spend : List (Stat × ℕ) → Pool → Result Pool
spend clean p =
    raise_if (ltb p.unspent (total_of clean)) "not enough unspent stat points"
    >> (raise_if (ltb stat_point_cap (allocated p.stats + total_of clean))
          "total allocated stats are capped at 100"
        >> ok (record { stats = add_all clean p.stats; unspent = p.unspent - total_of clean }))

unfoldable pub allocate_points : Json → Pool → Result Pool
unfolding read_points spend
allocate_points (Json.obj (Fields.field key n rest)) p =
    read_points (Fields.field key n rest) >>= λ clean. spend clean p
allocate_points _ p = value_error "points must be a non-empty mapping of stat -> count"

-- `min(order, …)` of an order that starts with `best`: the first of those with the fewest points.
pub lowest : (Stat → ℕ) → Stat → List Stat → Stat
lowest stats best [] = best
lowest stats best (s ∷ rest) =
    if ltb (stats s) (stats best) then lowest stats s rest else lowest stats best rest

-- The order of a class: its two stats, or all four without a class.
abbrev pub order_of : Option String → Stat × List Stat
order_of none = (str_stat, int_stat ∷ con_stat ∷ per_stat ∷ [])
order_of (some klass) = elim (class_stats klass) [
  | none ↦ (str_stat, int_stat ∷ con_stat ∷ per_stat ∷ [])
  | some pair ↦ (pair.0, pair.1 ∷ [])
]

-- The loop of `distribute_unspent` on fuel, with the points assigned.
unfoldable pub distribute : ℕ → Stat × List Stat → Pool → ℕ → Pool × ℕ
unfolding lowest
distribute zero order p assigned = (p, assigned)
distribute (suc fuel) order p assigned =
    let column = lowest p.stats (order.0) (order.1) in
    let next =
      distribute fuel order
        (record { stats = add_points column 1 p.stats; unspent = p.unspent - 1 }) (assigned + 1) in
    if p.unspent == 0 || leb stat_point_cap (allocated p.stats) then (p, assigned) else next

unfoldable pub distribute_unspent : Option String → Pool → Pool × ℕ
unfolding distribute
distribute_unspent klass p = distribute p.unspent (order_of klass) p 0

-- The class of a profile, and whether it was ever picked.
pub record ClassPick : Type 0 where
  pub game_class : Option String
  pub class_unlocked : Bool

unfoldable pub select_class : String → ℕ → ClassPick → Result ClassPick
select_class klass level c =
    raise_if (elim (class_stats klass) [ none ↦ true | some pair ↦ false ]) "unknown class"
    >> (raise_if (is_some c.game_class) "respec first to change class"
        >> (raise_if (elim c.class_unlocked [ true ↦ false | false ↦ ltb level class_min_level ])
              "class unlocks at level 10"
            >> ok (record { game_class = some klass; class_unlocked = true })))

abbrev pub none_allocated : Stat → ℕ
none_allocated s = 0

-- `respec` on the gold, the pool and the class; it returns what it cost.
unfoldable pub respec :
    {F : Type 0}
    → Numbers F
    → GameRates F
    → F
    → Pool
    → ClassPick
    → Result (F × F × Pool × ClassPick)
respec f r gold p c =
    let cost = f.to_float (r.rate respec_gold_cost) in
    raise_if (elim c.game_class [ none ↦ true | some k ↦ false ]) "no class to respec"
    >> (raise_if (f.lt gold cost) "not enough gold for respec"
        >> ok (
          cost,
          f.sub gold cost,
          record { stats = none_allocated; unspent = p.unspent + allocated p.stats },
          record { game_class = none; class_unlocked = c.class_unlocked },
        ))
