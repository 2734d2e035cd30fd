-- ===== src/Budget.antt =====
-- app/knowledge/budget.py with app/models/budget.py: the daily token budget of each user.
-- A day is its number. The table has one row for a user and a day at most (its unique constraint),
-- and its check constraint keeps `reserved_tokens` at zero or more.
pub mod Cap
mod Examples
use task_buddy_backend.Prelude.{
  ℕ, Bool, true, false, ◌&&◌, Option, none, some, ℤ, pos, ◌+ℤ◌, ◌-ℤ◌, ltb_ℤ, leb_ℤ, ◌==◌,
  if◌then◌else◌, List, [], ◌∷◌,
}

-- The `reserved_tokens` of the row of a user and a day.
abbrev pub Counters : Type 0
Counters = ℕ → ℕ → Option ℤ

abbrev pub set : ℕ → ℕ → ℤ → Counters → Counters
set user day v t u d = if u == user && d == day then some v else t u d

pub data Outcome : Type 0 where
  ok budget_exceeded integrity_error : Outcome

-- `UPDATE … SET reserved_tokens = v` on a row that is there: the check constraint may refuse it.
abbrev pub write : ℕ → ℕ → ℤ → Counters → Outcome × Counters
write user day v t = if ltb_ℤ v (pos 0) then (integrity_error, t) else (ok, set user day v t)

-- `INSERT … ON CONFLICT DO NOTHING` with a counter of zero.
abbrev pub lazy_create : ℕ → ℕ → Counters → Counters
lazy_create user day t = elim (t user day) [ none ↦ set user day (pos 0) t | some v ↦ t ]

-- The conditional UPDATE: it finds the row only if the reservation stays within the cap.
compare_and_set : ℤ → ℕ → ℕ → ℤ → Counters → Outcome × Counters
compare_and_set cap user day estimate t = elim (t user day) [
  | none ↦ (budget_exceeded, t)
  | some v ↦
      if leb_ℤ (v +ℤ estimate) cap then write user day (v +ℤ estimate) t else (budget_exceeded, t)
]

-- `reserve_llm_budget`
unfoldable pub reserve : ℤ → ℕ → ℕ → ℤ → Counters → Outcome × Counters
unfolding compare_and_set
reserve cap user day estimate t =
    if leb_ℤ cap (pos 0)
    then (ok, t)
    else compare_and_set cap user day estimate (lazy_create user day t)

-- `refund_llm_reservation`: a missing row is logged and skipped.
unfoldable pub refund : ℤ → ℕ → ℕ → ℤ → Counters → Outcome × Counters
refund cap user day estimate t =
    if leb_ℤ cap (pos 0)
    then (ok, t)
    else elim (t user day) [ none ↦ (ok, t) | some v ↦ write user day (v -ℤ estimate) t ]

-- `reconcile_llm_usage`
unfoldable pub reconcile : ℤ → ℕ → ℕ → ℤ → ℤ → Counters → Outcome × Counters
reconcile cap user day estimate actual t =
    if leb_ℤ cap (pos 0) then (ok, t) else elim (t user day) [
      | none ↦ (budget_exceeded, t)
      | some v ↦ write user day (v +ℤ (actual -ℤ estimate)) t
    ]

-- The legacy gate, `check_llm_budget`, over the tokens that the three answer tables sum to.
unfoldable pub check_budget : ℤ → ℤ → ℤ → ℤ → Outcome
check_budget cap asked planned broken_down =
    if leb_ℤ cap (pos 0)
    then ok
    else if leb_ℤ cap (asked +ℤ planned +ℤ broken_down)
    then budget_exceeded
    else ok
