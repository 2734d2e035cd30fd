-- ===== src/Tracking.antt =====
-- The streaks of app/game/tracking.py. A date is its ordinal, a score the hundredths that
-- `build_days` rounds it to; infinite scores are left out.
pub mod Streaks
mod Examples
use Prim.Native.Nat.{max}
use task_buddy_backend.Prelude.{
  ℕ, zero, suc, ◌-◌, Bool, true, false, not, ◌&&◌, List, [], ◌∷◌, ℤ, pos, length, ltb, ◌==◌, ltb_ℤ,
  if◌then◌else◌,
}

-- The fields of a row of `build_days` that the streaks read.
pub record DayRow : Type 0 where
  pub date : ℕ
  pub score : ℤ

-- `row["score"] > 0`
abbrev pub is_scored : DayRow → Bool
is_scored row = ltb_ℤ (pos 0) row.score

-- The loop over the rows, with `run` and `longest`.
unfoldable pub longest_loop : ℕ → ℕ → List DayRow → ℕ
longest_loop run longest [] = longest
longest_loop run longest (row ∷ days) =
    if is_scored row
    then longest_loop (suc run) (max longest (suc run)) days
    else longest_loop 0 longest days

-- A test of `days[i]`.
abbrev pub row_at : (DayRow → Bool) → List DayRow → ℕ → Bool
row_at test [] i = false
row_at test (row ∷ days) zero = test row
row_at test (row ∷ days) (suc i) = row_at test days i

-- The loop that goes down, `i + 1` rows being left.
unfoldable pub current_loop : List DayRow → ℕ → ℕ
current_loop days zero = 0
current_loop days (suc i) =
    let rest = current_loop days i in if row_at is_scored days i then suc rest else 0

-- The rows that are left once a scoreless row of today is skipped.
unfoldable pub rows_left : List DayRow → ℕ → ℕ
rows_left days today =
    if row_at (λ row. row.date == today && not (is_scored row)) days (length days - 1)
    then length days - 1
    else length days

-- `_streaks`
unfoldable pub streaks : List DayRow → ℕ → ℕ × ℕ
streaks days today = (current_loop days (rows_left days today), longest_loop 0 0 days)
