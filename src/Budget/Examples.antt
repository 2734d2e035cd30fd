-- ===== src/Budget/Examples.antt =====
-- Concrete reservations, and the theorems on them.
use task_buddy_backend.Prelude.{
  ℕ, ◌≡◌, ◌⊎◌, refl, none, List, [], ◌∷◌, ℤ, pos, ◌+ℤ◌, ◌≤ℤ◌, ◌<ℤ◌, arith,
}
use task_buddy_backend.Budget.{
  Counters, ok, budget_exceeded, compare_and_set, reserve, refund, reconcile,
}
use task_buddy_backend.Budget.Cap.{
  reserved, reserve_exact, InRange, Op, reserve_op, refund_op, AllNonneg, run, run-InRange,
  refund-reserve, reconcile-reserve,
}

abbrev cap : ℤ
cap = pos 1000

abbrev none_yet : Counters
none_yet user day = none

none_yet-InRange : InRange cap none_yet
none_yet-InRange u d = (omega arith, omega arith)

abbrev calls : List Op
calls =
    reserve_op 1 5 (pos 700)
    ∷ reserve_op 2 5 (pos 900)
    ∷ reserve_op 1 5 (pos 400)
    ∷ refund_op 1 5 (pos 700)
    ∷ []

calls-AllNonneg : AllNonneg calls
calls-AllNonneg = (omega arith, (omega arith, (omega arith, (omega arith, tt))))

granted : (reserve cap 1 5 (pos 700) none_yet).0 ≡ ok
unfolding reserve compare_and_set ◌+ℤ◌
granted = refl

run-InRange_example : InRange cap (run cap calls none_yet)
run-InRange_example = run-InRange cap calls none_yet (omega arith) calls-AllNonneg none_yet-InRange

reserve_exact_example :
    let (outcome, after) = reserve cap 1 5 (pos 700) none_yet in
    ((reserved 1 5 none_yet +ℤ pos 700 ≤ℤ cap)
      × (outcome ≡ ok)
      × (reserved 1 5 after ≡ reserved 1 5 none_yet +ℤ pos 700))
    ⊎ ((cap <ℤ reserved 1 5 none_yet +ℤ pos 700)
        × (outcome ≡ budget_exceeded)
        × (reserved 1 5 after ≡ reserved 1 5 none_yet))
reserve_exact_example =
    reserve_exact cap 1 5 (pos 700) none_yet (omega arith) (omega arith) (omega arith)

refund-reserve_example :
    let (outcome, after) = refund cap 1 5 (pos 700) (reserve cap 1 5 (pos 700) none_yet).1 in
    (outcome ≡ ok) × ((u d : ℕ) → reserved u d after ≡ reserved u d none_yet)
refund-reserve_example =
    refund-reserve cap 1 5 (pos 700) none_yet (omega arith) none_yet-InRange granted

reconcile-reserve_example :
    let (outcome, after) =
      reconcile cap 1 5 (pos 700) (pos 250) (reserve cap 1 5 (pos 700) none_yet).1 in
    (outcome ≡ ok) × (reserved 1 5 after ≡ reserved 1 5 none_yet +ℤ pos 250)
reconcile-reserve_example =
    reconcile-reserve cap 1 5 (pos 700) (pos 250) none_yet (omega arith) (omega arith)
      none_yet-InRange granted
