-- ===== src/Budget/Cap.antt =====
-- The range of the counters, and what each call of app/knowledge/budget.py does to its own counter.
use task_buddy_backend.Prelude.{
  ℕ, ◌≡◌, ◌∙◌, inl, inr, ◌⊎◌, some, List, [], ◌∷◌, ℤ, pos, ◌+ℤ◌, ◌-ℤ◌, ◌≤ℤ◌, ◌<ℤ◌, arith, int_laws,
  +ℤ_parts, -ℤ_parts, get_or, Option-cases,
}
use task_buddy_backend.Budget.{
  Counters, set, Outcome, ok, budget_exceeded, compare_and_set, reserve, refund, reconcile,
}

-- The tokens reserved on a day, none if there is no row yet.
abbrev pub reserved : ℕ → ℕ → Counters → ℤ
reserved user day t = get_or (t user day) (pos 0)

-- With a positive cap, a non-negative estimate and a counter that is not negative, `reserve`
-- answers ok and adds the estimate to the counter if the sum is at most the cap, and otherwise
-- answers budget_exceeded and leaves the counter as it was.
pub reserve_exact :
    (cap : ℤ) (user day : ℕ) (estimate : ℤ) (t : Counters)
    → pos 0 <ℤ cap
    → pos 0 ≤ℤ estimate
    → pos 0 ≤ℤ reserved user day t
    → let (outcome, after) = reserve cap user day estimate t in
      ((reserved user day t +ℤ estimate ≤ℤ cap)
        × (outcome ≡ ok)
        × (reserved user day after ≡ reserved user day t +ℤ estimate))
      ⊎ ((cap <ℤ reserved user day t +ℤ estimate)
          × (outcome ≡ budget_exceeded)
          × (reserved user day after ≡ reserved user day t))
unfolding reserve compare_and_set
reserve_exact cap user day estimate t on est held = elim (Option-cases (t user day)) [
  | inl e ↦ ground (arith, e, +ℤ_parts (pos 0) estimate)
  | inr (v, e) ↦ ground (arith, e, +ℤ_parts v estimate)
]

-- Every counter lies between zero and the cap.
abbrev pub InRange : ℤ → Counters → Type 0
InRange cap t = (u d : ℕ) → (pos 0 ≤ℤ reserved u d t) × (reserved u d t ≤ℤ cap)

-- A call of one request.
pub data Op : Type 0 where
  reserve_op refund_op : ℕ → ℕ → ℤ → Op

abbrev pub apply : ℤ → Op → Counters → Outcome × Counters
apply cap (reserve_op user day estimate) t = reserve cap user day estimate t
apply cap (refund_op user day estimate) t = refund cap user day estimate t

-- The counters after the calls, in the order in which the database serves them.
pub run : ℤ → List Op → Counters → Counters
run cap [] t = t
run cap (op ∷ ops) t = run cap ops (apply cap op t).1

abbrev pub estimate_of : Op → ℤ
estimate_of (reserve_op user day estimate) = estimate
estimate_of (refund_op user day estimate) = estimate

abbrev pub AllNonneg : List Op → Type 0
AllNonneg [] = Unit
AllNonneg (op ∷ ops) = (pos 0 ≤ℤ estimate_of op) × AllNonneg ops

reserve-InRange :
    (cap : ℤ) (user day : ℕ) (estimate : ℤ) (t : Counters)
    → pos 0 <ℤ cap
    → pos 0 ≤ℤ estimate
    → InRange cap t
    → InRange cap (reserve cap user day estimate t).1
unfolding reserve compare_and_set
reserve-InRange cap user day estimate t on est h u d = elim (Option-cases (t user day)) [
  | inl e ↦ ground (arith, e, h u d, +ℤ_parts (pos 0) estimate)
  | inr (v, e) ↦ ground (arith, e, h u d, +ℤ_parts v estimate)
]

refund-InRange :
    (cap : ℤ) (user day : ℕ) (estimate : ℤ) (t : Counters)
    → pos 0 <ℤ cap
    → pos 0 ≤ℤ estimate
    → InRange cap t
    → InRange cap (refund cap user day estimate t).1
unfolding refund
refund-InRange cap user day estimate t on est h u d = elim (Option-cases (t user day)) [
  | inl e ↦ ground (arith, e, h u d)
  | inr (v, e) ↦ ground (arith, e, h u d, h user day, -ℤ_parts v estimate)
]

-- With a positive cap, non-negative estimates, and every counter between zero and the cap at the
-- start, every counter is between zero and the cap after any sequence of reservations and refunds
-- by any users on any days.
pub run-InRange :
    (cap : ℤ) (ops : List Op) (t : Counters)
    → pos 0 <ℤ cap
    → AllNonneg ops
    → InRange cap t
    → InRange cap (run cap ops t)
unfolding run
run-InRange cap [] t on est h = h
run-InRange cap (reserve_op user day estimate ∷ ops) t on est h =
    run-InRange cap ops (reserve cap user day estimate t).1 on est.1
      (reserve-InRange cap user day estimate t on est.0 h)
run-InRange cap (refund_op user day estimate ∷ ops) t on est h =
    run-InRange cap ops (refund cap user day estimate t).1 on est.1
      (refund-InRange cap user day estimate t on est.0 h)

-- A reservation that went through wrote its own row and no other.
reserve_writes :
    (cap : ℤ) (user day : ℕ) (estimate : ℤ) (t : Counters)
    → pos 0 <ℤ cap
    → (reserve cap user day estimate t).0 ≡ ok
    → (u d : ℕ)
    → (reserve cap user day estimate t).1 u d ≡ set user day (reserved user day t +ℤ estimate) t u d
unfolding reserve compare_and_set
reserve_writes cap user day estimate t on went u d = elim (Option-cases (t user day)) [
  | inl e ↦ ground (arith, e, went)
  | inr (v, e) ↦ ground (arith, e, went)
]

take_back : (v estimate : ℤ) → v +ℤ estimate -ℤ estimate ≡ v
take_back v estimate = omega int_laws

spend : (v estimate actual : ℤ) → v +ℤ estimate +ℤ (actual -ℤ estimate) ≡ v +ℤ actual
spend v estimate actual = omega int_laws

nonneg_sum : (v actual : ℤ) → pos 0 ≤ℤ v → pos 0 ≤ℤ actual → pos 0 ≤ℤ v +ℤ actual
nonneg_sum v actual h k = omega int_laws

same_row : (user day : ℕ) (x : ℤ) (t : Counters) → set user day x t user day ≡ some x
same_row user day x t = ground arith

-- With a positive cap and every counter between zero and the cap, a refund of the same estimate
-- right after a reservation that went through answers ok and leaves every counter as it was before
-- the reservation.
pub refund-reserve :
    (cap : ℤ) (user day : ℕ) (estimate : ℤ) (t : Counters)
    → pos 0 <ℤ cap
    → InRange cap t
    → (reserve cap user day estimate t).0 ≡ ok
    → let (outcome, after) = refund cap user day estimate (reserve cap user day estimate t).1 in
      (outcome ≡ ok) × ((u d : ℕ) → reserved u d after ≡ reserved u d t)
unfolding refund
refund-reserve cap user day estimate t on h went =
    let v = reserved user day t in
    let row : (reserve cap user day estimate t).1 user day ≡ some (v +ℤ estimate) =
      reserve_writes cap user day estimate t on went user day
      ∙ same_row user day (v +ℤ estimate) t in
    (
      ground (arith, row, take_back v estimate, h user day),
      λ u d. ground (
        arith,
        row,
        take_back v estimate,
        h user day,
        reserve_writes cap user day estimate t on went u d,
      ),
    )

-- With a positive cap, non-negative spent tokens and every counter between zero and the cap, a
-- reconciliation right after a reservation that went through answers ok and leaves the counter at
-- what it was before the reservation plus the tokens spent.
pub reconcile-reserve :
    (cap : ℤ) (user day : ℕ) (estimate actual : ℤ) (t : Counters)
    → pos 0 <ℤ cap
    → pos 0 ≤ℤ actual
    → InRange cap t
    → (reserve cap user day estimate t).0 ≡ ok
    → let (outcome, after) =
        reconcile cap user day estimate actual (reserve cap user day estimate t).1 in
      (outcome ≡ ok) × (reserved user day after ≡ reserved user day t +ℤ actual)
unfolding reconcile
reconcile-reserve cap user day estimate actual t on act h went =
    let v = reserved user day t in
    let row : (reserve cap user day estimate t).1 user day ≡ some (v +ℤ estimate) =
      reserve_writes cap user day estimate t on went user day
      ∙ same_row user day (v +ℤ estimate) t in
    ground (arith, row, spend v estimate actual, nonneg_sum v actual (h user day).0 act)
