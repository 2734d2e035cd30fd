-- ===== src/Focus/Skip/Counts.antt =====
-- What closing the phases that never started does to the counts of phases and of steps.
use task_buddy_backend.Prelude.{ℕ, ◌≡◌, refl, Bool, true, List, [], ◌∷◌, ℤ, arith, count, length}
use task_buddy_backend.Focus.Types.{Phase, is_pending, is_live, is_focus_done}
use task_buddy_backend.Focus.Audit.{is_focus_credit, is_charge}
use task_buddy_backend.Focus.Skip.{skip_pending, skip_steps}

module _ (at : ℤ) where
  pub count-skip_pending_pending : (ps : List Phase) → count is_pending (skip_pending at ps) ≡ 0
  count-skip_pending_pending [] = refl
  count-skip_pending_pending (p ∷ ps) = ground (arith, count-skip_pending_pending ps)

  pub count-skip_pending_live :
      (ps : List Phase) → count is_live (skip_pending at ps) ≡ count is_live ps
  count-skip_pending_live [] = refl
  count-skip_pending_live (p ∷ ps) = ground (arith, count-skip_pending_live ps)

  pub count-skip_pending_done :
      (ps : List Phase) → count is_focus_done (skip_pending at ps) ≡ count is_focus_done ps
  count-skip_pending_done [] = refl
  count-skip_pending_done (p ∷ ps) = ground (arith, count-skip_pending_done ps)

  -- One step for each phase that is closed.
  pub length-skip_steps : (ps : List Phase) → length (skip_steps at ps) ≡ count is_pending ps
  length-skip_steps [] = refl
  length-skip_steps (p ∷ ps) = ground (arith, length-skip_steps ps)

  pub count-skip_steps_credit : (ps : List Phase) → count is_focus_credit (skip_steps at ps) ≡ 0
  count-skip_steps_credit [] = refl
  count-skip_steps_credit (p ∷ ps) = ground (arith, count-skip_steps_credit ps)

  pub count-skip_steps_charge : (ps : List Phase) → count is_charge (skip_steps at ps) ≡ 0
  count-skip_steps_charge [] = refl
  count-skip_steps_charge (p ∷ ps) = ground (arith, count-skip_steps_charge ps)

pub ruleset skip_counts = (
  arith, count-skip_pending_pending, count-skip_pending_live, count-skip_pending_done,
  count-skip_steps_credit, count-skip_steps_charge,
)
