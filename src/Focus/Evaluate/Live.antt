-- ===== src/Focus/Evaluate/Live.antt =====
-- What one write to the live phase, or to the next pending one, does to the counts of phases.
use task_buddy_backend.Prelude.{
  ◌+◌, ◌≡◌, true, false, some, List, ℤ, arith, count, bit, update_first, find_first-some,
  count-update_first,
}
use task_buddy_backend.Focus.Types.{
  Phase, is_pending, is_live, is_focus_done, live_phase, next_pending,
}
use task_buddy_backend.Focus.Evaluate.{on_live, start}

live_only : (p : Phase) → is_live p ≡ true → (is_pending p ≡ false) × (is_focus_done p ≡ false)
live_only p h = ground arith

pending_only : (p : Phase) → is_pending p ≡ true → (is_live p ≡ false) × (is_focus_done p ≡ false)
pending_only p h = ground arith

module _ (f : Phase → Phase) (ps : List Phase) (cur : Phase) (live : live_phase ps ≡ some cur) where
  pub count-on_live_live :
      count is_live (on_live f ps) + 1 ≡ count is_live ps + bit (is_live (f cur))
  count-on_live_live =
      ground (arith, find_first-some is_live ps cur, count-update_first is_live is_live f ps cur)

  pub count-on_live_pending :
      count is_pending (on_live f ps) ≡ count is_pending ps + bit (is_pending (f cur))
  count-on_live_pending = ground (
    arith,
    live_only cur (find_first-some is_live ps cur live),
    count-update_first is_live is_pending f ps cur,
  )

  pub count-on_live_done :
      count is_focus_done (on_live f ps) ≡ count is_focus_done ps + bit (is_focus_done (f cur))
  count-on_live_done = ground (
    arith,
    live_only cur (find_first-some is_live ps cur live),
    count-update_first is_live is_focus_done f ps cur,
  )

module _ (at : ℤ) (ps : List Phase) (nxt : Phase) (found : next_pending ps ≡ some nxt) where
  pub count-start_live :
      count is_live (update_first is_pending (start at) ps) ≡ count is_live ps + 1
  count-start_live = ground (
    arith,
    pending_only nxt (find_first-some is_pending ps nxt found),
    count-update_first is_pending is_live (start at) ps nxt,
  )

  pub count-start_pending :
      count is_pending (update_first is_pending (start at) ps) + 1 ≡ count is_pending ps
  count-start_pending = ground (
    arith,
    find_first-some is_pending ps nxt,
    count-update_first is_pending is_pending (start at) ps nxt,
  )

  pub count-start_done :
      count is_focus_done (update_first is_pending (start at) ps) ≡ count is_focus_done ps
  count-start_done = ground (
    arith,
    pending_only nxt (find_first-some is_pending ps nxt found),
    count-update_first is_pending is_focus_done (start at) ps nxt,
  )
