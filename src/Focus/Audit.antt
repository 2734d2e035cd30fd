-- ===== src/Focus/Audit.antt =====
-- What the engine of app/game/session_engine.py is held to: the shape of a session between two
-- operations, and the account that the reported steps give of a change.
use task_buddy_backend.Prelude.{
  ◌+◌, ◌≤◌, ◌≡◌, Bool, true, false, ◌&&◌, not, List, count, bit, is_some,
}
use task_buddy_backend.Json.{get}
use task_buddy_backend.Focus.Types.{
  Session, SessionStatus, Run, Step, phase_completed, session_abandoned, speedrun_failed,
  is_pending, is_live, is_running, completed_focus_count,
}

-- At most one phase is live, and a session that is over has neither a live nor a pending phase.
pub record IsWellFormed (r : Run) : Type 0 where
  pub one_live : count is_live r.phases ≤ 1
  pub none_live : is_running r.session ≡ false → count is_live r.phases ≡ 0
  pub none_pending : is_running r.session ≡ false → count is_pending r.phases ≡ 0

-- A step that pays for a finished focus phase. The milestones of a stopwatch carry their index.
abbrev pub is_focus_credit : Step → Bool
is_focus_credit s = elim s.kind [
  | phase_completed ↦ s.scored && not (is_some (get "milestone_index" s.extra))
  | _ ↦ false
]

-- A step that costs HP.
abbrev pub is_charge : Step → Bool
is_charge s = elim s.kind [ session_abandoned ↦ true | speedrun_failed ↦ true | _ ↦ false ]

abbrev pub is_abandoned : Session → Bool
is_abandoned s = elim s.status [ SessionStatus.abandoned ↦ true | _ ↦ false ]

-- The steps account for the change: one credit for each focus phase that was finished, and one
-- charge if the session was abandoned.
pub record Accounts (before after : Run) (steps : List Step) : Type 0 where
  pub credits :
      completed_focus_count after.phases
      ≡ completed_focus_count before.phases + count is_focus_credit steps
  pub charges :
      bit (is_abandoned after.session) ≡ bit (is_abandoned before.session) + count is_charge steps

-- An operation on a session keeps its shape, and its steps account for the change.
abbrev pub Sound : Run → Run × List Step → Type 0
Sound before (after, steps) = IsWellFormed after × Accounts before after steps
