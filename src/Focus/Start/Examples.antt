-- ===== src/Focus/Start/Examples.antt =====
-- A pomodoro plan that is opened, and then watched.
use task_buddy_backend.Prelude.{
  String, ◌≡◌, refl, true, false, none, some, [], ◌∷◌, ◌++◌, ℤ, pos, count, bit, ok,
}
use task_buddy_backend.Focus.Types.{Kind, Run, completed_focus_count}
use task_buddy_backend.Focus.Audit.{IsWellFormed, is_focus_credit, is_charge, is_abandoned}
use task_buddy_backend.Focus.Finish.{stop}
use task_buddy_backend.Focus.Finish.Sound.{steps_of}
use task_buddy_backend.Focus.History.{stopped, begin, call}
use task_buddy_backend.Focus.Start.{Mode, SessionStartIn, start_session, phase_row, session_row}
use task_buddy_backend.Focus.Start.Paid.{IsFresh, start_session-paid}

abbrev unstripped : String → String
unstripped s = s

abbrev request : SessionStartIn
request = record {
  mode = Mode.timer;
  phases = some ((Kind.focus, 25) ∷ (Kind.break, 5) ∷ []);
  tag_id = none;
  activity_label = none;
  difficulty = "easy";
  auto_start_breaks = true;
  auto_start_focus = false;
  pause_budget_count = 3;
  pause_budget_seconds = 300;
  speedrun = none;
}

abbrev opened : Run
opened = record {
  session = session_row unstripped request none (pos 0);
  phases = phase_row 0 (pos 0) (Kind.focus, 1500) ∷ phase_row 1 (pos 0) (Kind.break, 300) ∷ [];
}

start : start_session unstripped request none (pos 0) ≡ ok opened
unfolding start_session
start = refl

-- Stopped after an hour.
abbrev stopped_at : ℤ
stopped_at = pos 3600000000

start_session-paid_example :
    let r = (stop opened stopped_at).run in
    let steps = [] ++ steps_of (stop opened stopped_at) in
    IsFresh opened
    × IsWellFormed r
    × (completed_focus_count r.phases ≡ count is_focus_credit steps)
    × (bit (is_abandoned r.session) ≡ count is_charge steps)
start_session-paid_example =
    let r = (stop opened stopped_at).run in
    let told = steps_of (stop opened stopped_at) in
    start_session-paid unstripped request none (pos 0) opened r ([] ++ told) start
      (call begin (stopped stopped_at (r, told) refl refl) refl)
