-- ===== src/Focus/Examples.antt =====
-- Concrete sessions, and the theorems on them.
use task_buddy_backend.Prelude.{
  ℕ, ◌+◌, ◌*◌, ◌≤◌, ◌<◌, ◌≡◌, ◌⊎◌, refl, Option, none, some, List, [], ◌∷◌, ◌++◌, ℤ, pos, pos_part,
  arith, count,
}
use task_buddy_backend.Json.{Json, Fields}
use task_buddy_backend.Focus.Types.{Phase, PhaseStatus, Session, SessionStatus, Kind, Run, Step}
use task_buddy_backend.Focus.Audit.{IsWellFormed, Sound}
use task_buddy_backend.Focus.Evaluate.{evaluate}
use task_buddy_backend.Focus.Evaluate.Loop.{evaluate-Sound}
use task_buddy_backend.Focus.Finish.{stop, stopwatch_actual}
use task_buddy_backend.Focus.Finish.Sound.{steps_of}
use task_buddy_backend.Focus.Finish.Rewards.{is_milestone, stop_pays_milestones}
use task_buddy_backend.Focus.History.{stopped, begin, call, History-Sound}

-- A session that started at instant 0, with three pauses of five minutes together.
abbrev pub session : Json → Session
session speedrun = record {
  status = SessionStatus.active;
  activity_label = some "reading";
  preset = Fields.end;
  pause_budget_count = 3;
  pause_budget_seconds = pos 300;
  speedrun = speedrun;
  started_at = pos 0;
  ended_at = none;
}

abbrev pub row : ℕ → Kind → PhaseStatus → ℕ → Option ℤ → Phase
row seq kind status planned started = record {
  seq = seq;
  kind = kind;
  status = status;
  planned_seconds = pos planned;
  actual_seconds = none;
  pause_count = 0;
  paused_seconds = pos 0;
  pause_started_at = none;
  started_at = started;
  ended_at = none;
}

-- A focus phase that runs, with a break and a further focus phase to come.
abbrev pomodoro : Run
pomodoro = record {
  session = session Json.null;
  phases =
      row 1 Kind.focus PhaseStatus.active 1500 (some (pos 0))
      ∷ row 2 Kind.break PhaseStatus.pending 300 none
      ∷ row 3 Kind.focus PhaseStatus.pending 1500 none
      ∷ [];
}

abbrev watch : Phase
watch = row 1 Kind.stopwatch PhaseStatus.active 0 (some (pos 0))

abbrev stopwatch_run : Run
stopwatch_run = record { session = session Json.null; phases = watch ∷ [] }

pomodoro-IsWellFormed : IsWellFormed pomodoro
pomodoro-IsWellFormed = record {
  one_live = omega arith;
  none_live = λ e. cc;
  none_pending = λ e. cc;
}

-- One hour later.
abbrev later : ℤ
later = pos 3600000000

History-Sound_example :
    Sound pomodoro ((stop pomodoro later).run, [] ++ steps_of (stop pomodoro later))
History-Sound_example =
    History-Sound pomodoro (stop pomodoro later).run ([] ++ steps_of (stop pomodoro later))
      pomodoro-IsWellFormed
      (call begin
        (stopped later ((stop pomodoro later).run, steps_of (stop pomodoro later)) refl refl) refl)

evaluate-Sound_example :
    (o : Run × List Step) × (evaluate pomodoro later ≡ some o) × Sound pomodoro o
evaluate-Sound_example = evaluate-Sound pomodoro later pomodoro-IsWellFormed

stop_pays_milestones_example :
    let n = count is_milestone (stop stopwatch_run later).before in
    let net = pos_part (stopwatch_actual watch later) in
    (n ≤ 100) × (n * 1500 ≤ net) × ((n ≡ 100) ⊎ (net < (n + 1) * 1500))
stop_pays_milestones_example = stop_pays_milestones stopwatch_run watch later refl refl
