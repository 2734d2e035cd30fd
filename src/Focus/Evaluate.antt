-- ===== src/Focus/Evaluate.antt =====
-- `evaluate` of app/game/session_engine.py and the functions that it calls.
pub mod Live
pub mod Sound
pub mod Loop
use task_buddy_backend.Prelude.{
  ℕ, zero, suc, String, Bool, true, false, Option, none, some, List, [], ◌∷◌, ◌++◌, ℤ, ◌+ℤ◌, ◌-ℤ◌,
  ltb_ℤ, leb_ℤ, max_ℤ, ◌==◌, get_or, length, update_first, if◌then◌else◌,
}
use task_buddy_backend.Json.{Json, Fields, get, truthy}
use task_buddy_backend.Focus.Types.{
  Phase, PhaseStatus, Session, SessionStatus, Run, Step, Kind, phase_completed, phase_started,
  phase_abandoned, session_ended, session_abandoned, speedrun_failed, grace_seconds, plain_step,
  is_pending, is_paused, is_live, is_break, is_focus, is_running, live_phase, next_pending,
  completed_focus_count, seconds_between, plus_seconds, phase_end,
}
use task_buddy_backend.Focus.Skip.{
  skip_pending, skip_steps, speedrun_type, time_boxed, beat_best, speedrun_result, close_phase,
}

abbrev pub end_session : SessionStatus → ℤ → Session → Session
end_session st at s = record s { status = st; ended_at = some at }

-- Writes to the phase that `live_phase` returned.
abbrev pub on_live : (Phase → Phase) → List Phase → List Phase
on_live = update_first is_live

close_idle : Run → ℤ → Run × List Step
close_idle r at =
    let phases = skip_pending at r.phases in
    let skipped = skip_steps at r.phases in
    if completed_focus_count phases == 0
    then (
      record { session = end_session SessionStatus.abandoned at r.session; phases = phases },
      skipped
          ++ record (plain_step session_abandoned none at) { reason = some "absence_grace" } ∷ [],
    )
    else (
      record { session = end_session SessionStatus.ended at r.session; phases = phases },
      skipped ++ plain_step session_ended none at ∷ [],
    )

-- `_resolve_no_live`
pub resolve_no_live : Run → ℤ → ℤ → Run × List Step
unfolding close_idle
resolve_no_live r last_end now = elim (next_pending r.phases) [
  | none ↦ (
    record r { session = end_session SessionStatus.ended last_end r.session },
    plain_step session_ended none last_end ∷ [],
  )
  | some p ↦
      let at = plus_seconds last_end grace_seconds in
      if ltb_ℤ now at then (r, []) else close_idle r at
]

-- `_check_pause_overflow`
pub check_pause_overflow : Run → Phase → ℤ → Run × List Step
check_pause_overflow r cur now =
    let pause_start = get_or cur.pause_started_at now in
    let extra = seconds_between pause_start now in
    let crossed_at =
      plus_seconds pause_start (r.session.pause_budget_seconds -ℤ cur.paused_seconds) in
    let phases =
      on_live
        (λ p. record p {
          status = PhaseStatus.abandoned;
          ended_at = some crossed_at;
          paused_seconds = cur.paused_seconds +ℤ extra;
          pause_started_at = none;
        })
        r.phases in
    if leb_ℤ (cur.paused_seconds +ℤ extra) r.session.pause_budget_seconds then (r, []) else (
      record {
        session = end_session SessionStatus.abandoned crossed_at r.session;
        phases = skip_pending crossed_at phases;
      },
      skip_steps crossed_at phases
          ++ record (plain_step session_abandoned (some cur.seq) crossed_at) {
            reason = some "pause_overflow";
          }
            ∷ [],
    )

abbrev pub start : ℤ → Phase → Phase
start at p = record p { status = PhaseStatus.active; started_at = some at }

-- What `_complete_phase` does once the live phase is marked: the next one starts by its toggle.
auto_start : Bool → Bool → ℤ → List Phase → List Phase × List Step
auto_start auto_breaks auto_focus at phases = elim (next_pending phases) [
  | none ↦ (phases, [])
  | some nxt ↦
      if (if is_break nxt.kind then auto_breaks else auto_focus)
      then (
        update_first is_pending (start at) phases,
        plain_step phase_started (some nxt.seq) at ∷ [],
      )
      else (phases, [])
]

complete : ℤ → Phase → Phase
complete at p = record p {
  status = PhaseStatus.completed;
  actual_seconds = some p.planned_seconds;
  ended_at = some at;
}

-- `_complete_phase`
complete_phase : Bool → Bool → List Phase → Phase → ℤ → List Phase × List Step
unfolding complete auto_start
complete_phase auto_breaks auto_focus phases cur at =
    let (phases', started) = auto_start auto_breaks auto_focus at (on_live (complete at) phases) in
    (
      phases',
      record (plain_step phase_completed (some cur.seq) at) {
        actual_seconds = some cur.planned_seconds;
        scored = is_focus cur.kind;
      }
          ∷ started,
    )

fail_speedrun : Run → Phase → ℤ → Run × List Step
fail_speedrun r cur deadline =
    let phases = on_live (close_phase PhaseStatus.abandoned deadline) r.phases in
    (
      record {
        session =
            speedrun_result "miss" cur.planned_seconds
              (Fields.field "reason" (Json.str "timeout") Fields.end)
              (end_session SessionStatus.abandoned deadline r.session);
        phases = skip_pending deadline phases;
      },
      skip_steps deadline phases
          ++ plain_step phase_abandoned (some cur.seq) deadline
            ∷ record (plain_step speedrun_failed (some cur.seq) deadline) {
              scored = true;
              reason = some "timeout";
              extra =
                  Fields.field "speedrun_type" (Json.str "time_boxed")
                    (Fields.field "elapsed_seconds" (Json.int cur.planned_seconds) Fields.end);
            }
            ∷ [],
    )

-- `_check_speedrun_deadline`, with no steps and no change for its `None`.
pub check_speedrun_deadline : Run → Phase → ℤ → Run × List Step
unfolding fail_speedrun
check_speedrun_deadline r cur now =
    let deadline = plus_seconds (get_or cur.started_at now) cur.planned_seconds in
    elim (speedrun_type r.session cur) [
      | beat_best ↦ (r, [])
      | time_boxed ↦ if ltb_ℤ now deadline then (r, []) else fail_speedrun r cur deadline
    ]

-- One pass of the loop over a running phase: `none` goes round again.
pub data Pass : Type 0 where
  leave : Run × List Step → Pass
  again : List Phase × List Step → ℤ → Pass

running_pass : Bool → Bool → Run → Phase → ℤ → Pass
unfolding complete_phase
running_pass auto_breaks auto_focus r cur now =
    let at = phase_end cur now in
    if ltb_ℤ now at
    then leave (r, [])
    else again (complete_phase auto_breaks auto_focus r.phases cur at) at

live_pass : Bool → Bool → Run → Phase → ℤ → Pass
unfolding check_speedrun_deadline check_pause_overflow running_pass
live_pass auto_breaks auto_focus r cur now = elim cur.kind [
  | Kind.stopwatch ↦ leave (r, [])
  | Kind.speedrun ↦ leave (check_speedrun_deadline r cur now)
  | _ ↦
      if is_paused cur
      then leave (check_pause_overflow r cur now)
      else running_pass auto_breaks auto_focus r cur now
]

pass : Bool → Bool → Run → ℤ → ℤ → Pass
unfolding resolve_no_live live_pass
pass auto_breaks auto_focus r last_end now = elim (live_phase r.phases) [
  | none ↦ leave (resolve_no_live r last_end now)
  | some cur ↦ live_pass auto_breaks auto_focus r cur now
]

-- The `while True` of `evaluate`; each further pass has completed one more phase.
evaluate_loop : ℕ → Bool → Bool → Run → ℤ → ℤ → List Step → Option (Run × List Step)
evaluate_loop zero auto_breaks auto_focus r last_end now steps = none
evaluate_loop (suc fuel) auto_breaks auto_focus r last_end now steps =
    elim (pass auto_breaks auto_focus r last_end now) [
      | leave (r', more) ↦ some (r', steps ++ more)
      | again (phases, more) at ↦
          evaluate_loop fuel auto_breaks auto_focus (record r { phases = phases }) at now
            (steps ++ more)
    ]

-- `max(ended, default=…)`
latest : Option ℤ → List Phase → Option ℤ
latest best [] = best
latest best (p ∷ ps) =
    latest
      (elim p.ended_at [
        | none ↦ best
        | some e ↦ some (elim best [ none ↦ e | some b ↦ max_ℤ b e ])
      ])
      ps

abbrev toggle : String → Bool → Fields → Bool
toggle k d preset = elim (get k preset) [ none ↦ d | some v ↦ truthy v ]

unfoldable pub evaluate : Run → ℤ → Option (Run × List Step)
unfolding evaluate_loop pass latest
evaluate r now =
    if is_running r.session
    then evaluate_loop (suc (length r.phases)) (toggle "auto_start_breaks" true r.session.preset)
        (toggle "auto_start_focus" false r.session.preset) r
        (get_or (latest none r.phases) r.session.started_at) now []
    else some (r, [])
