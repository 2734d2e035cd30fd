-- ===== src/Focus/Controls.antt =====
-- `pause`, `resume` and `advance` of app/game/session_engine.py.
pub mod Sound
use task_buddy_backend.Prelude.{
  ℕ, ◌+◌, not, ◌&&◌, ◌||◌, none, some, List, [], ◌∷◌, ◌++◌, ℤ, pos, ◌+ℤ◌, ltb_ℤ, leb, get_or,
  update_first, if◌then◌else◌, Result, ok, value_error,
}
use task_buddy_backend.Json.{Json, Fields}
use task_buddy_backend.Focus.Types.{
  Phase, PhaseStatus, SessionStatus, Run, Step, phase_started, phase_paused, phase_resumed,
  phase_skipped, session_ended, session_abandoned, StepKind, plain_step, is_active, is_paused,
  is_pending, is_break, is_focus, is_stopwatch, is_speedrun, live_phase, next_pending,
  seconds_between,
}
use task_buddy_backend.Focus.Skip.{skip_pending, skip_steps, skip}
use task_buddy_backend.Focus.Evaluate.{end_session, on_live, start}

abbrev pub Reply : Type 0
Reply = Result (Run × List Step)

-- The session dies of its pauses, with `f` written to the live phase.
abbrev overflow : Run → Phase → (Phase → Phase) → ℤ → Run × List Step
overflow r phase f now =
    let phases = on_live f r.phases in
    (
      record {
        session = end_session SessionStatus.abandoned now r.session;
        phases = skip_pending now phases;
      },
      skip_steps now phases
          ++ record (plain_step session_abandoned (some phase.seq) now) {
            reason = some "pause_overflow";
          }
            ∷ [],
    )

-- `extra={"n": …}`
abbrev numbered : StepKind → Phase → ℕ → ℤ → Step
numbered k phase n now = record (plain_step k (some phase.seq) now) {
  extra = Fields.field "n" (Json.int (pos n)) Fields.end;
}

pause_live : Run → Phase → ℤ → Run × List Step
pause_live r phase now =
    let n = phase.pause_count + 1 in
    if (is_stopwatch phase.kind || is_speedrun phase.kind) || leb n r.session.pause_budget_count
    then (
      record r {
        phases =
            on_live
              (λ p. record p {
                pause_count = n;
                pause_started_at = some now;
                status = PhaseStatus.paused;
              })
              r.phases;
      },
      numbered phase_paused phase n now ∷ [],
    )
    else overflow r phase
        (λ p. record p {
          status = PhaseStatus.abandoned;
          ended_at = some now;
          pause_started_at = none;
        })
        now

unfoldable pub pause : Run → ℤ → Reply
unfolding pause_live
pause r now = elim (live_phase r.phases) [
  | none ↦ value_error "no running phase to pause"
  | some phase ↦
      if not (is_active phase)
      then value_error "no running phase to pause"
      else if is_break phase.kind
      then value_error "breaks cannot be paused"
      else ok (pause_live r phase now)
]

resume_live : Run → Phase → ℤ → Run × List Step
resume_live r phase now =
    let total = phase.paused_seconds +ℤ seconds_between (get_or phase.pause_started_at now) now in
    if is_focus phase.kind && ltb_ℤ r.session.pause_budget_seconds total
    then overflow r phase
        (λ p. record p {
          status = PhaseStatus.abandoned;
          ended_at = some now;
          paused_seconds = total;
          pause_started_at = none;
        })
        now
    else (
      record r {
        phases =
            on_live
              (λ p. record p {
                paused_seconds = total;
                pause_started_at = none;
                status = PhaseStatus.active;
              })
              r.phases;
      },
      numbered phase_resumed phase phase.pause_count now ∷ [],
    )

unfoldable pub resume : Run → ℤ → Reply
unfolding resume_live
resume r now = elim (live_phase r.phases) [
  | none ↦ value_error "no paused phase to resume"
  | some phase ↦
      if is_paused phase
      then ok (resume_live r phase now)
      else value_error "no paused phase to resume"
]

start_pending : Run → Phase → ℤ → Run × List Step
start_pending r pend now = (
  record r { phases = update_first is_pending (start now) r.phases },
  plain_step phase_started (some pend.seq) now ∷ [],
)

skip_break : Run → Phase → ℤ → Run × List Step
unfolding start_pending
skip_break r live now =
    let r' : Run = record r { phases = on_live (skip now) r.phases } in
    let skipped = plain_step phase_skipped (some live.seq) now in
    elim (next_pending r'.phases) [
      | some pend ↦ ((start_pending r' pend now).0, skipped ∷ (start_pending r' pend now).1)
      | none ↦ (
        record r' { session = end_session SessionStatus.ended now r'.session },
        skipped ∷ plain_step session_ended none now ∷ [],
      )
    ]

unfoldable pub advance : Run → ℤ → Reply
unfolding start_pending skip_break
advance r now = elim (live_phase r.phases) [
  | some live ↦
      if is_break live.kind && is_active live
      then ok (skip_break r live now)
      else value_error "a phase is still running"
  | none ↦ elim (next_pending r.phases) [
    | none ↦ value_error "no pending phase"
    | some pend ↦ ok (start_pending r pend now)
  ]
]
