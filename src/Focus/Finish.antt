-- ===== src/Focus/Finish.antt =====
-- `stop`, `done` and `_abandon_speedrun` of app/game/session_engine.py.
pub mod Sound
pub mod DoneSound
pub mod Rewards
mod Examples
use Prim.Native.Nat.{min}
use task_buddy_backend.Prelude.{
  ℕ, zero, suc, ◌*◌, ◌/◌, String, Bool, true, not, ◌&&◌, Option, none, some, List, [], ◌∷◌, ◌++◌, ℤ,
  pos, ◌+ℤ◌, ◌-ℤ◌, pos_part, ltb_ℤ, leb_ℤ, max_ℤ, ◌==◌, get_or, if◌then◌else◌, Result, ok,
  value_error,
}
use task_buddy_backend.Json.{Json, Fields}
use task_buddy_backend.Focus.Types.{
  Phase, PhaseStatus, Session, SessionStatus, Kind, Run, Step, phase_completed, phase_skipped,
  phase_abandoned, session_ended, session_abandoned, speedrun_completed, speedrun_failed,
  record_set, max_milestones, min_record_seconds, plain_step, is_paused, is_focus, is_speedrun,
  live_phase, completed_focus_count, seconds_between, plus_seconds,
}
use task_buddy_backend.Focus.Skip.{
  skip_pending, skip_steps, time_boxed, beat_best, type_name, speedrun_type, speedrun_result,
  close_phase,
}
use task_buddy_backend.Focus.Evaluate.{end_session, on_live}

-- Python's `d if d is not None else None` as a JSON value.
abbrev pub int_or_null : Option ℤ → Json
int_or_null none = Json.null
int_or_null (some n) = Json.int n

-- What `stop` returns: the final step, and the steps before it.
abbrev pub Stopped : Type 0
Stopped = record { run : Run; final : Step; before : List Step }

-- `_abandon_speedrun`, with the open pause that its callers have folded in.
pub abandon_speedrun : Run → Phase → ℤ → ℤ → String → Stopped
abandon_speedrun r live now elapsed reason =
    let stype = speedrun_type r.session live in
    let result : String = elim stype [ time_boxed ↦ "miss" | beat_best ↦ "abandoned" ] in
    let phases = on_live (close_phase PhaseStatus.abandoned now) r.phases in
    record {
      run = record {
        session =
            speedrun_result result elapsed (Fields.field "reason" (Json.str reason) Fields.end)
              (end_session SessionStatus.abandoned now r.session);
        phases = skip_pending now phases;
      };
      final = record (plain_step speedrun_failed (some live.seq) now) {
        scored = true;
        reason = some reason;
        extra =
            Fields.field "speedrun_type" (type_name stype)
              (Fields.field "elapsed_seconds" (Json.int elapsed) Fields.end);
      };
      before = plain_step phase_abandoned (some live.seq) now ∷ skip_steps now phases;
    }

-- One step per 25 minutes: `n` more, the next one being milestone `i`.
pub milestones : ℕ → ℕ → ℕ → ℤ → ℤ → List Step
milestones zero i seq started paused = []
milestones (suc n) i seq started paused =
    record (plain_step phase_completed (some seq)
      (plus_seconds started (pos (i * 25 * 60) +ℤ paused))) {
        actual_seconds = some (pos (i * 25 * 60));
        scored = true;
        extra = Fields.field "milestone_index" (Json.int (pos i)) Fields.end;
      }
    ∷ milestones n (suc i) seq started paused

-- `len(range(25, bound + 1, 25))` for `bound = min(actual // 60, MAX_MILESTONES * 25)`
pub milestone_count : ℤ → ℕ
milestone_count actual = min (pos_part actual / 60) (max_milestones * 25) / 25

abbrev pub close : Run → ℤ → List Step → Stopped
close r now scored = record {
  run = record {
    session = end_session SessionStatus.ended now r.session;
    phases = skip_pending now r.phases;
  };
  final = plain_step session_ended none now;
  before = scored ++ skip_steps now r.phases;
}

pub stopwatch_paused : Phase → ℤ → ℤ
stopwatch_paused live now =
    if is_paused live
    then live.paused_seconds +ℤ seconds_between (get_or live.pause_started_at now) now
    else live.paused_seconds

pub stopwatch_actual : Phase → ℤ → ℤ
unfolding stopwatch_paused
stopwatch_actual live now =
    max_ℤ (pos 0) (seconds_between (get_or live.started_at now) now -ℤ stopwatch_paused live now)

abbrev pub stop_phase : ℤ → ℤ → ℤ → Phase → Phase
stop_phase now actual paused p = record p {
  actual_seconds = some actual;
  paused_seconds = paused;
  pause_started_at = none;
  status = PhaseStatus.completed;
  ended_at = some now;
}

stop_stopwatch : Run → Phase → ℤ → Stopped
unfolding stopwatch_paused stopwatch_actual milestones milestone_count
stop_stopwatch r live now =
    let paused = stopwatch_paused live now in
    let actual = stopwatch_actual live now in
    close (record r { phases = on_live (stop_phase now actual paused) r.phases }) now
      (milestones (milestone_count actual) 1 live.seq (get_or live.started_at now) paused)

abandon_or_end : Run → Option ℕ → ℤ → List Step → Stopped
abandon_or_end r seq now scored =
    if completed_focus_count r.phases == 0
    then record {
      run = record {
        session = end_session SessionStatus.abandoned now r.session;
        phases = skip_pending now r.phases;
      };
      final = record (plain_step session_abandoned seq now) { reason = some "manual_stop" };
      before = scored ++ skip_steps now r.phases;
    }
    else close r now scored

abbrev pub stop_status : Phase → PhaseStatus
stop_status live = if is_focus live.kind then PhaseStatus.abandoned else PhaseStatus.skipped

abbrev pub stop_step : Phase → ℤ → Step
stop_step live now =
    plain_step (if is_focus live.kind then phase_abandoned else phase_skipped) (some live.seq) now

stop_plain : Run → Phase → ℤ → Stopped
unfolding abandon_or_end
stop_plain r live now =
    abandon_or_end (record r { phases = on_live (close_phase (stop_status live) now) r.phases })
      (some live.seq) now (stop_step live now ∷ [])

unfoldable pub stop : Run → ℤ → Stopped
unfolding abandon_speedrun stop_stopwatch stop_plain abandon_or_end
stop r now = elim (live_phase r.phases) [
  | none ↦ abandon_or_end r none now []
  | some live ↦ elim live.kind [
    | Kind.speedrun ↦
        abandon_speedrun r live now
          (max_ℤ (pos 0) (seconds_between (get_or live.started_at now) now)) "abandon"
    | Kind.stopwatch ↦ stop_stopwatch r live now
    | _ ↦ stop_plain r live now
  ]
]

-- The time-boxed win.
win : Run → Phase → ℤ → ℤ → Session × List Step
win r live now elapsed =
    let margin = live.planned_seconds -ℤ elapsed in
    (
      speedrun_result "win" elapsed (Fields.field "margin_seconds" (Json.int margin) Fields.end)
          (end_session SessionStatus.ended now r.session),
      record (plain_step speedrun_completed (some live.seq) now) {
        scored = true;
        extra = Fields.field "speedrun_type" (Json.str "time_boxed") (
            Fields.field "elapsed_seconds" (Json.int elapsed) (
              Fields.field "win_bonus" (Json.bool (leb_ℤ min_record_seconds elapsed)) (
                Fields.field "under_budget" (Json.bool true)
                  (Fields.field "margin_seconds" (Json.int margin) Fields.end))));
      }
          ∷ [],
    )

abbrev text_or_null : Option String → Json
text_or_null none = Json.null
text_or_null (some s) = Json.str s

-- Whether a finish sets the record of its label.
pub is_record : Option ℤ → ℤ → Bool
is_record prior elapsed =
    leb_ℤ min_record_seconds elapsed && elim prior [ none ↦ true | some best ↦ ltb_ℤ elapsed best ]

-- The open-ended finish.
finish : Run → Phase → ℤ → ℤ → Option ℤ → Session × List Step
unfolding is_record
finish r live now elapsed prior =
    let set = is_record prior elapsed in
    (
      speedrun_result (if set then "record" else "finished") elapsed
          (Fields.field "old_record_seconds" (int_or_null prior) Fields.end)
          (end_session SessionStatus.ended now r.session),
      record (plain_step speedrun_completed (some live.seq) now) {
        scored = true;
        extra = Fields.field "speedrun_type" (Json.str "beat_best") (
            Fields.field "elapsed_seconds" (Json.int elapsed) (
              Fields.field "win_bonus" (Json.bool set) (
                Fields.field "record" (Json.bool set)
                  (Fields.field "old_record_seconds" (int_or_null prior) Fields.end))));
      }
          ∷ (if set
              then record (plain_step record_set (some live.seq) now) {
                scored = true;
                extra = Fields.field "activity_label" (text_or_null r.session.activity_label) (
                    Fields.field "old_seconds" (int_or_null prior)
                      (Fields.field "new_seconds" (Json.int elapsed) Fields.end));
              }
                ∷ []
              else []),
    )

complete_run : Run → Phase → ℤ → ℤ → Session × List Step → Run × List Step
complete_run r live now elapsed (session, paid) = (
  record {
    session = session;
    phases =
        on_live
          (λ p. record (close_phase PhaseStatus.completed now p) { actual_seconds = some elapsed })
          r.phases;
  },
  record (plain_step phase_completed (some live.seq) now) { actual_seconds = some elapsed } ∷ paid
      ++ plain_step session_ended none now ∷ [],
)

finish_live : Run → Phase → ℤ → ℤ → Option ℤ → Run × List Step
unfolding abandon_speedrun win finish complete_run
finish_live r live now elapsed prior = elim (speedrun_type r.session live) [
  | time_boxed ↦
      if leb_ℤ live.planned_seconds elapsed
      then (let s = abandon_speedrun r live now elapsed "timeout" in
          (s.run, s.before ++ s.final ∷ []))
      else complete_run r live now elapsed (win r live now elapsed)
  | beat_best ↦ complete_run r live now elapsed (finish r live now elapsed prior)
]

unfoldable pub done : Run → ℤ → Option ℤ → Result (Run × List Step)
unfolding finish_live
done r now prior = elim (live_phase r.phases) [
  | none ↦ value_error "no live speedrun phase to finish"
  | some live ↦
      let elapsed = max_ℤ (pos 0) (seconds_between (get_or live.started_at now) now) in
      if not (is_speedrun live.kind)
      then value_error "no live speedrun phase to finish"
      else if ltb_ℤ elapsed (pos 1)
      then value_error "run too short"
      else ok (finish_live r live now elapsed prior)
]
