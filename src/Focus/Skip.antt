-- ===== src/Focus/Skip.antt =====
-- `_skip_pending`, `speedrun_type`, `_speedrun_result` and `_bank_open_pause` of
-- app/game/session_engine.py.
pub mod Counts
use task_buddy_backend.Prelude.{
  String, Option, none, some, List, [], ◌∷◌, ℤ, pos, ◌+ℤ◌, ltb_ℤ, str_eq, if◌then◌else◌,
}
use task_buddy_backend.Json.{Json, Fields, get, put, as_dict}
use task_buddy_backend.Focus.Types.{
  Phase, PhaseStatus, Session, Step, phase_skipped, is_pending, plain_step, seconds_between,
}

abbrev pub skip : ℤ → Phase → Phase
skip at p = record p { status = PhaseStatus.skipped; ended_at = some at }

-- The rows after `_skip_pending`.
abbrev pub skip_pending : ℤ → List Phase → List Phase
skip_pending at [] = []
skip_pending at (p ∷ ps) = (if is_pending p then skip at p else p) ∷ skip_pending at ps

-- The steps that `_skip_pending` returns.
abbrev pub skip_steps : ℤ → List Phase → List Step
skip_steps at [] = []
skip_steps at (p ∷ ps) =
    let more = skip_steps at ps in
    if is_pending p then plain_step phase_skipped (some p.seq) at ∷ more else more

pub data RunType : Type 0 where
  time_boxed beat_best : RunType

unfoldable pub planned_type : Phase → RunType
planned_type p = if ltb_ℤ (pos 0) p.planned_seconds then time_boxed else beat_best

-- `str(value)` is one of the two words only where `value` is that text.
unfoldable pub named_type : Option Json → Option RunType
named_type (some (Json.str t)) =
    if str_eq t "time_boxed"
    then some time_boxed
    else if str_eq t "beat_best"
    then some beat_best
    else none
named_type _ = none

unfoldable pub speedrun_type : Session → Phase → RunType
unfolding planned_type named_type
speedrun_type s p = elim (named_type (get "type" (as_dict s.speedrun))) [
  | some t ↦ t
  | none ↦ planned_type p
]

abbrev pub type_name : RunType → Json
type_name time_boxed = Json.str "time_boxed"
type_name beat_best = Json.str "beat_best"

-- `{**d, **extra}`
abbrev pub merge : Fields → Fields → Fields
merge d Fields.end = d
merge d (Fields.field k v extra) = merge (put k v d) extra

unfoldable pub speedrun_result : String → ℤ → Fields → Session → Session
speedrun_result result elapsed extra s = record s {
  speedrun = Json.obj (
      merge
        (put "elapsed_seconds" (Json.int elapsed)
          (put "result" (Json.str result) (as_dict s.speedrun)))
        extra);
}

banked : Phase → Option ℤ → ℤ → Phase
banked p none now = p
banked p (some since) now = record p {
  paused_seconds = p.paused_seconds +ℤ seconds_between since now;
  pause_started_at = none;
}

-- Only a paused phase has an open pause to fold in.
unfoldable pub bank_open_pause : ℤ → Phase → Phase
unfolding banked
bank_open_pause now p = elim p.status [
  | PhaseStatus.paused ↦ banked p p.pause_started_at now
  | _ ↦ p
]

-- The phase leaves play at `at`, its open pause folded in.
abbrev pub close_phase : PhaseStatus → ℤ → Phase → Phase
close_phase st at p = record (bank_open_pause at p) { status = st; ended_at = some at }
