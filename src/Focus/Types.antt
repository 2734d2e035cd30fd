-- ===== src/Focus/Types.antt =====
-- app/game/session_engine.py: the rows that the engine moves, and the steps that it reports.
-- An instant is a number of microseconds since the epoch: a stamp without a zone is read as UTC,
-- so `_aware` changes no instant.
use Prim.Native.Nat.{◌*◌}
use task_buddy_backend.Prelude.{
  ℕ, suc, ◌+◌, ◌/◌, String, Bool, true, false, ◌&&◌, Option, none, some, List, ℤ, pos, negsuc, ◌+ℤ◌,
  ◌-ℤ◌, sub_ℕ, find_first, count, get_or,
}
use task_buddy_backend.Json.{Json, Fields}

abbrev pub grace_seconds : ℤ
grace_seconds = pos 300

abbrev pub max_milestones : ℕ
max_milestones = 100

abbrev pub min_record_seconds : ℤ
min_record_seconds = pos 60

pub data PhaseStatus : Type 0 where
  pending active paused completed skipped abandoned : PhaseStatus

pub data SessionStatus : Type 0 where
  active ended abandoned : SessionStatus

pub data Kind : Type 0 where
  focus break stopwatch speedrun : Kind

pub record Phase : Type 0 where
  pub seq : ℕ
  pub kind : Kind
  pub status : PhaseStatus
  pub planned_seconds : ℤ
  pub actual_seconds : Option ℤ
  pub pause_count : ℕ
  pub paused_seconds : ℤ
  pub pause_started_at : Option ℤ
  pub started_at : Option ℤ
  pub ended_at : Option ℤ

pub record Session : Type 0 where
  pub status : SessionStatus
  pub activity_label : Option String
  pub preset : Fields
  pub pause_budget_count : ℕ
  pub pause_budget_seconds : ℤ
  pub speedrun : Json
  pub started_at : ℤ
  pub ended_at : Option ℤ

-- The session row and its phase rows, which every operation changes together.
pub record Run : Type 0 where
  pub session : Session
  pub phases : List Phase

pub data StepKind : Type 0 where
  phase_completed phase_started phase_paused phase_resumed phase_skipped phase_abandoned : StepKind
  session_ended session_abandoned speedrun_completed speedrun_failed record_set : StepKind

pub record Step : Type 0 where
  pub kind : StepKind
  pub phase_seq : Option ℕ
  pub at : Option ℤ
  pub actual_seconds : Option ℤ
  pub scored : Bool
  pub reason : Option String
  pub extra : Fields

-- `Step(kind, phase_seq=…, at=…)` with the other fields at their defaults.
abbrev pub plain_step : StepKind → Option ℕ → ℤ → Step
plain_step k seq at = record {
  kind = k;
  phase_seq = seq;
  at = some at;
  actual_seconds = none;
  scored = false;
  reason = none;
  extra = Fields.end;
}

abbrev pub is_pending : Phase → Bool
is_pending p = elim p.status [ PhaseStatus.pending ↦ true | _ ↦ false ]

abbrev pub is_active : Phase → Bool
is_active p = elim p.status [ PhaseStatus.active ↦ true | _ ↦ false ]

abbrev pub is_paused : Phase → Bool
is_paused p = elim p.status [ PhaseStatus.paused ↦ true | _ ↦ false ]

abbrev pub is_live : Phase → Bool
is_live p = elim p.status [ PhaseStatus.active ↦ true | PhaseStatus.paused ↦ true | _ ↦ false ]

abbrev pub is_completed : Phase → Bool
is_completed p = elim p.status [ PhaseStatus.completed ↦ true | _ ↦ false ]

abbrev pub is_focus : Kind → Bool
is_focus focus = true
is_focus _ = false

abbrev pub is_break : Kind → Bool
is_break break = true
is_break _ = false

abbrev pub is_stopwatch : Kind → Bool
is_stopwatch stopwatch = true
is_stopwatch _ = false

abbrev pub is_speedrun : Kind → Bool
is_speedrun speedrun = true
is_speedrun _ = false

abbrev pub is_running : Session → Bool
is_running s = elim s.status [ SessionStatus.active ↦ true | _ ↦ false ]

abbrev pub live_phase : List Phase → Option Phase
live_phase = find_first is_live

abbrev pub next_pending : List Phase → Option Phase
next_pending = find_first is_pending

abbrev pub is_focus_done : Phase → Bool
is_focus_done p = is_focus p.kind && is_completed p

abbrev pub completed_focus_count : List Phase → ℕ
completed_focus_count = count is_focus_done

-- `timedelta(seconds=n)` in microseconds.
abbrev pub micros : ℤ → ℤ
micros (pos n) = pos (n * 1000000)
micros (negsuc n) = negsuc (n * 1000000 + 999999)

-- `int((later - earlier).total_seconds())`, which rounds towards zero.
abbrev pub whole_seconds : ℤ → ℤ
whole_seconds (pos n) = pos (n / 1000000)
whole_seconds (negsuc n) = sub_ℕ 0 (suc n / 1000000)

unfoldable pub seconds_between : ℤ → ℤ → ℤ
seconds_between earlier later = whole_seconds (later -ℤ earlier)

unfoldable pub plus_seconds : ℤ → ℤ → ℤ
plus_seconds t n = t +ℤ micros n

-- `start + planned + paused`, with `now` for a start that is not set.
unfoldable pub phase_end : Phase → ℤ → ℤ
unfolding plus_seconds
phase_end p now = plus_seconds (get_or p.started_at now) (p.planned_seconds +ℤ p.paused_seconds)
