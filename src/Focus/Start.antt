-- ===== src/Focus/Start.antt =====
-- Opening a focus session: `_speedrun_plan`, `_plan` and the rows of `start_session` in
-- app/game/session_service.py, over SessionStartIn of app/schemas/game.py. `str.strip` is a parameter.
pub mod Paid
mod Examples
use task_buddy_backend.Prelude.{
  ℕ, zero, suc, ◌+◌, ◌*◌, String, Bool, true, false, not, Option, none, some, List, [], ◌∷◌, map, ℤ,
  pos, ◌==◌, any, is_some, get_or, str_eq, if◌then◌else◌, Result, ok, value_error, ◌>>=◌, ◌>>◌,
  raise_if,
}
use task_buddy_backend.Json.{Json, Fields, put}
use task_buddy_backend.Focus.Types.{Kind, PhaseStatus, SessionStatus, Phase, Session, Run, is_focus}

pub data Mode : Type 0 where
  timer stopwatch speedrun : Mode

pub data RunKind : Type 0 where
  time_boxed beat_best : RunKind

-- SpeedrunIn
pub record SpeedrunIn : Type 0 where
  pub kind : RunKind
  pub budget_minutes : Option ℕ

-- SessionStartIn, less the linked task; a phase is its kind and its minutes.
pub record SessionStartIn : Type 0 where
  pub mode : Mode
  pub phases : Option (List (Kind × ℕ))
  pub tag_id : Option ℕ
  pub activity_label : Option String
  pub difficulty : String
  pub auto_start_breaks : Bool
  pub auto_start_focus : Bool
  pub pause_budget_count : ℕ
  pub pause_budget_seconds : ℕ
  pub speedrun : Option SpeedrunIn

-- A phase of a plan: its kind and its seconds.
abbrev pub Plan : Type 0
Plan = List (Kind × ℕ)

abbrev pub in_seconds : Kind × ℕ → Kind × ℕ
in_seconds p = (p.0, p.1 * 60)

abbrev pub phase_row : ℕ → ℤ → Kind × ℕ → Phase
phase_row i now p = record {
  seq = i;
  kind = p.0;
  status = if i == 0 then PhaseStatus.active else PhaseStatus.pending;
  planned_seconds = pos (p.1);
  actual_seconds = none;
  pause_count = 0;
  paused_seconds = pos 0;
  pause_started_at = none;
  started_at = if i == 0 then some now else none;
  ended_at = none;
}

-- `enumerate(plan)` from `i` on
pub phase_rows : ℕ → ℤ → Plan → List Phase
phase_rows i now [] = []
phase_rows i now (p ∷ ps) = phase_row i now p ∷ phase_rows (i + 1) now ps

module _ (strip : String → String) where
  -- `(req.activity_label or "").strip()`
  abbrev pub label_of : SessionStartIn → String
  label_of req = strip (get_or req.activity_label "")

  abbrev pub is_blank : String → Bool
  is_blank s = str_eq s ""

  unfoldable pub speedrun_plan : SessionStartIn → Result Plan
  speedrun_plan req = elim req.speedrun [
    | none ↦ value_error "speedrun config is required for speedrun mode"
    | some config ↦ elim config.kind [
      | time_boxed ↦ elim config.budget_minutes [
        | none ↦ value_error "budget_minutes is required for time-boxed speedruns"
        | some minutes ↦ ok ((Kind.speedrun, minutes * 60) ∷ [])
      ]
      | beat_best ↦
          raise_if (is_some config.budget_minutes)
            "budget_minutes is only valid for time-boxed speedruns"
          >> (raise_if (is_blank (label_of req))
                "activity_label is required for beat-your-best speedruns"
              >> ok ((Kind.speedrun, 0) ∷ []))
    ]
  ]

  abbrev pub timer_plan : Option (List (Kind × ℕ)) → Result Plan
  timer_plan none = value_error "phases are required for timer mode"
  timer_plan (some []) = value_error "phases are required for timer mode"
  timer_plan (some (p ∷ ps)) =
      raise_if (not (any (λ q. is_focus (q.0)) (p ∷ ps))) "a plan needs at least one focus phase"
      >> ok (in_seconds p ∷ map in_seconds ps)

  -- `_plan`
  unfoldable pub plan : SessionStartIn → Result Plan
  unfolding speedrun_plan
  plan req = elim req.mode [
    | Mode.speedrun ↦ speedrun_plan req
    | Mode.stopwatch ↦
        raise_if (is_some req.speedrun) "speedrun config is only valid for speedrun mode"
        >> ok ((Kind.stopwatch, 0) ∷ [])
    | Mode.timer ↦
        raise_if (is_some req.speedrun) "speedrun config is only valid for speedrun mode"
        >> timer_plan req.phases
  ]

  abbrev pub preset_of : SessionStartIn → Fields
  preset_of req =
      let base = Fields.field "difficulty" (Json.str req.difficulty) (
        Fields.field "auto_start_breaks" (Json.bool req.auto_start_breaks)
          (Fields.field "auto_start_focus" (Json.bool req.auto_start_focus) Fields.end)) in
      elim req.tag_id [ none ↦ base | some tag ↦ put "tag_id" (Json.int (pos tag)) base ]

  abbrev pub target_json : Option ℤ → Json
  target_json none = Json.null
  target_json (some n) = Json.int n

  -- `speedrun_blob`, with the standing record of the label
  abbrev pub blob_of : Option ℤ → SpeedrunIn → Json
  blob_of target config = elim config.kind [
    | time_boxed ↦ elim config.budget_minutes [
      | none ↦ Json.null
      | some minutes ↦ Json.obj (
          Fields.field "type" (Json.str "time_boxed")
            (Fields.field "budget_seconds" (Json.int (pos (minutes * 60))) Fields.end))
    ]
    | beat_best ↦ Json.obj (
        Fields.field "type" (Json.str "beat_best")
          (Fields.field "target_seconds" (target_json target) Fields.end))
  ]

  abbrev pub speedrun_blob : Option ℤ → SessionStartIn → Json
  speedrun_blob target req = elim req.mode [
    | Mode.speedrun ↦ elim req.speedrun [ none ↦ Json.null | some c ↦ blob_of target c ]
    | _ ↦ Json.null
  ]

  -- Labels persist stripped, and blank ones not at all.
  abbrev pub stored_label : SessionStartIn → Option String
  stored_label req = if is_blank (label_of req) then none else some (label_of req)

  abbrev pub session_row : SessionStartIn → Option ℤ → ℤ → Session
  session_row req target now = record {
    status = SessionStatus.active;
    activity_label = stored_label req;
    preset = preset_of req;
    pause_budget_count = req.pause_budget_count;
    pause_budget_seconds = pos req.pause_budget_seconds;
    speedrun = speedrun_blob target req;
    started_at = now;
    ended_at = none;
  }

  -- The rows that `start_session` inserts; `target` is the standing record.
  unfoldable pub start_session : SessionStartIn → Option ℤ → ℤ → Result Run
  unfolding plan phase_rows
  start_session req target now = plan req >>= λ p.
      ok (record { session = session_row req target now; phases = phase_rows 0 now p })
