-- ===== src/Focus/Finish/Examples.antt =====
-- Concrete speedruns, and the theorems on them.
use task_buddy_backend.Prelude.{
  ℕ, ◌-ℤ◌, ◌≡◌, ◌↔◌, refl, Option, none, some, List, [], ◌∷◌, ℤ, pos, arith, count, bit, ltb_ℤ,
  leb_ℤ, ok,
}
use task_buddy_backend.Json.{Json, Fields}
use task_buddy_backend.Focus.Types.{
  Phase, PhaseStatus, SessionStatus, Kind, Run, Step, seconds_between,
}
use task_buddy_backend.Focus.Audit.{IsWellFormed, is_abandoned}
use task_buddy_backend.Focus.Skip.{RunType, speedrun_type, planned_type, named_type}
use task_buddy_backend.Focus.Finish.{done, finish_live}
use task_buddy_backend.Focus.Finish.Rewards.{
  is_payout, is_record_step, BeatsRecord, wall_seconds, done_sets_record, done_meets_deadline,
}

-- A run that started at instant 0, time-boxed if `planned` is positive.
abbrev dash : ℕ → Phase
dash planned = record {
  seq = 1;
  kind = Kind.speedrun;
  status = PhaseStatus.active;
  planned_seconds = pos planned;
  actual_seconds = none;
  pause_count = 0;
  paused_seconds = pos 0;
  pause_started_at = none;
  started_at = some (pos 0);
  ended_at = none;
}

abbrev dash_run : ℕ → Run
dash_run planned = record {
  session = record {
    status = SessionStatus.active;
    activity_label = some "dishes";
    preset = Fields.end;
    pause_budget_count = 3;
    pause_budget_seconds = pos 300;
    speedrun = Json.null;
    started_at = pos 0;
    ended_at = none;
  };
  phases = dash planned ∷ [];
}

-- Two minutes later.
abbrev finish_time : ℤ
finish_time = pos 120000000

-- The record of five minutes before it.
abbrev best : Option ℤ
best = some (pos 300)

dash-IsWellFormed : IsWellFormed (dash_run 0)
dash-IsWellFormed = record { one_live = omega arith; none_live = λ e. cc; none_pending = λ e. cc }

abbrev open_result : Run × List Step
open_result = finish_live (dash_run 0) (dash 0) finish_time (pos 120) best

abbrev boxed_result : Run × List Step
boxed_result = finish_live (dash_run 600) (dash 600) finish_time (pos 120) none

open_done : done (dash_run 0) finish_time best ≡ ok open_result
unfolding done seconds_between ◌-ℤ◌
open_done = refl

open_type : speedrun_type (dash_run 0).session (dash 0) ≡ RunType.beat_best
unfolding speedrun_type planned_type named_type
open_type = refl

boxed_done : done (dash_run 600) finish_time none ≡ ok boxed_result
unfolding done seconds_between ◌-ℤ◌
boxed_done = refl

boxed_type : speedrun_type (dash_run 600).session (dash 600) ≡ RunType.time_boxed
unfolding speedrun_type planned_type named_type
boxed_type = refl

done_sets_record_example :
    (count is_payout open_result.1 ≡ 1)
    × ((count is_record_step open_result.1 ≡ 1)
        ↔ BeatsRecord best (wall_seconds (dash 0) finish_time))
done_sets_record_example =
    done_sets_record (dash_run 0) (dash 0) finish_time best open_result refl open_type open_done

done_meets_deadline_example :
    (count is_payout boxed_result.1
      ≡ bit (ltb_ℤ (wall_seconds (dash 600) finish_time) (dash 600).planned_seconds))
    × (is_abandoned boxed_result.0.session
        ≡ leb_ℤ (dash 600).planned_seconds (wall_seconds (dash 600) finish_time))
done_meets_deadline_example =
    done_meets_deadline (dash_run 600) (dash 600) finish_time none boxed_result refl boxed_type
      boxed_done
