-- ===== src/Focus/Finish/Rewards.antt =====
-- What `stop` of a stopwatch and `done` of app/game/session_engine.py pay for.
use task_buddy_backend.Prelude.{
  String, ℕ, zero, suc, ◌+◌, ◌*◌, ◌≤◌, ◌<◌, ◌≡◌, ◌⊎◌, ◌↔◌, refl, Bool, true, false, Option, none,
  some, List, [], ◌∷◌, ◌++◌, inl, inr, ℤ, pos, pos_part, ◌≤ℤ◌, ◌<ℤ◌, arith, count, bit, ltb_ℤ,
  leb_ℤ, max_ℤ, get_or, is_some, Bool-cases, count-append, ok,
}
use task_buddy_backend.Json.{get}
use task_buddy_backend.Focus.Types.{
  Phase, PhaseStatus, Run, Step, Kind, speedrun_completed, record_set, live_phase, seconds_between,
}
use task_buddy_backend.Focus.Skip.{
  skip_steps, close_phase, speedrun_result, speedrun_type, time_boxed, beat_best,
}
use task_buddy_backend.Focus.Audit.{is_abandoned}
use task_buddy_backend.Focus.Evaluate.{on_live}
use task_buddy_backend.Focus.Finish.{
  win, finish, complete_run, finish_live, done, abandon_speedrun, milestones, milestone_count,
  is_record, stop, stop_stopwatch, stop_phase, stopwatch_actual, stopwatch_paused,
}

-- A step that carries the index of a milestone.
abbrev pub is_milestone : Step → Bool
is_milestone s = is_some (get "milestone_index" s.extra)

milestones_all :
    (n i seq : ℕ) (started paused : ℤ) → count is_milestone (milestones n i seq started paused) ≡ n
unfolding milestones
milestones_all zero i seq started paused = refl
milestones_all (suc n) i seq started paused =
    omega (arith, milestones_all n (suc i) seq started paused)

skip_steps_milestone : (at : ℤ) (ps : List Phase) → count is_milestone (skip_steps at ps) ≡ 0
skip_steps_milestone at [] = refl
skip_steps_milestone at (p ∷ ps) = ground (arith, skip_steps_milestone at ps)

-- The net seconds of the stopwatch pay one milestone for every whole 25 minutes, and 100 at most.
milestone_count_bounds :
    (actual : ℤ)
    → (milestone_count actual ≤ 100)
      × (milestone_count actual * 1500 ≤ pos_part actual)
      × ((milestone_count actual ≡ 100) ⊎ (pos_part actual < (milestone_count actual + 1) * 1500))
unfolding milestone_count
milestone_count_bounds actual = ground arith

stop_on_stopwatch :
    (r : Run) (cur : Phase) (now : ℤ)
    → live_phase r.phases ≡ some cur
    → cur.kind ≡ Kind.stopwatch
    → stop r now ≡ stop_stopwatch r cur now
unfolding stop
stop_on_stopwatch r cur now live kind = simp (live, kind, stop)

stop_stopwatch_milestones :
    (r : Run) (cur : Phase) (now : ℤ)
    → count is_milestone (stop_stopwatch r cur now).before
      ≡ milestone_count (stopwatch_actual cur now)
unfolding stop_stopwatch
stop_stopwatch_milestones r cur now =
    let actual = stopwatch_actual cur now in
    let ms =
      milestones (milestone_count actual) 1 cur.seq (get_or cur.started_at now)
        (stopwatch_paused cur now) in
    let ps = on_live (stop_phase now actual (stopwatch_paused cur now)) r.phases in
    omega (
      arith,
      count-append is_milestone ms (skip_steps now ps),
      skip_steps_milestone now ps,
      milestones_all (milestone_count actual) 1 cur.seq (get_or cur.started_at now)
          (stopwatch_paused cur now),
    )

-- Stopping a session whose live phase is a stopwatch reports n milestones with n at most 100, n
-- times 1500 at most the net seconds, and either n equal to 100 or the net seconds below (n + 1)
-- times 1500.
pub stop_pays_milestones :
    (r : Run) (cur : Phase) (now : ℤ)
    → live_phase r.phases ≡ some cur
    → cur.kind ≡ Kind.stopwatch
    → let n = count is_milestone (stop r now).before in
      let net = pos_part (stopwatch_actual cur now) in
      (n ≤ 100) × (n * 1500 ≤ net) × ((n ≡ 100) ⊎ (net < (n + 1) * 1500))
stop_pays_milestones r cur now live kind =
    rw (stop_on_stopwatch r cur now live kind, stop_stopwatch_milestones r cur now)
      (milestone_count_bounds (stopwatch_actual cur now))

-- A record is set by the first run of at least a minute, and by any such run that is faster.
abbrev pub BeatsRecord : Option ℤ → ℤ → Type 0
BeatsRecord none elapsed = pos 60 ≤ℤ elapsed
BeatsRecord (some best) elapsed = (pos 60 ≤ℤ elapsed) × (elapsed <ℤ best)

is_record_iff :
    (prior : Option ℤ) (elapsed : ℤ) → (is_record prior elapsed ≡ true) ↔ BeatsRecord prior elapsed
unfolding is_record
is_record_iff none elapsed = (λ h. ground arith, λ h. ground arith)
is_record_iff (some best) elapsed = (λ h. ground arith, λ h. ground arith)

-- A step that pays for a run, and one that sets a record.
abbrev pub is_payout : Step → Bool
is_payout s = elim s.kind [ speedrun_completed ↦ true | _ ↦ false ]

abbrev pub is_record_step : Step → Bool
is_record_step s = elim s.kind [ record_set ↦ true | _ ↦ false ]

abbrev pub wall_seconds : Phase → ℤ → ℤ
wall_seconds cur now = max_ℤ (pos 0) (seconds_between (get_or cur.started_at now) now)

-- What a finish that is not refused returns.
done_finishes :
    (r : Run) (cur : Phase) (now : ℤ) (prior : Option ℤ) (o : Run × List Step)
    → live_phase r.phases ≡ some cur
    → done r now prior ≡ ok o
    → (finish_live r cur now (wall_seconds cur now) prior ≡ o) × (pos 1 ≤ℤ wall_seconds cur now)
unfolding done
done_finishes r cur now prior o live e = ground (arith, live, e)

finish_open :
    (r : Run) (cur : Phase) (now elapsed : ℤ) (prior : Option ℤ)
    → speedrun_type r.session cur ≡ beat_best
    → (count is_record_step (finish_live r cur now elapsed prior).1 ≡ bit (is_record prior elapsed))
      × (count is_payout (finish_live r cur now elapsed prior).1 ≡ 1)
unfolding finish_live finish complete_run
finish_open r cur now elapsed prior e = ground (arith, e)

-- If an open-ended run is finished, it is paid exactly once, and it reports exactly one new record
-- if and only if it took at least 60 seconds and, where there is a previous record, fewer seconds
-- than that.
pub done_sets_record :
    (r : Run) (cur : Phase) (now : ℤ) (prior : Option ℤ) (o : Run × List Step)
    → live_phase r.phases ≡ some cur
    → speedrun_type r.session cur ≡ beat_best
    → done r now prior ≡ ok o
    → (count is_payout o.1 ≡ 1)
      × ((count is_record_step o.1 ≡ 1) ↔ BeatsRecord prior (wall_seconds cur now))
done_sets_record r cur now prior o live type e =
    let elapsed = wall_seconds cur now in
    let (same, _) = done_finishes r cur now prior o live e in
    let (recorded, paid) = finish_open r cur now elapsed prior type in
    rw (← same) (
      paid,
      (
        λ one. (is_record_iff prior elapsed).0 (ground (arith, recorded, one)),
        λ beats. ground (arith, recorded, (is_record_iff prior elapsed).1 beats),
      ),
    )

skip_steps_payout : (at : ℤ) (ps : List Phase) → count is_payout (skip_steps at ps) ≡ 0
skip_steps_payout at [] = refl
skip_steps_payout at (p ∷ ps) = ground (arith, skip_steps_payout at ps)

abandon_unpaid :
    (r : Run) (cur : Phase) (now elapsed : ℤ) (reason : String)
    → let s = abandon_speedrun r cur now elapsed reason in
      (count is_payout (s.before ++ s.final ∷ []) ≡ 0) × (is_abandoned s.run.session ≡ true)
unfolding abandon_speedrun speedrun_result
abandon_unpaid r cur now elapsed reason =
    let s = abandon_speedrun r cur now elapsed reason in
    let ps = on_live (close_phase PhaseStatus.abandoned now) r.phases in
    (omega (arith, count-append is_payout s.before (s.final ∷ []), skip_steps_payout now ps), refl)

finish_boxed :
    (r : Run) (cur : Phase) (now elapsed : ℤ) (prior : Option ℤ)
    → speedrun_type r.session cur ≡ time_boxed
    → let (after, steps) = finish_live r cur now elapsed prior in
      (count is_payout steps ≡ bit (ltb_ℤ elapsed cur.planned_seconds))
      × (is_abandoned after.session ≡ leb_ℤ cur.planned_seconds elapsed)
unfolding finish_live win complete_run speedrun_result
finish_boxed r cur now elapsed prior e = elim (Bool-cases (leb_ℤ cur.planned_seconds elapsed)) [
  | inl late ↦ ground (arith, e, late, abandon_unpaid r cur now elapsed "timeout")
  | inr early ↦ ground (arith, e, early)
]

-- If a time-boxed run is finished, it is paid exactly once if its wall-clock seconds are fewer
-- than the planned ones and not at all otherwise, and its session ends up abandoned exactly in the
-- second case.
pub done_meets_deadline :
    (r : Run) (cur : Phase) (now : ℤ) (prior : Option ℤ) (o : Run × List Step)
    → live_phase r.phases ≡ some cur
    → speedrun_type r.session cur ≡ time_boxed
    → done r now prior ≡ ok o
    → (count is_payout o.1 ≡ bit (ltb_ℤ (wall_seconds cur now) cur.planned_seconds))
      × (is_abandoned o.0.session ≡ leb_ℤ cur.planned_seconds (wall_seconds cur now))
done_meets_deadline r cur now prior o live type e =
    let (same, _) = done_finishes r cur now prior o live e in
    rw (← same) (finish_boxed r cur now (wall_seconds cur now) prior type)
