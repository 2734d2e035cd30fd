-- ===== src/Focus/Evaluate/Sound.antt =====
-- The ways in which a pass of `evaluate` of app/game/session_engine.py leaves its loop: the session
-- after each, and the account of its steps.
use task_buddy_backend.Prelude.{
  ◌≡◌, refl, true, false, none, some, List, [], ◌++◌, inl, inr, ℤ, ◌+ℤ◌, arith, ltb_ℤ, leb_ℤ, ◌==◌,
  Bool-cases, get_or, count, bit, Option-cases, count-append, find_first-none,
}
use task_buddy_backend.Focus.Types.{
  Phase, Session, Run, Step, is_pending, is_live, is_focus_done, is_completed, is_running,
  live_phase, next_pending, completed_focus_count, plus_seconds, seconds_between, grace_seconds,
}
use task_buddy_backend.Focus.Audit.{IsWellFormed, Sound, is_focus_credit, is_charge, is_abandoned}
use task_buddy_backend.Focus.Skip.{
  skip_pending, skip_steps, speedrun_result, speedrun_type, RunType, time_boxed, beat_best,
}
use task_buddy_backend.Focus.Skip.Counts.{
  count-skip_pending_pending, count-skip_pending_live, count-skip_pending_done,
  count-skip_steps_credit, count-skip_steps_charge,
}
use task_buddy_backend.Focus.Evaluate.{
  on_live, close_idle, resolve_no_live, check_pause_overflow, fail_speedrun,
  check_speedrun_deadline,
}
use task_buddy_backend.Focus.Evaluate.Live.{count-on_live_live, count-on_live_done}

-- The rows of a session that ends now: no phase is live, and those that never started are skipped.
module _ (r : Run) (ps : List Phase) (at : ℤ) (s : Session) (steps : List Step) where
  pub closed_sound :
      count is_live ps ≡ 0
      → count is_focus_done ps ≡ count is_focus_done r.phases
      → is_running r.session ≡ true
      → count is_focus_credit steps ≡ 0
      → bit (is_abandoned s) ≡ count is_charge steps
      → Sound r (record { session = s; phases = skip_pending at ps }, skip_steps at ps ++ steps)
  closed_sound live done run credit charge = (
    record {
      one_live = omega (arith, count-skip_pending_live at ps);
      none_live = λ _. omega (arith, count-skip_pending_live at ps);
      none_pending = λ _. count-skip_pending_pending at ps;
    },
    record {
      credits = omega (
        arith,
        count-skip_pending_done at ps,
        count-append is_focus_credit (skip_steps at ps) steps,
        count-skip_steps_credit at ps,
      );
      charges =
          ground
            (arith, count-append is_charge (skip_steps at ps) steps, count-skip_steps_charge at ps);
    },
  )

-- A step list without credits or charges, over an unchanged session.
pub same_sound : (r : Run) → IsWellFormed r → Sound r (r, [])
same_sound r w = (w, record { credits = omega arith; charges = omega arith })

module _ (r : Run) (running : is_running r.session ≡ true) where
  close_idle-Sound : (at : ℤ) → count is_live r.phases ≡ 0 → Sound r (close_idle r at)
  unfolding close_idle
  close_idle-Sound at idle =
      elim (Bool-cases (completed_focus_count (skip_pending at r.phases) == 0)) [
        | inl e ↦ rw e (closed_sound r r.phases at _ _ idle refl running refl refl)
        | inr e ↦ rw e (closed_sound r r.phases at _ _ idle refl running refl refl)
      ]

  pub resolve_no_live-Sound :
      (last_end now : ℤ)
      → IsWellFormed r
      → live_phase r.phases ≡ none
      → Sound r (resolve_no_live r last_end now)
  unfolding resolve_no_live
  resolve_no_live-Sound last_end now w idle =
      let no_live = find_first-none is_live r.phases idle in
      elim (Option-cases (next_pending r.phases)) [
        | inl e ↦
            rw (e, resolve_no_live)
              (
                record {
                  one_live = omega (arith, no_live);
                  none_live = λ _. no_live;
                  none_pending = λ _. find_first-none is_pending r.phases e;
                },
                record { credits = omega arith; charges = ground arith },
              )
        | inr (p, e) ↦
            rw (e, resolve_no_live)
              (elim (Bool-cases (ltb_ℤ now (plus_seconds last_end grace_seconds))) [
                | inl early ↦ rw early (same_sound r w)
                | inr late ↦
                    rw late (close_idle-Sound (plus_seconds last_end grace_seconds) no_live)
              ])
      ]

  module _ (cur : Phase) (now : ℤ) (live : live_phase r.phases ≡ some cur)
      (w : IsWellFormed r) where
    -- The session ends with the live phase, which `f` takes out of play.
    pub ended_sound :
        (f : Phase → Phase) (at : ℤ) (s : Session) (steps : List Step)
        → is_live (f cur) ≡ false
        → is_completed (f cur) ≡ false
        → count is_focus_credit steps ≡ 0
        → bit (is_abandoned s) ≡ count is_charge steps
        → Sound r (
          record { session = s; phases = skip_pending at (on_live f r.phases) },
          skip_steps at (on_live f r.phases) ++ steps,
        )
    ended_sound f at s steps dead undone credit charge =
        closed_sound r (on_live f r.phases) at s steps
          (ground (arith, count-on_live_live f r.phases cur live, w.one_live))
          (ground (arith, count-on_live_done f r.phases cur live)) running credit charge

    pub check_pause_overflow-Sound : Sound r (check_pause_overflow r cur now)
    unfolding check_pause_overflow
    check_pause_overflow-Sound =
        elim (Bool-cases (
          leb_ℤ (cur.paused_seconds +ℤ seconds_between (get_or cur.pause_started_at now) now)
            r.session.pause_budget_seconds)) [
              | inl e ↦ rw e (same_sound r w)
              | inr e ↦ rw e (ended_sound _ _ _ _ refl refl refl refl)
            ]

    fail_speedrun-Sound : (deadline : ℤ) → Sound r (fail_speedrun r cur deadline)
    unfolding fail_speedrun speedrun_result
    fail_speedrun-Sound deadline = ended_sound _ _ _ _ refl refl refl refl

    pub check_speedrun_deadline-Sound : Sound r (check_speedrun_deadline r cur now)
    unfolding check_speedrun_deadline
    check_speedrun_deadline-Sound = by_type (speedrun_type r.session cur) refl
      where
        deadline : ℤ
        deadline = plus_seconds (get_or cur.started_at now) cur.planned_seconds

        by_type :
            (t : RunType)
            → speedrun_type r.session cur ≡ t
            → Sound r (check_speedrun_deadline r cur now)
        by_type beat_best e = rw (e, check_speedrun_deadline) (same_sound r w)
        by_type time_boxed e =
            rw (e, check_speedrun_deadline)
              (elim (Bool-cases (ltb_ℤ now deadline)) [
                | inl early ↦ rw early (same_sound r w)
                | inr late ↦ rw late (fail_speedrun-Sound deadline)
              ])
