-- ===== src/Focus/Finish/DoneSound.antt =====
-- `done` of app/game/session_engine.py: the shape of the session after it, and the account of its steps.
use task_buddy_backend.Prelude.{
  ◌≡◌, refl, false, Option, none, some, List, [], ◌∷◌, inl, inr, ℤ, pos, arith, count, ltb_ℤ, leb_ℤ,
  max_ℤ, get_or, Bool-cases, Option-cases, count-append,
}
use task_buddy_backend.Focus.Types.{
  Phase, PhaseStatus, Session, Run, Step, plain_step, session_ended, is_pending, is_focus,
  is_speedrun, is_running, live_phase, seconds_between,
}
use task_buddy_backend.Focus.Audit.{IsWellFormed, Sound, is_focus_credit, is_charge, is_abandoned}
use task_buddy_backend.Focus.Skip.{
  speedrun_result, speedrun_type, RunType, time_boxed, beat_best, close_phase, bank_open_pause,
}
use task_buddy_backend.Focus.Evaluate.Live.{
  count-on_live_live, count-on_live_pending, count-on_live_done,
}
use task_buddy_backend.Focus.Controls.Sound.{running_of_live, Answers, Answers-guard}
use task_buddy_backend.Focus.Finish.{win, finish, complete_run, finish_live, done}
use task_buddy_backend.Focus.Finish.Sound.{abandon_speedrun-Sound}

module _ (r : Run) (cur : Phase) (live : live_phase r.phases ≡ some cur) (w : IsWellFormed r)
    (kind : is_focus cur.kind ≡ false) (alone : count is_pending r.phases ≡ 0) where
  abbrev completes : ℤ → ℤ → Phase → Phase
  completes now elapsed p = record (close_phase PhaseStatus.completed now p) {
    actual_seconds = some elapsed;
  }

  same_kind : (now : ℤ) → (close_phase PhaseStatus.completed now cur).kind ≡ cur.kind
  unfolding bank_open_pause
  same_kind now = ground arith

  complete_run-Sound :
      (now elapsed : ℤ) (s : Session) (paid : List Step)
      → is_running s ≡ false
      → is_abandoned s ≡ false
      → count is_focus_credit paid ≡ 0
      → count is_charge paid ≡ 0
      → Sound r (complete_run r cur now elapsed (s, paid))
  unfolding complete_run
  complete_run-Sound now elapsed s paid over clean credit charge = (
    record {
      one_live =
          ground (arith, w.one_live, count-on_live_live (completes now elapsed) r.phases cur live);
      none_live = λ _.
          ground (arith, w.one_live, count-on_live_live (completes now elapsed) r.phases cur live);
      none_pending = λ _.
          ground (arith, alone, count-on_live_pending (completes now elapsed) r.phases cur live);
    },
    record {
      credits = ground (
        arith,
        same_kind now,
        kind,
        credit,
        count-on_live_done (completes now elapsed) r.phases cur live,
        count-append is_focus_credit paid (plain_step session_ended none now ∷ []),
      );
      charges = ground (
        arith,
        clean,
        charge,
        running_of_live r cur w live,
        count-append is_charge paid (plain_step session_ended none now ∷ []),
      );
    },
  )

  finish_live-Sound :
      (now elapsed : ℤ) (prior : Option ℤ) → Sound r (finish_live r cur now elapsed prior)
  unfolding finish_live win finish speedrun_result
  finish_live-Sound now elapsed prior = by_type (speedrun_type r.session cur) refl
    where
      by_type :
          (t : RunType)
          → speedrun_type r.session cur ≡ t
          → Sound r (finish_live r cur now elapsed prior)
      by_type beat_best e =
          rw (e, finish_live)
            (complete_run-Sound now elapsed (finish r cur now elapsed prior).0
              (finish r cur now elapsed prior).1 refl refl (ground arith) (ground arith))
      by_type time_boxed e =
          rw (e, finish_live)
            (elim (Bool-cases (leb_ℤ cur.planned_seconds elapsed)) [
              | inl late ↦ rw late (abandon_speedrun-Sound r cur live w now elapsed "timeout")
              | inr early ↦ rw early (
                  complete_run-Sound now elapsed (win r cur now elapsed).0 (win r cur now elapsed).1
                    refl refl refl refl)
            ])

-- Finishing a well-formed session without pending phases either is refused, or leaves it well-
-- formed with focus credits that are the focus phases that became completed and one charge if the
-- session became abandoned, none otherwise.
pub done-Answers :
    (r : Run) (now : ℤ) (prior : Option ℤ)
    → IsWellFormed r
    → count is_pending r.phases ≡ 0
    → Answers r (done r now prior)
unfolding done
done-Answers r now prior w alone = elim (Option-cases (live_phase r.phases)) [
  | inl e ↦ rw (e, done) tt
  | inr (cur, e) ↦
      let elapsed = max_ℤ (pos 0) (seconds_between (get_or cur.started_at now) now) in
      rw (e, done)
        (elim (Bool-cases (is_speedrun cur.kind)) [
          | inr other ↦ rw other tt
          | inl same ↦ rw same (
              Answers-guard r (ltb_ℤ elapsed (pos 1)) "run too short"
                (finish_live r cur now elapsed prior)
                (finish_live-Sound r cur e w (ground arith) alone now elapsed prior))
        ])
]
