-- ===== src/Focus/Finish/Sound.antt =====
-- `stop` of app/game/session_engine.py: the shape of the session after it, and the account of its steps.
use task_buddy_backend.Prelude.{
  ℕ, zero, suc, ◌+◌, ◌≡◌, refl, sym, ap, ◌∙◌, true, false, Option, none, some, List, [], ◌∷◌, ◌++◌,
  inl, inr, ℤ, pos, arith, count, bit, max_ℤ, ◌==◌, get_or, Bool-cases, Option-cases,
  find_first-none, count-append, String,
}
use task_buddy_backend.Focus.Types.{
  Phase, PhaseStatus, Session, Run, Step, Kind, is_live, is_focus_done, is_completed, is_running,
  live_phase, seconds_between, completed_focus_count, plain_step, phase_abandoned,
}
use task_buddy_backend.Focus.Audit.{IsWellFormed, Sound, is_focus_credit, is_charge, is_abandoned}
use task_buddy_backend.Focus.Skip.{skip_pending, skip_steps, speedrun_result, close_phase}
use task_buddy_backend.Focus.Skip.Counts.{
  count-skip_pending_pending, count-skip_pending_live, count-skip_pending_done,
  count-skip_steps_credit, count-skip_steps_charge,
}
use task_buddy_backend.Focus.Evaluate.{on_live}
use task_buddy_backend.Focus.Evaluate.Live.{count-on_live_live, count-on_live_done}
use task_buddy_backend.Focus.Controls.Sound.{running_of_live}
use task_buddy_backend.Focus.Finish.{
  Stopped, abandon_speedrun, milestones, milestone_count, close, stopwatch_paused, stopwatch_actual,
  stop_stopwatch, abandon_or_end, stop_plain, stop_status, stop_step, stop_phase, stop,
}

-- Everything that `stop` reports, in the order of the ledger.
abbrev pub steps_of : Stopped → List Step
steps_of s = s.before ++ s.final ∷ []

-- A session that is over, whose rows are closed.
closed_rows :
    (r : Run) (ps : List Phase) (at : ℤ) (s : Session) (steps : List Step)
    → count is_live ps ≡ 0
    → count is_focus_done ps ≡ count is_focus_done r.phases + count is_focus_credit steps
    → is_running r.session ≡ true
    → bit (is_abandoned s) ≡ count is_charge steps
    → Sound r (record { session = s; phases = skip_pending at ps }, steps)
closed_rows r ps at s steps live credit run charge = (
  record {
    one_live = omega (arith, count-skip_pending_live at ps);
    none_live = λ _. omega (arith, count-skip_pending_live at ps);
    none_pending = λ _. count-skip_pending_pending at ps;
  },
  record { credits = omega (arith, count-skip_pending_done at ps); charges = ground arith },
)

milestones_credit :
    (n i seq : ℕ) (started paused : ℤ)
    → count is_focus_credit (milestones n i seq started paused) ≡ 0
unfolding milestones
milestones_credit zero i seq started paused = refl
milestones_credit (suc n) i seq started paused =
    omega (arith, milestones_credit n (suc i) seq started paused)

milestones_charge :
    (n i seq : ℕ) (started paused : ℤ) → count is_charge (milestones n i seq started paused) ≡ 0
unfolding milestones
milestones_charge zero i seq started paused = refl
milestones_charge (suc n) i seq started paused =
    omega (arith, milestones_charge n (suc i) seq started paused)

-- The counts over `scored ++ skip_steps ++ final`.
module _ (scored : List Step) (at : ℤ) (ps : List Phase) (final : Step) where
  steps_credit :
      count is_focus_credit ((scored ++ skip_steps at ps) ++ final ∷ [])
      ≡ count is_focus_credit scored + bit (is_focus_credit final)
  steps_credit = omega (
    arith,
    count-append is_focus_credit (scored ++ skip_steps at ps) (final ∷ []),
    count-append is_focus_credit scored (skip_steps at ps),
    count-skip_steps_credit at ps,
  )

  steps_charge :
      count is_charge ((scored ++ skip_steps at ps) ++ final ∷ [])
      ≡ count is_charge scored + bit (is_charge final)
  steps_charge = omega (
    arith,
    count-append is_charge (scored ++ skip_steps at ps) (final ∷ []),
    count-append is_charge scored (skip_steps at ps),
    count-skip_steps_charge at ps,
  )

-- `r` is the session before the call, `ps` its rows once the live phase is out of play.
module _ (r : Run) (ps : List Phase) (now : ℤ) (running : is_running r.session ≡ true)
    (idle : count is_live ps ≡ 0) (scored : List Step)
    (fresh : count is_focus_done ps ≡ count is_focus_done r.phases + count is_focus_credit scored)
    (free : count is_charge scored ≡ 0) where
  close-Sound : let s = close (record r { phases = ps }) now scored in Sound r (s.run, steps_of s)
  close-Sound =
      closed_rows r ps now _ _ idle
        (omega
          (arith, steps_credit scored now ps (close (record r { phases = ps }) now scored).final))
        running
        (omega
          (arith, steps_charge scored now ps (close (record r { phases = ps }) now scored).final))

  abandon_or_end-Sound :
      (seq : Option ℕ)
      → let s = abandon_or_end (record r { phases = ps }) seq now scored in
        Sound r (s.run, steps_of s)
  unfolding abandon_or_end
  abandon_or_end-Sound seq = elim (Bool-cases (completed_focus_count ps == 0)) [
    | inl e ↦
        rw (e, abandon_or_end)
          (closed_rows r ps now _ _ idle (omega (arith, steps_credit scored now ps)) running
            (omega (arith, steps_charge scored now ps)))
    | inr e ↦ rw (e, abandon_or_end) close-Sound
  ]

module _ (r : Run) (cur : Phase) (live : live_phase r.phases ≡ some cur) (w : IsWellFormed r) where
  taken_out : (f : Phase → Phase) → is_live (f cur) ≡ false → count is_live (on_live f r.phases) ≡ 0
  taken_out f dead = ground (arith, w.one_live, count-on_live_live f r.phases cur live)

  no_credit :
      (f : Phase → Phase)
      → is_completed (f cur) ≡ false
      → count is_focus_done (on_live f r.phases) ≡ count is_focus_done r.phases + 0
  no_credit f undone = ground (arith, count-on_live_done f r.phases cur live)

  pub abandon_speedrun-Sound :
      (now elapsed : ℤ) (reason : String)
      → let s = abandon_speedrun r cur now elapsed reason in Sound r (s.run, steps_of s)
  unfolding abandon_speedrun speedrun_result
  abandon_speedrun-Sound now elapsed reason =
      let s = abandon_speedrun r cur now elapsed reason in
      let ps = on_live (close_phase PhaseStatus.abandoned now) r.phases in
      let first = plain_step phase_abandoned (some cur.seq) now ∷ [] in
      closed_rows r ps now s.run.session (steps_of s)
        (taken_out (close_phase PhaseStatus.abandoned now) refl)
        (no_credit (close_phase PhaseStatus.abandoned now) refl
          ∙ ap (λ k. count is_focus_done r.phases + k) (sym (steps_credit first now ps s.final)))
        (running_of_live r cur w live) (sym (steps_charge first now ps s.final))

  stop_plain-Sound : (now : ℤ) → let s = stop_plain r cur now in Sound r (s.run, steps_of s)
  unfolding stop_plain
  stop_plain-Sound now =
      abandon_or_end-Sound r (on_live (close_phase (stop_status cur) now) r.phases) now
        (running_of_live r cur w live)
        (taken_out (close_phase (stop_status cur) now) (ground arith)) (stop_step cur now ∷ [])
        (ground (arith, no_credit (close_phase (stop_status cur) now))) (ground arith)
        (some cur.seq)

  stop_stopwatch-Sound :
      (now : ℤ)
      → cur.kind ≡ Kind.stopwatch
      → let s = stop_stopwatch r cur now in Sound r (s.run, steps_of s)
  unfolding stop_stopwatch
  stop_stopwatch-Sound now kind =
      let actual = stopwatch_actual cur now in
      let paused = stopwatch_paused cur now in
      close-Sound r (on_live (stop_phase now actual paused) r.phases) now
        (running_of_live r cur w live) (taken_out (stop_phase now actual paused) refl)
        (milestones (milestone_count actual) 1 cur.seq (get_or cur.started_at now) paused)
        (ground (
          arith,
          count-on_live_done (stop_phase now actual paused) r.phases cur live,
          milestones_credit (milestone_count actual) 1 cur.seq (get_or cur.started_at now) paused,
        ))
        (milestones_charge (milestone_count actual) 1 cur.seq (get_or cur.started_at now) paused)

-- Stopping a running well-formed session leaves it well-formed; the focus credits among its steps
-- are the focus phases that became completed, and its charged steps are one if the session became
-- abandoned and none otherwise.
pub stop-Sound :
    (r : Run) (now : ℤ)
    → IsWellFormed r
    → is_running r.session ≡ true
    → let s = stop r now in Sound r (s.run, steps_of s)
unfolding stop
stop-Sound r now w running = elim (Option-cases (live_phase r.phases)) [
  | inl e ↦
      rw (e, stop)
        (abandon_or_end-Sound r r.phases now running (find_first-none is_live r.phases e) []
          (omega arith) refl none)
  | inr (cur, e) ↦ by_kind cur e cur.kind refl
]
  where
    by_kind :
        (cur : Phase)
        → live_phase r.phases ≡ some cur
        → (k : Kind) → cur.kind ≡ k
        → let s = stop r now in Sound r (s.run, steps_of s)
    by_kind cur e Kind.focus k = rw (e, k, stop) (stop_plain-Sound r cur e w now)
    by_kind cur e Kind.break k = rw (e, k, stop) (stop_plain-Sound r cur e w now)
    by_kind cur e Kind.stopwatch k = rw (e, k, stop) (stop_stopwatch-Sound r cur e w now k)
    by_kind cur e Kind.speedrun k =
        rw (e, k, stop)
          (abandon_speedrun-Sound r cur e w now
            (max_ℤ (pos 0) (seconds_between (get_or cur.started_at now) now)) "abandon")
