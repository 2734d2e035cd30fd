-- ===== src/Focus/Evaluate/Loop.antt =====
-- The loop of `evaluate` of app/game/session_engine.py: its fuel, and the session that it leaves.
use task_buddy_backend.Prelude.{
  ℕ, zero, suc, ◌+◌, ◌≤◌, ◌<◌, ◌≡◌, refl, ◌∙◌, Bool, true, false, Option, none, some, List, [], ◌∷◌,
  ◌++◌, inl, inr, ℤ, arith, count, length, Bool-cases, Option-cases, count-append, ltb_ℤ, get_or,
  if◌then◌else◌,
}
use mathlib.Core.List.{append_assoc}
use task_buddy_backend.Focus.Types.{
  Phase, Run, Step, Kind, is_pending, is_live, is_focus_done, is_running, is_paused, live_phase,
  next_pending, phase_end,
}
use task_buddy_backend.Focus.Audit.{IsWellFormed, Sound, is_focus_credit, is_charge}
use task_buddy_backend.Focus.Evaluate.{
  Pass, leave, again, on_live, auto_start, complete, complete_phase, running_pass, live_pass, pass,
  evaluate_loop, evaluate, toggle, latest, check_pause_overflow,
}
use task_buddy_backend.Focus.Evaluate.Live.{
  count-on_live_live, count-on_live_pending, count-on_live_done, count-start_live,
  count-start_pending, count-start_done,
}
use task_buddy_backend.Focus.Evaluate.Sound.{
  same_sound, resolve_no_live-Sound, check_pause_overflow-Sound, check_speedrun_deadline-Sound,
}

-- A pass that goes round again has completed the live phase: the rows left to run are one fewer.
pub record Advances (r : Run) (ps : List Phase) (steps : List Step) : Type 0 where
  pub one_live : count is_live ps ≤ 1
  pub shrinks :
      count is_live ps + count is_pending ps + 1
      ≡ count is_live r.phases + count is_pending r.phases
  pub credits : count is_focus_done ps ≡ count is_focus_done r.phases + count is_focus_credit steps
  pub no_charge : count is_charge steps ≡ 0

-- Starting the next phase keeps the number of rows left to run.
auto_start_counts :
    (ab af : Bool) (at : ℤ) (ps : List Phase)
    → count is_live ps ≡ 0
    → (count is_live (auto_start ab af at ps).0 ≤ 1)
      × (count is_live (auto_start ab af at ps).0 + count is_pending (auto_start ab af at ps).0
          ≡ count is_pending ps)
      × (count is_focus_done (auto_start ab af at ps).0 ≡ count is_focus_done ps)
      × (count is_focus_credit (auto_start ab af at ps).1 ≡ 0)
      × (count is_charge (auto_start ab af at ps).1 ≡ 0)
unfolding auto_start
auto_start_counts ab af at ps idle = elim (Option-cases (next_pending ps)) [
  | inl e ↦ ground (arith, e)
  | inr (nxt, e) ↦ ground (
    arith,
    e,
    count-start_live at ps nxt e,
    count-start_pending at ps nxt e,
    count-start_done at ps nxt e,
  )
]

module _ (r : Run) (cur : Phase) (live : live_phase r.phases ≡ some cur) (w : IsWellFormed r) where
  complete_phase-Advances :
      (ab af : Bool) (at : ℤ)
      → Advances r (complete_phase ab af r.phases cur at).0 (complete_phase ab af r.phases cur at).1
  unfolding complete_phase complete
  complete_phase-Advances ab af at = ground (
    arith,
    w.one_live,
    count-on_live_live (complete at) r.phases cur live,
    count-on_live_pending (complete at) r.phases cur live,
    count-on_live_done (complete at) r.phases cur live,
    auto_start_counts ab af at (on_live (complete at) r.phases),
  )

abbrev PassSound : Run → Pass → Type 0
PassSound r (leave o) = Sound r o
PassSound r (again (ps, steps) at) = Advances r ps steps

module _ (ab af : Bool) (r : Run) (running : is_running r.session ≡ true) (w : IsWellFormed r) where
  running_pass-Sound :
      (cur : Phase) (now : ℤ)
      → live_phase r.phases ≡ some cur
      → PassSound r (running_pass ab af r cur now)
  unfolding running_pass
  running_pass-Sound cur now live = elim (Bool-cases (ltb_ℤ now (phase_end cur now))) [
    | inl e ↦ rw e (same_sound r w)
    | inr e ↦ rw e (complete_phase-Advances r cur live w ab af (phase_end cur now))
  ]

  paused_or_running :
      (cur : Phase) (now : ℤ)
      → live_phase r.phases ≡ some cur
      → PassSound r (
          if is_paused cur
          then leave (check_pause_overflow r cur now)
          else running_pass ab af r cur now)
  paused_or_running cur now live = elim (Bool-cases (is_paused cur)) [
    | inl e ↦ rw e (check_pause_overflow-Sound r running cur now live w)
    | inr e ↦ rw e (running_pass-Sound cur now live)
  ]

  live_pass-Sound :
      (cur : Phase) (now : ℤ)
      → live_phase r.phases ≡ some cur
      → PassSound r (live_pass ab af r cur now)
  unfolding live_pass
  live_pass-Sound cur now live = by_kind cur.kind refl
    where
      by_kind : (k : Kind) → cur.kind ≡ k → PassSound r (live_pass ab af r cur now)
      by_kind Kind.stopwatch e = rw (e, live_pass) (same_sound r w)
      by_kind Kind.speedrun e =
          rw (e, live_pass) (check_speedrun_deadline-Sound r running cur now live w)
      by_kind Kind.focus e = rw (e, live_pass) (paused_or_running cur now live)
      by_kind Kind.break e = rw (e, live_pass) (paused_or_running cur now live)

  pass-Sound : (last_end now : ℤ) → PassSound r (pass ab af r last_end now)
  unfolding pass
  pass-Sound last_end now = elim (Option-cases (live_phase r.phases)) [
    | inl e ↦ rw (e, pass) (resolve_no_live-Sound r running last_end now w e)
    | inr (cur, e) ↦ rw (e, pass) (live_pass-Sound cur now e)
  ]

-- What a pass left, after the steps that the passes before it had reported.
record Left (r : Run) (steps : List Step) (o : Option (Run × List Step)) : Type 0 where
  pub after : Run
  pub more : List Step
  pub returned : o ≡ some (after, steps ++ more)
  pub sound : Sound r (after, more)

-- The rows that an `again` pass leaves still form a well-shaped running session.
Advances-IsWellFormed :
    (r : Run) (ps : List Phase) (steps : List Step)
    → is_running r.session ≡ true
    → Advances r ps steps
    → IsWellFormed (record r { phases = ps })
Advances-IsWellFormed r ps steps running a = record {
  one_live = a.one_live;
  none_live = λ stopped. cc;
  none_pending = λ stopped. cc;
}

Sound-Advances :
    (r after : Run) (ps : List Phase) (steps more : List Step)
    → Advances r ps steps
    → Sound (record r { phases = ps }) (after, more)
    → Sound r (after, steps ++ more)
Sound-Advances r after ps steps more a s = (
  s.0,
  record {
    credits = omega (arith, count-append is_focus_credit steps more, a.credits, s.1.credits);
    charges = omega (arith, count-append is_charge steps more, a.no_charge, s.1.charges);
  },
)

evaluate_loop-Left :
    (fuel : ℕ) (ab af : Bool) (r : Run) (last_end now : ℤ) (steps : List Step)
    → is_running r.session ≡ true
    → IsWellFormed r
    → count is_live r.phases + count is_pending r.phases < fuel
    → Left r steps (evaluate_loop fuel ab af r last_end now steps)
unfolding evaluate_loop
evaluate_loop-Left zero ab af r last_end now steps running w enough = absurd (omega arith)
evaluate_loop-Left (suc fuel) ab af r last_end now steps running w enough =
    go (pass ab af r last_end now) refl (pass-Sound ab af r running w last_end now)
      (λ ps at. evaluate_loop-Left fuel ab af (record r { phases = ps }) at now)
  where
    go :
        (p : Pass)
        → pass ab af r last_end now ≡ p
        → PassSound r p
        → ((ps : List Phase) (at : ℤ) (before : List Step)
            → is_running r.session ≡ true
            → IsWellFormed (record r { phases = ps })
            → count is_live ps + count is_pending ps < fuel
            → Left
                (record r { phases = ps })
                before
                (evaluate_loop fuel ab af (record r { phases = ps }) at now before))
        → Left r steps (evaluate_loop (suc fuel) ab af r last_end now steps)
    go (leave (after, more)) e s ih = record {
      after = after;
      more = more;
      returned = rw (e, evaluate_loop);
      sound = s;
    }
    go (again (ps, fresh) at) e a ih =
        let l =
          ih ps at (steps ++ fresh) running (Advances-IsWellFormed r ps fresh running a)
            (omega (arith, a.shrinks)) in
        record {
          after = l.after;
          more = fresh ++ l.more;
          returned = rw (e, evaluate_loop) (l.returned ∙ rw append_assoc refl);
          sound = Sound-Advances r l.after ps fresh l.more a l.sound;
        }

open_rows : (ps : List Phase) → count is_live ps + count is_pending ps ≤ length ps
open_rows [] = omega arith
open_rows (p ∷ ps) = ground (arith, open_rows ps)

-- For a well-formed session and any instant, `evaluate` returns: the fuel of one round for each
-- phase and one more is enough; the session it leaves is well-formed, its focus credits are the
-- focus phases that became completed, and its charged steps are one if the session became
-- abandoned and none otherwise.
pub evaluate-Sound :
    (r : Run) (now : ℤ)
    → IsWellFormed r
    → (o : Run × List Step) × (evaluate r now ≡ some o) × Sound r o
unfolding evaluate
evaluate-Sound r now w = elim (Bool-cases (is_running r.session)) [
  | inr e ↦ ((r, []), rw (e, evaluate), same_sound r w)
  | inl e ↦
      let l =
        evaluate_loop-Left (suc (length r.phases))
          (toggle "auto_start_breaks" true r.session.preset)
          (toggle "auto_start_focus" false r.session.preset) r
          (get_or (latest none r.phases) r.session.started_at) now [] e w
          (omega (arith, open_rows r.phases)) in
      ((l.after, l.more), rw (e, evaluate) l.returned, l.sound)
]
