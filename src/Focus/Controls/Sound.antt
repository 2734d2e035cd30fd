-- ===== src/Focus/Controls/Sound.antt =====
-- `pause`, `resume` and `advance` of app/game/session_engine.py: the session after each, and the account
-- of its steps.
use task_buddy_backend.Prelude.{
  ◌+◌, ◌≡◌, refl, Bool, true, false, ◌&&◌, ◌||◌, none, some, List, [], ◌∷◌, inl, inr, ℤ, ◌+ℤ◌,
  arith, count, leb, ltb_ℤ, get_or, Bool-cases, Option-cases, find_first-none, Result, ok,
  value_error, if◌then◌else◌, String,
}
use task_buddy_backend.Focus.Types.{
  Phase, Run, Step, is_pending, is_live, is_active, is_paused, is_running, is_focus, is_break,
  is_stopwatch, is_speedrun, live_phase, next_pending, seconds_between,
}
use task_buddy_backend.Focus.Audit.{IsWellFormed, Sound, is_focus_credit, is_charge}
use task_buddy_backend.Focus.Skip.{skip}
use task_buddy_backend.Focus.Evaluate.{on_live}
use task_buddy_backend.Focus.Evaluate.Live.{
  count-on_live_live, count-on_live_done, count-start_live, count-start_pending, count-start_done,
}
use task_buddy_backend.Focus.Evaluate.Sound.{ended_sound}
use task_buddy_backend.Focus.Controls.{
  pause_live, pause, resume_live, resume, start_pending, skip_break, advance,
}

-- A session with a live phase is running.
pub running_of_live :
    (r : Run) (cur : Phase)
    → IsWellFormed r
    → live_phase r.phases ≡ some cur
    → is_running r.session ≡ true
running_of_live r cur w live =
    ground (arith, w.none_live, count-on_live_live (skip r.session.started_at) r.phases cur live)

-- A session with a pending phase is running.
running_of_pending :
    (r : Run) (nxt : Phase)
    → IsWellFormed r
    → next_pending r.phases ≡ some nxt
    → is_running r.session ≡ true
running_of_pending r nxt w found =
    ground (arith, w.none_pending, count-start_pending r.session.started_at r.phases nxt found)

ok_eq {ℓ} : {A : Type ℓ} (a b : A) → ok a ≡ ok b → a ≡ b
ok_eq a b h = cc

-- The live phase stays live, whatever else `f` writes to it.
module _ (r : Run) (cur : Phase) (live : live_phase r.phases ≡ some cur) (w : IsWellFormed r) where
  stays_live :
      (f : Phase → Phase) (step : Step)
      → is_live (f cur) ≡ true
      → is_focus_credit step ≡ false
      → is_charge step ≡ false
      → Sound r (record r { phases = on_live f r.phases }, step ∷ [])
  stays_live f step alive credit charge = (
    record {
      one_live = ground (arith, w.one_live, count-on_live_live f r.phases cur live);
      none_live = λ stopped. ground (arith, running_of_live r cur w live);
      none_pending = λ stopped. ground (arith, running_of_live r cur w live);
    },
    record {
      credits = ground (arith, count-on_live_done f r.phases cur live);
      charges = ground arith;
    },
  )

  pause_live-Sound : (now : ℤ) → Sound r (pause_live r cur now)
  unfolding pause_live
  pause_live-Sound now =
      elim (Bool-cases (
        (is_stopwatch cur.kind || is_speedrun cur.kind)
        || leb (cur.pause_count + 1) r.session.pause_budget_count)) [
          | inl e ↦ rw e (stays_live _ _ refl refl refl)
          | inr e ↦ rw e (
              ended_sound r (running_of_live r cur w live) cur now live w _ _ _ _ refl refl refl
                refl)
        ]

  resume_live-Sound : (now : ℤ) → Sound r (resume_live r cur now)
  unfolding resume_live
  resume_live-Sound now =
      elim (Bool-cases (
        is_focus cur.kind
        && ltb_ℤ r.session.pause_budget_seconds
            (cur.paused_seconds +ℤ seconds_between (get_or cur.pause_started_at now) now))) [
              | inl e ↦ rw e (
                  ended_sound r (running_of_live r cur w live) cur now live w _ _ _ _ refl refl refl
                    refl)
              | inr e ↦ rw e (stays_live _ _ refl refl refl)
            ]

start_pending-Sound :
    (r : Run) (pend : Phase) (now : ℤ)
    → IsWellFormed r
    → count is_live r.phases ≡ 0
    → next_pending r.phases ≡ some pend
    → Sound r (start_pending r pend now)
unfolding start_pending
start_pending-Sound r pend now w idle found = (
  record {
    one_live = omega (arith, count-start_live now r.phases pend found);
    none_live = λ stopped. ground (arith, running_of_pending r pend w found);
    none_pending = λ stopped. ground (arith, running_of_pending r pend w found);
  },
  record {
    credits = ground (arith, count-start_done now r.phases pend found);
    charges = ground arith;
  },
)

-- Skipping a break that runs, with no other phase live.
module _ (r : Run) (live : Phase) (now : ℤ) (found : live_phase r.phases ≡ some live)
    (w : IsWellFormed r) where
  abbrev skipped : Run
  skipped = record r { phases = on_live (skip now) r.phases }

  skipped-IsWellFormed : IsWellFormed skipped
  skipped-IsWellFormed = record {
    one_live = ground (arith, w.one_live, count-on_live_live (skip now) r.phases live found);
    none_live = λ stopped. ground (arith, running_of_live r live w found);
    none_pending = λ stopped. ground (arith, running_of_live r live w found);
  }

  skipped_idle : count is_live skipped.phases ≡ 0
  skipped_idle = ground (arith, w.one_live, count-on_live_live (skip now) r.phases live found)

  skip_break-Sound : Sound r (skip_break r live now)
  unfolding skip_break
  skip_break-Sound = elim (Option-cases (next_pending skipped.phases)) [
    | inl e ↦
        rw (e, skip_break)
          (
            record {
              one_live = omega (arith, skipped_idle);
              none_live = λ _. skipped_idle;
              none_pending = λ _. find_first-none is_pending skipped.phases e;
            },
            record {
              credits = ground (arith, count-on_live_done (skip now) r.phases live found);
              charges = ground (arith, running_of_live r live w found);
            },
          )
    | inr (pend, e) ↦
        let s = start_pending-Sound skipped pend now skipped-IsWellFormed skipped_idle e in
        rw (e, skip_break)
          (
            s.0,
            record {
              credits =
                  ground (arith, s.1.credits, count-on_live_done (skip now) r.phases live found);
              charges = ground (arith, s.1.charges);
            },
          )
  ]

-- What a reply says of the session that it came from.
abbrev pub Answers : Run → Result (Run × List Step) → Type 0
Answers r (ok o) = Sound r o
Answers r (value_error e) = Unit

pub Answers-guard :
    (r : Run) (refused : Bool) (e : String) (o : Run × List Step)
    → Sound r o
    → Answers r (if refused then value_error e else ok o)
Answers-guard r true e o s = tt
Answers-guard r false e o s = s

Answers-test :
    (r : Run) (fits : Bool) (e : String) (o : Run × List Step)
    → Sound r o
    → Answers r (if fits then ok o else value_error e)
Answers-test r true e o s = s
Answers-test r false e o s = tt

-- Pausing a well-formed session either is refused, or leaves it well-formed with focus credits
-- that are the focus phases that became completed and one charge if the session became abandoned,
-- none otherwise.
pub pause-Answers : (r : Run) (now : ℤ) → IsWellFormed r → Answers r (pause r now)
unfolding pause
pause-Answers r now w = elim (Option-cases (live_phase r.phases)) [
  | inl e ↦ rw (e, pause) tt
  | inr (cur, e) ↦
      rw (e, pause)
        (elim (Bool-cases (is_active cur)) [
          | inr idle ↦ rw idle tt
          | inl active ↦ rw active (
              Answers-guard r (is_break cur.kind) "breaks cannot be paused" (pause_live r cur now)
                (pause_live-Sound r cur e w now))
        ])
]

-- Resuming a well-formed session either is refused, or leaves it well-formed with focus credits
-- that are the focus phases that became completed and one charge if the session became abandoned,
-- none otherwise.
pub resume-Answers : (r : Run) (now : ℤ) → IsWellFormed r → Answers r (resume r now)
unfolding resume
resume-Answers r now w = elim (Option-cases (live_phase r.phases)) [
  | inl e ↦ rw (e, resume) tt
  | inr (cur, e) ↦
      rw (e, resume)
        (Answers-test r (is_paused cur) "no paused phase to resume" (resume_live r cur now)
          (resume_live-Sound r cur e w now))
]

advance_idle :
    (r : Run) (now : ℤ) → IsWellFormed r → live_phase r.phases ≡ none → Answers r (advance r now)
unfolding advance
advance_idle r now w idle = elim (Option-cases (next_pending r.phases)) [
  | inl e ↦ rw (idle, e, advance) tt
  | inr (pend, e) ↦
      rw (idle, e, advance)
        (start_pending-Sound r pend now w (find_first-none is_live r.phases idle) e)
]

-- Advancing a well-formed session either is refused, or leaves it well-formed with focus credits
-- that are the focus phases that became completed and one charge if the session became abandoned,
-- none otherwise.
pub advance-Answers : (r : Run) (now : ℤ) → IsWellFormed r → Answers r (advance r now)
unfolding advance
advance-Answers r now w = elim (Option-cases (live_phase r.phases)) [
  | inl e ↦ advance_idle r now w e
  | inr (cur, e) ↦
      rw (e, advance)
        (Answers-test r (is_break cur.kind && is_active cur) "a phase is still running"
          (skip_break r cur now) (skip_break-Sound r cur now e w))
]
