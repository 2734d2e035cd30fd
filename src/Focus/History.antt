-- ===== src/Focus/History.antt =====
-- Every history of a session: the calls that the service makes on it, in any order and at any clock.
use task_buddy_backend.Prelude.{
  ◌≡◌, sym, ◌∙◌, Option, some, true, List, [], ◌++◌, ℤ, arith, count, count-append, Result, ok,
  value_error,
}
use mathlib.Core.Path.{subst}
use task_buddy_backend.Focus.Types.{Run, Step, is_pending, is_running}
use task_buddy_backend.Focus.Audit.{IsWellFormed, Accounts, Sound, is_focus_credit, is_charge}
use task_buddy_backend.Focus.Evaluate.{evaluate}
use task_buddy_backend.Focus.Evaluate.Loop.{evaluate-Sound}
use task_buddy_backend.Focus.Controls.{pause, resume, advance}
use task_buddy_backend.Focus.Controls.Sound.{
  Answers, pause-Answers, resume-Answers, advance-Answers,
}
use task_buddy_backend.Focus.Finish.{stop, done}
use task_buddy_backend.Focus.Finish.Sound.{stop-Sound, steps_of}
use task_buddy_backend.Focus.Finish.DoneSound.{done-Answers}

-- One call that returned: the session before it, and what it left and reported. The service stops
-- only a running session, and finishes only a run, which has no further phase.
pub data Call (r : Run) : Run × List Step → Type 0 where
  evaluated : (now : ℤ) (o : Run × List Step) → evaluate r now ≡ some o → Call r o
  paused : (now : ℤ) (o : Run × List Step) → pause r now ≡ ok o → Call r o
  resumed : (now : ℤ) (o : Run × List Step) → resume r now ≡ ok o → Call r o
  advanced : (now : ℤ) (o : Run × List Step) → advance r now ≡ ok o → Call r o
  stopped :
      (now : ℤ) (o : Run × List Step)
      → is_running r.session ≡ true
      → ((stop r now).run, steps_of (stop r now)) ≡ o
      → Call r o
  finished :
      (now : ℤ) (prior : Option ℤ) (o : Run × List Step)
      → count is_pending r.phases ≡ 0
      → done r now prior ≡ ok o
      → Call r o

-- A sequence of calls, with everything that they reported.
pub data History (first : Run) : Run → List Step → Type 0 where
  begin : History first first []
  call :
      {r after : Run} {steps more all : List Step}
      → History first r steps
      → Call r (after, more)
      → all ≡ steps ++ more
      → History first after all

some_eq {ℓ} : {A : Type ℓ} (a b : A) → some a ≡ some b → a ≡ b
some_eq a b e = cc

ok_eq {ℓ} : {A : Type ℓ} (a b : A) → ok a ≡ ok b → a ≡ b
ok_eq a b e = cc

answered :
    (r : Run) (reply : Result (Run × List Step)) (o : Run × List Step)
    → Answers r reply
    → reply ≡ ok o
    → Sound r o
answered r (ok o') o s e = subst (λ x. Sound r x) (ok_eq o' o e) s
answered r (value_error m) o s e = cc

Call-Sound : (r : Run) (o : Run × List Step) → IsWellFormed r → Call r o → Sound r o
Call-Sound r o w (evaluated now _ e) =
    let (o', returned, s) = evaluate-Sound r now w in
    subst (λ x. Sound r x) (some_eq o' o (sym returned ∙ e)) s
Call-Sound r o w (paused now _ e) = answered r (pause r now) o (pause-Answers r now w) e
Call-Sound r o w (resumed now _ e) = answered r (resume r now) o (resume-Answers r now w) e
Call-Sound r o w (advanced now _ e) = answered r (advance r now) o (advance-Answers r now w) e
Call-Sound r o w (stopped now _ running e) = subst (λ x. Sound r x) e (stop-Sound r now w running)
Call-Sound r o w (finished now prior _ alone e) =
    answered r (done r now prior) o (done-Answers r now prior w alone) e

Accounts-trans :
    (a b c : Run) (steps more all : List Step)
    → all ≡ steps ++ more
    → Accounts a b steps
    → Accounts b c more
    → Accounts a c all
Accounts-trans a b c steps more all e x y = rw e (record {
  credits = omega (arith, count-append is_focus_credit steps more, x.credits, y.credits);
  charges = omega (arith, count-append is_charge steps more, x.charges, y.charges);
})

-- For a session that starts well-formed (at most one live phase, and no live or pending phase once
-- it is over) and any sequence of returning calls of `evaluate`, `pause`, `resume`, `advance`,
-- `stop` (on a running session) and `done` (with no pending phase), at any instants: the session
-- stays well-formed, the focus phases that became completed are as many as the focus credits among
-- all reported steps, and the charged steps among them are one if the session became abandoned and
-- none otherwise.
pub History-Sound :
    (first r : Run) (steps : List Step)
    → IsWellFormed first
    → History first r steps
    → Sound first (r, steps)
History-Sound first r steps w begin = (w, record { credits = omega arith; charges = omega arith })
History-Sound first r steps w (call {r = before} {steps = earlier} {more = more} h c e) =
    let s = History-Sound first before earlier w h in
    let t = Call-Sound before (r, more) s.0 c in
    (t.0, Accounts-trans first before r earlier more steps e s.1 t.1)
