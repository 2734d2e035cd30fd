-- ===== src/Focus/Start/Paid.antt =====
-- Sessions from their start on: app/game/session_service.py over app/game/session_engine.py.
use mathlib.Core.Path.{subst}
use task_buddy_backend.Prelude.{
  ℕ, suc, ◌+◌, ◌≤◌, ◌≡◌, ◌≢◌, refl, sym, ap, ◌∙◌, arith, inl, inr, Bool, true, false, Option, none,
  some, List, [], ◌∷◌, String, ℤ, count, length, bit, is_some, ◌==◌, Option-cases, Result, ok,
  value_error, ◌>>=◌, ◌>>◌, raise_if,
}
use task_buddy_backend.Focus.Types.{
  Kind, Session, Phase, Run, Step, is_live, is_pending, is_running, is_focus_done,
  completed_focus_count,
}
use task_buddy_backend.Focus.Audit.{IsWellFormed, is_focus_credit, is_charge, is_abandoned}
use task_buddy_backend.Focus.History.{History, History-Sound}
use task_buddy_backend.Focus.Start.{
  Mode, RunKind, time_boxed, beat_best, SpeedrunIn, SessionStartIn, Plan, plan, speedrun_plan,
  timer_plan, is_blank, label_of, is_blank, label_of, phase_rows, session_row, start_session,
}

-- Rows after the first wait: none is live, and none is completed.
later_rows :
    (i : ℕ) (now : ℤ) (ps : Plan)
    → 1 ≤ i
    → (count is_live (phase_rows i now ps) ≡ 0)
      × (count is_pending (phase_rows i now ps) ≡ length ps)
      × (count is_focus_done (phase_rows i now ps) ≡ 0)
unfolding phase_rows
later_rows i now [] h = (refl, refl, refl)
later_rows i now (p ∷ ps) h =
    let e : (i == 0) ≡ false = ground (arith, h) in
    let (live, pending, done) = later_rows (i + 1) now ps (omega arith) in
    rw e (omega (arith, live), omega (arith, pending), ground (arith, done))

-- The rows of a plan: the first one runs.
first_rows :
    (now : ℤ) (p : Kind × ℕ) (ps : Plan)
    → (count is_live (phase_rows 0 now (p ∷ ps)) ≡ 1)
      × (count is_pending (phase_rows 0 now (p ∷ ps)) ≡ length ps)
      × (count is_focus_done (phase_rows 0 now (p ∷ ps)) ≡ 0)
unfolding phase_rows
first_rows now p ps =
    let (live, pending, done) = later_rows 1 now ps (omega arith) in
    (omega (arith, live), omega (arith, pending), ground (arith, done))

length-phase_rows : (i : ℕ) (now : ℤ) (ps : Plan) → length (phase_rows i now ps) ≡ length ps
unfolding phase_rows
length-phase_rows i now [] = refl
length-phase_rows i now (p ∷ ps) = ap suc (length-phase_rows (i + 1) now ps)

rows_length :
    (now : ℤ) (p : Kind × ℕ) (ps : Plan)
    → count is_pending (phase_rows 0 now (p ∷ ps)) ≡ length ps
    → count is_pending (phase_rows 0 now (p ∷ ps)) + 1 ≡ length (phase_rows 0 now (p ∷ ps))
rows_length now p ps h = omega (arith, h, length-phase_rows 0 now (p ∷ ps))

ok_cases {ℓ κ} :
    {A : Type ℓ} {B : Type κ} (m : Result A) (k : A → Result B) (b : B)
    → (m >>= k) ≡ ok b
    → (a : A) × (m ≡ ok a) × (k a ≡ ok b)
ok_cases (ok a) k b h = (a, refl, h)
ok_cases (value_error e) k b h = cc

passed {ℓ} :
    {B : Type ℓ} (t : Bool) (e : String) (k : Result B) (b : B)
    → (raise_if t e >> k) ≡ ok b
    → k ≡ ok b
passed true e k b h = cc
passed false e k b h = h

ok_eq {ℓ} : {A : Type ℓ} (a b : A) → ok a ≡ ok b → a ≡ b
ok_eq a b e = cc

-- The first of the phases is live.
abbrev pub IsLiveFirst : List Phase → Type 0
IsLiveFirst [] = ⊥
IsLiveFirst (first ∷ others) = is_live first ≡ true

first_live : (now : ℤ) (p : Kind × ℕ) (ps : Plan) → IsLiveFirst (phase_rows 0 now (p ∷ ps))
unfolding phase_rows
first_live now p ps = refl

-- A plan has a first phase.
HasFirst : Plan → Type 0
HasFirst plan = (p : Kind × ℕ) × (ps : Plan) × (plan ≡ p ∷ ps)

Plans : Result Plan → Type 0
Plans m = (q : Plan) → m ≡ ok q → HasFirst q

one_phase : (p : Kind × ℕ) (ps : Plan) → Plans (ok (p ∷ ps))
unfolding Plans HasFirst
one_phase p ps q e = (p, ps, sym (ok_eq (p ∷ ps) q e))

guarded : (t : Bool) (why : String) (m : Result Plan) → Plans m → Plans (raise_if t why >> m)
unfolding Plans
guarded t why m h q e = h q (passed t why m q e)

true_not_false : true ≢ false
true_not_false = cc

not_abandoned : (s : Session) → is_running s ≡ true → bit (is_abandoned s) ≡ 0
not_abandoned s h = ground (arith, h)

-- A session as it is opened: it runs, and of its phases the first one runs and the others wait.
pub record IsFresh (r : Run) : Type 0 where
  pub running : is_running r.session ≡ true
  pub live_first : IsLiveFirst r.phases
  pub live : count is_live r.phases ≡ 1
  pub waiting : count is_pending r.phases + 1 ≡ length r.phases
  pub none_done : completed_focus_count r.phases ≡ 0

module _ (strip : String → String) where
  timer_plan-HasFirst : (phases : Option (List (Kind × ℕ))) → Plans (timer_plan strip phases)
  unfolding Plans
  timer_plan-HasFirst none q e = cc
  timer_plan-HasFirst (some []) q e = cc
  timer_plan-HasFirst (some (p ∷ ps)) q e = guarded _ _ _ (one_phase _ _) q e

  speedrun_plan-HasFirst :
      (req : SessionStartIn) (config : SpeedrunIn) (kind : RunKind)
      → req.speedrun ≡ some config
      → config.kind ≡ kind
      → Plans (speedrun_plan strip req)
  unfolding speedrun_plan Plans
  speedrun_plan-HasFirst req config time_boxed e k = elim (Option-cases config.budget_minutes) [
    | inl no_budget ↦ simp (speedrun_plan, e, k, no_budget) (λ q h. cc)
    | inr budget ↦ simp (speedrun_plan, e, k, budget.1) (one_phase _ [])
  ]
  speedrun_plan-HasFirst req config beat_best e k =
      simp (speedrun_plan, e, k)
        (guarded (is_some config.budget_minutes)
          "budget_minutes is only valid for time-boxed speedruns" _
          (guarded (is_blank strip (label_of strip req))
            "activity_label is required for beat-your-best speedruns" _
            (one_phase (Kind.speedrun, 0) [])))

  plan-HasFirst : (req : SessionStartIn) (mode : Mode) → req.mode ≡ mode → Plans (plan strip req)
  unfolding plan Plans
  plan-HasFirst req Mode.speedrun e = elim (Option-cases req.speedrun) [
    | inl missing ↦ simp (plan, e, speedrun_plan, missing) (λ q h. cc)
    | inr config ↦ simp (plan, e) (speedrun_plan-HasFirst req (config.0) _ (config.1) refl)
  ]
  plan-HasFirst req Mode.stopwatch e =
      simp (plan, e)
        (guarded (is_some req.speedrun) "speedrun config is only valid for speedrun mode" _
          (one_phase (Kind.stopwatch, 0) []))
  plan-HasFirst req Mode.timer e =
      simp (plan, e)
        (guarded (is_some req.speedrun) "speedrun config is only valid for speedrun mode" _
          (timer_plan-HasFirst req.phases))

  start_session-IsFresh :
      (req : SessionStartIn) (target : Option ℤ) (now : ℤ) (r : Run)
      → start_session strip req target now ≡ ok r
      → IsFresh r
  unfolding start_session Plans HasFirst
  start_session-IsFresh req target now r h =
      let (q, e, g) = ok_cases (plan strip req) _ r h in
      let (p, ps, same) = plan-HasFirst req req.mode refl q e in
      let rows : Run = record {
        session = session_row strip req target now;
        phases = phase_rows 0 now q;
      } in
      let (live, waiting, done) = first_rows now p ps in
      subst IsFresh (ok_eq rows r g) (record {
        running = refl;
        live_first = rw same (first_live now p ps);
        live = rw same live;
        waiting = rw same (rows_length now p ps waiting);
        none_done = rw same done;
      })

  -- For a session that `start_session` opens and any sequence of returning calls on it, as a
  -- `History` has them: the session is opened running, with its first phase live, every other one
  -- waiting and none completed; and after the calls it is well-formed, its completed focus phases
  -- are as many as the focus credits among all reported steps, and the charged steps are one if it
  -- is abandoned and none otherwise.
  pub start_session-paid :
      (req : SessionStartIn) (target : Option ℤ) (now : ℤ) (first r : Run) (steps : List Step)
      → start_session strip req target now ≡ ok first
      → History first r steps
      → IsFresh first
        × IsWellFormed r
        × (completed_focus_count r.phases ≡ count is_focus_credit steps)
        × (bit (is_abandoned r.session) ≡ count is_charge steps)
  start_session-paid req target now first r steps h history =
      let fresh = start_session-IsFresh req target now first h in
      let (shape, account) =
        History-Sound first r steps
          (record {
            one_live = omega (arith, fresh.live);
            none_live = λ over. absurd (true_not_false (sym fresh.running ∙ over));
            none_pending = λ over. absurd (true_not_false (sym fresh.running ∙ over));
          })
          history in
      (
        fresh,
        shape,
        omega (arith, account.credits, fresh.none_done),
        omega (arith, account.charges, not_abandoned first.session fresh.running),
      )
