-- ===== src/Dailies/Check/Once.antt =====
-- What checks of one day can earn in app/game/daily_service.py.
use mathlib.Core.Path.{subst, ap, sym, ◌∙◌}
use task_buddy_backend.Prelude.{
  ℕ, ◌+◌, ◌≤◌, ◌≡◌, ◌≢◌, ◌⊎◌, refl, inl, inr, Bool, true, false, ◌||◌, Option, none, some, List, [],
  ◌∷◌, String, arith, bit, length, is_some, Bool-cases, Result, ok, value_error,
}
use task_buddy_backend.Json.{Json}
use task_buddy_backend.Dailies.Check.{
  Marks, Transition, whole, holds, item_mark, rejected, uncheck_mark, check_item, check_master,
  transition_marks, Day, Daily, Outcome, unscored, clamp_share, outcome_of, share_of, settle,
  score_check,
}

-- A first completion creates the mark of the whole day, which stays.
first_completion_once :
    (m : Marks) (n_items : ℕ) (target : Option ℕ) (done : Bool)
    → bit (transition_marks m n_items target done).first_completion + bit (is_some m.master)
      ≤ bit (is_some (transition_marks m n_items target done).marks.master)
unfolding transition_marks uncheck_mark check_item check_master
first_completion_once m n_items none false = ground arith
first_completion_once m n_items (some id) false = ground arith
first_completion_once m n_items none true = ground arith
first_completion_once m n_items (some id) true = ground arith

share_within :
    (n_items paid : ℕ) (t : Transition)
    → paid ≤ whole n_items
    → paid + share_of (outcome_of n_items paid t) ≤ whole n_items
unfolding outcome_of clamp_share
share_within n_items paid t h = ground (arith, h)

-- A transition that is rejected leaves the marks as they are.
rejects_whole :
    (m : Marks) (n_items : ℕ) (target : Option ℕ) (done : Bool)
    → ((transition_marks m n_items target done).reason ≡ none)
      ⊎ ((why : String) × (transition_marks m n_items target done ≡ rejected m why))
unfolding transition_marks uncheck_mark check_item check_master
rejects_whole m n_items none false = elim (Bool-cases (holds m.master)) [
  | inl e ↦ inl (simp (e))
  | inr e ↦ inr ("nothing_to_uncheck", simp (e))
]
rejects_whole m n_items (some id) false = elim (Bool-cases (holds (item_mark id m.items))) [
  | inl e ↦ inl (simp (e))
  | inr e ↦ inr ("nothing_to_uncheck", simp (e))
]
rejects_whole m n_items none true = elim (Bool-cases (holds m.master)) [
  | inl e ↦ inr ("already_checked", simp (e))
  | inr e ↦ inl (ground (arith, e))
]
rejects_whole m n_items (some id) true =
    elim (Bool-cases (holds m.master || holds (item_mark id m.items))) [
      | inl e ↦ inr ("already_checked", simp (e))
      | inr e ↦ inl (ground (arith, e))
    ]

scored :
    (n_items paid : ℕ) (t : Transition) (why : String)
    → t.reason ≡ none
    → outcome_of n_items paid t ≢ unscored why
unfolding outcome_of
scored n_items paid t why e h = ground (arith, e, h)

same_day :
    (d : Day) (p s : ℕ)
    → p ≡ d.paid
    → s ≡ d.streak
    → ◌≡◌ {A = Day} (record { marks = d.marks; paid = p; streak = s }) d
same_day d p s e e' = rw (e, e') refl

-- A call of `score_check` on one day: its item and its `done`.
pub record Call : Type 0 where
  pub item : Option ℕ
  pub done : Option Json

-- The day after a call, as it is if the call raises.
abbrev pub after_call : Day → Result (Outcome × Day) → Day
after_call d (ok o) = o.1
after_call d (value_error why) = d

module _ (fromisoformat : String → Option ℕ) (is_missed : ℕ → Bool) (daily : Daily)
    (today day : ℕ) where
  -- The calls in turn.
  unfoldable pub run_calls : List Call → Day → Day
  unfolding score_check
  run_calls [] d = d
  run_calls (c ∷ cs) d =
      run_calls cs
        (after_call d (score_check fromisoformat is_missed daily today d c.item day c.done))

  -- A call that returns has applied the transition of the marks.
  settles :
      (d : Day) (item : Option ℕ) (done : Option Json) (o : Outcome × Day)
      → score_check fromisoformat is_missed daily today d item day done ≡ ok o
      → (b : Bool) × (settle fromisoformat is_missed daily today d day
            (transition_marks d.marks (length daily.items) item b)
          ≡ o)
  unfolding score_check
  settles d item none o h = (true, ground (arith, h))
  settles d item (some (Json.bool b)) o h = (b, ground (arith, h))
  settles d item (some Json.null) o h = absurd (cc)
  settles d item (some (Json.int n)) o h = absurd (cc)
  settles d item (some (Json.float m x)) o h = absurd (cc)
  settles d item (some (Json.str t)) o h = absurd (cc)
  settles d item (some (Json.arr xs)) o h = absurd (cc)
  settles d item (some (Json.obj f)) o h = absurd (cc)

  module _ (first : ℕ) where
    -- The day has paid no more than once, and has raised the streak at most by one.
    Once : Day → Type 0
    Once d =
        (d.paid ≤ whole (length daily.items)) × (d.streak ≤ first + bit (is_some d.marks.master))

    settle-Once :
        (d : Day) (item : Option ℕ) (b : Bool)
        → Once d
        → Once (
            (settle fromisoformat is_missed daily today d day
              (transition_marks d.marks (length daily.items) item b)).1)
    unfolding Once settle
    settle-Once d item b (pays, raises) =
        let t = transition_marks d.marks (length daily.items) item b in
        (
          share_within (length daily.items) d.paid t pays,
          ground (arith, raises, first_completion_once d.marks (length daily.items) item b),
        )

    call-Once :
        (d : Day) (c : Call) (r : Result (Outcome × Day))
        → score_check fromisoformat is_missed daily today d c.item day c.done ≡ r
        → Once d
        → Once (after_call d r)
    call-Once d c (value_error why) e h = h
    call-Once d c (ok o) e h =
        let (b, settled) = settles d c.item c.done o e in
        subst (λ x. Once (x.1)) settled (settle-Once d c.item b h)

    run_calls-Once : (cs : List Call) (d : Day) → Once d → Once (run_calls cs d)
    unfolding run_calls
    run_calls-Once [] d h = h
    run_calls-Once (c ∷ cs) d h =
        let r = score_check fromisoformat is_missed daily today d c.item day c.done in
        run_calls-Once cs (after_call d r) (call-Once d c r refl h)

    -- From a day with nothing paid, any sequence of checks and unchecks of that day pays at most
    -- the whole share, and leaves the streak at most one above where it was.
    pub run_calls_pay_once :
        (cs : List Call) (d : Day)
        → d.paid ≡ 0
        → d.streak ≡ first
        → ((run_calls cs d).paid ≤ whole (length daily.items))
          × ((run_calls cs d).streak ≤ first + 1)
    unfolding Once
    run_calls_pay_once cs d unpaid at_first =
        let (pays, raises) =
          run_calls-Once cs d (ground (arith, unpaid), omega (arith, at_first)) in
        (pays, ground (arith, raises))

  settle_unscored :
      (d : Day) (t : Transition) (why : String)
      → (t.reason ≡ none) ⊎ ((because : String) × (t ≡ rejected d.marks because))
      → (settle fromisoformat is_missed daily today d day t).0 ≡ unscored why
      → (settle fromisoformat is_missed daily today d day t).1 ≡ d
  unfolding settle outcome_of
  settle_unscored d t why (inl e) h = absurd (scored (length daily.items) d.paid t why e h)
  settle_unscored d t why (inr (because, e)) h =
      subst (λ x. (settle fromisoformat is_missed daily today d day x).1 ≡ d) (sym e)
        (same_day d (d.paid + 0) (d.streak + 0) (omega arith) (omega arith))

  -- A check that returns the outcome not scored leaves the day's marks, the share paid and the
  -- streak as they were.
  pub score_check_unscored :
      (d after : Day) (item : Option ℕ) (done : Option Json) (why : String)
      → score_check fromisoformat is_missed daily today d item day done ≡ ok (unscored why, after)
      → after ≡ d
  score_check_unscored d after item done why h =
      let (b, settled) = settles d item done (unscored why, after) h in
      let t = transition_marks d.marks (length daily.items) item b in
      sym (ap (λ x. x.1) settled)
      ∙ settle_unscored d t why (rejects_whole d.marks (length daily.items) item b)
          (ap (λ x. x.0) settled)
