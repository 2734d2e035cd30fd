-- ===== src/Dailies/Sweep/Races.antt =====
-- Sweeps that run at the same time on one daily, in app/game/daily_sweep.py.
use task_buddy_backend.Prelude.{
  ℕ, ◌-◌, ◌≤◌, ◌≡◌, refl, sym, ap, ◌∙◌, inl, inr, false, Option, some, List, [], ◌∷◌, String, ℤ,
  arith, Bool-cases, count, ◌==◌, any,
}
use task_buddy_backend.Json.{Json}
use task_buddy_backend.Game.Number.{Numbers}
use task_buddy_backend.Game.Rates.{GameRates}
use task_buddy_backend.Game.Profile.{Stat}
use task_buddy_backend.Dailies.Recurrence.{
  Recurrence, effective_anchor, parse_recurrence, scheduled_units, eval_due, max,
}
use task_buddy_backend.Dailies.Recurrence.From.{
  AllFrom-lower, keep-AllFrom, scheduled_units-AllFrom,
}
use task_buddy_backend.Dailies.Sweep.{
  Days, Miss, Db, Evaluated, is_miss, miss_days, evaluate_daily, due, lookback_days, grace_hours,
}
use task_buddy_backend.Dailies.Sweep.Freeze.{Spaced, frozen-Spaced, open-Spaced}
use task_buddy_backend.Dailies.Sweep.Steps.{IsRecorded, verdict_of}
use task_buddy_backend.Dailies.Sweep.Loop.{evaluate_units-Holds}

module _ {F : Type 0} where
  -- The misses have one row for a day at most.
  abbrev pub OnePerDay : Db F → Type 0
  OnePerDay db = (x : ℕ) → count (is_miss x) db.misses ≤ 1

  any-count :
      (x : ℕ) (rows : List (Miss F)) → any (is_miss x) rows ≡ false → count (is_miss x) rows ≡ 0
  any-count x [] h = refl
  any-count x (m ∷ rows) h = ground (arith, h, any-count x rows)

  one_more :
      (unit x : ℕ) (m : Miss F) (rows : List (Miss F))
      → m.scheduled_day ≡ unit
      → count (is_miss unit) rows ≡ 0
      → count (is_miss x) rows ≤ 1
      → count (is_miss x) (m ∷ rows) ≤ 1
  one_more unit x m rows day free kept = elim (Bool-cases (m.scheduled_day == x)) [
    | inl same ↦
        let e : unit ≡ x = ground (arith, same, day) in
        let none_x = ap (λ u. count (is_miss u) rows) (sym e) ∙ free in ground (arith, none_x)
    | inr other ↦ ground (arith, other, kept)
  ]

module _ {F : Type 0} (f : Numbers F) (r : GameRates F) (fromisoformat : String → Option ℕ)
    (roll : ℕ → F) (draw : ℕ → ℕ) (bonus : Stat → ℤ) (today : ℕ) (rec : Recurrence) (anchor : ℕ)
    (date : 1 ≤ anchor) where
  floor : 1 ≤ effective_anchor rec anchor
  floor = ground (arith, date)

  record-Spaced :
      (unit : ℕ) (missed : Days) (db : Db F) (e : Evaluated F)
      → 1 ≤ unit
      → Spaced rec anchor db.misses
      → IsRecorded f r fromisoformat roll draw bonus today rec anchor unit missed db e
      → Spaced rec anchor e.db.misses
  record-Spaced unit missed db e one spaced new =
      rw new.misses
        (elim (Bool-cases
          (verdict_of f r fromisoformat roll draw bonus today rec anchor unit missed db)) [
            | inl frozen ↦
                frozen-Spaced rec anchor floor unit one missed _ db.misses frozen new.new new.day
                  spaced
            | inr thawed ↦
                open-Spaced rec anchor floor new.new db.misses (new.frozen ∙ thawed) spaced
          ])

  module _ (between : ℕ → Db F → Db F) (during : ℕ → ℕ → Db F → Db F) (now : ℕ) (recurrence : Json)
      (parsed : parse_recurrence fromisoformat recurrence ≡ some rec) where
    -- What the other transactions and a recorded miss keep holds after the evaluation.
    daily_holds :
        (Holds : Db F → Type 0)
        → ((tick : ℕ) (db : Db F) → Holds db → Holds (between tick db))
        → ((tick unit : ℕ) (db : Db F) → Holds db → Holds (during tick unit db))
        → ((tick unit : ℕ) (missed : Days) (db : Db F) (e : Evaluated F)
            → 1 ≤ unit
            → miss_days db.misses unit ≡ false
            → Holds (during tick unit db)
            → IsRecorded f r fromisoformat roll draw bonus today rec anchor unit missed
                (during tick unit db)
                e
            → Holds e.db)
        → (db : Db F) → Holds db
        → Holds (
            (evaluate_daily f r fromisoformat roll draw bonus today between during now anchor
              recurrence db).2)
    unfolding evaluate_daily
    daily_holds Holds before after new db h =
        let start = max anchor (today - lookback_days) in
        let from = scheduled_units-AllFrom rec anchor start today in
        let all = scheduled_units rec anchor start today in
        let units = due f r fromisoformat roll draw bonus today now all in
        let later =
          AllFrom-lower 1 start units (ground (arith, date))
            (keep-AllFrom start (λ u. eval_due grace_hours u now) all from) in
        rw (evaluate_daily, parsed)
          (evaluate_units-Holds f r fromisoformat roll draw bonus today rec anchor between during
            Holds before after new 0 units _ _ db 0 later h)

    -- For a daily that was created on day 1 or later, with the recurrence that its stored value
    -- parses to: if no frozen miss lies among the six units before another frozen miss, and the
    -- other transactions keep it so, before each claim and between a claim and the lock, then it
    -- is so after the daily has been evaluated.
    pub evaluate_daily-Spaced :
        ((tick : ℕ) (db : Db F)
          → Spaced rec anchor db.misses
          → Spaced rec anchor (between tick db).misses)
        → ((tick unit : ℕ) (db : Db F)
            → Spaced rec anchor db.misses
            → Spaced rec anchor (during tick unit db).misses)
        → (db : Db F) → Spaced rec anchor db.misses
        → Spaced rec anchor
            ((evaluate_daily f r fromisoformat roll draw bonus today between during now anchor
                recurrence db).2
              ).misses
    evaluate_daily-Spaced before after db spaced =
        daily_holds (λ d. Spaced rec anchor d.misses) before after
          (λ tick unit missed d e one free kept new. record-Spaced unit missed _ e one kept new) db
          spaced

    -- For a daily that was created on day 1 or later, with the recurrence that its stored value
    -- parses to: if the misses have at most one row for each day, the other transactions keep it
    -- so, and none of them inserts a miss for a unit while it is claimed, then the misses have at
    -- most one row for each day after the daily has been evaluated.
    pub evaluate_daily-OnePerDay :
        ((tick : ℕ) (db : Db F) → OnePerDay db → OnePerDay (between tick db))
        → ((tick unit : ℕ) (db : Db F) → OnePerDay db → OnePerDay (during tick unit db))
        → ((tick unit : ℕ) (db : Db F)
            → miss_days db.misses unit ≡ false
            → miss_days (during tick unit db).misses unit ≡ false)
        → (db : Db F) → OnePerDay db
        → OnePerDay (
            (evaluate_daily f r fromisoformat roll draw bonus today between during now anchor
              recurrence db).2)
    evaluate_daily-OnePerDay before after locks db single =
        daily_holds OnePerDay before after
          (λ tick unit missed d e one free kept new x.
            let none_yet = any-count unit (during tick unit d).misses (locks tick unit d free) in
            rw new.misses (one_more unit x new.new _ new.day none_yet (kept x)))
          db single
