-- ===== src/Dailies/Sweep.antt =====
-- The sweep of missed dailies, app/game/daily_sweep.py, for one daily and its owner. A date is its
-- ordinal and a set of dates a test. Other transactions may change the database: `between` is what they
-- do before each claim, in order, and `during` what they do after the claim of a unit and before the
-- profile lock, while that unit is claimed.
pub mod Freeze
pub mod Steps
pub mod Loop
pub mod Races
pub mod Settled
mod Examples
use task_buddy_backend.Prelude.{
  ℕ, zero, suc, ◌+◌, ◌-◌, ◌*◌, Bool, true, false, not, ◌&&◌, ◌||◌, Option, none, some, List, [],
  ◌∷◌, String, ℤ, ltb, leb, ◌==◌, any, count, keep, if◌then◌else◌,
}
use task_buddy_backend.Json.{Json, Fields}
use task_buddy_backend.Game.Number.{
  Numbers, Raises, returns, value_error, arithmetic_error, ◌>>=◌, zero_point,
}
use task_buddy_backend.Game.Rates.{GameRates}
use task_buddy_backend.Game.Profile.{Stat, GameProfile}
use task_buddy_backend.Game.Payload.{Outcome, hurt}
use task_buddy_backend.Game.Event.{apply_event}
use task_buddy_backend.Dailies.Recurrence.{
  Recurrence, Schedule, times_per_week, parse_recurrence, effective_anchor, prior_units,
  scheduled_units, eval_due, max,
}

-- `FREEZE_WINDOW_UNITS`, `LOOKBACK_DAYS` and `GRACE_HOURS`
abbrev pub freeze_window_units : ℕ
freeze_window_units = 7

abbrev pub lookback_days : ℕ
lookback_days = 35

abbrev pub grace_hours : ℕ
grace_hours = 3

abbrev pub Days : Type 0
Days = ℕ → Bool

abbrev pub with_day : ℕ → Days → Days
with_day unit days d = d == unit || days d

abbrev pub union : Days → Days → Days
union a b d = a d || b d

pub record Miss (F : Type 0) : Type 0 where
  pub scheduled_day : ℕ
  pub frozen : Bool
  pub hp_lost : F

pub record DailyRow : Type 0 where
  pub active : Bool
  pub recurrence : Json
  pub difficulty : String
  pub streak : ℕ

-- The row of the daily, its misses, the days with a done mark of the whole daily, the units with a
-- `daily_missed` event, and the profile of the owner.
pub record Db (F : Type 0) : Type 0 where
  pub daily : Option DailyRow
  pub misses : List (Miss F)
  pub done : Days
  pub events : Days
  pub profile : Option (GameProfile F)

abbrev pub is_miss : {F : Type 0} → ℕ → Miss F → Bool
is_miss unit m = m.scheduled_day == unit

-- The days of a miss list, as a set.
abbrev pub miss_days : {F : Type 0} → List (Miss F) → Days
miss_days rows d = any (is_miss d) rows

abbrev pub list_daily_misses : {F : Type 0} → ℕ → List (Miss F) → List (Miss F)
list_daily_misses since = keep (λ m. leb since m.scheduled_day)

-- The marks that `list_daily_checks` finds from `start` to `end`.
abbrev pub list_daily_checks : ℕ → ℕ → Days → Days
list_daily_checks start end done d = done d && leb start d && leb d end

abbrev pub is_active : Option DailyRow → Bool
is_active none = false
is_active (some row) = row.active

-- `priors[-1] if priors else unit`
abbrev pub last_or : ℕ → List ℕ → ℕ
last_or unit [] = unit
last_or unit (d ∷ ds) = last_or d ds

abbrev pub min : ℕ → ℕ → ℕ
min a b = if ltb a b then a else b

abbrev pub week_of : ℕ → List ℕ
week_of unit =
    (unit - 6) ∷ (unit - 5) ∷ (unit - 4) ∷ (unit - 3) ∷ (unit - 2) ∷ (unit - 1) ∷ unit ∷ []

-- How the evaluation of a unit ends: with a miss, with a rollback, or with an exception.
pub data Ended : Type 0 where
  recorded rolled_back failed : Ended

pub record Evaluated (F : Type 0) : Type 0 where
  pub ended : Ended
  pub missed_days : Days
  pub done_days : Days
  pub db : Db F

-- How the loop goes on after a unit: a rollback re-reads the daily and may end the loop.
abbrev pub go_on {ℓ} : {A : Type ℓ} → Ended → Bool → A → A → A → A → A
go_on recorded active counted passed stopped raised = counted
go_on rolled_back active counted passed stopped raised = if active then passed else stopped
go_on failed active counted passed stopped raised = raised

module _ (rec : Recurrence) (anchor : ℕ) where
  -- `_unit_satisfied`
  unfoldable pub unit_satisfied : ℕ → Days → Bool
  unit_satisfied unit done_days = elim rec.schedule [
    | times_per_week wanted ↦
        leb wanted (count (λ d. done_days d && leb (effective_anchor rec anchor) d) (week_of unit))
    | _ ↦ done_days unit
  ]

  -- The units that the freeze of `unit` looks back on.
  abbrev pub window : ℕ → List ℕ
  window unit = prior_units rec anchor unit (freeze_window_units - 1)

  abbrev pub in_window : ℕ → ℕ → Bool
  in_window unit of = any (λ u. u == unit) (window of)

  -- `miss_since`: the first day that some unit looks back on.
  unfoldable pub miss_since : ℕ → List ℕ → ℕ
  miss_since since [] = since
  miss_since since (u ∷ us) = elim (window u) [
    | [] ↦ miss_since since us
    | d ∷ ds ↦ miss_since (min (last_or u (d ∷ ds)) since) us
  ]

  -- The verdict over the known misses and the rows that are read under the lock.
  unfoldable pub is_frozen : {F : Type 0} → ℕ → Days → List (Miss F) → Bool
  is_frozen unit missed_days rows =
      not (any (λ u. missed_days u || miss_days rows u) (window unit))
      && not (any (λ m. m.frozen && in_window unit m.scheduled_day) rows)

module _ {F : Type 0} (f : Numbers F) (r : GameRates F) (fromisoformat : String → Option ℕ)
    (roll : ℕ → F) (draw : ℕ → ℕ) (bonus : Stat → ℤ) (today : ℕ) where
  abbrev pub hp_lost_of : Outcome F → F
  hp_lost_of (hurt loss) = loss.hp_lost
  hp_lost_of _ = zero_point f

  -- The HP that the miss costs; an owner without a profile loses none.
  unfoldable pub score_miss :
      ℕ → String → Option (GameProfile F) → Raises (F × Option (GameProfile F))
  score_miss unit difficulty none = returns (zero_point f, none)
  score_miss unit difficulty (some p) =
      apply_event f p (Fields.field "difficulty" (Json.str difficulty) Fields.end) r (roll unit)
        bonus "daily_missed" (draw unit) today
      >>= λ a. returns (f.to_float (hp_lost_of (a.0)), some (a.1))

  -- The commit of a unit: the miss, the streak, the profile and the event. The event's id is unique.
  unfoldable pub commit_miss :
      ℕ → Bool → DailyRow → F × Option (GameProfile F) → Days → Days → Db F → Evaluated F
  commit_miss unit frozen row scored missed_days done_days db =
      if db.events unit
      then record { ended = failed; missed_days = missed_days; done_days = done_days; db = db }
      else record {
        ended = recorded;
        missed_days = with_day unit missed_days;
        done_days = done_days;
        db = record {
          daily = some (record {
            active = row.active;
            recurrence = row.recurrence;
            difficulty = row.difficulty;
            streak = if frozen then row.streak else 0;
          });
          misses = record { scheduled_day = unit; frozen = frozen; hp_lost = scored.0 } ∷ db.misses;
          done = db.done;
          events = with_day unit db.events;
          profile = scored.1;
        };
      }

  abbrev pub unrecorded : Ended → Days → Days → Db F → Evaluated F
  unrecorded how missed_days done_days db = record {
    ended = how;
    missed_days = missed_days;
    done_days = done_days;
    db = db;
  }

  -- The row that the claim of `unit` has inserted.
  abbrev pub claimed : ℕ → Miss F
  claimed unit = record { scheduled_day = unit; frozen = false; hp_lost = zero_point f }

  module _ (rec : Recurrence) (anchor : ℕ) where
    unfoldable pub record_miss : ℕ → Days → Days → DailyRow → Db F → Evaluated F
    unfolding score_miss commit_miss
    record_miss unit missed_days done_days row db =
        let since = last_or unit (window rec anchor unit) in
        let rows = list_daily_misses since (claimed unit ∷ db.misses) in
        let frozen = is_frozen rec anchor unit missed_days rows in
        elim (score_miss unit row.difficulty db.profile) [
          | returns scored ↦ commit_miss unit frozen row scored missed_days done_days db
          | _ ↦ unrecorded failed missed_days done_days db
        ]

    -- The first day whose marks are read again under the lock.
    abbrev pub fresh_from : ℕ → ℕ
    fresh_from unit = elim rec.schedule [ times_per_week wanted ↦ unit - 6 | _ ↦ unit ]

    -- Whether the row's own recurrence still schedules `unit`.
    abbrev pub still_scheduled : ℕ → Json → Bool
    still_scheduled unit recurrence = elim (parse_recurrence fromisoformat recurrence) [
      | none ↦ false
      | some fresh ↦ leb (effective_anchor fresh anchor) unit
    ]

    -- What `_evaluate_unit` does under the profile lock.
    unfoldable pub under_lock : ℕ → Days → Days → Db F → Evaluated F
    unfolding record_miss
    under_lock unit missed_days done_days db =
        let fresh_done = list_daily_checks (fresh_from unit) unit db.done in
        elim db.daily [
          | none ↦ unrecorded rolled_back missed_days done_days db
          | some row ↦
              if not row.active || not (still_scheduled unit row.recurrence)
              then unrecorded rolled_back missed_days done_days db
              else if unit_satisfied rec anchor unit fresh_done
              then unrecorded rolled_back missed_days (union fresh_done done_days) db
              else record_miss unit missed_days done_days row db
        ]

    -- `_evaluate_unit`; `move` happens between the claim and the lock.
    unfoldable pub evaluate_unit : (Db F → Db F) → ℕ → Days → Days → Db F → Evaluated F
    unfolding under_lock
    evaluate_unit move unit missed_days done_days db =
        if miss_days db.misses unit
        then unrecorded rolled_back (with_day unit missed_days) done_days db
        else under_lock unit missed_days done_days (move db)

    -- The loop of `_evaluate_daily`, with the misses recorded; `false` says that it raised.
    pub evaluate_units :
        (ℕ → Db F → Db F)
        → (ℕ → ℕ → Db F → Db F)
        → ℕ
        → List ℕ
        → Days
        → Days
        → Db F
        → ℕ
        → Bool × ℕ × Db F
    unfolding evaluate_unit
    evaluate_units between during tick [] missed_days done_days db n = (true, n, db)
    evaluate_units between during tick (unit ∷ rest) missed_days done_days db n =
        let e = evaluate_unit (during tick unit) unit missed_days done_days (between tick db) in
        let skip = evaluate_units between during tick rest missed_days done_days db n in
        let counted =
          evaluate_units between during (tick + 1) rest e.missed_days e.done_days e.db (n + 1) in
        let passed =
          evaluate_units between during (tick + 1) rest e.missed_days e.done_days e.db n in
        if missed_days unit || unit_satisfied rec anchor unit done_days
        then skip
        else go_on e.ended (is_active e.db.daily) counted passed (true, n, e.db) (false, n, e.db)

  abbrev pub due : ℕ → List ℕ → List ℕ
  due now = keep (λ u. eval_due grace_hours u now)

  -- `_evaluate_daily` from the row that the sweep has read; `today` is the day of `now`.
  unfoldable pub evaluate_daily :
      (ℕ → Db F → Db F) → (ℕ → ℕ → Db F → Db F) → ℕ → ℕ → Json → Db F → Bool × ℕ × Db F
  unfolding evaluate_units
  evaluate_daily between during now anchor recurrence db =
      elim (parse_recurrence fromisoformat recurrence) [
        | none ↦ (true, 0, db)
        | some rec ↦
            let start = max anchor (today - lookback_days) in
            let units = due now (scheduled_units rec anchor start today) in
            evaluate_units rec anchor between during 0 units
              (miss_days (list_daily_misses (miss_since rec anchor start units) db.misses))
              (list_daily_checks start today db.done) db 0
      ]
