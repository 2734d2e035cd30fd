-- ===== src/Dailies/Sweep/Steps.antt =====
-- What the evaluation of one unit does to the misses, in app/game/daily_sweep.py.
use task_buddy_backend.Prelude.{
  ℕ, ◌≡◌, ◌⊎◌, refl, inl, inr, Bool, false, not, ◌||◌, Option, ◌∷◌, String, ℤ, Bool-cases,
  Option-cases,
}
use task_buddy_backend.Game.Number.{Numbers, Raises, returns, value_error, arithmetic_error}
use task_buddy_backend.Game.Rates.{GameRates}
use task_buddy_backend.Game.Profile.{Stat, GameProfile}
use task_buddy_backend.Dailies.Recurrence.{Recurrence}
use task_buddy_backend.Dailies.Sweep.{
  Days, Miss, Db, DailyRow, recorded, rolled_back, failed, Evaluated, miss_days, list_daily_misses,
  list_daily_checks, last_or, window, is_frozen, claimed, score_miss, commit_miss, record_miss,
  still_scheduled, fresh_from, unit_satisfied, under_lock, evaluate_unit,
}

module _ {F : Type 0} (f : Numbers F) (r : GameRates F) (fromisoformat : String → Option ℕ)
    (roll : ℕ → F) (draw : ℕ → ℕ) (bonus : Stat → ℤ) (today : ℕ) (rec : Recurrence)
    (anchor : ℕ) where
  -- The verdict that the rows of `db` give for a claim of `unit`.
  abbrev pub verdict_of : ℕ → Days → Db F → Bool
  verdict_of unit missed_days db =
      let since = last_or unit (window rec anchor unit) in
      is_frozen rec anchor unit missed_days
        (list_daily_misses since (claimed f r fromisoformat roll draw bonus today unit ∷ db.misses))

  -- A miss of `unit` is added to those of `db`, with the verdict on it.
  pub record IsRecorded (unit : ℕ) (missed_days : Days) (db : Db F) (e : Evaluated F) : Type 0 where
    pub new : Miss F
    pub day : new.scheduled_day ≡ unit
    pub frozen : new.frozen ≡ verdict_of unit missed_days db
    pub misses : e.db.misses ≡ new ∷ db.misses
    pub ended : e.ended ≡ recorded

  -- Nothing is written.
  pub record IsUndone (db : Db F) (e : Evaluated F) : Type 0 where
    pub same : e.db ≡ db
    pub ended : (e.ended ≡ rolled_back) ⊎ (e.ended ≡ failed)

  Steps : ℕ → Days → Db F → Evaluated F → Type 0
  Steps unit missed_days db e = IsUndone db e ⊎ IsRecorded unit missed_days db e

  commit_miss-Steps :
      (unit : ℕ) (row : DailyRow) (scored : F × Option (GameProfile F))
      (missed_days done_days : Days) (db : Db F)
      → Steps unit missed_days db (
          commit_miss f r fromisoformat roll draw bonus today unit
            (verdict_of unit missed_days db)
            row
            scored
            missed_days
            done_days
            db)
  unfolding commit_miss Steps
  commit_miss-Steps unit row scored missed_days done_days db = elim (Bool-cases (db.events unit)) [
    | inl wedged ↦ rw wedged (inl (record { same = refl; ended = inr refl }))
    | inr free ↦ rw free (
        inr (record {
          new = record {
            scheduled_day = unit;
            frozen = verdict_of unit missed_days db;
            hp_lost = scored.0;
          };
          day = refl;
          frozen = refl;
          misses = refl;
          ended = refl;
        }))
  ]

  Raises-cases {ℓ} :
      {A : Type ℓ} (m : Raises A)
      → ((a : A) × (m ≡ returns a))
        ⊎ (((e : String) × (m ≡ value_error e)) ⊎ (m ≡ arithmetic_error))
  Raises-cases (returns a) = inl (a, refl)
  Raises-cases (value_error e) = inr (inl (e, refl))
  Raises-cases arithmetic_error = inr (inr refl)

  record_miss-Steps :
      (unit : ℕ) (missed_days done_days : Days) (row : DailyRow) (db : Db F)
      → Steps unit missed_days db (
          record_miss f r fromisoformat roll draw bonus today rec anchor unit missed_days done_days
            row db)
  unfolding record_miss Steps
  record_miss-Steps unit missed_days done_days row db =
      elim (Raises-cases
        (score_miss f r fromisoformat roll draw bonus today unit row.difficulty db.profile)) [
          | inl found ↦
              rw (record_miss, found.1)
                (commit_miss-Steps unit row (found.0) missed_days done_days db)
          | inr raised ↦ elim raised [
            | inl v ↦ rw (record_miss, v.1) (inl (record { same = refl; ended = inr refl }))
            | inr a ↦ rw (record_miss, a) (inl (record { same = refl; ended = inr refl }))
          ]
        ]

  under_lock-Steps :
      (unit : ℕ) (missed_days done_days : Days) (db : Db F)
      → Steps unit missed_days db (
          under_lock f r fromisoformat roll draw bonus today rec anchor unit missed_days done_days
            db)
  unfolding under_lock Steps
  under_lock-Steps unit missed_days done_days db = elim (Option-cases db.daily) [
    | inl gone ↦ simp (under_lock, gone) (inl (record { same = refl; ended = inl refl }))
    | inr found ↦
        let (row, e) = found in
        let stale =
          not row.active
          || not (
              still_scheduled f r fromisoformat roll draw bonus today rec anchor unit
                row.recurrence) in
        let from = fresh_from f r fromisoformat roll draw bonus today rec anchor unit in
        let checked = unit_satisfied rec anchor unit (list_daily_checks from unit db.done) in
        elim (Bool-cases stale) [
          | inl drops ↦ simp (under_lock, e, drops) (inl (record { same = refl; ended = inl refl }))
          | inr holds ↦ elim (Bool-cases checked) [
            | inl was_done ↦
                simp (under_lock, e, holds, was_done)
                  (inl (record { same = refl; ended = inl refl }))
            | inr unchecked ↦
                simp (under_lock, e, holds, unchecked)
                  (record_miss-Steps unit missed_days done_days row db)
          ]
        ]
  ]

  -- A unit is rolled back on the rows that it found, or decided on those that it found under the lock.
  pub evaluate_unit-Steps :
      (move : Db F → Db F) (unit : ℕ) (missed_days done_days : Days) (db : Db F)
      → let e =
          evaluate_unit f r fromisoformat roll draw bonus today rec anchor move unit missed_days
            done_days db in
        IsUndone db e
        ⊎ ((miss_days db.misses unit ≡ false)
            × (IsUndone (move db) e ⊎ IsRecorded unit missed_days (move db) e))
  unfolding evaluate_unit Steps
  evaluate_unit-Steps move unit missed_days done_days db =
      elim (Bool-cases (miss_days db.misses unit)) [
        | inl taken ↦ rw (evaluate_unit, taken) (inl (record { same = refl; ended = inl refl }))
        | inr free ↦
            rw (evaluate_unit, free)
              (inr (refl, under_lock-Steps unit missed_days done_days (move db)))
      ]
