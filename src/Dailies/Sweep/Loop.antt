-- ===== src/Dailies/Sweep/Loop.antt =====
-- The loop of app/game/daily_sweep.py over the due units of a daily.
use task_buddy_backend.Prelude.{
  ℕ, ◌+◌, ◌≤◌, ◌≡◌, inl, inr, Bool, true, false, ◌||◌, Option, List, [], ◌∷◌, String, ℤ,
  if◌then◌else◌,
}
use task_buddy_backend.Game.Number.{Numbers}
use task_buddy_backend.Game.Rates.{GameRates}
use task_buddy_backend.Game.Profile.{Stat}
use task_buddy_backend.Dailies.Recurrence.{Recurrence}
use task_buddy_backend.Dailies.Recurrence.From.{AllFrom}
use task_buddy_backend.Dailies.Sweep.{
  Days, Db, Ended, recorded, rolled_back, failed, Evaluated, miss_days, unit_satisfied, is_active,
  evaluate_unit, evaluate_units, go_on,
}
use task_buddy_backend.Dailies.Sweep.Steps.{IsRecorded, evaluate_unit-Steps}

if_either {ℓ κ} :
    {A : Type ℓ} (P : A → Type κ) (b : Bool) (x y : A) → P x → P y → P (if b then x else y)
if_either P true x y px py = px
if_either P false x y px py = py

either_way {ℓ κ} :
    {A : Type ℓ} (P : A → Type κ) (how : Ended) (active : Bool) (a b c d : A)
    → P a
    → P b
    → P c
    → P d
    → P (go_on how active a b c d)
either_way P recorded active a b c d pa pb pc pd = pa
either_way P rolled_back active a b c d pa pb pc pd = if_either P active b c pb pc
either_way P failed active a b c d pa pb pc pd = pd

module _ {F : Type 0} (f : Numbers F) (r : GameRates F) (fromisoformat : String → Option ℕ)
    (roll : ℕ → F) (draw : ℕ → ℕ) (bonus : Stat → ℤ) (today : ℕ) (rec : Recurrence) (anchor : ℕ)
    (between : ℕ → Db F → Db F) (during : ℕ → ℕ → Db F → Db F) (Holds : Db F → Type 0)
    (between_keeps : (tick : ℕ) (db : Db F) → Holds db → Holds (between tick db))
    (during_keeps : (tick unit : ℕ) (db : Db F) → Holds db → Holds (during tick unit db))
    (record_keeps : (tick unit : ℕ) (missed : Days) (db : Db F) (e : Evaluated F)
      → 1 ≤ unit
      → miss_days db.misses unit ≡ false
      → Holds (during tick unit db)
      → IsRecorded f r fromisoformat roll draw bonus today rec anchor unit missed
          (during tick unit db)
          e
      → Holds e.db) where
  unit_holds :
      (tick unit : ℕ) (missed done : Days) (db : Db F)
      → 1 ≤ unit
      → Holds db
      → Holds (
          (evaluate_unit f r fromisoformat roll draw bonus today rec anchor
            (during tick unit)
            unit
            missed
            done
            db).db)
  unit_holds tick unit missed done db date h =
      elim (evaluate_unit-Steps f r fromisoformat roll draw bonus today rec anchor
        (during tick unit) unit missed done db) [
          | inl undone ↦ rw undone.same h
          | inr decided ↦
              let later = during_keeps tick unit db h in
              elim (decided.1) [
                | inl undone ↦ rw undone.same later
                | inr new ↦ record_keeps tick unit missed db _ date (decided.0) later new
              ]
        ]

  -- What every transaction keeps holds after the loop.
  pub evaluate_units-Holds :
      (tick : ℕ) (units : List ℕ) (missed done : Days) (db : Db F) (n : ℕ)
      → AllFrom 1 units
      → Holds db
      → Holds (
          (evaluate_units f r fromisoformat roll draw bonus today rec anchor between during tick
            units missed done db n).2)
  unfolding evaluate_units
  evaluate_units-Holds tick [] missed done db n dates h = h
  evaluate_units-Holds tick (unit ∷ rest) missed done db n dates h =
      let e =
        evaluate_unit f r fromisoformat roll draw bonus today rec anchor (during tick unit) unit
          missed done (between tick db) in
      let after =
        unit_holds tick unit missed done (between tick db) (dates.0) (between_keeps tick db h) in
      let go = evaluate_units f r fromisoformat roll draw bonus today rec anchor between during in
      let counted = go (tick + 1) rest e.missed_days e.done_days e.db (n + 1) in
      let passed = go (tick + 1) rest e.missed_days e.done_days e.db n in
      if_either (λ x. Holds (x.2)) (missed unit || unit_satisfied rec anchor unit done)
        (go tick rest missed done db n) _
        (evaluate_units-Holds tick rest missed done db n (dates.1) h)
        (either_way (λ x. Holds (x.2)) e.ended (is_active e.db.daily) counted passed (true, n, e.db)
          (false, n, e.db)
          (evaluate_units-Holds (tick + 1) rest e.missed_days e.done_days e.db (n + 1) (dates.1)
            after)
          (evaluate_units-Holds (tick + 1) rest e.missed_days e.done_days e.db n (dates.1) after)
          after after)
