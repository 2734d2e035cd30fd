-- ===== src/Dailies/Sweep/Settled.antt =====
-- A sweep of app/game/daily_sweep.py that nobody disturbs.
use mathlib.Core.Path.{subst}
use task_buddy_backend.Prelude.{
  ℕ, ◌+◌, ◌-◌, ◌≤◌, ◌≡◌, ◌≢◌, ◌⊎◌, refl, sym, ap, ◌∙◌, inl, inr, Bool, true, false, ◌&&◌, Option,
  some, List, [], ◌∷◌, String, ℤ, arith, Bool-cases, count, leb, ◌==◌, any, keep, if◌then◌else◌,
}
use task_buddy_backend.Json.{Json}
use task_buddy_backend.Game.Number.{Numbers}
use task_buddy_backend.Game.Number.Leaves.{Returns}
use task_buddy_backend.Game.Rates.{GameRates}
use task_buddy_backend.Game.Profile.{Stat, GameProfile}
use task_buddy_backend.Dailies.Recurrence.{
  Recurrence, Schedule, daily, weekdays, every_n_days, times_per_week, effective_anchor,
  parse_recurrence, scheduled_units, eval_due, max,
}
use task_buddy_backend.Dailies.Recurrence.From.{
  AllFrom, keep-AllFrom, scheduled_units-AllFrom_anchor,
}
use task_buddy_backend.Dailies.Sweep.{
  Days, Db, DailyRow, recorded, rolled_back, Evaluated, is_miss, miss_days, with_day, union,
  is_active, unit_satisfied, week_of, evaluate_unit, under_lock, record_miss, commit_miss,
  score_miss, still_scheduled, fresh_from, list_daily_checks, evaluate_units, evaluate_daily, due,
  lookback_days, grace_hours, unrecorded,
}

count_mono {ℓ} :
    {A : Type ℓ} (p q : A → Bool) (xs : List A)
    → ((x : A) → p x ≡ true → q x ≡ true)
    → count p xs ≤ count q xs
count_mono p q [] h = omega arith
count_mono p q (x ∷ xs) h = elim (Bool-cases (p x)) [
  | inl yes_x ↦ ground (arith, yes_x, h x yes_x, count_mono p q xs h)
  | inr no_x ↦ ground (arith, no_x, count_mono p q xs h)
]

any-kept {ℓ} :
    {A : Type ℓ} (p q : A → Bool) (xs : List A) → any p (keep q xs) ≡ true → any p xs ≡ true
any-kept p q [] h = h
any-kept p q (x ∷ xs) h = elim (Bool-cases (q x)) [
  | inl kept ↦ ground (arith, kept, h, any-kept p q xs)
  | inr dropped ↦ ground (arith, dropped, h, any-kept p q xs)
]

leb_mono : (w a b : ℕ) → leb w a ≡ true → a ≤ b → leb w b ≡ true
leb_mono w a b h k = ground (arith, h, k)

false_not_true : false ≢ true
false_not_true = cc

-- Each date of one set is in the other.
abbrev pub Within : Days → Days → Type 0
Within a b = (d : ℕ) → a d ≡ true → b d ≡ true

module _ (rec : Recurrence) (anchor : ℕ) where
  unit_satisfied_mono :
      (unit : ℕ) (a b : Days) (s : Schedule)
      → rec.schedule ≡ s
      → Within a b
      → unit_satisfied rec anchor unit a ≡ true
      → unit_satisfied rec anchor unit b ≡ true
  unfolding unit_satisfied
  unit_satisfied_mono unit a b (times_per_week wanted) e h t =
      let floor = effective_anchor rec anchor in
      let more =
        count_mono (λ d. a d && leb floor d) (λ d. b d && leb floor d) (week_of unit)
          (λ d k. ground (arith, k, h d (ground (arith, k)))) in
      let enough = simp (unit_satisfied, e) at t in
      simp (unit_satisfied, e) (leb_mono wanted _ _ enough more)
  unit_satisfied_mono unit a b daily e h t =
      simp (unit_satisfied, e) (h unit (simp (unit_satisfied, e) at t))
  unit_satisfied_mono unit a b (weekdays ds) e h t =
      simp (unit_satisfied, e) (h unit (simp (unit_satisfied, e) at t))
  unit_satisfied_mono unit a b (every_n_days i k) e h t =
      simp (unit_satisfied, e) (h unit (simp (unit_satisfied, e) at t))

-- A unit is satisfied, or its miss is recorded.
abbrev pub Settled : {F : Type 0} → Recurrence → ℕ → Db F → ℕ → Type 0
Settled rec anchor db unit =
    (unit_satisfied rec anchor unit db.done ≡ true) ⊎ (miss_days db.misses unit ≡ true)

module _ {F : Type 0} (f : Numbers F) (r : GameRates F) (fromisoformat : String → Option ℕ)
    (roll : ℕ → F) (draw : ℕ → ℕ) (bonus : Stat → ℤ) (today : ℕ) (rec : Recurrence) (anchor : ℕ)
    (difficulty : String)
    (scores : (unit : ℕ) (p : Option (GameProfile F))
      → Returns (score_miss f r fromisoformat roll draw bonus today unit difficulty p)) where
  -- An active daily with the recurrence that is swept; a unit with an event has a miss.
  pub record IsReady (db : Db F) : Type 0 where
    pub row : DailyRow
    pub found : db.daily ≡ some row
    pub active : row.active ≡ true
    pub scored : row.difficulty ≡ difficulty
    pub parsed : parse_recurrence fromisoformat row.recurrence ≡ some rec
    pub events : Within db.events (miss_days db.misses)

  -- What a unit that is evaluated leaves: the sets of the loop still say no more than the database.
  record IsAfter (unit : ℕ) (db : Db F) (e : Evaluated F) : Type 0 where
    ready : IsReady e.db
    missed : Within e.missed_days (miss_days e.db.misses)
    done : Within e.done_days e.db.done
    same : e.db.done ≡ db.done
    kept : Within (miss_days db.misses) (miss_days e.db.misses)
    settled : Settled rec anchor e.db unit
    goes_on : (e.ended ≡ recorded) ⊎ (e.ended ≡ rolled_back)

  module _ (unit : ℕ) (missed done : Days) (db : Db F) (ready : IsReady db)
      (in_misses : Within missed (miss_days db.misses)) (in_done : Within done db.done) where
    taken-IsAfter :
        miss_days db.misses unit ≡ true
        → IsAfter unit db (
            unrecorded f r fromisoformat roll draw bonus today rolled_back
              (with_day unit missed)
              done
              db)
    taken-IsAfter taken = record {
      ready = ready;
      missed = λ d k. elim (Bool-cases (d == unit)) [
        | inl same ↦ let e : d ≡ unit = ground (arith, same) in rw e taken
        | inr other ↦ in_misses d (ground (arith, other, k))
      ];
      done = in_done;
      same = refl;
      kept = λ d k. k;
      settled = inr taken;
      goes_on = inr refl;
    }

    done-IsAfter :
        (fresh : Days)
        → Within fresh db.done
        → unit_satisfied rec anchor unit fresh ≡ true
        → IsAfter unit db (
            unrecorded f r fromisoformat roll draw bonus today rolled_back missed
              (union fresh done)
              db)
    done-IsAfter fresh h satisfied = record {
      ready = ready;
      missed = in_misses;
      done = λ d k. elim (Bool-cases (fresh d)) [
        | inl new ↦ h d new
        | inr old ↦ in_done d (ground (arith, old, k))
      ];
      same = refl;
      kept = λ d k. k;
      settled =
          inl (unit_satisfied_mono rec anchor unit fresh db.done rec.schedule refl h satisfied);
      goes_on = inr refl;
    }

    recorded-IsAfter :
        (frozen : Bool) (scored : F × Option (GameProfile F))
        → miss_days db.misses unit ≡ false
        → IsAfter unit db (
            commit_miss f r fromisoformat roll draw bonus today unit frozen ready.row scored missed
              done db)
    unfolding commit_miss
    recorded-IsAfter frozen scored free = elim (Bool-cases (db.events unit)) [
      | inl wedged ↦
          let there = ready.events unit wedged in absurd (false_not_true (sym free ∙ there))
      | inr unused ↦
          simp (commit_miss, unused)
            (record {
              ready = record {
                row = record {
                  active = ready.row.active;
                  recurrence = ready.row.recurrence;
                  difficulty = ready.row.difficulty;
                  streak = if frozen then ready.row.streak else 0;
                };
                found = refl;
                active = ready.active;
                scored = ready.scored;
                parsed = ready.parsed;
                events = λ d k. ground (arith, k, ready.events d);
              };
              missed = λ d k. ground (arith, k, in_misses d);
              done = in_done;
              same = refl;
              kept = λ d k. ground (arith, k);
              settled = inr (ground arith);
              goes_on = inl refl;
            })
    ]

    record-IsAfter :
        miss_days db.misses unit ≡ false
        → IsAfter unit db (
            record_miss f r fromisoformat roll draw bonus today rec anchor unit missed done
              ready.row db)
    unfolding record_miss
    record-IsAfter free =
        let (scored, e) = scores unit db.profile in
        let same =
          ap (λ d. score_miss f r fromisoformat roll draw bonus today unit d db.profile)
            ready.scored in
        simp (record_miss, same ∙ e) (recorded-IsAfter _ scored free)

    lock-IsAfter :
        effective_anchor rec anchor ≤ unit
        → miss_days db.misses unit ≡ false
        → IsAfter unit db
            (under_lock f r fromisoformat roll draw bonus today rec anchor unit missed done db)
    unfolding under_lock
    lock-IsAfter from free =
        let start = fresh_from f r fromisoformat roll draw bonus today rec anchor unit in
        let fresh = list_daily_checks start unit db.done in
        let stays : still_scheduled f r fromisoformat roll draw bonus today rec anchor unit
              ready.row.recurrence
            ≡ true =
          rw (still_scheduled, ready.parsed) (ground (arith, from)) in
        elim (Bool-cases (unit_satisfied rec anchor unit fresh)) [
          | inl was_done ↦
              simp (under_lock, ready.found, ready.active, stays, was_done)
                (done-IsAfter fresh (λ d k. ground (arith, k)) was_done)
          | inr missing ↦
              simp (under_lock, ready.found, ready.active, stays, missing) (record-IsAfter free)
        ]

    evaluate_unit-IsAfter :
        effective_anchor rec anchor ≤ unit
        → IsAfter unit db (
            evaluate_unit f r fromisoformat roll draw bonus today rec anchor
              (λ d. d)
              unit
              missed
              done
              db)
    unfolding evaluate_unit
    evaluate_unit-IsAfter from = elim (Bool-cases (miss_days db.misses unit)) [
      | inl taken ↦ simp (evaluate_unit, taken) (taken-IsAfter taken)
      | inr free ↦ simp (evaluate_unit, free) (lock-IsAfter from free)
    ]

  -- What the loop over `units` leaves: it does not raise, and each unit is settled.
  pub record IsSwept (units : List ℕ) (db : Db F) (out : Bool × ℕ × Db F) : Type 0 where
    pub returned : out.0 ≡ true
    pub marks : out.2.done ≡ db.done
    pub kept : Within (miss_days db.misses) (miss_days out.2.misses)
    pub settled : (u : ℕ) → any (λ d. d == u) units ≡ true → Settled rec anchor out.2 u

  Settled-on :
      (a b : Db F) (u : ℕ)
      → b.done ≡ a.done
      → Within (miss_days a.misses) (miss_days b.misses)
      → Settled rec anchor a u
      → Settled rec anchor b u
  Settled-on a b u same kept now = elim now [
    | inl satisfied ↦ inl (ap (unit_satisfied rec anchor u) same ∙ satisfied)
    | inr missed ↦ inr (kept u missed)
  ]

  IsSwept-on :
      (unit : ℕ) (rest : List ℕ) (db mid : Db F) (out : Bool × ℕ × Db F)
      → mid.done ≡ db.done
      → Within (miss_days db.misses) (miss_days mid.misses)
      → Settled rec anchor mid unit
      → IsSwept rest mid out
      → IsSwept (unit ∷ rest) db out
  IsSwept-on unit rest db mid out same grown now swept = record {
    returned = swept.returned;
    marks = swept.marks ∙ same;
    kept = λ d k. swept.kept d (grown d k);
    settled = λ u k. elim (Bool-cases (unit == u)) [
      | inl this ↦
          let e : unit ≡ u = ground (arith, this) in
          subst (Settled rec anchor (out.2)) e
            (Settled-on mid (out.2) unit swept.marks swept.kept now)
      | inr other ↦ swept.settled u (ground (arith, other, k))
    ];
  }

  evaluate_units-IsSwept :
      (tick : ℕ) (units : List ℕ) (missed done : Days) (db : Db F) (n : ℕ)
      → AllFrom (effective_anchor rec anchor) units
      → IsReady db
      → Within missed (miss_days db.misses)
      → Within done db.done
      → IsSwept units db (
          evaluate_units f r fromisoformat roll draw bonus today rec anchor
            (λ _ d. d)
            (λ _ _ d. d)
            tick
            units
            missed
            done
            db
            n)
  unfolding evaluate_units
  evaluate_units-IsSwept tick [] missed done db n from ready in_misses in_done = record {
    returned = refl;
    marks = refl;
    kept = λ d k. k;
    settled = λ u k. absurd (false_not_true k);
  }
  evaluate_units-IsSwept tick (unit ∷ rest) missed done db n from ready in_misses in_done =
      let go =
        evaluate_units f r fromisoformat roll draw bonus today rec anchor (λ _ d. d) (λ _ _ d. d) in
      let e =
        evaluate_unit f r fromisoformat roll draw bonus today rec anchor (λ d. d) unit missed done
          db in
      elim (Bool-cases (missed unit)) [
        | inl known ↦
            rw (evaluate_units, known)
              (IsSwept-on unit rest db db (go tick rest missed done db n) refl (λ d k. k)
                (inr (in_misses unit known))
                (evaluate_units-IsSwept tick rest missed done db n (from.1) ready in_misses
                  in_done))
        | inr fresh ↦ elim (Bool-cases (unit_satisfied rec anchor unit done)) [
          | inl satisfied ↦
              let still =
                unit_satisfied_mono rec anchor unit done db.done rec.schedule refl in_done
                  satisfied in
              rw (evaluate_units, fresh, satisfied)
                (IsSwept-on unit rest db db (go tick rest missed done db n) refl (λ d k. k)
                  (inl still)
                  (evaluate_units-IsSwept tick rest missed done db n (from.1) ready in_misses
                    in_done))
          | inr wanting ↦
              let a = evaluate_unit-IsAfter unit missed done db ready in_misses in_done (from.0) in
              let next = λ (m : ℕ).
                IsSwept-on unit rest db e.db (go (tick + 1) rest e.missed_days e.done_days e.db m)
                  a.same a.kept a.settled
                  (evaluate_units-IsSwept (tick + 1) rest e.missed_days e.done_days e.db m (from.1)
                    a.ready a.missed a.done) in
              let awake : is_active e.db.daily ≡ true = rw a.ready.found a.ready.active in
              elim a.goes_on [
                | inl won ↦ rw (evaluate_units, fresh, wanting, won) (next (n + 1))
                | inr back ↦ rw (evaluate_units, fresh, wanting, back, awake) (next n)
              ]
        ]
      ]

  -- For an active daily with a recurrence that parses, whose units with an event have a miss and
  -- whose misses the engine can score: an evaluation that no other transaction disturbs does not
  -- raise, leaves the marks as they are and keeps all misses, and afterwards each due unit from
  -- the lookback window is satisfied by the marks or has a miss.
  pub evaluate_daily-IsSwept :
      (now : ℕ) (recurrence : Json) (db : Db F)
      → parse_recurrence fromisoformat recurrence ≡ some rec
      → IsReady db
      → let units =
          due f r fromisoformat roll draw bonus today now
            (scheduled_units rec anchor (max anchor (today - lookback_days)) today) in
        IsSwept units db (
          evaluate_daily f r fromisoformat roll draw bonus today
            (λ _ d. d)
            (λ _ _ d. d)
            now
            anchor
            recurrence
            db)
  unfolding evaluate_daily
  evaluate_daily-IsSwept now recurrence db parsed ready =
      let start = max anchor (today - lookback_days) in
      let all = scheduled_units rec anchor start today in
      let from =
        keep-AllFrom (effective_anchor rec anchor) (λ u. eval_due grace_hours u now) all
          (scheduled_units-AllFrom_anchor rec anchor start today) in
      rw (evaluate_daily, parsed)
        (evaluate_units-IsSwept 0 (due f r fromisoformat roll draw bonus today now all) _ _ db 0
          from ready (λ d k. any-kept (is_miss d) _ db.misses k) (λ d k. ground (arith, k)))
