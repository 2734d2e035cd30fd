-- ===== src/Tracking/Streaks.antt =====
-- Streaks of app/game/tracking.py against their description: blocks of consecutive scored days.
use Prim.Native.Nat.{max}
use task_buddy_backend.Prelude.{
  Bool, not, ◌&&◌, ◌==◌, if◌then◌else◌, length, ℕ, zero, suc, ◌+◌, ◌-◌, ◌≤◌, ◌<◌, ◌≡◌, refl, ap,
  ◌∙◌, ◌⊎◌, inl, inr, true, false, List, [], ◌∷◌, Bool-cases, arith,
}
use task_buddy_backend.Tracking.{
  DayRow, is_scored, row_at, longest_loop, current_loop, rows_left, streaks,
}

-- The first `n` days are scored.
pub data Opens : ℕ → List DayRow → Type 0 where
  none_asked : {days : List DayRow} → Opens 0 days
  scored :
      {n : ℕ} {row : DayRow} {days : List DayRow}
      → is_scored row ≡ true
      → Opens n days
      → Opens (suc n) (row ∷ days)

-- Some `n` consecutive days are scored.
pub data Has : ℕ → List DayRow → Type 0 where
  here : {n : ℕ} {days : List DayRow} → Opens n days → Has n days
  later : {n : ℕ} {row : DayRow} {days : List DayRow} → Has n days → Has n (row ∷ days)

-- `n` is the largest number of consecutive days that are scored.
pub IsLongest : ℕ → List DayRow → Type 0
IsLongest n days = Has n days × ((m : ℕ) → Has m days → m ≤ n)

longest_loop-least :
    (run longest : ℕ) (days : List DayRow) → longest ≤ longest_loop run longest days
unfolding longest_loop
longest_loop-least run longest [] = omega arith
longest_loop-least run longest (row ∷ days) = elim (Bool-cases (is_scored row)) [
  | inl e ↦ let h = longest_loop-least (suc run) (max longest (suc run)) days in rw e (omega arith)
  | inr e ↦ rw e (longest_loop-least 0 longest days)
]

longest_loop-Opens :
    (run longest : ℕ) {n : ℕ} (days : List DayRow)
    → run ≤ longest
    → Opens n days
    → run + n ≤ longest_loop run longest days
unfolding longest_loop
longest_loop-Opens run longest days h none_asked =
    let b = longest_loop-least run longest days in omega arith
longest_loop-Opens run longest (row ∷ days) h (scored e p) =
    let b = longest_loop-Opens (suc run) (max longest (suc run)) days (omega arith) p in
    rw e (omega arith)

longest_loop-Has :
    (run longest : ℕ) {n : ℕ} (days : List DayRow)
    → run ≤ longest
    → Has n days
    → n ≤ longest_loop run longest days
unfolding longest_loop
longest_loop-Has run longest days h (here p) =
    let b = longest_loop-Opens run longest days h p in omega arith
longest_loop-Has run longest (row ∷ days) h (later p) = elim (Bool-cases (is_scored row)) [
  | inl e ↦ rw e (longest_loop-Has (suc run) (max longest (suc run)) days (omega arith) p)
  | inr e ↦ rw e (longest_loop-Has 0 longest days (omega arith) p)
]

lt_or_ge : (a b : ℕ) → (a < b) ⊎ (b ≤ a)
lt_or_ge a b = omega arith

-- Where the loop's answer comes from: its start, a block that goes on with `run`, or a later block.
longest_loop-from :
    (run longest : ℕ) (days : List DayRow)
    → (longest_loop run longest days ≡ longest)
      ⊎ (((n : ℕ) × (longest_loop run longest days ≡ run + n) × Opens n days)
          ⊎ Has (longest_loop run longest days) days)
unfolding longest_loop
longest_loop-from run longest [] = inl refl
longest_loop-from run longest (row ∷ days) = elim (Bool-cases (is_scored row)) [
  | inl e ↦ elim (longest_loop-from (suc run) (max longest (suc run)) days) [
    | inl p ↦ elim (lt_or_ge longest (suc run)) [
      | inl q ↦ inr (inl (1, rw e (omega (arith, p, q)), scored e none_asked))
      | inr q ↦ inl (rw e (omega (arith, p, q)))
    ]
    | inr (inl (n, p, o)) ↦ inr (inl (suc n, rw e (omega (arith, p)), scored e o))
    | inr (inr o) ↦ inr (inr (rw e (later o)))
  ]
  | inr e ↦ elim (longest_loop-from 0 longest days) [
    | inl p ↦ inl (rw e p)
    | inr (inl (n, p, o)) ↦ inr (
        inr (
          rw e
            (let q : longest_loop 0 longest days ≡ n = omega (arith, p) in rw q (later (here o)))))
    | inr (inr o) ↦ inr (inr (rw e (later o)))
  ]
]

pub longest_loop-IsLongest : (days : List DayRow) → IsLongest (longest_loop 0 0 days) days
unfolding IsLongest
longest_loop-IsLongest days = (
  elim (longest_loop-from 0 0 days) [
    | inl p ↦ rw p (here none_asked)
    | inr (inl (n, p, o)) ↦ let q : longest_loop 0 0 days ≡ n = omega (arith, p) in rw q (here o)
    | inr (inr o) ↦ o
  ],
  λ m p. longest_loop-Has 0 0 days (omega arith) p,
)

-- `n` is the number of scored days that stand together right before the day with the number `stop`.
pub record IsRun (n stop : ℕ) (days : List DayRow) : Type 0 where
  pub fits : n ≤ stop
  pub all_scored : (i : ℕ) → stop - n ≤ i → i < stop → row_at is_scored days i ≡ true
  pub starts : (n ≡ stop) ⊎ (row_at is_scored days (stop - suc n) ≡ false)

current_loop-IsRun : (days : List DayRow) (stop : ℕ) → IsRun (current_loop days stop) stop days
unfolding current_loop
current_loop-IsRun days zero = record {
  fits = omega arith;
  all_scored = λ i h l. ground arith;
  starts = inl refl;
}
current_loop-IsRun days (suc i) = elim (Bool-cases (row_at is_scored days i)) [
  | inl e ↦
      let before = current_loop-IsRun days i in
      rw e (record {
        fits = let h = before.fits in omega arith;
        all_scored = λ j h l. elim (lt_or_ge j i) [
          | inl lower ↦ before.all_scored j (omega arith) lower
          | inr same ↦ ap (row_at is_scored days) (omega (arith, same, l)) ∙ e
        ];
        starts = elim before.starts [
          | inl p ↦ inl (ap suc p)
          | inr p ↦ inr (ap (row_at is_scored days) (omega arith) ∙ p)
        ];
      })
  | inr e ↦ rw e (record {
    fits = omega arith;
    all_scored = λ j h l. ground arith;
    starts = inr (ap (row_at is_scored days) (omega arith) ∙ e);
  })
]

-- A block of scored days in the middle of the days.
Opens-row_at :
    (n : ℕ) (days : List DayRow) → ((i : ℕ) → i < n → row_at is_scored days i ≡ true) → Opens n days
Opens-row_at zero days h = none_asked
Opens-row_at (suc n) [] h = let p = h 0 (omega arith) in ground arith
Opens-row_at (suc n) (row ∷ days) h =
    scored (h 0 (omega arith)) (Opens-row_at n days (λ i l. h (suc i) (omega arith)))

Has-row_at :
    (start n : ℕ) (days : List DayRow)
    → ((i : ℕ) → start ≤ i → i < start + n → row_at is_scored days i ≡ true)
    → Has n days
Has-row_at zero n days h = here (Opens-row_at n days (λ i l. h i (omega arith) (omega arith)))
Has-row_at (suc start) zero [] h = here none_asked
Has-row_at (suc start) (suc n) [] h =
    let p = h (suc start) (omega arith) (omega arith) in ground arith
Has-row_at (suc start) n (row ∷ days) h =
    later (Has-row_at start n days (λ i l u. h (suc i) (omega arith) (omega arith)))

IsRun-Has : (n stop : ℕ) (days : List DayRow) → IsRun n stop days → Has n days
IsRun-Has n stop days run =
    let h = run.fits in Has-row_at (stop - n) n days (λ i l u. run.all_scored i l (omega arith))

-- The number of rows that the current streak is read from: all of them, but for a last one that is
-- of today and has no positive score.
abbrev pub counted : ℕ → List DayRow → ℕ
counted today [] = 0
counted today (last ∷ []) = if last.date == today && not (is_scored last) then 0 else 1
counted today (row ∷ next ∷ days) = suc (counted today (next ∷ days))

-- A test of the last row.
last_is : (DayRow → Bool) → List DayRow → Bool
last_is test [] = false
last_is test (last ∷ []) = test last
last_is test (row ∷ next ∷ days) = last_is test (next ∷ days)

row_at-last :
    (test : DayRow → Bool) (days : List DayRow)
    → row_at test days (length days - 1) ≡ last_is test days
unfolding last_is
row_at-last test [] = refl
row_at-last test (last ∷ []) = refl
row_at-last test (row ∷ next ∷ days) =
    let e : suc (length (next ∷ days)) - 1 ≡ suc (length (next ∷ days) - 1) = omega arith in
    ap (row_at test (row ∷ next ∷ days)) e ∙ row_at-last test (next ∷ days)

counted-last :
    (today : ℕ) (days : List DayRow)
    → (if last_is (λ row. row.date == today && not (is_scored row)) days
        then length days - 1
        else length days)
      ≡ counted today days
unfolding last_is
counted-last today [] = refl
counted-last today (last ∷ []) = refl
counted-last today (row ∷ next ∷ days) = ground (arith, counted-last today (next ∷ days))

rows_left-counted : (days : List DayRow) (today : ℕ) → rows_left days today ≡ counted today days
unfolding rows_left
rows_left-counted days today =
    rw (row_at-last (λ row. row.date == today && not (is_scored row)) days)
      (counted-last today days)

-- For all rows, `_streaks` answers a current streak that is the number of rows with a positive
-- score standing together right before the end, where the last row does not count if it is of
-- today and has no positive score, and a longest streak that is the largest number of successive
-- rows with a positive score; the current one is at most the longest.
pub streaks-exact :
    (days : List DayRow) (today : ℕ)
    → IsRun (streaks days today).0 (counted today days) days
      × IsLongest (streaks days today).1 days
      × ((streaks days today).0 ≤ (streaks days today).1)
unfolding streaks IsLongest
streaks-exact days today =
    let run : IsRun (current_loop days (rows_left days today)) (rows_left days today) days =
      current_loop-IsRun days (rows_left days today) in
    let most = longest_loop-IsLongest days in
    (
      rw (← rows_left-counted days today) run,
      most,
      most.1 (current_loop days (rows_left days today)) (IsRun-Has _ _ days run),
    )
