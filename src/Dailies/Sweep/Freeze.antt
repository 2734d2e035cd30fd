-- ===== src/Dailies/Sweep/Freeze.antt =====
-- The verdict of app/game/daily_sweep.py on a streak freeze.
use task_buddy_backend.Prelude.{
  ℕ, ◌≤◌, ◌≡◌, sym, ap, ◌∙◌, inl, inr, Bool, true, false, not, ◌&&◌, ◌||◌, List, [], ◌∷◌, arith,
  leb, ◌==◌, any, keep, Bool-cases,
}
use task_buddy_backend.Dailies.Recurrence.{Recurrence, effective_anchor}
use task_buddy_backend.Dailies.Recurrence.Descends.{Descends, member-below, prior_units-Descends}
use task_buddy_backend.Dailies.Sweep.{
  Days, Miss, is_miss, miss_days, list_daily_misses, last_or, window, in_window, is_frozen,
}

module _ {ℓ} {A : Type ℓ} where
  -- A test that some element passes, and that another test follows from.
  any-follows :
      (p q : A → Bool) (xs : List A)
      → ((x : A) → p x ≡ true → q x ≡ true)
      → any p xs ≡ true
      → any q xs ≡ true
  any-follows p q [] h e = cc
  any-follows p q (x ∷ xs) h e = elim (Bool-cases (p x)) [
    | inl yes_x ↦ ground (arith, h x yes_x)
    | inr no_x ↦ ground (arith, any-follows p q xs h (ground (arith, no_x, e)))
  ]

  -- An element that is kept is found in what is kept.
  any-keep :
      (p q : A → Bool) (xs : List A)
      → ((x : A) → p x ≡ true → q x ≡ true)
      → any p xs ≡ true
      → any p (keep q xs) ≡ true
  any-keep p q [] h e = cc
  any-keep p q (x ∷ xs) h e = elim (Bool-cases (p x)) [
    | inl yes_x ↦ let kept = h x yes_x in ground (arith, yes_x, kept)
    | inr no_x ↦ ground (arith, any-keep p q xs h (ground (arith, no_x, e)))
  ]

eq_of : (u x : ℕ) → (u == x) ≡ true → u ≡ x
eq_of u x h = ground (arith, h)

any-at :
    (x : ℕ) (q : ℕ → Bool) (ds : List ℕ)
    → any (λ u. u == x) ds ≡ true
    → q x ≡ true
    → any q ds ≡ true
any-at x q ds h e = any-follows (λ u. u == x) q ds (λ u same. ap q (eq_of u x same) ∙ e) h

last_or-le : (b : ℕ) (ds : List ℕ) → Descends b ds → last_or b ds ≤ b
last_or-le b [] p = omega arith
last_or-le b (d ∷ ds) p = let rest = last_or-le d ds (p.1) in omega (arith, rest, p.0)

last_or-least :
    (b x : ℕ) (ds : List ℕ) → Descends b ds → any (λ u. u == x) ds ≡ true → last_or b ds ≤ x
last_or-least b x [] p h = cc
last_or-least b x (d ∷ ds) p h = elim (Bool-cases (d == x)) [
  | inl same ↦ let low = last_or-le d ds (p.1) in ground (arith, same, low)
  | inr other ↦ last_or-least d x ds (p.1) (ground (arith, other, h))
]

both : (a b : Bool) → not a && not b ≡ true → (a ≡ false) × (b ≡ false)
both a b h = (ground (arith, h), ground (arith, h))

refuted : (a b : Bool) → a ≡ false → (b ≡ true → a ≡ true) → b ≡ false
refuted a b h k = elim (Bool-cases b) [ inl e ↦ ground (arith, h, k e) | inr e ↦ e ]

module _ {F : Type 0} where
  -- Whether the misses of a day hold one that a freeze has absorbed.
  abbrev pub frozen_day : List (Miss F) → Days
  frozen_day rows x = any (λ m. is_miss x m && m.frozen) rows

  module _ (rec : Recurrence) (anchor : ℕ) where
    -- No frozen miss lies in the window that another frozen miss looks back on.
    abbrev pub Spaced : List (Miss F) → Type 0
    Spaced rows =
        (x y : ℕ)
        → 1 ≤ y
        → frozen_day rows x ≡ true
        → frozen_day rows y ≡ true
        → in_window rec anchor x y ≡ false

    module _ (floor : 1 ≤ effective_anchor rec anchor) where
      module _ (unit : ℕ) (one : 1 ≤ unit) (missed_days : Days) (own : Miss F)
          (misses : List (Miss F))
          (verdict : let since = last_or unit (window rec anchor unit) in
            is_frozen rec anchor unit missed_days (list_daily_misses since (own ∷ misses))
            ≡ true) where
        since : ℕ
        since = last_or unit (window rec anchor unit)

        recent : Miss F → Bool
        recent m = leb since m.scheduled_day

        rows : List (Miss F)
        unfolding since
        rows = list_daily_misses since (own ∷ misses)

        earlier : Bool
        unfolding rows
        earlier = any (λ u. missed_days u || miss_days rows u) (window rec anchor unit)

        later : Bool
        unfolding rows
        later = any (λ m. m.frozen && in_window rec anchor unit m.scheduled_day) rows

        split_verdict : (earlier ≡ false) × (later ≡ false)
        unfolding is_frozen earlier later
        split_verdict = both earlier later verdict

        descends : Descends unit (window rec anchor unit)
        descends = prior_units-Descends rec anchor floor unit 6 one

        nothing_before : (x : ℕ) → frozen_day misses x ≡ true → in_window rec anchor x unit ≡ false
        unfolding earlier recent
        nothing_before x h =
            refuted earlier (in_window rec anchor x unit) (split_verdict.0) λ inside.
              let low = last_or-least unit x (window rec anchor unit) descends inside in
              let there =
                any-follows (λ m. is_miss x m && m.frozen) (is_miss x) misses
                  (λ m k. ground (arith, k)) h in
              let shown : any (is_miss x) (own ∷ misses) ≡ true = ground (arith, there) in
              let found =
                any-keep (is_miss x) recent (own ∷ misses) (λ m k. ground (arith, k, low)) shown in
              any-at x (λ u. missed_days u || miss_days rows u) (window rec anchor unit) inside
                (ground (arith, found))

        nothing_after :
            (y : ℕ) → 1 ≤ y → frozen_day misses y ≡ true → in_window rec anchor unit y ≡ false
        unfolding later recent
        nothing_after y date h =
            refuted later (in_window rec anchor unit y) (split_verdict.1) λ inside.
              let before =
                member-below y unit (window rec anchor y)
                  (prior_units-Descends rec anchor floor y 6 date) inside in
              let low = last_or-le unit (window rec anchor unit) descends in
              let shown : frozen_day (own ∷ misses) y ≡ true = ground (arith, h) in
              let found =
                any-keep (λ m. is_miss y m && m.frozen) recent (own ∷ misses)
                  (λ m k. ground (arith, k, low, before)) shown in
              any-follows (λ m. is_miss y m && m.frozen)
                (λ m. m.frozen && in_window rec anchor unit m.scheduled_day) rows
                (λ m k.
                  let at_y = eq_of m.scheduled_day y (ground (arith, k)) in
                  let same = ap (in_window rec anchor unit) at_y in ground (arith, k, same, inside))
                found

        not_itself : in_window rec anchor unit unit ≡ false
        not_itself = elim (Bool-cases (in_window rec anchor unit unit)) [
          | inl inside ↦
              let before = member-below unit unit (window rec anchor unit) descends inside in
              absurd (omega (arith, before))
          | inr e ↦ e
        ]

        module _ (new : Miss F) (at_unit : new.scheduled_day ≡ unit) where
          new_day :
              (x : ℕ) → frozen_day (new ∷ misses) x ≡ true → frozen_day misses x ≡ false → unit ≡ x
          new_day x h old = sym at_unit ∙ eq_of new.scheduled_day x (ground (arith, h, old))

          -- A miss that is recorded with this verdict keeps the frozen misses apart.
          pub frozen-Spaced : Spaced misses → Spaced (new ∷ misses)
          frozen-Spaced spaced x y date hx hy = elim (Bool-cases (frozen_day misses x)) [
            | inl old_x ↦ elim (Bool-cases (frozen_day misses y)) [
              | inl old_y ↦ spaced x y date old_x old_y
              | inr new_y ↦ rw (← new_day y hy new_y) (nothing_before x old_x)
            ]
            | inr new_x ↦ elim (Bool-cases (frozen_day misses y)) [
              | inl old_y ↦ rw (← new_day x hx new_x) (nothing_after y date old_y)
              | inr new_y ↦ rw (← new_day x hx new_x, ← new_day y hy new_y) not_itself
            ]
          ]

      -- A miss that breaks the streak does so too.
      pub open-Spaced :
          (new : Miss F) (misses : List (Miss F))
          → new.frozen ≡ false
          → Spaced misses
          → Spaced (new ∷ misses)
      open-Spaced new misses thawed spaced x y date hx hy =
          spaced x y date (ground (arith, hx, thawed)) (ground (arith, hy, thawed))
