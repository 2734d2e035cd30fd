-- ===== src/Game/Award/Climb.antt =====
-- What levels cost: the XP that a climb from one level to another spends.
use mathlib.Core.Path.{subst}
use native.Mathlib.Nat.{add_assoc}
use task_buddy_backend.Prelude.{ℕ, ◌+◌, ◌≤◌, ◌<◌, ◌≡◌, refl, sym, ◌∙◌, arith}
use task_buddy_backend.Game.Number.{Raises, returns, returns-injective}

-- `Climb thr a b n`: with `thr` as the curve, the levels from `a` up to `b` cost `n` XP together.
pub data Climb (thr : ℕ → Raises ℕ) : ℕ → ℕ → ℕ → Type 0 where
  stay : {a : ℕ} → Climb thr a a 0
  rise : {a b n t : ℕ} → thr a ≡ returns t → Climb thr (a + 1) b n → Climb thr a b (t + n)

-- The rest of the XP does not pay for one more level.
abbrev pub IsBelow : (ℕ → Raises ℕ) → ℕ → ℕ → Type 0
IsBelow thr level xp = (t : ℕ) → thr level ≡ returns t → xp < t

module _ (thr : ℕ → Raises ℕ) where
  pub Climb-le : {a b n : ℕ} → Climb thr a b n → a ≤ b
  Climb-le stay = omega arith
  Climb-le (rise e c) = omega (arith, Climb-le c)

  -- An amount of XP settles at one level only.
  pub Climb-unique :
      {a b c m n x y : ℕ}
      → Climb thr a b m
      → Climb thr a c n
      → m + x ≡ n + y
      → IsBelow thr b x
      → IsBelow thr c y
      → (b ≡ c) × (x ≡ y)
  Climb-unique stay stay e _ _ = (refl, omega arith)
  Climb-unique stay (rise {n = n} {t = t} h d) e low _ = omega (arith, low t h)
  Climb-unique (rise {t = t} h d) stay e _ low = omega (arith, low t h)
  Climb-unique (rise {t = t} h d) (rise {t = s} k c) e low high =
      let same = returns-injective t s (sym h ∙ k) in Climb-unique d c (omega arith) low high

  pub Climb-trans : {a b c m n : ℕ} → Climb thr a b m → Climb thr b c n → Climb thr a c (m + n)
  Climb-trans {c = c} {n = n} stay d = let e : n ≡ 0 + n = omega arith in subst (Climb thr _ c) e d
  Climb-trans (rise {n = n} {t = t} e c) d = rw add_assoc (rise e (Climb-trans c d))
