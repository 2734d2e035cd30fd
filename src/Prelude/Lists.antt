-- ===== src/Prelude/Lists.antt =====
-- Lists searched, counted and updated in place, over the native numbers.
use Prim.Native.Nat.{ℕ, suc, ◌+◌}
use mathlib.Core.Path.{◌≡◌, refl}
use mathlib.Core.Bool.{Bool, true, false, ◌||◌}
use mathlib.Core.List.{List, [], ◌∷◌, ◌++◌}
use mathlib.Core.Option.{Option, none, some}
use native.Mathlib.Omega.{arith}
use task_buddy_backend.Prelude.Tests.{bit, if◌then◌else◌}

module _ {ℓ} {A : Type ℓ} where
  abbrev pub length : List A → ℕ
  length [] = 0
  length (x ∷ xs) = suc (length xs)

  -- `next((x for x in xs if p(x)), None)`
  abbrev pub find_first : (A → Bool) → List A → Option A
  find_first p [] = none
  find_first p (x ∷ xs) = if p x then some x else find_first p xs

  -- A write through the reference that `find_first p` returns.
  abbrev pub update_first : (A → Bool) → (A → A) → List A → List A
  update_first p f [] = []
  update_first p f (x ∷ xs) = if p x then f x ∷ xs else x ∷ update_first p f xs

  -- `sum(1 for x in xs if p(x))`
  abbrev pub count : (A → Bool) → List A → ℕ
  count p [] = 0
  count p (x ∷ xs) = bit (p x) + count p xs

  abbrev pub keep : (A → Bool) → List A → List A
  keep p [] = []
  keep p (x ∷ xs) = let rest = keep p xs in if p x then x ∷ rest else rest

  abbrev pub any : (A → Bool) → List A → Bool
  any p [] = false
  any p (x ∷ xs) = p x || any p xs

module _ {ℓ} {A : Type ℓ} where
  pub length-append : (xs ys : List A) → length (xs ++ ys) ≡ length xs + length ys
  length-append [] ys = omega arith
  length-append (x ∷ xs) ys = omega (arith, length-append xs ys)

  pub count-append : (p : A → Bool) (xs ys : List A) → count p (xs ++ ys) ≡ count p xs + count p ys
  count-append p [] ys = omega arith
  count-append p (x ∷ xs) ys = omega (arith, count-append p xs ys)

  pub find_first-some : (p : A → Bool) (xs : List A) (x : A) → find_first p xs ≡ some x → p x ≡ true
  find_first-some p [] x h = cc
  find_first-some p (y ∷ xs) x h = ground (arith, find_first-some p xs x)

  pub find_first-none : (p : A → Bool) (xs : List A) → find_first p xs ≡ none → count p xs ≡ 0
  find_first-none p [] h = refl
  find_first-none p (y ∷ xs) h = ground (arith, find_first-none p xs)

  -- Writing `f x` over the found `x` moves each count by what the one cell contributes.
  pub count-update_first :
      (p q : A → Bool) (f : A → A) (xs : List A) (x : A)
      → find_first p xs ≡ some x
      → count q (update_first p f xs) + bit (q x) ≡ count q xs + bit (q (f x))
  count-update_first p q f [] x h = cc
  count-update_first p q f (y ∷ xs) x h = ground (arith, count-update_first p q f xs x)

  pub length-update_first :
      (p : A → Bool) (f : A → A) (xs : List A) → length (update_first p f xs) ≡ length xs
  length-update_first p f [] = refl
  length-update_first p f (y ∷ xs) = ground (arith, length-update_first p f xs)

  pub count-le-length : (p : A → Bool) (xs : List A) → (k : ℕ) × (count p xs + k ≡ length xs)
  count-le-length p [] = (0, omega arith)
  count-le-length p (y ∷ xs) =
      let (k, e) = count-le-length p xs in (if p y then k else suc k, ground (arith, e))
