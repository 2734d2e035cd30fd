-- ===== src/Game/Number/Leaves.antt =====
-- Chains of calls that may raise, and what holds of each value that they return.
use mathlib.Core.Path.{subst}
use task_buddy_backend.Prelude.{◌≡◌, Bool, true, false, Option, none, some, ap, if◌then◌else◌}
use task_buddy_backend.Game.Number.{
  Raises, returns, ◌>>=◌, >>=-returns, returns-injective, computed,
}

-- Each value that the call returns satisfies `P`.
abbrev pub Leaves {ℓ κ} : {A : Type ℓ} → (A → Type κ) → Raises A → Type (ℓ ⊔ κ)
Leaves {A = A} P m = (a : A) → m ≡ returns a → P a

pub after {ℓ κ μ} :
    {A : Type ℓ} {B : Type κ} (P : B → Type μ) (m : Raises A) (k : A → Raises B)
    → ((a : A) → m ≡ returns a → Leaves P (k a))
    → Leaves P (m >>= k)
after P m k h b e = let (a, first, rest) = >>=-returns m k b e in h a first b rest

pub leaf {ℓ κ} : {A : Type ℓ} (P : A → Type κ) (a : A) → P a → Leaves P (returns a)
leaf P a x b e = subst P (returns-injective a b e) x

pub branch {ℓ κ} :
    {A : Type ℓ} (P : A → Type κ) (b : Bool) (m n : Raises A)
    → Leaves P m
    → Leaves P n
    → Leaves P (if b then m else n)
branch P true m n x y = x
branch P false m n x y = y

pub computed-returns {ℓ} : {A : Type ℓ} (o : Option A) (a : A) → computed o ≡ returns a → o ≡ some a
computed-returns none a h = cc
computed-returns (some x) a h = ap some (returns-injective x a h)

-- The call comes back with a value.
abbrev pub Returns {ℓ} : {A : Type ℓ} → Raises A → Type ℓ
Returns {A = A} m = (a : A) × (m ≡ returns a)

pub >>=-Returns {ℓ κ} :
    {A : Type ℓ} {B : Type κ} (m : Raises A) (k : A → Raises B)
    → Returns m
    → ((a : A) → Returns (k a))
    → Returns (m >>= k)
unfolding ◌>>=◌
>>=-Returns m k first rest = let (a, e) = first in let (b, g) = rest a in (b, rw (e, ◌>>=◌) g)
