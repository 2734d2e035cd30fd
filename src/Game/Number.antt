-- ===== src/Game/Number.antt =====
-- Python's numbers in app/game/engine.py: what the engine does with an `int` or a `float`, as the
-- record Numbers, and calls that may raise.
pub mod Laws
pub mod Leaves
use task_buddy_backend.Prelude.{
  ℕ, String, Bool, true, false, Option, none, some, ℤ, pos, List, [], ◌∷◌, ◌≡◌, refl, ap,
  if◌then◌else◌,
}
use task_buddy_backend.Json.{Json}

-- `F` holds the values of both types. Division and power may overflow or divide by zero; `floor`,
-- `ceil`, `round` and `int` have no value at infinity.
pub record Numbers (F : Type 0) : Type 0 where
  pub of_int : ℤ → F
  -- the mantissa and the power of two that divides it
  pub of_float : ℤ → ℕ → F
  -- the literal of these digits, with the point before the last `k` of them
  pub literal : ℕ → ℕ → F
  pub to_float : F → F
  pub neg : F → F
  pub add : F → F → F
  pub sub : F → F → F
  pub mul : F → F → F
  pub div : F → F → Option F
  pub pow : F → F → Option F
  pub floor : F → Option ℤ
  pub ceil : F → Option ℤ
  pub round : F → Option ℤ
  pub trunc : F → Option ℤ
  pub is_integer : F → Bool
  pub lt : F → F → Bool
  pub le : F → F → Bool
  -- whether a float can hold the `int`; `math.isfinite` raises where it cannot
  pub fits : ℤ → Bool
  -- `str(v)` of a value that is no text
  pub show : Json → String

-- A call that returns, raises `ValueError` with a message, or raises `OverflowError` or
-- `ZeroDivisionError` from its arithmetic.
pub data Raises {ℓ} (A : Type ℓ) : Type ℓ where
  returns : A → Raises A
  value_error : String → Raises A
  arithmetic_error : Raises A

infixl 5 ◌>>=◌
unfoldable pub ◌>>=◌ {ℓ κ} : {A : Type ℓ} {B : Type κ} → Raises A → (A → Raises B) → Raises B
returns a >>= f = f a
value_error e >>= f = value_error e
arithmetic_error >>= f = arithmetic_error

abbrev pub computed {ℓ} : {A : Type ℓ} → Option A → Raises A
computed none = arithmetic_error
computed (some a) = returns a

module _ {F : Type 0} (f : Numbers F) where
  abbrev pub nought : F
  nought = f.of_int (pos 0)

  -- `0.0`
  abbrev pub zero_point : F
  zero_point = f.literal 0 1

  -- `x * y * z …`, from the left
  abbrev pub product : F → List F → F
  product x [] = x
  product x (y ∷ ys) = product (f.mul x y) ys

  -- `max(a, b)`, which gives `a` unless `b` is greater
  abbrev pub max_of : F → F → F
  max_of a b = if f.lt a b then b else a

  -- `min(a, b)`, which gives `a` unless `b` is less
  abbrev pub min_of : F → F → F
  min_of a b = if f.lt b a then b else a

  -- The value of an `int` or `float` that is no `bool`.
  abbrev pub number : Json → Option F
  number (Json.int n) = some (f.of_int n)
  number (Json.float m e) = some (f.of_float m e)
  number _ = none

  -- `math.isfinite` on such a value
  abbrev pub is_finite : Json → Raises Bool
  is_finite (Json.int n) = if f.fits n then returns true else arithmetic_error
  is_finite _ = returns true

  -- `str(v)`
  abbrev pub text_of : Json → String
  text_of (Json.str s) = s
  text_of v = f.show v

  -- `int(math.floor(x + 0.5))`
  unfoldable pub round_half_up : F → Raises ℤ
  round_half_up x = computed (f.floor (f.add x (f.literal 5 1)))

-- A chain that returns has had a first call that returned.
pub >>=-returns {ℓ κ} :
    {A : Type ℓ} {B : Type κ} (m : Raises A) (k : A → Raises B) (b : B)
    → (m >>= k) ≡ returns b
    → (a : A) × (m ≡ returns a) × (k a ≡ returns b)
unfolding ◌>>=◌
>>=-returns (returns a) k b h = (a, refl, h)
>>=-returns (value_error e) k b h = cc
>>=-returns arithmetic_error k b h = cc

abbrev returned {ℓ} : {A : Type ℓ} → A → Raises A → A
returned d (returns a) = a
returned d _ = d

pub returns-injective {ℓ} : {A : Type ℓ} (a b : A) → returns a ≡ returns b → a ≡ b
returns-injective a b h = ap (returned a) h
