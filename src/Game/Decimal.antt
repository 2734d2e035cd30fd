-- ===== src/Game/Decimal.antt =====
-- Decimals with four digits after the point, as numbers to run the scoring engine on.
use Prim.Native.Nat.{◌^◌}
use mathlib.Core.Option.{some-injective}
use task_buddy_backend.Prelude.{
  ℕ, zero, suc, ◌+◌, ◌-◌, ◌*◌, ◌/◌, ◌%◌, ◌≤◌, ◌≡◌, refl, sym, ap, ◌∙◌, Bool, true, Option, none,
  some, ℤ, pos, negsuc, ◌+ℤ◌, ◌-ℤ◌, ltb_ℤ, leb_ℤ, ◌==◌, arith,
}
use task_buddy_backend.Game.Number.{Numbers}
use task_buddy_backend.Game.Number.Laws.{IsExact, IsSigned}

-- A whole number of ten-thousandths.
abbrev pub Decimal : Type 0
Decimal = ℤ

abbrev pub scale : ℤ → ℤ
scale (pos n) = pos (n * 10_000)
scale (negsuc n) = negsuc (n * 10_000 + 9_999)

abbrev pub negate : ℤ → ℤ
negate (pos zero) = pos zero
negate (pos (suc n)) = negsuc n
negate (negsuc n) = pos (suc n)

-- The whole part, towards zero.
abbrev pub whole_part : ℤ → ℤ
whole_part (pos n) = pos (n / 10_000)
whole_part (negsuc n) = negate (pos ((n + 1) / 10_000))

abbrev pub floor_part : ℤ → ℤ
floor_part (pos n) = pos (n / 10_000)
floor_part (negsuc n) = negsuc (n / 10_000)

abbrev pub signed_mul : ℤ → ℤ → ℤ
signed_mul (pos m) (pos n) = pos (m * n / 10_000)
signed_mul (pos m) (negsuc n) = negate (pos (m * (n + 1) / 10_000))
signed_mul (negsuc m) (pos n) = negate (pos ((m + 1) * n / 10_000))
signed_mul (negsuc m) (negsuc n) = pos ((m + 1) * (n + 1) / 10_000)

abbrev pub quotient : ℤ → ℤ → Option ℤ
quotient a (pos zero) = none
quotient (pos m) (pos (suc n)) = some (pos (m * 10_000 / suc n))
quotient (negsuc m) (pos (suc n)) = some (negate (pos ((m + 1) * 10_000 / suc n)))
quotient (pos m) (negsuc n) = some (negate (pos (m * 10_000 / (n + 1))))
quotient (negsuc m) (negsuc n) = some (pos ((m + 1) * 10_000 / (n + 1)))

abbrev pub power : ℤ → ℕ → ℤ
power a zero = pos 10_000
power a (suc n) = signed_mul a (power a n)

abbrev pub whole_power : ℤ → ℤ → Option ℤ
whole_power a (pos n) = some (power a (n / 10_000))
whole_power a (negsuc n) = none

abbrev pub is_whole : ℤ → Bool
is_whole (pos n) = n % 10_000 == 0
is_whole (negsuc n) = (n + 1) % 10_000 == 0

abbrev pub unit_of : ℕ → ℕ
unit_of zero = 10_000
unit_of (suc zero) = 1_000
unit_of (suc (suc zero)) = 100
unit_of (suc (suc (suc zero))) = 10
unit_of _ = 1

abbrev pub decimals : Numbers Decimal
decimals = record {
  of_int = scale;
  of_float = λ m e. elim m [
    | pos n ↦ pos (n * 10_000 / 2 ^ e)
    | negsuc n ↦ negate (pos ((n + 1) * 10_000 / 2 ^ e))
  ];
  literal = λ n k. pos (n * unit_of k);
  to_float = λ x. x;
  neg = negate;
  add = λ a b. a +ℤ b;
  sub = λ a b. a -ℤ b;
  mul = signed_mul;
  div = quotient;
  pow = whole_power;
  floor = λ x. some (floor_part x);
  ceil = λ x. some (negate (floor_part (negate x)));
  round = λ x. some (floor_part (x +ℤ pos 5_000));
  trunc = λ x. some (whole_part x);
  is_integer = is_whole;
  lt = ltb_ℤ;
  le = leb_ℤ;
  fits = λ n. true;
  show = λ v. "";
}

unit_of-positive : (k : ℕ) → 1 ≤ unit_of k
unit_of-positive zero = omega arith
unit_of-positive (suc zero) = omega arith
unit_of-positive (suc (suc zero)) = omega arith
unit_of-positive (suc (suc (suc zero))) = omega arith
unit_of-positive (suc (suc (suc (suc k)))) = omega arith

scale-negate : (q : ℕ) → 1 ≤ q → scale (negate (pos q)) ≡ negsuc (q * 10_000 - 1)
scale-negate zero h = ground arith
scale-negate (suc q) h = ap negsuc (omega arith)

trunc-back : (n : ℤ) → whole_part (scale n) ≡ n
trunc-back (pos n) = ap pos (omega arith)
trunc-back (negsuc n) = let e : (n * 10_000 + 9_999 + 1) / 10_000 ≡ suc n = omega arith in rw e refl

back-trunc : (x : ℤ) → is_whole x ≡ true → scale (whole_part x) ≡ x
back-trunc (pos n) h = let e : n % 10_000 ≡ 0 = ground arith in ap pos (omega (arith, e))
back-trunc (negsuc n) h =
    let e : (n + 1) % 10_000 ≡ 0 = ground arith in
    scale-negate ((n + 1) / 10_000) (omega (arith, e)) ∙ ap negsuc (omega (arith, e))

scaled_less : (m : ℕ) (n : ℤ) → ltb_ℤ (pos (m * 10_000)) (scale n) ≡ ltb_ℤ (pos m) n
scaled_less m (pos n) = ground arith
scaled_less m (negsuc n) = ground arith

pub decimals-IsExact : IsExact decimals
unfolding ◌-ℤ◌
decimals-IsExact = record {
  zero_exact = refl;
  sub_exact = λ m n h k. ground arith;
  trunc_exact = λ n h. ap (λ k. some (pos k)) (omega arith);
  trunc_int = λ n. ap some (trunc-back n);
  lt_exact = λ m n h k. ground arith;
  lt_int = λ m n h. scaled_less m n;
}

literal-positive : (n k : ℕ) → 1 ≤ suc n * unit_of k
literal-positive n k = grind (arith, unit_of-positive)

pub decimals-IsSigned : IsSigned decimals
decimals-IsSigned = record {
  literal_positive = λ n k _ _. ground (arith, literal-positive n k);
  literal_nonnegative = λ n k _ _. ground arith;
  positive_literal = λ n k _ _. ground (arith, literal-positive n k);
  to_float_positive = λ x h. h;
  trunc_whole = λ x n h e.
      let back = ap scale (sym (some-injective _ _ e)) ∙ back-trunc x h in
      (ap (λ y. leb_ℤ y (pos 0)) back, ap (λ y. ltb_ℤ y (pos 0)) back);
}
