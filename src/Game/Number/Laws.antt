-- ===== src/Game/Number/Laws.antt =====
-- What Python documents of the numbers that the engine computes with.
use Prim.Native.Nat.{◌^◌}
use task_buddy_backend.Prelude.{ℕ, suc, ◌-◌, ◌≤◌, ◌<◌, ◌≡◌, true, false, some, ℤ, pos, ltb, ltb_ℤ}
use task_buddy_backend.Game.Number.{Numbers, nought, zero_point}

module _ {F : Type 0} (f : Numbers F) where
  -- `int` and `float` agree on whole numbers that a double holds exactly.
  pub record IsExact : Type 0 where
    pub zero_exact : zero_point f ≡ f.to_float (f.of_int (pos 0))
    pub sub_exact :
        (m n : ℕ)
        → n ≤ m
        → m ≤ 2 ^ 53
        → f.sub (f.of_int (pos m)) (f.to_float (f.of_int (pos n)))
          ≡ f.to_float (f.of_int (pos (m - n)))
    pub trunc_exact : (n : ℕ) → n ≤ 2 ^ 53 → f.trunc (f.to_float (f.of_int (pos n))) ≡ some (pos n)
    pub trunc_int : (n : ℤ) → f.trunc (f.of_int n) ≡ some n
    pub lt_exact :
        (m n : ℕ)
        → m ≤ 2 ^ 53
        → n ≤ 2 ^ 53
        → f.lt (f.to_float (f.of_int (pos m))) (f.to_float (f.of_int (pos n))) ≡ ltb m n
    pub lt_int :
        (m : ℕ) (n : ℤ)
        → m ≤ 2 ^ 53
        → f.lt (f.to_float (f.of_int (pos m))) (f.of_int n) ≡ ltb_ℤ (pos m) n

  -- Signs: of a literal with few digits, of `float(x)`, and of `int(x)` where `x` is whole.
  pub record IsSigned : Type 0 where
    pub literal_positive :
        (n k : ℕ) → n < 2 ^ 53 → k ≤ 22 → f.le (f.literal (suc n) k) (nought f) ≡ false
    pub literal_nonnegative :
        (n k : ℕ) → n < 2 ^ 53 → k ≤ 22 → f.lt (f.literal n k) (nought f) ≡ false
    pub positive_literal :
        (n k : ℕ) → n < 2 ^ 53 → k ≤ 22 → f.lt (nought f) (f.literal (suc n) k) ≡ true
    pub to_float_positive :
        (x : F) → f.lt (nought f) x ≡ true → f.lt (nought f) (f.to_float x) ≡ true
    pub trunc_whole :
        (x : F) (n : ℤ)
        → f.is_integer (f.to_float x) ≡ true
        → f.trunc x ≡ some n
        → (f.le (f.of_int n) (nought f) ≡ f.le x (nought f))
          × (f.lt (f.of_int n) (nought f) ≡ f.lt x (nought f))
