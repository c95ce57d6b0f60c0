-- ===== src/Rules/Numbers.antt =====
-- What the rule engine of app/rules.py uses of Python's `float` and `decimal.Decimal`. Arithmetic
-- in a decimal context rounds and can raise, so the type and its operations are an interface.
use fraud_detection.Prelude.{◌≡◌, Bool, true, Option, some, Ordering}
use fraud_detection.Prelude.Int.{ℤ}

pub record Numbers : Type 1 where
  pub Decimal : Type 0
  pub Float : Type 0
  -- `Decimal(str(value))` of an integer and of a float
  pub of_int : ℤ → Decimal
  pub of_float : Float → Decimal
  -- the exact value of a float, by which Python's `==` compares it
  pub exact : Float → Decimal
  pub one : Decimal
  pub nought : Decimal
  pub is_finite : Decimal → Bool
  pub is_zero : Decimal → Bool
  pub same : Decimal → Decimal → Bool
  -- `none` is an `ArithmeticError` (`InvalidOperation`, `Overflow`, ...)
  pub order : Decimal → Decimal → Option Ordering
  pub add : Decimal → Decimal → Option Decimal
  pub sub : Decimal → Decimal → Option Decimal
  pub mul : Decimal → Decimal → Option Decimal
  pub neg : Decimal → Option Decimal

-- The documented behaviour: integers convert exactly, finite decimals are ordered, and under the
-- default traps (Overflow and InvalidOperation raise) a result of finite operands is finite.
pub record NumberLaws (N : Numbers) : Type 1 where
  pub of_int_finite : (z : ℤ) → N.is_finite (N.of_int z) ≡ true
  pub one_finite : N.is_finite N.one ≡ true
  pub nought_finite : N.is_finite N.nought ≡ true
  pub order_finite :
      (a b : N.Decimal)
      → N.is_finite a ≡ true
      → N.is_finite b ≡ true
      → (o : Ordering) × (N.order a b ≡ some o)
  pub add_finite :
      (a b c : N.Decimal)
      → N.is_finite a ≡ true
      → N.is_finite b ≡ true
      → N.add a b ≡ some c
      → N.is_finite c ≡ true
  pub sub_finite :
      (a b c : N.Decimal)
      → N.is_finite a ≡ true
      → N.is_finite b ≡ true
      → N.sub a b ≡ some c
      → N.is_finite c ≡ true
  pub mul_finite :
      (a b c : N.Decimal)
      → N.is_finite a ≡ true
      → N.is_finite b ≡ true
      → N.mul a b ≡ some c
      → N.is_finite c ≡ true
  pub neg_finite :
      (a c : N.Decimal) → N.is_finite a ≡ true → N.neg a ≡ some c → N.is_finite c ≡ true
