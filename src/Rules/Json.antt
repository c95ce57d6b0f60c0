-- ===== src/Rules/Json.antt =====
-- The Python values that a condition and the variables of a transaction are made of (app/rules.py).
use fraud_detection.Prelude.{ℕ, suc, String, Bool, Option, none, some, str_eq, if◌then◌else◌}
use fraud_detection.Prelude.Int.{ℤ}
use fraud_detection.Rules.Numbers.{Numbers}

mutual
  -- `int`, `float` and `decimal` are Python's three kinds of number.
  pub data Json (N : Numbers) : Type 0 where
    null : Json N
    boolean : Bool → Json N
    int : ℤ → Json N
    float : N.Float → Json N
    decimal : N.Decimal → Json N
    text : String → Json N
    array : Items N → Json N
    object : Fields N → Json N

  pub data Items (N : Numbers) : Type 0 where
    nil : Items N
    cons : Json N → Items N → Items N

  pub data Fields (N : Numbers) : Type 0 where
    end : Fields N
    field : String → Json N → Fields N → Fields N

abbrev pub item_count : {N : Numbers} → Items N → ℕ
item_count nil = 0
item_count (cons x xs) = suc (item_count xs)

abbrev pub field_count : {N : Numbers} → Fields N → ℕ
field_count end = 0
field_count (field k v fs) = suc (field_count fs)

-- `mapping.get(key)`
unfoldable pub get : {N : Numbers} → String → Fields N → Option (Json N)
get key end = none
get key (field k v fs) = if str_eq k key then some v else get key fs
