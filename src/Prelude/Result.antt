-- ===== src/Prelude/Result.antt =====
-- A Python function that may raise: its value, or the error that it raises.
use mathlib.Core.Path.{◌≡◌, refl}

pub data Result (E A : Type 0) : Type 0 where
  err : (raised : E) → Result E A
  ok : (returned : A) → Result E A

-- What follows a call runs on its value, and an error ends the block.
abbrev pub ◌>>=◌ : {E A B : Type 0} (call : Result E A) (rest : A → Result E B) → Result E B
err raised >>= rest = err raised
ok returned >>= rest = rest returned

-- The same, for a check that returns nothing.
abbrev pub ◌>>◌ : {E B : Type 0} (check : Result E (Unit {0})) (rest : Result E B) → Result E B
check >> rest = check >>= λ _. rest

infixl 5 ◌>>=◌ ◌>>◌
-- A block that returned: its first action did, and so did the rest.
pub >>=-eq-ok :
    {E A B : Type 0} (m : Result E A) (f : A → Result E B) {b : B}
    → (m >>= f) ≡ ok b
    → (a : A) × (m ≡ ok a) × (f a ≡ ok b)
>>=-eq-ok (err raised) f h = cc
>>=-eq-ok (ok returned) f h = (returned, refl, h)

-- The same, for a fact that follows from each of the two.
pub bind-ok :
    {E A B R : Type 0} (m : Result E A) (f : A → Result E B) {b : B}
    → (m >>= f) ≡ ok b
    → ((a : A) → m ≡ ok a → f a ≡ ok b → R)
    → R
bind-ok (ok a) f h k = k a refl h
bind-ok (err e) f h k = absurd (cc)
