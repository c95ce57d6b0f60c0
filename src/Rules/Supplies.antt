-- ===== src/Rules/Supplies.antt =====
-- What a context supplies for the variables of app/rules.py.
use fraud_detection.Prelude.{
  ◌≡◌, String, false, Option, none, some, List, [], ◌∷◌, arith, inl, inr, Bool-cases, str_eq,
  str_eq_iff,
}
use fraud_detection.Prelude.Text.{named}
use fraud_detection.Rules.Numbers.{Numbers}
use fraud_detection.Rules.Json.{Json}
use fraud_detection.Rules.Syntax.{Variable, variable_table}
use fraud_detection.Rules.Evaluate.{lookup}
use fraud_detection.Rules.Typing.{HasType}

-- What a context gives for a variable: a value of its type, or nothing if the variable is optional.
abbrev pub Supplied : {N : Numbers} → Variable → Option (Json N) → Type 0
Supplied v none = v.required ≡ false
Supplied v (some value) = HasType value v.type

abbrev pub Supplies : {N : Numbers} → Json N → List (String × Variable) → Type 0
Supplies context [] = Unit
Supplies context ((name, v) ∷ rest) = Supplied v (lookup context name) × Supplies context rest

-- Every variable of `VARIABLES` is supplied.
unfoldable pub Conforms : {N : Numbers} → Json N → Type 0
Conforms context = Supplies context variable_table

pub named-Supplied :
    {N : Numbers} (context : Json N) (name : String) (v : Variable)
    (table : List (String × Variable))
    → Supplies context table
    → named name table ≡ some v
    → Supplied v (lookup context name)
unfolding named
named-Supplied context name v [] h e = cc
named-Supplied context name v ((key, w) ∷ rest) h e = elim (Bool-cases (str_eq key name)) [
  | inl same ↦
      let found : w ≡ v = ground arith in
      let key_eq : key ≡ name = (str_eq_iff key name).0 same in rw (← found, ← key_eq) h.0
  | inr other ↦ named-Supplied context name v rest h.1 (rw other at e)
]
