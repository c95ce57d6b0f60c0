-- ===== src/Observability/Identifiers.antt =====
-- What app/observability.py accepts as a correlation id.
use fraud_detection.Prelude.{
  ℕ, suc, ◌+◌, ◌≤◌, ◌≡◌, refl, sym, ◌∙◌, String, Bool, true, false, none, some, leb, leb→le, ◌==◌,
  ◌&&◌, if◌then◌else◌, and-true, and-intro, Bool-cases, inl, inr, arith, if-true, if-false,
}
use Prim.Native.Char.{code}
use Prim.Native.String.{count as text_length}
use text.Mathlib.TextLemmas.{length-nil, length-cons}
use fraud_detection.Observability.{is_safe, newline, match_safe, sanitise_correlation_id}

-- every character is safe, or is the last one and a newline
abbrev pub safe_to_the_end : String → Bool
safe_to_the_end String.[] = true
safe_to_the_end (String.◌∷◌ c String.[]) = if is_safe c then true else (code c == newline)
safe_to_the_end (String.◌∷◌ c (String.◌∷◌ d rest)) =
    is_safe c && safe_to_the_end (String.◌∷◌ d rest)

record IsAcceptedAs (n : ℕ) (is_clean : Bool) (value : String) : Type 0 where
  safe : is_clean ≡ true
  at_least_one : 1 ≤ n + text_length value
  at_most : n + text_length value ≤ 129

abbrev IsAccepted : ℕ → String → Type 0
IsAccepted n value = IsAcceptedAs n (safe_to_the_end value) value

match_safe-IsAccepted : (n : ℕ) (value : String) → match_safe n value ≡ true → IsAccepted n value
unfolding match_safe
match_safe-IsAccepted n String.[] h =
    let (low, high) = and-true (leb 1 n) (leb n 128) h in
    record {
      safe = refl;
      at_least_one = omega (arith, leb→le 1 n low, length-nil);
      at_most = omega (arith, leb→le n 128 high, length-nil);
    }
match_safe-IsAccepted n (String.◌∷◌ c String.[]) h = one_more (is_safe c) (code c == newline) h
  where
    one_more :
        (b d : Bool)
        → (if b then leb (suc n) 128 else (d && (leb 1 n && leb n 128))) ≡ true
        → IsAcceptedAs n (if b then true else d) (String.◌∷◌ c "")
    one_more true d k = record {
      safe = refl;
      at_least_one = omega (arith, length-cons c "", length-nil);
      at_most = omega (arith, leb→le (suc n) 128 k, length-cons c "", length-nil);
    }
    one_more false d k =
        let (is_newline, bounds) = and-true d (leb 1 n && leb n 128) k in
        let (low, high) = and-true (leb 1 n) (leb n 128) bounds in
        record {
          safe = is_newline;
          at_least_one = omega (arith, length-cons c "", length-nil);
          at_most = omega (arith, leb→le n 128 high, length-cons c "", length-nil);
        }
match_safe-IsAccepted n (String.◌∷◌ c (String.◌∷◌ d rest)) h =
    let (safe, more) = and-true (is_safe c) (match_safe (suc n) (String.◌∷◌ d rest)) h in
    let next = match_safe-IsAccepted (suc n) (String.◌∷◌ d rest) more in
    record {
      safe = and-intro safe next.safe;
      at_least_one = omega (arith, next.at_least_one, length-cons c (String.◌∷◌ d rest));
      at_most = omega (arith, next.at_most, length-cons c (String.◌∷◌ d rest));
    }

-- What is accepted from a caller is the text itself, of 1 to 129 characters that are safe in a log, except
-- that the last one may be a newline.
pub sanitise_correlation_id-safe :
    (value : String) (id : String)
    → sanitise_correlation_id (some value) ≡ some id
    → (id ≡ value) × (safe_to_the_end id ≡ true) × (1 ≤ text_length id) × (text_length id ≤ 129)
unfolding sanitise_correlation_id
sanitise_correlation_id-safe value id e = elim (Bool-cases (match_safe 0 value)) [
  | inl matched ↦
      let same : value ≡ id = some-inj (sym (if-true (some value) none matched) ∙ e) in
      let accepted = match_safe-IsAccepted 0 value matched in
      rw (sym same)
        (refl, accepted.safe, omega (arith, accepted.at_least_one), omega (arith, accepted.at_most))
  | inr other ↦ absurd (none-some (sym (if-false (some value) none other) ∙ e))
]
  where
    some-inj : {a b : String} → some a ≡ some b → a ≡ b
    some-inj k = cc

    none-some : {a : String} → none ≡ some a → ⊥
    none-some k = cc
