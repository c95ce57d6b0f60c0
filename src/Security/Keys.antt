-- ===== src/Security/Keys.antt =====
-- The signing keys of app/security.py: the provider's key set, which is fetched again for an unknown key id.
-- The fetch is outside the repository, so each call has what it would give.
use fraud_detection.Prelude.{
  ℕ, ◌+◌, ◌≤◌, ◌≡◌, ◌≢◌, refl, sym, String, Bool, true, false, Option, none, some, List, [], ◌∷◌,
  leb, leb→le, if◌then◌else◌, str_eq, Bool-cases, if-both, inl, inr, subst, if-true, if-false,
}
use fraud_detection.Prelude.Result.{Result, ok, err}
use fraud_detection.Prelude.Text.{named}

pub data KeyError : Type 0 where
  no_kid keys_unavailable unknown_key : KeyError

-- What a fetch gives: the keys with their ids, where they have one, or a failure that the code expects.
pub data Fetched : Type 0 where
  unavailable : Fetched
  key_set : List (Option String × String) → Fetched

-- `_JwksTokenVerifier`: the keys by id, and when they were fetched, if they ever were
pub record Verifier : Type 0 where
  pub keys : List (String × String)
  pub last_fetch : Option ℕ

-- `{key.key_id: key.key for key in jwk_set.keys if key.key_id}`; the last key of an id counts
unfoldable pub indexed : List (Option String × String) → List (String × String)
indexed [] = []
indexed ((none, key) ∷ rest) = indexed rest
indexed ((some id, key) ∷ rest) =
    let later = indexed rest in
    if str_eq id ""
    then later
    else elim (named id later) [ some newer ↦ later | none ↦ (id, key) ∷ later ]

-- `time.monotonic() - self._last_fetch >= self._min_interval`
unfoldable pub is_due : ℕ → ℕ → Option ℕ → Bool
is_due min_interval now none = true
is_due min_interval now (some last) = leb (last + min_interval) now

abbrev pub key_or_unknown : Option String → Result KeyError String
key_or_unknown none = err unknown_key
key_or_unknown (some key) = ok key

-- `_refresh` at the instant `now`, and the look-up after it
unfoldable pub refreshed : ℕ → String → Fetched → Verifier → Result KeyError String × Verifier
unfolding indexed
refreshed now kid unavailable verifier = (err keys_unavailable, verifier)
refreshed now kid (key_set keys) verifier = (
  key_or_unknown (named kid (indexed keys)),
  record { keys = indexed keys; last_fetch = some now },
)

-- One call of `_signing_key`, of a token with the `kid`.
pub record KeyCall : Type 0 where
  pub kid : Option String
  pub now : ℕ
  pub fetch : Fetched

-- `_signing_key`; the Boolean says whether it fetched
abbrev pub look_up :
    ℕ → String → KeyCall → Verifier → Option String → Bool × (Result KeyError String × Verifier)
look_up min_interval kid call verifier (some key) = (false, (ok key, verifier))
look_up min_interval kid call verifier none =
    if is_due min_interval call.now verifier.last_fetch
    then (true, refreshed call.now kid call.fetch verifier)
    else (false, (err unknown_key, verifier))

abbrev pub with_kid :
    ℕ → KeyCall → Verifier → Option String → Bool × (Result KeyError String × Verifier)
with_kid min_interval call verifier none = (false, (err no_kid, verifier))
with_kid min_interval call verifier (some kid) =
    if str_eq kid ""
    then (false, (err no_kid, verifier))
    else look_up min_interval kid call verifier (named kid verifier.keys)

unfoldable pub signing_key : ℕ → KeyCall → Verifier → Bool × (Result KeyError String × Verifier)
unfolding is_due refreshed
signing_key min_interval call verifier = with_kid min_interval call verifier call.kid

-- the calls one after the other, as the lock orders them: the instants of the fetches
unfoldable pub fetch_times : ℕ → List KeyCall → Verifier → List ℕ
unfolding signing_key
fetch_times min_interval [] verifier = []
fetch_times min_interval (call ∷ calls) verifier =
    let result = signing_key min_interval call verifier in
    let later = fetch_times min_interval calls result.1.1 in
    if result.0 then call.now ∷ later else later

-- instants of which each is an interval or more after the one before it
abbrev pub AreSpaced : ℕ → Option ℕ → List ℕ → Type 0
AreSpaced min_interval last [] = Unit
AreSpaced min_interval none (now ∷ later) = AreSpaced min_interval (some now) later
AreSpaced min_interval (some last) (now ∷ later) =
    (last + min_interval ≤ now) × AreSpaced min_interval (some now) later

abbrev pub AreAvailable : List KeyCall → Type 0
AreAvailable [] = Unit
AreAvailable (call ∷ calls) = (call.fetch ≢ unavailable) × AreAvailable calls

-- What a call leaves: no fetch and the verifier as it was, or a fetch that was due, at its instant.
abbrev IsPaced : ℕ → KeyCall → Verifier → Bool × (Result KeyError String × Verifier) → Type 0
IsPaced min_interval call verifier (false, (result, after)) = after ≡ verifier
IsPaced min_interval call verifier (true, (result, after)) =
    (is_due min_interval call.now verifier.last_fetch ≡ true) × (after.last_fetch ≡ some call.now)

refreshed-last_fetch :
    (now : ℕ) (kid : String) (fetch : Fetched) (verifier : Verifier)
    → fetch ≢ unavailable
    → (refreshed now kid fetch verifier).1.last_fetch ≡ some now
unfolding refreshed
refreshed-last_fetch now kid unavailable verifier h = absurd (h refl)
refreshed-last_fetch now kid (key_set keys) verifier h = refl

look_up-IsPaced :
    (min_interval : ℕ) (kid : String) (call : KeyCall) (verifier : Verifier) (key : Option String)
    → call.fetch ≢ unavailable
    → IsPaced min_interval call verifier (look_up min_interval kid call verifier key)
look_up-IsPaced min_interval kid call verifier (some key) h = refl
look_up-IsPaced min_interval kid call verifier none h =
    let fetched : Bool × (Result KeyError String × Verifier) =
      (true, refreshed call.now kid call.fetch verifier) in
    let refused : Bool × (Result KeyError String × Verifier) =
      (false, (err unknown_key, verifier)) in
    elim (Bool-cases (is_due min_interval call.now verifier.last_fetch)) [
      | inl due ↦
          subst (IsPaced min_interval call verifier) (sym (if-true fetched refused due))
            (due, refreshed-last_fetch call.now kid call.fetch verifier h)
      | inr early ↦
          subst (IsPaced min_interval call verifier) (sym (if-false fetched refused early)) refl
    ]

signing_key-IsPaced :
    (min_interval : ℕ) (call : KeyCall) (verifier : Verifier)
    → call.fetch ≢ unavailable
    → IsPaced min_interval call verifier (signing_key min_interval call verifier)
unfolding signing_key
signing_key-IsPaced min_interval call verifier h = by_kid call.kid
  where
    by_kid :
        (kid : Option String)
        → IsPaced min_interval call verifier (with_kid min_interval call verifier kid)
    by_kid none = refl
    by_kid (some kid) =
        if-both (IsPaced min_interval call verifier) (str_eq kid "") refl
          (look_up-IsPaced min_interval kid call verifier (named kid verifier.keys) h)

due-AreSpaced :
    (min_interval now : ℕ) (last : Option ℕ) (later : List ℕ)
    → is_due min_interval now last ≡ true
    → AreSpaced min_interval (some now) later
    → AreSpaced min_interval last (now ∷ later)
unfolding is_due
due-AreSpaced min_interval now none later due h = h
due-AreSpaced min_interval now (some last) later due h = (leb→le (last + min_interval) now due, h)

-- A stream of tokens with unknown key ids does not become a stream of calls to the identity provider: of
-- the calls of `_signing_key`, whatever their key ids, any two fetches that follow each other are the
-- minimum interval or more apart, as long as every fetch succeeds.
pub fetch_times-AreSpaced :
    (min_interval : ℕ) (calls : List KeyCall) (verifier : Verifier)
    → AreAvailable calls
    → AreSpaced min_interval verifier.last_fetch (fetch_times min_interval calls verifier)
unfolding fetch_times
fetch_times-AreSpaced min_interval [] verifier available = nothing_fetched verifier.last_fetch
  where
    nothing_fetched : (last : Option ℕ) → AreSpaced min_interval last []
    nothing_fetched last = tt
fetch_times-AreSpaced min_interval (call ∷ calls) verifier (available, rest) =
    by_result (signing_key min_interval call verifier)
      (signing_key-IsPaced min_interval call verifier available)
      (fetch_times-AreSpaced min_interval calls (signing_key min_interval call verifier).1.1 rest)
  where
    by_result :
        (result : Bool × (Result KeyError String × Verifier))
        → IsPaced min_interval call verifier result
        → AreSpaced min_interval result.1.1.last_fetch (fetch_times min_interval calls result.1.1)
        → AreSpaced min_interval verifier.last_fetch (
            if result.0
            then call.now ∷ fetch_times min_interval calls result.1.1
            else fetch_times min_interval calls result.1.1)
    by_result (false, (key, after)) same h =
        subst
          (λ (v : Verifier).
            AreSpaced min_interval v.last_fetch (fetch_times min_interval calls after))
          same h
    by_result (true, (key, after)) (due, at) h =
        due-AreSpaced min_interval call.now verifier.last_fetch
          (fetch_times min_interval calls after) due
          (subst
            (λ (last : Option ℕ).
              AreSpaced min_interval last (fetch_times min_interval calls after))
            at h)
