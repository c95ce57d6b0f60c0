-- ===== src/Worker/Assignment/Ownership.antt =====
-- Which partitions a worker of app/worker.py has after a rebalance.
use fraud_detection.Prelude.{
  ℕ, ◌≡◌, inl, inr, refl, sym, ap, ◌∙◌, Bool, true, false, Option, none, some, List, [], ◌∷◌, ◌++◌,
  ◌==◌, ==_iff, ◌&&◌, ◌||◌, if◌then◌else◌, if-both, if-true, if-false, and-true, and-intro,
  Bool-cases, Option-cases, str_eq, str_eq_iff,
}
use mathlib.Core.Bool.{true≢false}
use text.Mathlib.TextPositions.{eq_refl as str_eq_refl}
use fraud_detection.Worker.Partition.{PartitionState, assigned}
use fraud_detection.Worker.Assignment.{
  PartitionKey, same_key, Partitions, state_of, popped, start_partitions, states_for, released,
  on_assign, on_revoke, on_lost,
}

abbrev pub is_among : PartitionKey → List PartitionKey → Bool
is_among key [] = false
is_among key (other ∷ keys) = same_key other key || is_among key keys

same_key_refl : (key : PartitionKey) → same_key key key ≡ true
same_key_refl (topic, partition) =
    and-intro (str_eq_refl topic) ((==_iff partition partition).1 refl)

same_key-eq : (a b : PartitionKey) → same_key a b ≡ true → a ≡ b
same_key-eq (topic, partition) (other, number) h =
    let (t, p) = and-true (str_eq topic other) (partition == number) h in
    rw ((str_eq_iff topic other).0 t, (==_iff partition number).0 p) refl

-- the state of a key after another is dropped
state_of-popped :
    (key gone : PartitionKey) (partitions : Partitions)
    → state_of key (popped gone partitions)
      ≡ (if same_key gone key then none else state_of key partitions)
unfolding state_of popped
state_of-popped key gone [] =
    if-both (λ (o : Option PartitionState). none ≡ o) (same_key gone key) refl refl
state_of-popped key gone ((other, state) ∷ rest) = elim (Bool-cases (same_key other gone)) [
  | inl same ↦
      ap (state_of key) (if-true (popped gone rest) ((other, state) ∷ popped gone rest) same)
      ∙ state_of-popped key gone rest
      ∙ doubled (same_key gone key) (same_key other key)
          (ap (λ k. same_key k key) (same_key-eq other gone same))
  | inr diff ↦
      ap (state_of key) (if-false (popped gone rest) ((other, state) ∷ popped gone rest) diff)
      ∙ ap (λ o. if same_key other key then some state else o) (state_of-popped key gone rest)
      ∙ swapped (same_key other key) (same_key gone key) (apart diff)
]
  where
    doubled :
        (b d : Bool)
        → d ≡ b
        → (if b then none else state_of key rest)
          ≡ (if b then none else if d then some state else state_of key rest)
    doubled true d e = refl
    doubled false d e = sym (if-false (some state) (state_of key rest) e)

    swapped :
        (d b : Bool)
        → ¬ ((d ≡ true) × (b ≡ true))
        → (if d then some state else if b then none else state_of key rest)
          ≡ (if b then none else if d then some state else state_of key rest)
    swapped true true h = absurd (h (refl, refl))
    swapped true false h = refl
    swapped false b h = refl

    apart :
        same_key other gone ≡ false → ¬ ((same_key other key ≡ true) × (same_key gone key ≡ true))
    apart diff (a, b) = true≢false (
        sym (same_key_refl other)
        ∙ ap (same_key other) (same_key-eq other key a ∙ sym (same_key-eq gone key b))
        ∙ diff)

abbrev has : Option PartitionState → Bool
has none = false
has (some state) = true

released-states_for :
    (key : PartitionKey) (keys : List PartitionKey) (partitions now : Partitions)
    → state_of key (released (states_for keys partitions) now)
      ≡ (if is_among key keys && has (state_of key partitions) then none else state_of key now)
unfolding released states_for
released-states_for key [] partitions now = refl
released-states_for key (k ∷ keys) partitions now = elim (Option-cases (state_of k partitions)) [
  | inl missing ↦
      ap (λ o. state_of key (released (taken o) now)) missing
      ∙ released-states_for key keys partitions now
      ∙ missed (same_key k key) (is_among key keys) (has (state_of key partitions)) (λ same.
        ap (λ j. has (state_of j partitions)) (sym (same_key-eq k key same)) ∙ ap has missing)
  | inr (state, held) ↦
      ap (λ o. state_of key (released (taken o) now)) held
      ∙ released-states_for key keys partitions (popped k now)
      ∙ ap (λ o. if is_among key keys && has (state_of key partitions) then none else o)
          (state_of-popped key k now)
      ∙ hit (same_key k key) (is_among key keys) (has (state_of key partitions)) (λ same.
        ap (λ j. has (state_of j partitions)) (sym (same_key-eq k key same)) ∙ ap has held)
]
  where
    taken : Option PartitionState → Partitions
    taken o = elim o [
      | some state ↦ (k, state) ∷ states_for keys partitions
      | none ↦ states_for keys partitions
    ]

    missed :
        (s a h : Bool)
        → (s ≡ true → h ≡ false)
        → (if a && h then none else state_of key now)
          ≡ (if (s || a) && h then none else state_of key now)
    missed true true true f = absurd (true≢false (f refl))
    missed true false true f = absurd (true≢false (f refl))
    missed true true false f = refl
    missed true false false f = refl
    missed false a h f = refl

    hit :
        (s a h : Bool)
        → (s ≡ true → h ≡ true)
        → (if a && h then none else if s then none else state_of key now)
          ≡ (if (s || a) && h then none else state_of key now)
    hit true true true f = refl
    hit true false true f = refl
    hit true a false f = absurd (true≢false (sym (f refl)))
    hit false a h f = refl

-- what an assignment gives a key that the worker does not have
abbrev pub assigned_in : PartitionKey → List (PartitionKey × ℕ) → Option PartitionState
assigned_in key [] = none
assigned_in key ((other, committed) ∷ keys) =
    if same_key other key then some (assigned committed) else assigned_in key keys

abbrev pub or_else : Option PartitionState → Option PartitionState → Option PartitionState
or_else (some state) other = some state
or_else none other = other

state_of-append :
    (key new : PartitionKey) (state : PartitionState) (partitions : Partitions)
    → state_of key (partitions ++ ((new, state) ∷ []))
      ≡ or_else (state_of key partitions) (if same_key new key then some state else none)
unfolding state_of
state_of-append key new state [] = refl
state_of-append key new state ((other, held) ∷ rest) =
    ap (λ o. if same_key other key then some held else o) (state_of-append key new state rest)
    ∙ choice (same_key other key)
  where
    choice :
        (b : Bool)
        → (if b
            then some held
            else or_else (state_of key rest) (if same_key new key then some state else none))
          ≡ or_else
              (if b then some held else state_of key rest)
              (if same_key new key then some state else none)
    choice true = refl
    choice false = refl

state_of-start_partitions :
    (key : PartitionKey) (keys : List (PartitionKey × ℕ)) (partitions : Partitions)
    → state_of key (start_partitions keys partitions)
      ≡ or_else (state_of key partitions) (assigned_in key keys)
unfolding start_partitions
state_of-start_partitions key [] partitions = or_none (state_of key partitions)
  where
    or_none : (o : Option PartitionState) → o ≡ or_else o none
    or_none (some state) = refl
    or_none none = refl
state_of-start_partitions key ((new, committed) ∷ keys) partitions =
    state_of-start_partitions key keys (begun (state_of new partitions))
    ∙ elim (Option-cases (state_of new partitions)) [
      | inl missing ↦
          ap (λ o. or_else (state_of key (begun o)) (assigned_in key keys)) missing
          ∙ ap (λ o. or_else o (assigned_in key keys))
              (state_of-append key new (assigned committed) partitions)
          ∙ newly (state_of key partitions) (same_key new key)
      | inr (state, held) ↦
          ap (λ o. or_else (state_of key (begun o)) (assigned_in key keys)) held
          ∙ kept (state_of key partitions) (same_key new key) (λ same.
            ap (λ j. has (state_of j partitions)) (sym (same_key-eq new key same)) ∙ ap has held)
    ]
  where
    begun : Option PartitionState → Partitions
    begun o = elim o [
      | some state ↦ partitions
      | none ↦ partitions ++ ((new, assigned committed) ∷ [])
    ]

    newly :
        (o : Option PartitionState) (b : Bool)
        → or_else (or_else o (if b then some (assigned committed) else none)) (assigned_in key keys)
          ≡ or_else o (if b then some (assigned committed) else assigned_in key keys)
    newly (some state) b = refl
    newly none true = refl
    newly none false = refl

    kept :
        (o : Option PartitionState) (b : Bool)
        → (b ≡ true → has o ≡ true)
        → or_else o (assigned_in key keys)
          ≡ or_else o (if b then some (assigned committed) else assigned_in key keys)
    kept (some state) b h = refl
    kept none true h = absurd (true≢false (sym (h refl)))
    kept none false h = refl

-- A rebalance does to each partition what it should: an assignment starts those that the worker does not
-- have, afresh at the group's offset, and leaves the state of every other one alone; a revocation or a loss
-- removes exactly those named. Of the three only a revocation commits.
pub rebalance-state_of :
    (key : PartitionKey) (new : List (PartitionKey × ℕ)) (keys : List PartitionKey)
    (partitions : Partitions)
    → (state_of key (on_assign new partitions).partitions
        ≡ or_else (state_of key partitions) (assigned_in key new))
      × (state_of key (on_revoke keys partitions).partitions
          ≡ (if is_among key keys then none else state_of key partitions))
      × ((on_lost keys partitions).partitions ≡ (on_revoke keys partitions).partitions)
      × ((on_assign new partitions).commits ≡ false)
      × ((on_revoke keys partitions).commits ≡ true)
      × ((on_lost keys partitions).commits ≡ false)
unfolding on_assign on_revoke on_lost
rebalance-state_of key new keys partitions = (
  state_of-start_partitions key new partitions,
  released-states_for key keys partitions partitions
      ∙ gone (is_among key keys) (state_of key partitions),
  refl,
  refl,
  refl,
  refl,
)
  where
    gone :
        (b : Bool) (o : Option PartitionState)
        → (if b && has o then none else o) ≡ (if b then none else o)
    gone true (some state) = refl
    gone true none = refl
    gone false o = refl
