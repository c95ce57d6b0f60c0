-- ===== src/Worker/Run/Lifecycle.antt =====
-- When and why the poll loop of app/worker.py ends, and what it leaves.
use fraud_detection.Prelude.{
  ℕ, ◌+◌, ◌-◌, ◌<◌, ◌≡◌, ◌⊎◌, inl, inr, refl, sym, Bool, true, false, Option, none, some, List, [],
  ◌∷◌, ltb, ltb→lt, if◌then◌else◌, if-cases, if-both, ◌||◌, ap, subst, arith, Bool-cases,
}
use text.Mathlib.TextPositions.{eq_refl as str_eq_refl}
use fraud_detection.Worker.Handle.{WorkerSettings}
use fraud_detection.Worker.Partition.{PartitionState}
use fraud_detection.Worker.Assignment.{PartitionKey, same_key, Partitions, popped, released}
use fraud_detection.Worker.Run.{
  PollResult, nothing, error, received, raises, Turn, RunEnd, running_on, stopped, not_a_member,
  heartbeat_error, poll_raised, fatal_error, WorkerState, check_group_membership, shutdown,
  poll_end, polled_state, untouched_state, turn_end, turn_state, go_on, run,
}

abbrev holds_key : PartitionKey → Partitions → Bool
holds_key key [] = false
holds_key key ((other, state) ∷ states) = same_key key other || holds_key key states

-- the states have every key of the dictionary
abbrev AllHeld : Partitions → Partitions → Type 0
AllHeld states [] = Unit
AllHeld states ((key, state) ∷ rest) = (holds_key key states ≡ true) × AllHeld states rest

same_key_refl : (key : PartitionKey) → same_key key key ≡ true
same_key_refl (topic, number) = ground (arith, str_eq_refl topic)

AllHeld-more :
    (entry : PartitionKey × PartitionState) (states partitions : Partitions)
    → AllHeld states partitions
    → AllHeld (entry ∷ states) partitions
AllHeld-more entry states [] h = tt
AllHeld-more (key, state) states ((other, held) ∷ rest) (h, hs) =
    (ground (arith, h), AllHeld-more (key, state) states rest hs)

AllHeld-itself : (partitions : Partitions) → AllHeld partitions partitions
AllHeld-itself [] = tt
AllHeld-itself ((key, state) ∷ rest) =
    (ground (arith, same_key_refl key), AllHeld-more (key, state) rest rest (AllHeld-itself rest))

popped-AllHeld :
    (key : PartitionKey) (state : PartitionState) (states partitions : Partitions)
    → AllHeld ((key, state) ∷ states) partitions
    → AllHeld states (popped key partitions)
unfolding popped
popped-AllHeld key state states [] h = tt
popped-AllHeld key state states ((other, held) ∷ rest) (h, hs) =
    let left = popped-AllHeld key state states rest hs in
    if-cases (AllHeld states) (same_key other key) (λ _. left) (λ e. (still_held e, left))
  where
    still_held : same_key other key ≡ false → holds_key other states ≡ true
    still_held e = ground (arith, h, e)

released-nothing :
    (states partitions : Partitions) → AllHeld states partitions → released states partitions ≡ []
unfolding released
released-nothing [] [] h = refl
released-nothing [] ((key, state) ∷ rest) (h, hs) = absurd (cc)
released-nothing ((key, state) ∷ states) partitions h =
    released-nothing states (popped key partitions) (popped-AllHeld key state states partitions h)

module _ (settings : WorkerSettings) (max_group_absence : ℕ) where
  -- outside the group for longer than allowed, since the last turn in which the worker was a member
  abbrev pub IsAbsent : ℕ → Turn → Type 0
  IsAbsent last turn = (turn.member ≡ false) × (last + max_group_absence < turn.now)

  abbrev pub last_after : ℕ → Turn → ℕ
  last_after last turn = if turn.member then turn.now else last

  -- the turn has what the end names
  abbrev pub IsCause : RunEnd → ℕ → Turn → Type 0
  IsCause running_on last turn = ⊥
  IsCause stopped last turn = turn.running ≡ false
  IsCause not_a_member last turn = IsAbsent last turn
  IsCause heartbeat_error last turn = turn.touches ≡ false
  IsCause poll_raised last turn = turn.polled ≡ raises
  IsCause fatal_error last turn = turn.polled ≡ error true

  abbrev pub HasCause : RunEnd → ℕ → List Turn → Type 0
  HasCause reason last [] = ⊥
  HasCause reason last (turn ∷ turns) =
      IsCause reason last turn ⊎ HasCause reason (last_after last turn) turns

  -- The loop has closed the consumer, and no partition is left.
  pub record IsShutDown (state : WorkerState) : Type 0 where
    pub closed : state.closed ≡ true
    pub released_all : state.partitions ≡ []

  -- What an end says of the turns, and of the state that it leaves.
  abbrev pub IsExplained : ℕ → List Turn → RunEnd × WorkerState → Type 0
  IsExplained last turns (running_on, state) =
      ((reason : RunEnd) → ¬ HasCause reason last turns) × (state.closed ≡ false)
  IsExplained last turns (stopped, state) = HasCause stopped last turns × IsShutDown state
  IsExplained last turns (not_a_member, state) = HasCause not_a_member last turns × IsShutDown state
  IsExplained last turns (heartbeat_error, state) =
      HasCause heartbeat_error last turns × IsShutDown state
  IsExplained last turns (poll_raised, state) = HasCause poll_raised last turns × IsShutDown state
  IsExplained last turns (fatal_error, state) = HasCause fatal_error last turns × IsShutDown state

  shutdown-IsShutDown : (state : WorkerState) → IsShutDown (shutdown state)
  unfolding shutdown
  shutdown-IsShutDown state = record {
    closed = refl;
    released_all =
        released-nothing state.partitions state.partitions (AllHeld-itself state.partitions);
  }

  later-IsExplained :
      (last : ℕ) (turn : Turn) (turns : List Turn) (result : RunEnd × WorkerState)
      → ((reason : RunEnd) → ¬ IsCause reason last turn)
      → IsExplained (last_after last turn) turns result
      → IsExplained last (turn ∷ turns) result
  later-IsExplained last turn turns (running_on, state) none_here (none_later, still_open) = (
    λ reason cause. elim cause [
      | inl here ↦ none_here reason here
      | inr later ↦ none_later reason later
    ],
    still_open,
  )
  later-IsExplained last turn turns (stopped, state) none_here (cause, down) = (inr cause, down)
  later-IsExplained last turn turns (not_a_member, state) none_here (cause, down) =
      (inr cause, down)
  later-IsExplained last turn turns (heartbeat_error, state) none_here (cause, down) =
      (inr cause, down)
  later-IsExplained last turn turns (poll_raised, state) none_here (cause, down) = (inr cause, down)
  later-IsExplained last turn turns (fatal_error, state) none_here (cause, down) = (inr cause, down)

  -- a turn in which the worker runs and is a member, or is absent for no longer than allowed
  module _ (last : ℕ) (turn : Turn) (turns : List Turn) (runs : turn.running ≡ true)
      (present : ¬ IsAbsent last turn) (next : WorkerState) (rest : RunEnd × WorkerState)
      (later : IsExplained (last_after last turn) turns rest) where
    none_here :
        turn.touches ≡ true
        → ¬ (turn.polled ≡ raises)
        → ¬ (turn.polled ≡ error true)
        → (reason : RunEnd) → ¬ IsCause reason last turn
    none_here touches calm minor running_on h = h
    none_here touches calm minor stopped h = cc
    none_here touches calm minor not_a_member h = present h
    none_here touches calm minor heartbeat_error h = cc
    none_here touches calm minor poll_raised h = calm h
    none_here touches calm minor fatal_error h = minor h

    polled-IsExplained :
        (p : PollResult)
        → turn.polled ≡ p
        → turn.touches ≡ true
        → IsExplained last (turn ∷ turns) (go_on (poll_end p) next rest)
    polled-IsExplained nothing same touches =
        later-IsExplained last turn turns rest
          (none_here touches (λ e. absurd (cc)) (λ e. absurd (cc))) later
    polled-IsExplained (received m) same touches =
        later-IsExplained last turn turns rest
          (none_here touches (λ e. absurd (cc)) (λ e. absurd (cc))) later
    polled-IsExplained (error true) same touches = (inl same, shutdown-IsShutDown next)
    polled-IsExplained (error false) same touches =
        later-IsExplained last turn turns rest
          (none_here touches (λ e. absurd (cc)) (λ e. absurd (cc))) later
    polled-IsExplained raises same touches = (inl same, shutdown-IsShutDown next)

    touched-IsExplained :
        IsExplained last
          (turn ∷ turns)
          (go_on (if turn.touches then poll_end turn.polled else heartbeat_error) next rest)
    touched-IsExplained =
        if-cases (λ (reason : RunEnd). IsExplained last (turn ∷ turns) (go_on reason next rest))
          turn.touches (λ touches. polled-IsExplained turn.polled refl touches)
          (λ fails. (inl fails, shutdown-IsShutDown next))

  check-cases :
      (last : ℕ) (turn : Turn)
      → ((check_group_membership max_group_absence turn.now turn.member last ≡ none)
          × IsAbsent last turn)
        ⊎ ((check_group_membership max_group_absence turn.now turn.member last
              ≡ some (last_after last turn))
            × ¬ IsAbsent last turn)
  unfolding check_group_membership
  check-cases last turn = elim (Bool-cases turn.member) [
    | inl member ↦ rw member (inr (refl, λ (outside, _). absurd (cc)))
    | inr outside ↦ elim (Bool-cases (ltb max_group_absence (turn.now - last))) [
      | inl long ↦
          rw (outside, long)
            (inl (refl, (refl, omega (arith, ltb→lt max_group_absence (turn.now - last) long))))
      | inr short ↦ rw (outside, short) (inr (refl, λ (_, long). ground (arith, long, short)))
    ]
  ]

  -- The loop goes on as long as nothing ends it: no `stop`, no absence from the group that is longer than
  -- allowed, no heartbeat file that cannot be touched, no error out of `poll` and no fatal one. If it ended,
  -- a turn has what the end names, whichever of these it is; and then no partition is left with a task,
  -- and the consumer was closed.
  pub run-IsExplained :
      (turns : List Turn) (state : WorkerState)
      → state.closed ≡ false
      → IsExplained state.last_group_membership turns (run settings max_group_absence turns state)
  unfolding run
  run-IsExplained [] state open_still = (λ reason cause. cause, open_still)
  run-IsExplained (turn ∷ turns) state open_still =
      if-cases (IsExplained state.last_group_membership (turn ∷ turns)) turn.running
        (λ runs. elim (check-cases state.last_group_membership turn) [
          | inl (out, absent) ↦
              subst (IsExplained state.last_group_membership (turn ∷ turns))
                (sym (ap (checked (run settings max_group_absence turns)) out))
                (inl absent, shutdown-IsShutDown state)
          | inr (kept, present) ↦
              subst (IsExplained state.last_group_membership (turn ∷ turns))
                (sym (ap (checked (run settings max_group_absence turns)) kept))
                (touched-IsExplained state.last_group_membership turn turns runs present
                  (turn_state settings turn state
                    (some (last_after state.last_group_membership turn)))
                  (run settings max_group_absence turns (
                    turn_state settings turn state
                      (some (last_after state.last_group_membership turn))))
                  (if-both
                    (λ (next : WorkerState).
                      IsExplained (last_after state.last_group_membership turn) turns
                        (run settings max_group_absence turns next))
                    turn.touches
                    (run-IsExplained turns
                      (polled_state settings turn (last_after state.last_group_membership turn)
                        state)
                      open_still)
                    (run-IsExplained turns
                      (untouched_state (last_after state.last_group_membership turn) state)
                      open_still)))
        ])
        (λ stops. (inl stops, shutdown-IsShutDown state))
    where
      checked : (WorkerState → RunEnd × WorkerState) → Option ℕ → RunEnd × WorkerState
      checked later o =
          go_on (turn_end turn o) (turn_state settings turn state o)
            (later (turn_state settings turn state o))
