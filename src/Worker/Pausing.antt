-- ===== src/Worker/Pausing.antt =====
-- Backpressure (app/worker.py): when a partition is paused and when it is resumed.
use fraud_detection.Prelude.{
  ℕ, ◌/◌, ◌≤◌, ◌<◌, ◌≡◌, ◌⊎◌, refl, ap, inl, inr, Bool, true, false, List, [], ◌∷◌, ◌++◌, leb,
  length, length-append, leb→le, arith, Bool-cases, if◌then◌else◌,
}
use fraud_detection.Worker.Handle.{
  WorkerSettings, Message, Handled, done, dead_lettered, abandoned, overflow_error, still, handle,
  fresh,
}
use fraud_detection.Worker.Partition.{
  busy, ended, PartitionState, assigned, is_full, dispatch, take_message, finish_message,
  stop_partition, Step, dispatched, taken, finished, stopped, Steps, start, next,
}
use fraud_detection.Worker.Ending.{HasOverflowed, IsEndedBy, steps-IsEndedBy}

-- the task has a message in work, or is about to end or has ended
abbrev IsWorking : PartitionState → Type 0
IsWorking s = ((m : Message) × (s.task ≡ busy m)) ⊎ ((s.stopping ≡ true) ⊎ (s.task ≡ ended))

above_half : (h n : ℕ) → 1 ≤ h → leb h n ≡ true → h / 2 < n
above_half h n positive e = let le = leb→le h n e in omega arith

below_whole : (n h : ℕ) → 1 ≤ h → leb n (h / 2) ≡ true → n < h
below_whole n h positive e = let le = leb→le n (h / 2) e in omega arith

below : (h n : ℕ) → leb h n ≡ false → n < h
below h n e = ground arith

ended_if : (b : Bool) → (if b then ended else ended) ≡ ended
ended_if true = refl
ended_if false = refl

module _ (settings : WorkerSettings) where
  -- an unpaused queue is below the watermark, a paused one is longer than half of it, worked on or ended
  IsFlowing : PartitionState → Type 0
  IsFlowing s =
      (s.paused ≡ false → length s.queue < settings.partition_high_watermark)
      × (s.paused ≡ true → IsWorking s ⊎ (settings.partition_high_watermark / 2 < length s.queue))

  -- What a partition that is paused has.
  pub data Cause {a s : PartitionState} (steps : Steps settings a s) : Type 0 where
    at_work : (m : Message) × (s.task ≡ busy m) → Cause steps
    queued : settings.partition_high_watermark / 2 < length s.queue → Cause steps
    is_stopping : s.stopping ≡ true → Cause steps
    overflowed : HasOverflowed settings steps → Cause steps

  pub record IsResumable {a s : PartitionState} (steps : Steps settings a s) : Type 0 where
    pub low : s.paused ≡ false → length s.queue < settings.partition_high_watermark
    pub has_cause : s.paused ≡ true → Cause steps

  module _ (positive : 1 ≤ settings.partition_high_watermark) where
    dispatch-IsFlowing :
        (x : Message) (a : PartitionState) → IsFlowing a → IsFlowing (dispatch settings x a)
    unfolding IsFlowing dispatch
    dispatch-IsFlowing x a (low, high) = elim (Bool-cases a.stopping) [
      | inl stops ↦ rw stops (low, λ e. inl (inr (inl refl)))
      | inr goes ↦ elim (Bool-cases (is_full settings (a.queue ++ (x ∷ [])))) [
        | inl full ↦
            rw (goes, full)
              (
                λ e. absurd (cc),
                λ e. inr (
                    above_half settings.partition_high_watermark (length (a.queue ++ (x ∷ [])))
                      positive full),
              )
        | inr room ↦
            rw (goes, room)
              (
                λ e. below settings.partition_high_watermark (length (a.queue ++ (x ∷ []))) room,
                λ e. elim (high e) [
                  | inl works ↦ inl (elim works [
                    | inl busy_with ↦ inl busy_with
                    | inr (inl stops) ↦ absurd (cc)
                    | inr (inr ends) ↦ inr (inr ends)
                  ])
                  | inr long ↦ inr (omega (arith, length-append a.queue (x ∷ [])))
                ],
              )
      ]
    ]

    take_message-IsFlowing :
        (x : Message) (queue : List Message) (a : PartitionState)
        → a.queue ≡ x ∷ queue
        → IsFlowing a
        → IsFlowing (take_message settings x queue a)
    unfolding IsFlowing take_message
    take_message-IsFlowing x queue a same (low, high) = elim (Bool-cases a.stopping) [
      | inl stops ↦ rw stops (λ e. omega (arith, low e, ap length same), λ e. inl (inr (inl refl)))
      | inr goes ↦ rw goes (λ e. omega (arith, low e, ap length same), λ e. inl (inl (x, refl)))
    ]

    resumed :
        (a : PartitionState)
        → IsFlowing a
        → {R : Type 0}
        → ((if leb (length a.queue) (settings.partition_high_watermark / 2)
                then false
                else a.paused)
              ≡ false
            → length a.queue < settings.partition_high_watermark)
          × ((if leb (length a.queue) (settings.partition_high_watermark / 2)
                  then false
                  else a.paused)
                ≡ true
              → R ⊎ (settings.partition_high_watermark / 2 < length a.queue))
    unfolding IsFlowing
    resumed a (low, high) =
        elim (Bool-cases (leb (length a.queue) (settings.partition_high_watermark / 2))) [
          | inl short ↦ rw short (
            λ e. below_whole (length a.queue) settings.partition_high_watermark positive short,
            λ e. absurd (cc),
          )
          | inr long ↦
              rw long (
                low,
                λ e. inr (below (length a.queue) (settings.partition_high_watermark / 2) long),
              )
        ]

    finish_message-IsFlowing :
        (x : Message) (result : Handled) (stores : Bool) (a : PartitionState)
        → IsFlowing a
        → IsFlowing (finish_message settings x result stores a)
    unfolding IsFlowing finish_message
    finish_message-IsFlowing x overflow_error stores a (low, high) =
        elim (Bool-cases (leb (length a.queue) (settings.partition_high_watermark / 2))) [
          | inl short ↦ rw short (low, λ e. inl (inr (inr (ended_if a.stopping))))
          | inr long ↦ rw long (low, λ e. inl (inr (inr (ended_if a.stopping))))
        ]
    finish_message-IsFlowing x (done outcome) stores a h = resumed a h
    finish_message-IsFlowing x (dead_lettered letter) stores a h = resumed a h
    finish_message-IsFlowing x abandoned stores a h = resumed a h
    finish_message-IsFlowing x (still p) stores a h = resumed a h

    Step-IsFlowing : {a b : PartitionState} → Step settings a b → IsFlowing a → IsFlowing b
    unfolding IsFlowing stop_partition
    Step-IsFlowing (dispatched a x le) h = dispatch-IsFlowing x a h
    Step-IsFlowing (taken a x queue is_idle same) h = take_message-IsFlowing x queue a same h
    Step-IsFlowing (finished a x passes stores is_busy ends agrees) h =
        finish_message-IsFlowing x (handle settings x passes fresh) stores a h
    Step-IsFlowing (stopped a) h = (λ e. positive, λ e. inl (inr (inl refl)))

    assigned-IsFlowing : (committed : ℕ) → IsFlowing (assigned committed)
    unfolding IsFlowing
    assigned-IsFlowing committed = (λ e. positive, λ e. absurd (cc))

    steps-IsFlowing : {a b : PartitionState} → Steps settings a b → IsFlowing a → IsFlowing b
    steps-IsFlowing (start a) h = h
    steps-IsFlowing (next a b c steps step) h = Step-IsFlowing step (steps-IsFlowing steps h)

    flowing-IsResumable :
        {a s : PartitionState} (steps : Steps settings a s)
        → IsFlowing s
        → IsEndedBy settings (HasOverflowed settings steps) s
        → IsResumable steps
    unfolding IsFlowing
    flowing-IsResumable {s = s} steps (low, high) why = record {
      low = low;
      has_cause = λ e. elim (high e) [
        | inl (inl busy_with) ↦ at_work busy_with
        | inl (inr (inl stops)) ↦ is_stopping stops
        | inl (inr (inr ends)) ↦ elim (why ends) [
          | inl stops ↦ is_stopping stops
          | inr over ↦ overflowed over
        ]
        | inr long ↦ queued long
      ];
    }

    -- Backpressure: in every state that a partition comes to, an unpaused one holds fewer messages than the
    -- watermark (at least 1). A paused one has a message in work, after which its task looks at the backlog
    -- again, or more than half of the watermark in its queue, so that there is a message to take; the
    -- exceptions are a partition that is being stopped, and one whose task has ended by the overflow of a
    -- retry's delay, which stays paused.
    pub reachable-IsResumable :
        (committed : ℕ) (s : PartitionState) (steps : Steps settings (assigned committed) s)
        → IsResumable steps
    reachable-IsResumable committed s steps =
        flowing-IsResumable steps (steps-IsFlowing steps (assigned-IsFlowing committed))
          (steps-IsEndedBy settings steps (λ e. absurd (cc)))
