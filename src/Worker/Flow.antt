-- ===== src/Worker/Flow.antt =====
-- What holds of a partition in every state (app/worker.py): its offset is stored only behind messages
-- that were handled.
use fraud_detection.Prelude.{
  ℕ, ◌≤◌, ◌<◌, ◌≡◌, ◌⊎◌, refl, ap, subst, inl, inr, Bool, true, List, [], ◌∷◌, ◌++◌, arith,
  Bool-cases, if◌then◌else◌, ◌&&◌,
}
use fraud_detection.Worker.Handle.{
  WorkerSettings, Message, Handled, done, dead_lettered, abandoned, overflow_error, still, handle,
  fresh,
}
use fraud_detection.Worker.Partition.{
  TaskState, idle, busy, ended, PartitionState, assigned, is_handled, task_after, IsOver, dispatch,
  take_message, finish_message, stop_partition, Step, dispatched, taken, finished, stopped, Steps,
  start, next,
}
use fraud_detection.Worker.Ordered.{
  AllBefore, IsTaskBefore, IsOrdered, AllBefore-le, stored_le, ended_or, steps-IsOrdered,
  assigned-IsOrdered,
}

-- the task's message stands before the given one
abbrev IsBusyBefore : Message → TaskState → Type 0
IsBusyBefore m idle = Unit
IsBusyBefore m ended = Unit
IsBusyBefore m (busy x) = x.offset < m.offset

-- the queue holds the message, behind earlier ones
abbrev IsWaiting : Message → List Message → Type 0
IsWaiting m [] = ⊥
IsWaiting m (x ∷ queue) = (x ≡ m) ⊎ ((x.offset < m.offset) × IsWaiting m queue)

IsWaiting-append :
    (m : Message) (queue : List Message) (x : Message)
    → IsWaiting m queue
    → IsWaiting m (queue ++ (x ∷ []))
IsWaiting-append m [] x h = absurd h
IsWaiting-append m (y ∷ queue) x (inl same) = inl same
IsWaiting-append m (y ∷ queue) x (inr (lt, h)) = inr (lt, IsWaiting-append m queue x h)

IsWaiting-last :
    (m : Message) (queue : List Message)
    → AllBefore m.offset queue
    → IsWaiting m (queue ++ (m ∷ []))
IsWaiting-last m [] h = inl refl
IsWaiting-last m (y ∷ queue) h = inr (h.0, IsWaiting-last m queue h.1)

IsBusyBefore-task :
    (m : Message) (n : ℕ) (task : TaskState)
    → n ≤ m.offset
    → IsTaskBefore n task
    → IsBusyBefore m task
IsBusyBefore-task m n idle le h = tt
IsBusyBefore-task m n ended le h = tt
IsBusyBefore-task m n (busy x) le h = omega (arith, h)

task_after-IsBusyBefore : (m : Message) (result : Handled) → IsBusyBefore m (task_after result)
task_after-IsBusyBefore m (done outcome) = tt
task_after-IsBusyBefore m (dead_lettered letter) = tt
task_after-IsBusyBefore m abandoned = tt
task_after-IsBusyBefore m overflow_error = tt
task_after-IsBusyBefore m (still p) = tt

-- Where a message stands that was put on the queue and is not handled: on the queue, in work, or behind a
-- task that takes no more messages.
data Place (m : Message) (s : PartitionState) : Type 0 where
  waiting : IsWaiting m s.queue → IsBusyBefore m s.task → Place m s
  working : s.task ≡ busy m → Place m s
  stopping : s.stopping ≡ true → IsBusyBefore m s.task → Place m s
  over : s.task ≡ ended → Place m s

IsUnfinished : Message → PartitionState → Type 0
IsUnfinished m s = (s.stored ≤ m.offset) × Place m s

module _ (settings : WorkerSettings) where
  -- the step handles the message
  abbrev pub Finishes : Message → {a b : PartitionState} → Step settings a b → Type 0
  Finishes m (dispatched a x le) = ⊥
  Finishes m (taken a x queue is_idle same) = ⊥
  Finishes m (finished a x passes stores is_busy over_ agrees) =
      (x ≡ m) × (is_handled (handle settings x passes fresh) ≡ true)
  Finishes m (stopped a) = ⊥

  abbrev pub IsFinishedIn : Message → {a b : PartitionState} → Steps settings a b → Type 0
  IsFinishedIn m (start a) = ⊥
  IsFinishedIn m (next a b c steps step) = IsFinishedIn m steps ⊎ Finishes m step

  dispatch-IsUnfinished :
      (m x : Message) (a : PartitionState)
      → IsUnfinished m a
      → IsUnfinished m (dispatch settings x a)
  unfolding IsUnfinished dispatch
  dispatch-IsUnfinished m x a (s, place) = elim (Bool-cases a.stopping) [
    | inl stops ↦ rw stops (
      s,
      elim place [
        | waiting w t ↦ stopping refl t
        | working t ↦ working t
        | stopping b t ↦ stopping refl t
        | over t ↦ over t
      ],
    )
    | inr goes ↦ rw goes (
      s,
      elim place [
        | waiting w t ↦ waiting (IsWaiting-append m a.queue x w) t
        | working t ↦ working t
        | stopping b t ↦ absurd (cc)
        | over t ↦ over t
      ],
    )
  ]

  take_message-IsUnfinished :
      (m x : Message) (queue : List Message) (a : PartitionState)
      → a.task ≡ idle
      → a.queue ≡ x ∷ queue
      → IsUnfinished m a
      → IsUnfinished m (take_message settings x queue a)
  unfolding IsUnfinished take_message
  take_message-IsUnfinished m x queue a is_idle same (s, place) = elim (Bool-cases a.stopping) [
    | inl stops ↦ rw stops (s, over refl)
    | inr goes ↦ rw goes (
      s,
      elim place [
        | waiting w t ↦ elim (subst (IsWaiting m) same w) [
          | inl is_m ↦ working (ap busy is_m)
          | inr (lt, w') ↦ waiting w' lt
        ]
        | working t ↦ absurd (cc)
        | stopping b t ↦ absurd (cc)
        | over t ↦ absurd (cc)
      ],
    )
  ]

  task_before :
      (m : Message) (result : Handled) (a : PartitionState)
      → IsBusyBefore m (if a.stopping then ended else task_after result)
  task_before m result a =
      ended_or (IsBusyBefore m) a.stopping (task_after result) tt (task_after-IsBusyBefore m result)

  finish_message-working :
      (m x : Message) (result : Handled) (stores : Bool) (a : PartitionState)
      → x ≡ m
      → (result ≡ abandoned → a.stopping ≡ true)
      → IsOver result
      → a.stored ≤ m.offset
      → IsUnfinished m (finish_message settings x result stores a)
        ⊎ ((x ≡ m) × (is_handled result ≡ true))
  unfolding IsUnfinished finish_message is_handled
  finish_message-working m x (done outcome) stores a same agrees ends s = inr (same, refl)
  finish_message-working m x (dead_lettered letter) stores a same agrees ends s = inr (same, refl)
  finish_message-working m x abandoned stores a same agrees ends s =
      inl (s, over (rw (agrees refl) refl))
  finish_message-working m x overflow_error stores a same agrees ends s =
      inl (s, over (ended_or (λ task. task ≡ ended) a.stopping ended refl refl))
  finish_message-working m x (still p) stores a same agrees ends s = absurd ends

  finish_message-IsUnfinished :
      (m x : Message) (result : Handled) (stores : Bool) (a : PartitionState)
      → a.task ≡ busy x
      → (result ≡ abandoned → a.stopping ≡ true)
      → IsOver result
      → IsUnfinished m a
      → IsUnfinished m (finish_message settings x result stores a)
        ⊎ ((x ≡ m) × (is_handled result ≡ true))
  unfolding IsUnfinished finish_message
  finish_message-IsUnfinished m x result stores a is_busy agrees ends (s, place) = elim place [
    | waiting w t ↦
        let lt = subst (IsBusyBefore m) is_busy t in
        inl (
          stored_le (is_handled result && stores) x.offset a.stored m.offset lt s,
          waiting w (task_before m result a),
        )
    | working t ↦
        let same : x ≡ m = cc in finish_message-working m x result stores a same agrees ends s
    | stopping b t ↦
        let lt = subst (IsBusyBefore m) is_busy t in
        inl (
          stored_le (is_handled result && stores) x.offset a.stored m.offset lt s,
          stopping b (task_before m result a),
        )
    | over t ↦ absurd (cc)
  ]

  stop_partition-IsUnfinished :
      (m : Message) (a : PartitionState)
      → IsUnfinished m a
      → IsUnfinished m (stop_partition settings a)
  unfolding IsUnfinished stop_partition
  stop_partition-IsUnfinished m a (s, place) = (
    s,
    elim place [
      | waiting w t ↦ stopping refl t
      | working t ↦ working t
      | stopping b t ↦ stopping refl t
      | over t ↦ over t
    ],
  )

  Step-IsUnfinished :
      (m : Message) {a b : PartitionState} (step : Step settings a b)
      → IsUnfinished m a
      → IsUnfinished m b ⊎ Finishes m step
  Step-IsUnfinished m (dispatched a x le) h = inl (dispatch-IsUnfinished m x a h)
  Step-IsUnfinished m (taken a x queue is_idle same) h =
      inl (take_message-IsUnfinished m x queue a is_idle same h)
  Step-IsUnfinished m (finished a x passes stores is_busy ends agrees) h =
      finish_message-IsUnfinished m x (handle settings x passes fresh) stores a is_busy agrees ends
        h
  Step-IsUnfinished m (stopped a) h = inl (stop_partition-IsUnfinished m a h)

  steps-IsUnfinished :
      (m : Message) {a b : PartitionState} (steps : Steps settings a b)
      → IsUnfinished m a
      → IsUnfinished m b ⊎ IsFinishedIn m steps
  steps-IsUnfinished m (start a) h = inl h
  steps-IsUnfinished m (next a b c steps step) h = elim (steps-IsUnfinished m steps h) [
    | inl before ↦ elim (Step-IsUnfinished m step before) [
      | inl after ↦ inl after
      | inr here ↦ inr (inr here)
    ]
    | inr there ↦ inr (inl there)
  ]

  dispatched-IsUnfinished :
      (m : Message) (a : PartitionState)
      → IsOrdered a
      → a.polled ≤ m.offset
      → IsUnfinished m (dispatch settings m a)
  unfolding IsOrdered IsUnfinished dispatch
  dispatched-IsUnfinished m a (s, (t, q)) le =
      let before = IsBusyBefore-task m a.polled a.task le t in
      elim (Bool-cases a.stopping) [
        | inl stops ↦ rw stops (omega arith, stopping refl before)
        | inr goes ↦ rw goes (
          omega arith,
          waiting (IsWaiting-last m a.queue (AllBefore-le a.polled m.offset a.queue le q)) before,
        )
      ]

  -- The stored offset is never ahead of an unfinished message: after any sequence of polls, takings,
  -- outcomes and stops since the partition was assigned, if the stored offset has passed a message that
  -- was polled, then the message was handled on the way, recorded or dead-lettered. Messages that were
  -- discarded at a stop, or abandoned in a retry, are so redelivered.
  pub stored-IsFinishedIn :
      (committed : ℕ) (m : Message) (a b : PartitionState)
      (steps : Steps settings (dispatch settings m a) b)
      → Steps settings (assigned committed) a
      → a.polled ≤ m.offset
      → m.offset < b.stored
      → IsFinishedIn m steps
  unfolding IsUnfinished
  stored-IsFinishedIn committed m a b steps before le passed =
      let ordered = steps-IsOrdered settings before (assigned-IsOrdered settings committed) in
      elim (steps-IsUnfinished m steps (dispatched-IsUnfinished m a ordered le)) [
        | inl (s, place) ↦ absurd (omega arith)
        | inr there ↦ there
      ]
