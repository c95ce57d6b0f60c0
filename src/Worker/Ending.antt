-- ===== src/Worker/Ending.antt =====
-- Why the task of a partition (app/worker.py) has ended: its partition was stopped, or the delay of a retry
-- was no float.
use fraud_detection.Prelude.{◌≡◌, ◌⊎◌, refl, inl, inr, true, Bool-cases}
use fraud_detection.Worker.Handle.{
  WorkerSettings, Handled, done, dead_lettered, abandoned, overflow_error, still, handle, fresh,
}
use fraud_detection.Worker.Partition.{
  ended, PartitionState, task_after, IsOver, dispatch, take_message, finish_message, stop_partition,
  Step, dispatched, taken, finished, stopped, Steps, start, next,
}

task_after-overflow :
    (result : Handled) → IsOver result → task_after result ≡ ended → result ≡ overflow_error
task_after-overflow (done outcome) ends e = absurd (cc)
task_after-overflow (dead_lettered letter) ends e = absurd (cc)
task_after-overflow abandoned ends e = absurd (cc)
task_after-overflow overflow_error ends e = refl
task_after-overflow (still p) ends e = absurd ends

module _ (settings : WorkerSettings) where
  -- the step ends a message's handling by the `OverflowError` of a retry's delay
  abbrev pub Overflows : {a b : PartitionState} → Step settings a b → Type 0
  Overflows (dispatched a x le) = ⊥
  Overflows (taken a x queue is_idle same) = ⊥
  Overflows (finished a x passes stores is_busy ends agrees) =
      handle settings x passes fresh ≡ overflow_error
  Overflows (stopped a) = ⊥

  abbrev pub HasOverflowed : {a b : PartitionState} → Steps settings a b → Type 0
  HasOverflowed (start a) = ⊥
  HasOverflowed (next a b c steps step) = HasOverflowed steps ⊎ Overflows step

  abbrev pub IsEndedBy : Type 0 → PartitionState → Type 0
  IsEndedBy R s = s.task ≡ ended → (s.stopping ≡ true) ⊎ R

  Step-IsEndedBy :
      (R : Type 0) {a b : PartitionState} (step : Step settings a b)
      → IsEndedBy R a
      → IsEndedBy (R ⊎ Overflows step) b
  unfolding dispatch take_message finish_message stop_partition
  Step-IsEndedBy R (dispatched a x le) h = elim (Bool-cases a.stopping) [
    | inl stops ↦ rw stops (λ e. inl refl)
    | inr goes ↦ rw goes (λ e. elim (h e) [ inl stops ↦ absurd (cc) | inr over ↦ inr (inl over) ])
  ]
  Step-IsEndedBy R (taken a x queue is_idle same) h = elim (Bool-cases a.stopping) [
    | inl stops ↦ λ e. inl stops
    | inr goes ↦ rw goes (λ e. absurd (cc))
  ]
  Step-IsEndedBy R (finished a x passes stores is_busy ends agrees) h =
      elim (Bool-cases a.stopping) [
        | inl stops ↦ λ e. inl stops
        | inr goes ↦
            rw goes (λ e. inr (inr (task_after-overflow (handle settings x passes fresh) ends e)))
      ]
  Step-IsEndedBy R (stopped a) h = λ e. inl refl

  pub steps-IsEndedBy :
      {a b : PartitionState} (steps : Steps settings a b)
      → ¬ (a.task ≡ ended)
      → IsEndedBy (HasOverflowed steps) b
  steps-IsEndedBy (start a) alive = λ e. absurd (alive e)
  steps-IsEndedBy (next a b c steps step) alive =
      Step-IsEndedBy (HasOverflowed steps) step (steps-IsEndedBy steps alive)
