-- ===== src/Worker/Ordered.antt =====
-- The offsets of a partition's messages follow the order of its queue (app/worker.py).
use fraud_detection.Prelude.{
  ℕ, ◌+◌, ◌≤◌, ◌<◌, subst, inl, inr, Bool, true, false, List, [], ◌∷◌, ◌++◌, arith, Bool-cases,
  if◌then◌else◌, ◌&&◌,
}
use fraud_detection.Worker.Handle.{
  WorkerSettings, Message, Handled, done, dead_lettered, abandoned, overflow_error, still, handle,
  fresh,
}
use fraud_detection.Worker.Partition.{
  TaskState, idle, busy, ended, PartitionState, assigned, is_handled, task_after, dispatch,
  take_message, finish_message, stop_partition, Step, dispatched, taken, finished, stopped, Steps,
  start, next,
}

abbrev pub AllBefore : ℕ → List Message → Type 0
AllBefore n [] = Unit
AllBefore n (x ∷ queue) = (x.offset < n) × AllBefore n queue

abbrev pub IsTaskBefore : ℕ → TaskState → Type 0
IsTaskBefore n idle = Unit
IsTaskBefore n ended = Unit
IsTaskBefore n (busy x) = x.offset < n

-- everything that was polled stands before the next offset
unfoldable pub IsOrdered : PartitionState → Type 0
IsOrdered s = (s.stored ≤ s.polled) × (IsTaskBefore s.polled s.task × AllBefore s.polled s.queue)

pub AllBefore-le : (n k : ℕ) (queue : List Message) → n ≤ k → AllBefore n queue → AllBefore k queue
AllBefore-le n k [] le h = tt
AllBefore-le n k (x ∷ queue) le h = (omega (arith, h.0), AllBefore-le n k queue le h.1)

AllBefore-append :
    (n : ℕ) (queue : List Message) (x : Message)
    → AllBefore n queue
    → x.offset < n
    → AllBefore n (queue ++ (x ∷ []))
AllBefore-append n [] x h lt = (lt, tt)
AllBefore-append n (y ∷ queue) x h lt = (h.0, AllBefore-append n queue x h.1 lt)

IsTaskBefore-le : (n k : ℕ) (task : TaskState) → n ≤ k → IsTaskBefore n task → IsTaskBefore k task
IsTaskBefore-le n k idle le h = tt
IsTaskBefore-le n k ended le h = tt
IsTaskBefore-le n k (busy x) le h = omega (arith, h)

task_after-IsTaskBefore : (n : ℕ) (result : Handled) → IsTaskBefore n (task_after result)
task_after-IsTaskBefore n (done outcome) = tt
task_after-IsTaskBefore n (dead_lettered letter) = tt
task_after-IsTaskBefore n abandoned = tt
task_after-IsTaskBefore n overflow_error = tt
task_after-IsTaskBefore n (still p) = tt

-- the offset after a message that may have been handled
pub stored_le :
    (b : Bool) (offset stored n : ℕ)
    → offset < n
    → stored ≤ n
    → (if b then offset + 1 else stored) ≤ n
stored_le true offset stored n lt le = omega (arith, lt)
stored_le false offset stored n lt le = le

pub ended_or :
    (P : TaskState → Type 0) (b : Bool) (task : TaskState)
    → P ended
    → P task
    → P (if b then ended else task)
ended_or P true task h k = h
ended_or P false task h k = k

module _ (settings : WorkerSettings) where
  Step-IsOrdered : {a b : PartitionState} → Step settings a b → IsOrdered a → IsOrdered b
  unfolding IsOrdered dispatch take_message finish_message stop_partition
  Step-IsOrdered (dispatched a x le) (s, (t, q)) = elim (Bool-cases a.stopping) [
    | inl stops ↦ rw stops (
      omega arith,
      (
        IsTaskBefore-le a.polled (x.offset + 1) a.task (omega arith) t,
        AllBefore-le a.polled (x.offset + 1) a.queue (omega arith) q,
      ),
    )
    | inr not_stopping ↦ rw not_stopping (
      omega arith,
      (
        IsTaskBefore-le a.polled (x.offset + 1) a.task (omega arith) t,
        AllBefore-append (x.offset + 1) a.queue x
            (AllBefore-le a.polled (x.offset + 1) a.queue (omega arith) q) (omega arith),
      ),
    )
  ]
  Step-IsOrdered (taken a x queue is_idle same) (s, (t, q)) =
      let (lt, before) = subst (AllBefore a.polled) same q in
      elim (Bool-cases a.stopping) [
        | inl stops ↦ rw stops (s, (tt, before))
        | inr not_stopping ↦ rw not_stopping (s, (lt, before))
      ]
  Step-IsOrdered (finished a x passes stores is_busy ends agrees) (s, (t, q)) =
      let lt = subst (IsTaskBefore a.polled) is_busy t in
      (
        stored_le (is_handled (handle settings x passes fresh) && stores) x.offset a.stored a.polled
            lt s,
        (
          ended_or (IsTaskBefore a.polled) a.stopping (task_after (handle settings x passes fresh))
              tt (task_after-IsTaskBefore a.polled (handle settings x passes fresh)),
          q,
        ),
      )
  Step-IsOrdered (stopped a) (s, (t, q)) = (s, (t, tt))

  pub steps-IsOrdered : {a b : PartitionState} → Steps settings a b → IsOrdered a → IsOrdered b
  steps-IsOrdered (start a) h = h
  steps-IsOrdered (next a b c steps step) h = Step-IsOrdered step (steps-IsOrdered steps h)

  pub assigned-IsOrdered : (committed : ℕ) → IsOrdered (assigned committed)
  unfolding IsOrdered
  assigned-IsOrdered committed = (omega arith, (tt, tt))
