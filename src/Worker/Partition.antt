-- ===== src/Worker/Partition.antt =====
-- `_dispatch`, `_consume_partition` and `_stop_partitions` of app/worker.py: one assigned partition, its
-- queue, the task that drains it and the offset that is stored for it, as a step relation.
use fraud_detection.Prelude.{
  ℕ, ◌+◌, ◌/◌, ◌≤◌, ◌≡◌, Bool, true, false, List, [], ◌∷◌, ◌++◌, leb, length, ◌&&◌, if◌then◌else◌,
}
use fraud_detection.Worker.Handle.{
  WorkerSettings, Message, Handled, done, dead_lettered, abandoned, overflow_error, still, handle,
  fresh, Pass,
}

-- What the partition's task does: it waits for a message, processes one, or has ended.
pub data TaskState : Type 0 where
  idle : TaskState
  busy : Message → TaskState
  ended : TaskState

-- `_PartitionState`, with the consumer's side of it: the offset that it has stored, and the offset from
-- which it polls the partition next.
pub record PartitionState : Type 0 where
  pub queue : List Message
  pub stopping : Bool
  pub task : TaskState
  pub paused : Bool
  pub stored : ℕ
  pub polled : ℕ

-- a partition that was just assigned, with the group's committed offset
abbrev pub assigned : ℕ → PartitionState
assigned committed = record {
  queue = [];
  stopping = false;
  task = idle;
  paused = false;
  stored = committed;
  polled = committed;
}

-- `_handle` returned `True`
unfoldable pub is_handled : Handled → Bool
is_handled (done outcome) = true
is_handled (dead_lettered letter) = true
is_handled _ = false

-- what the loop does after a message: the next one, or the end of the task, where `_handle` raised
abbrev pub task_after : Handled → TaskState
task_after overflow_error = ended
task_after _ = idle

abbrev pub IsOver : Handled → Type 0
IsOver (still progress) = ⊥
IsOver _ = Unit

module _ (settings : WorkerSettings) where
  -- the queue is long enough for a pause
  abbrev pub is_full : List Message → Bool
  is_full queue = leb settings.partition_high_watermark (length queue)

  -- `_dispatch`, of a message that `poll` gave
  unfoldable pub dispatch : Message → PartitionState → PartitionState
  dispatch message state =
      if state.stopping
      then record {
        queue = state.queue;
        stopping = state.stopping;
        task = state.task;
        paused = state.paused;
        stored = state.stored;
        polled = message.offset + 1;
      }
      else record {
        queue = state.queue ++ (message ∷ []);
        stopping = state.stopping;
        task = state.task;
        paused = if is_full (state.queue ++ (message ∷ [])) then true else state.paused;
        stored = state.stored;
        polled = message.offset + 1;
      }

  -- `queue.get` of the task, which the state is that of a waiting one
  unfoldable pub take_message : Message → List Message → PartitionState → PartitionState
  take_message message queue state = record {
    queue = queue;
    stopping = state.stopping;
    task = if state.stopping then ended else busy message;
    paused = state.paused;
    stored = state.stored;
    polled = state.polled;
  }

  -- the rest of the loop's body, after `_handle`; `stores` is false where `store_offsets` raises
  unfoldable pub finish_message : Message → Handled → Bool → PartitionState → PartitionState
  unfolding is_handled
  finish_message message result stores state = record {
    queue = state.queue;
    stopping = state.stopping;
    task = if state.stopping then ended else task_after result;
    paused =
        if leb (length state.queue) (settings.partition_high_watermark / 2)
        then elim result [ overflow_error ↦ state.paused | _ ↦ false ]
        else state.paused;
    stored = if is_handled result && stores then message.offset + 1 else state.stored;
    polled = state.polled;
  }

  -- `_stop_partitions`, up to the wait for the task: the queue is discarded
  unfoldable pub stop_partition : PartitionState → PartitionState
  stop_partition state = record {
    queue = [];
    stopping = true;
    task = state.task;
    paused = state.paused;
    stored = state.stored;
    polled = state.polled;
  }

  -- One step of the partition. The broker delivers a partition's messages in the order of their offsets,
  -- from the committed one on; offsets may have gaps. The task goes on when the loop of `_handle` is over;
  -- it returned `False` only if it saw that the partition is stopping, which stays so.
  pub data Step : PartitionState → PartitionState → Type 0 where
    dispatched :
        (state : PartitionState) (message : Message)
        → state.polled ≤ message.offset
        → Step state (dispatch message state)
    taken :
        (state : PartitionState) (message : Message) (queue : List Message)
        → state.task ≡ idle
        → state.queue ≡ message ∷ queue
        → Step state (take_message message queue state)
    finished :
        (state : PartitionState) (message : Message) (passes : List Pass) (stores : Bool)
        → state.task ≡ busy message
        → IsOver (handle settings message passes fresh)
        → (handle settings message passes fresh ≡ abandoned → state.stopping ≡ true)
        → Step state (finish_message message (handle settings message passes fresh) stores state)
    stopped : (state : PartitionState) → Step state (stop_partition state)

  pub data Steps : PartitionState → PartitionState → Type 0 where
    start : (state : PartitionState) → Steps state state
    next : (a b c : PartitionState) → Steps a b → Step b c → Steps a c
