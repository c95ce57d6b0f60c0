-- ===== src/Worker/Run.antt =====
-- The poll loop of app/worker.py: `run`, what it checks in each turn and how it ends; and the probe of
-- app/healthcheck.py on the heartbeat file that it touches.
pub mod Lifecycle
use fraud_detection.Prelude.{
  ℕ, ◌+◌, ◌-◌, String, Bool, true, false, Option, none, some, List, [], ◌∷◌, ltb, if◌then◌else◌,
  str_eq,
}
use fraud_detection.Worker.Handle.{WorkerSettings, Message}
use fraud_detection.Worker.Partition.{PartitionState, dispatch}
use fraud_detection.Worker.Assignment.{
  PartitionKey, same_key, Partitions, Rebalanced, state_of, released, on_assign, on_revoke, on_lost,
}

-- A callback that librdkafka makes while it polls.
pub data Callback : Type 0 where
  assign : List (PartitionKey × ℕ) → Callback
  revoke lose : List PartitionKey → Callback

-- What `poll` returns or raises. Of an error it matters whether it is fatal. A callback raises out of `poll`:
-- the `TimeoutError` of `_run_on_loop`, or its `RuntimeError`.
pub data PollResult : Type 0 where
  nothing : PollResult
  error : Bool → PollResult
  received : Message → PollResult
  raises : PollResult

-- One turn: whether `stop` was not called, the clock, whether the consumer has a member id, whether the
-- heartbeat file could be touched, the callbacks that took effect, and the result of the poll.
pub record Turn : Type 0 where
  pub running : Bool
  pub now : ℕ
  pub member : Bool
  pub touches : Bool
  pub callbacks : List Callback
  pub polled : PollResult

-- Why the loop ended, if it did: `stop`, or one of the errors that `run` lets through.
pub data RunEnd : Type 0 where
  running_on stopped not_a_member heartbeat_error poll_raised fatal_error : RunEnd

pub record WorkerState : Type 0 where
  pub partitions : Partitions
  pub last_group_membership : ℕ
  pub heartbeat : Option ℕ
  pub closed : Bool

-- `_check_group_membership`: the last membership, or the error that ends the loop
unfoldable pub check_group_membership : ℕ → ℕ → Bool → ℕ → Option ℕ
check_group_membership max_group_absence now member last =
    if member then some now else if ltb max_group_absence (now - last) then none else some last

abbrev pub called_back : Callback → Partitions → Partitions
called_back (assign keys) partitions = (on_assign keys partitions).partitions
called_back (revoke keys) partitions = (on_revoke keys partitions).partitions
called_back (lose keys) partitions = (on_lost keys partitions).partitions

unfoldable pub all_called_back : List Callback → Partitions → Partitions
unfolding on_assign on_revoke on_lost
all_called_back [] partitions = partitions
all_called_back (callback ∷ rest) partitions =
    all_called_back rest (called_back callback partitions)

-- the state of the message's partition, if it has one, with the message in its queue
unfoldable pub dispatch_in : WorkerSettings → Message → Partitions → Partitions
unfolding dispatch
dispatch_in settings message [] = []
dispatch_in settings message ((key, state) ∷ rest) =
    if same_key key (message.topic, message.partition)
    then (key, dispatch settings message state) ∷ rest
    else (key, state) ∷ dispatch_in settings message rest

-- `_shutdown`: every partition is stopped and the consumer closed; `close` is taken to succeed
unfoldable pub shutdown : WorkerState → WorkerState
unfolding released
shutdown state = record {
  partitions = released state.partitions state.partitions;
  last_group_membership = state.last_group_membership;
  heartbeat = state.heartbeat;
  closed = true;
}

-- `_handle_poll_error` ends the loop on a fatal error only.
abbrev pub poll_end : PollResult → RunEnd
poll_end (error fatal) = if fatal then fatal_error else running_on
poll_end raises = poll_raised
poll_end _ = running_on

abbrev pub handled : WorkerSettings → PollResult → Partitions → Partitions
handled settings (received m) partitions = dispatch_in settings m partitions
handled settings _ partitions = partitions

-- the state when the heartbeat file could not be touched
abbrev pub untouched_state : ℕ → WorkerState → WorkerState
untouched_state last state = record {
  partitions = state.partitions;
  last_group_membership = last;
  heartbeat = state.heartbeat;
  closed = state.closed;
}

-- the state when `poll` has returned, and after its result was handled
abbrev pub polled_state : WorkerSettings → Turn → ℕ → WorkerState → WorkerState
polled_state settings turn last state = record {
  partitions = handled settings turn.polled (all_called_back turn.callbacks state.partitions);
  last_group_membership = last;
  heartbeat = some turn.now;
  closed = state.closed;
}

abbrev pub turn_end : Turn → Option ℕ → RunEnd
turn_end turn none = not_a_member
turn_end turn (some last) = if turn.touches then poll_end turn.polled else heartbeat_error

abbrev pub turn_state : WorkerSettings → Turn → WorkerState → Option ℕ → WorkerState
turn_state settings turn state none = state
turn_state settings turn state (some last) =
    if turn.touches then polled_state settings turn last state else untouched_state last state

abbrev pub go_on : RunEnd → WorkerState → RunEnd × WorkerState → RunEnd × WorkerState
go_on running_on state rest = rest
go_on reason state rest = (reason, shutdown state)

-- `run`
unfoldable pub run : WorkerSettings → ℕ → List Turn → WorkerState → RunEnd × WorkerState
unfolding check_group_membership all_called_back dispatch_in shutdown
run settings max_group_absence [] state = (running_on, state)
run settings max_group_absence (turn ∷ turns) state =
    let last =
      check_group_membership max_group_absence turn.now turn.member state.last_group_membership in
    let rest = run settings max_group_absence turns (turn_state settings turn state last) in
    if turn.running
    then go_on (turn_end turn last) (turn_state settings turn state last) rest
    else (stopped, shutdown state)

-- `HEARTBEAT_MAX_AGE_SECONDS` and the exit codes of `main`
abbrev pub heartbeat_max_age : ℕ
heartbeat_max_age = 60

-- `check_worker`, with the time at which the file was touched, if it is there
unfoldable pub check_worker : ℕ → Option ℕ → Bool
check_worker now none = false
check_worker now (some touched) = ltb (now - touched) heartbeat_max_age

abbrev pub exit_code : Bool → ℕ
exit_code healthy = if healthy then 0 else 1

-- `main` of app/healthcheck.py, with whether the API answers its probe
unfoldable pub probe : List String → Bool → ℕ → Option ℕ → ℕ
unfolding check_worker
probe [] api_ready now touched = 2
probe (program ∷ []) api_ready now touched = 2
probe (program ∷ target ∷ rest) api_ready now touched =
    if str_eq target "api"
    then exit_code api_ready
    else if str_eq target "worker"
    then exit_code (check_worker now touched)
    else 2
