-- ===== src/DeadLetters/Replay.antt =====
-- scripts/replay_dlq.py: the loop that copies dead letters back to their source topic.
use fraud_detection.Prelude.{
  ℕ, ◌+◌, String, Bool, Option, none, some, List, [], ◌∷◌, ◌++◌, ltb, if◌then◌else◌, str_eq,
}
use fraud_detection.DeadLetters.{DlqMessage}

-- What `poll` gives.
pub data Polled : Type 0 where
  no_message : Polled
  poll_error : Polled
  polled_message : ℕ → DlqMessage → Polled

-- What `flush(15)` leaves of the produced message: it is in the queue still, the broker has it, or its
-- delivery failed for good, which also takes it out of the queue.
pub data Flush : Type 0 where
  still_queued delivered delivery_failed : Flush

-- a message that the broker has on a source topic
pub record Copy : Type 0 where
  pub topic : String
  pub copied_key : Option String
  pub copied_value : Option String

-- The local count, and what was done: the copies on source topics and the offsets that were committed.
pub record ReplayState : Type 0 where
  pub replayed : ℕ
  pub copies : List Copy
  pub commits : List ℕ

-- the arguments of the command line
pub record ReplayArgs : Type 0 where
  pub max_messages : ℕ
  pub dry_run : Bool

-- the end of `main` with its exit code, or the next round
pub data Round : Type 0 where
  exited : ℕ → ReplayState → Round
  again : ReplayState → Round

-- `headers.get(name)` of the dictionary that the script makes, where the last of a name counts
unfoldable pub header : String → List (String × String) → Option String
header name [] = none
header name ((key, value) ∷ rest) = elim (header name rest) [
  | some later ↦ some later
  | none ↦ if str_eq key name then some value else none
]

abbrev pub copy_of : String → DlqMessage → Copy
copy_of topic message = record {
  topic = topic;
  copied_key = message.key;
  copied_value = message.value;
}

abbrev pub one_listed : ReplayState → ReplayState
one_listed state = record {
  replayed = state.replayed + 1;
  copies = state.copies;
  commits = state.commits;
}

-- `producer.flush(15) != 0`, and the commit
unfoldable pub after_flush : ℕ → Copy → Flush → ReplayState → Round
after_flush offset copy still_queued state = exited 1 state
after_flush offset copy delivered state = again (record {
  replayed = state.replayed + 1;
  copies = state.copies ++ (copy ∷ []);
  commits = state.commits ++ (offset ∷ []);
})
after_flush offset copy delivery_failed state = again (record {
  replayed = state.replayed + 1;
  copies = state.copies;
  commits = state.commits ++ (offset ∷ []);
})

-- `if not source_topic: ... continue`
abbrev pub replay_to : Option String → ℕ → DlqMessage → Flush → ReplayState → Round
replay_to none offset message flush state = again state
replay_to (some topic) offset message flush state =
    if str_eq topic "" then again state else after_flush offset (copy_of topic message) flush state

-- one round of the loop
unfoldable pub replay_one : ReplayArgs → Polled → Flush → ReplayState → Round
unfolding after_flush header
replay_one args no_message flush state = exited 0 state
replay_one args poll_error flush state = exited 1 state
replay_one args (polled_message offset message) flush state =
    if args.dry_run
    then again (one_listed state)
    else replay_to (header "dlq.source.topic" message.headers) offset message flush state

abbrev pub then_round : Round → (ReplayState → ℕ × ReplayState) → ℕ × ReplayState
then_round (exited code state) rest = (code, state)
then_round (again state) rest = rest state

-- `main`: the polls that there are, after which nothing comes
unfoldable pub replay : ReplayArgs → List (Polled × Flush) → ReplayState → ℕ × ReplayState
unfolding replay_one
replay args [] state = (0, state)
replay args ((polled, flush) ∷ events) state =
    if ltb state.replayed args.max_messages
    then then_round (replay_one args polled flush state) (replay args events)
    else (0, state)
