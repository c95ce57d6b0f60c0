-- ===== src/Worker/Assignment.antt =====
-- The partitions of a worker (app/worker.py): the dictionary `_partitions` and the callbacks of a rebalance.
-- A dictionary is a list with at most one value for each key.
pub mod Ownership
use fraud_detection.Prelude.{
  ℕ, String, Bool, true, false, Option, none, some, List, [], ◌∷◌, ◌++◌, ◌==◌, ◌&&◌, if◌then◌else◌,
  str_eq,
}
use fraud_detection.Worker.Partition.{PartitionState, assigned, stop_partition}
use fraud_detection.Worker.Handle.{WorkerSettings}

-- `(topic, partition)`
abbrev pub PartitionKey : Type 0
PartitionKey = String × ℕ

abbrev pub same_key : PartitionKey → PartitionKey → Bool
same_key (topic, partition) (other, number) = str_eq topic other && (partition == number)

abbrev pub Partitions : Type 0
Partitions = List (PartitionKey × PartitionState)

-- `self._partitions.get(key)`
unfoldable pub state_of : PartitionKey → Partitions → Option PartitionState
state_of key [] = none
state_of key ((other, state) ∷ rest) = if same_key other key then some state else state_of key rest

-- `self._partitions.pop(key, None)`
unfoldable pub popped : PartitionKey → Partitions → Partitions
popped key [] = []
popped key ((other, state) ∷ rest) =
    let left = popped key rest in if same_key other key then left else (other, state) ∷ left

-- `_start_partitions`; the consumer begins each at the committed offset of the group
unfoldable pub start_partitions : List (PartitionKey × ℕ) → Partitions → Partitions
unfolding state_of
start_partitions [] partitions = partitions
start_partitions ((key, committed) ∷ keys) partitions =
    start_partitions keys (elim (state_of key partitions) [
      | some state ↦ partitions
      | none ↦ partitions ++ ((key, assigned committed) ∷ [])
    ])

-- `_states_for`
unfoldable pub states_for : List PartitionKey → Partitions → Partitions
unfolding state_of
states_for [] partitions = []
states_for (key ∷ keys) partitions = elim (state_of key partitions) [
  | some state ↦ (key, state) ∷ states_for keys partitions
  | none ↦ states_for keys partitions
]

-- the end of `_stop_partitions`: the states go
unfoldable pub released : Partitions → Partitions → Partitions
unfolding popped
released [] partitions = partitions
released ((key, state) ∷ states) partitions = released states (popped key partitions)

-- What a rebalance leaves: the dictionary, and whether `_on_revoke` committed the stored offsets.
pub record Rebalanced : Type 0 where
  pub partitions : Partitions
  pub commits : Bool

-- `_on_assign`
unfoldable pub on_assign : List (PartitionKey × ℕ) → Partitions → Rebalanced
unfolding start_partitions
on_assign keys partitions = record {
  partitions = start_partitions keys partitions;
  commits = false;
}

-- `_on_revoke`
unfoldable pub on_revoke : List PartitionKey → Partitions → Rebalanced
unfolding states_for released
on_revoke keys partitions = record {
  partitions = released (states_for keys partitions) partitions;
  commits = true;
}

-- `_on_lost`
unfoldable pub on_lost : List PartitionKey → Partitions → Rebalanced
unfolding states_for released
on_lost keys partitions = record {
  partitions = released (states_for keys partitions) partitions;
  commits = false;
}
