-- ===== src/DeadLetters/Examples.antt =====
-- Tests of the dead letters and their replay.
use fraud_detection.Prelude.{
  ◌≡◌, ◌≢◌, refl, String, true, false, none, some, List, [], ◌∷◌, map, arith,
}
use fraud_detection.Errors.{validation, permanent}
use fraud_detection.Worker.Handle.{DeadLetter}
use fraud_detection.DeadLetters.{ErrorTexts, acknowledged, failed, unanswered}
use fraud_detection.DeadLetters.Replay.{ReplayArgs, replay, delivery_failed, polled_message}
use fraud_detection.DeadLetters.Copies.{
  Publishing, stored_letters, polls_from, original, publish_all, replay-publish_all, begin,
}

abbrev texts : ErrorTexts
texts = record {
  type_name = λ e. "Error";
  message = λ e. "what happened";
  details = λ e. [];
  show = λ n. "7";
  isoformat = λ n. "2026-01-01T00:00:00+00:00";
}

abbrev letter_of : String → DeadLetter
letter_of value = record {
  source_topic = "transactions";
  source_partition = 0;
  source_offset = 7;
  key = some "user";
  value = some value;
  error = validation;
  failure_class = permanent;
  attempts = 1;
}

abbrev calls : List Publishing
calls =
    record {
      letter = letter_of "one";
      correlation_id = none;
      failed_at = 5;
      delivery = acknowledged;
    }
    ∷ record {
      letter = letter_of "two";
      correlation_id = some "c";
      failed_at = 6;
      delivery = failed;
    }
    ∷ record {
      letter = letter_of "three";
      correlation_id = none;
      failed_at = 7;
      delivery = unanswered true;
    }
    ∷ []

abbrev args : ReplayArgs
args = record { max_messages = 1000; dry_run = false }

named_topic : ◌≢◌ {A = String} "transactions" ""
named_topic e = absurd (cc)

replay-publish_all_example :
    replay args (polls_from 0 (publish_all texts calls [])) (begin texts) ≡ (
      0,
      record { replayed = 2; copies = map original (stored_letters calls); commits = 0 ∷ 1 ∷ [] },
    )
replay-publish_all_example =
    replay-publish_all texts args calls refl (omega arith) (named_topic, (named_topic, tt))

-- A copy that the broker refuses is committed too: `flush` leaves nothing in the queue.
replay-refused :
    (replay args
      ((
        polled_message 4 (record {
          key = none;
          value = some "one";
          headers = ("dlq.source.topic", "transactions") ∷ [];
        }),
        delivery_failed,
      )
        ∷ [])
      (begin texts)).1
    ≡ record { replayed = 1; copies = []; commits = 4 ∷ [] }
unfolding replay
replay-refused = refl
