-- ===== src/DeadLetters/Copies.antt =====
-- What app/dlq.py publishes, scripts/replay_dlq.py copies back.
use fraud_detection.Prelude.{
  ℕ, ◌+◌, ◌≤◌, ◌≡◌, ◌≢◌, refl, sym, ap, ◌∙◌, String, Bool, true, false, Option, none, some, List,
  [], ◌∷◌, ◌++◌, lt→ltb, if-true, if-false, if-both, if◌then◌else◌, str_eq, str_eq_iff, length, map,
  arith,
}
use mathlib.Core.List.{append-nil, append_assoc}
use fraud_detection.Worker.Handle.{DeadLetter}
use fraud_detection.DeadLetters.{
  ErrorTexts, DlqMessage, Delivery, queue_full, acknowledged, failed, refused, unanswered,
  correlation_header, build_dlq_headers, dlq_message, publish,
}
use fraud_detection.DeadLetters.Replay.{
  Polled, polled_message, Flush, delivered, Copy, ReplayState, ReplayArgs, header, after_flush,
  again, copy_of, one_listed, replay_to, replay_one, then_round, replay,
}

-- One call of `publish`, and what becomes of its message.
pub record Publishing : Type 0 where
  pub letter : DeadLetter
  pub correlation_id : Option String
  pub failed_at : ℕ
  pub delivery : Delivery

-- the broker has the message
abbrev pub is_stored : Delivery → Bool
is_stored acknowledged = true
is_stored (unanswered stored) = stored
is_stored _ = false

abbrev pub stored_letters : List Publishing → List Publishing
stored_letters [] = []
stored_letters (p ∷ ps) = if is_stored p.delivery then p ∷ stored_letters ps else stored_letters ps

-- the polls of a topic from an offset on, each message being delivered to its source topic
abbrev pub polls_from : ℕ → List DlqMessage → List (Polled × Flush)
polls_from offset [] = []
polls_from offset (message ∷ messages) =
    (polled_message offset message, delivered) ∷ polls_from (offset + 1) messages

abbrev pub original : Publishing → Copy
original p = record {
  topic = p.letter.source_topic;
  copied_key = p.letter.key;
  copied_value = p.letter.value;
}

abbrev pub offsets_from : ℕ → List Publishing → List ℕ
offsets_from offset [] = []
offsets_from offset (p ∷ ps) = offset ∷ offsets_from (offset + 1) ps

-- every letter names the topic that it came from
abbrev pub HaveTopics : List Publishing → Type 0
HaveTopics [] = Unit
HaveTopics (p ∷ ps) = (p.letter.source_topic ≢ "") × HaveTopics ps

header-later :
    (name key value : String) {found : String} (rest : List (String × String))
    → header name rest ≡ some found
    → header name ((key, value) ∷ rest) ≡ some found
unfolding header
header-later name key value rest e =
    ap
      (λ o. elim o [
        | some later ↦ some later
        | none ↦ if str_eq key name then some value else none
      ])
      e

header-here :
    (name key value : String) (rest : List (String × String))
    → header name rest ≡ none
    → str_eq key name ≡ true
    → header name ((key, value) ∷ rest) ≡ some value
unfolding header
header-here name key value rest e same =
    ap
      (λ o. elim o [
        | some later ↦ some later
        | none ↦ if str_eq key name then some value else none
      ])
      e
    ∙ if-true (some value) none same

header-no :
    (name key value : String) (rest : List (String × String))
    → header name rest ≡ none
    → str_eq key name ≡ false
    → header name ((key, value) ∷ rest) ≡ none
unfolding header
header-no name key value rest e other =
    ap
      (λ o. elim o [
        | some later ↦ some later
        | none ↦ if str_eq key name then some value else none
      ])
      e
    ∙ if-false (some value) none other

module _ (texts : ErrorTexts) where
  abbrev pub message_of : Publishing → DlqMessage
  message_of p = dlq_message texts p.letter p.correlation_id p.failed_at

  -- the topic after the calls, one after the other
  unfoldable pub publish_all : List Publishing → List DlqMessage → List DlqMessage
  unfolding publish
  publish_all [] topic = topic
  publish_all (p ∷ ps) topic =
      publish_all ps (publish texts p.letter p.correlation_id p.failed_at p.delivery topic).1

  correlation-header :
      (id : Option String) → header "dlq.source.topic" (correlation_header id) ≡ none
  unfolding header
  correlation-header none = refl
  correlation-header (some id) =
      if-both (λ h. header "dlq.source.topic" h ≡ none) (str_eq id "") refl refl

  header-source_topic :
      (p : Publishing)
      → header "dlq.source.topic" (message_of p).headers ≡ some p.letter.source_topic
  unfolding build_dlq_headers
  header-source_topic p =
      let t : String = "dlq.source.topic" in
      header-later t _ _ _ (
        header-later t _ _ _ (
          header-later t _ _ _ (
            header-later t _ _ _ (
              header-here t _ _ _
                (header-no t _ _ _
                  (header-no t _ _ _
                    (header-no t _ _ _
                      (header-no t _ _ _ (correlation-header p.correlation_id) refl) refl)
                    refl)
                  refl)
                refl))))

  publish-stored :
      (p : Publishing) (topic : List DlqMessage)
      → (publish texts p.letter p.correlation_id p.failed_at p.delivery topic).1
        ≡ (if is_stored p.delivery then topic ++ (message_of p ∷ []) else topic)
  unfolding publish
  publish-stored p topic = by_delivery p.delivery
    where
      by_delivery :
          (d : Delivery)
          → (publish texts p.letter p.correlation_id p.failed_at d topic).1
            ≡ (if is_stored d then topic ++ (message_of p ∷ []) else topic)
      by_delivery queue_full = refl
      by_delivery acknowledged = refl
      by_delivery failed = refl
      by_delivery (refused e) = refl
      by_delivery (unanswered stored) = refl

  publish_all-eq :
      (ps : List Publishing) (topic : List DlqMessage)
      → publish_all ps topic ≡ topic ++ map message_of (stored_letters ps)
  unfolding publish_all
  publish_all-eq [] topic = sym (append-nil topic)
  publish_all-eq (p ∷ ps) topic =
      publish_all-eq ps (publish texts p.letter p.correlation_id p.failed_at p.delivery topic).1
      ∙ ap (λ t. t ++ map message_of (stored_letters ps)) (publish-stored p topic)
      ∙ by_stored (is_stored p.delivery)
    where
      by_stored :
          (b : Bool)
          → (if b then topic ++ (message_of p ∷ []) else topic)
              ++ map message_of (stored_letters ps)
            ≡ topic ++ map message_of (if b then p ∷ stored_letters ps else stored_letters ps)
      by_stored true = append_assoc topic (message_of p ∷ []) (map message_of (stored_letters ps))
      by_stored false = refl

  abbrev after : ReplayState → ℕ → List Publishing → ReplayState
  after state offset ps = record {
    replayed = state.replayed + length ps;
    copies = state.copies ++ map original ps;
    commits = state.commits ++ offsets_from offset ps;
  }

  same_state :
      {n m : ℕ} {a b : List Copy} {c d : List ℕ}
      → n ≡ m
      → a ≡ b
      → c ≡ d
      → ◌≡◌ {A = ReplayState}
          (record { replayed = n; copies = a; commits = c })
          (record { replayed = m; copies = b; commits = d })
  same_state e f g = rw (e, f, g) refl

  replay_one-message :
      (args : ReplayArgs) (offset : ℕ) (p : Publishing) (state : ReplayState)
      → args.dry_run ≡ false
      → p.letter.source_topic ≢ ""
      → replay_one args (polled_message offset (message_of p)) delivered state
        ≡ after_flush offset (original p) delivered state
  unfolding replay_one
  replay_one-message args offset p state dry topic =
      if-false (again (one_listed state))
        (replay_to (header "dlq.source.topic" (message_of p).headers) offset (message_of p)
          delivered state)
        dry
      ∙ ap (λ h. replay_to h offset (message_of p) delivered state) (header-source_topic p)
      ∙ if-false (again state)
          (after_flush offset (copy_of p.letter.source_topic (message_of p)) delivered state)
          (not_empty (str_eq p.letter.source_topic "") refl)
    where
      not_empty : (b : Bool) → str_eq p.letter.source_topic "" ≡ b → b ≡ false
      not_empty true e = absurd (topic ((str_eq_iff p.letter.source_topic "").0 e))
      not_empty false e = refl

  replay-messages :
      (args : ReplayArgs) (offset : ℕ) (ps : List Publishing) (state : ReplayState)
      → args.dry_run ≡ false
      → state.replayed + length ps ≤ args.max_messages
      → HaveTopics ps
      → replay args (polls_from offset (map message_of ps)) state ≡ (0, after state offset ps)
  unfolding replay after_flush
  replay-messages args offset [] state dry enough topics =
      ap (λ s. (0, s))
        (same_state (omega arith) (sym (append-nil state.copies)) (sym (append-nil state.commits)))
  replay-messages args offset (p ∷ ps) state dry enough (topic, topics) =
      let next : ReplayState = record {
        replayed = state.replayed + 1;
        copies = state.copies ++ (original p ∷ []);
        commits = state.commits ++ (offset ∷ []);
      } in
      if-true
        (then_round (replay_one args (polled_message offset (message_of p)) delivered state)
          (replay args (polls_from (offset + 1) (map message_of ps))))
        (0, state) (lt→ltb state.replayed args.max_messages (omega arith))
      ∙ ap (λ r. then_round r (replay args (polls_from (offset + 1) (map message_of ps))))
          (replay_one-message args offset p state dry topic)
      ∙ replay-messages args (offset + 1) ps next dry (omega arith) topics
      ∙ ap (λ s. (0, s))
          (same_state (omega arith) (append_assoc state.copies (original p ∷ []) (map original ps))
            (append_assoc state.commits (offset ∷ []) (offsets_from (offset + 1) ps)))

  abbrev pub begin : ReplayState
  begin = record { replayed = 0; copies = []; commits = [] }

  -- Dead letters come back byte for byte: a replay of the dead-letter topic puts exactly the letters that
  -- the broker stored on their source topics, each with its key and value, in order and once for every
  -- stored message, and commits each. It holds where every letter names its topic, the limit is not
  -- reached and every copy is delivered.
  pub replay-publish_all :
      (args : ReplayArgs) (ps : List Publishing)
      → args.dry_run ≡ false
      → length (stored_letters ps) ≤ args.max_messages
      → HaveTopics (stored_letters ps)
      → replay args (polls_from 0 (publish_all ps [])) begin ≡ (
        0,
        record {
          replayed = length (stored_letters ps);
          copies = map original (stored_letters ps);
          commits = offsets_from 0 (stored_letters ps);
        },
      )
  replay-publish_all args ps dry enough topics =
      ap (λ t. replay args (polls_from 0 t) begin) (publish_all-eq ps [])
      ∙ replay-messages args 0 (stored_letters ps) begin dry (omega arith) topics
      ∙ ap (λ s. (0, s)) (same_state (omega arith) refl refl)
