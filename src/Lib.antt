-- ===== src/Lib.antt =====
-- A model of a fraud-detection service, written in Python: a worker that consumes transaction events
-- from Kafka, scores each with a versioned rule set and stores the decision once.
--
-- The parts, and the files that model them:
--   Rules       app/rules.py: conditions in a subset of JsonLogic. `Json` is a Python value,
--               `Validate.visit` is the checker of `validate_expression`, `Evaluate.evaluate` is
--               `_evaluate` over `Operators`, `Context.as_variables` gives a transaction's variables,
--               and `RuleSet` holds the definitions, their validation, the scoring and the load of a
--               stored one. Decimals and floats are the interface `Numbers`, with `NumberLaws` as
--               what the code relies on; pydantic, hashlib and the JSONB columns are `RuleSetCodec`.
--   Database    app/database.py: a table is the list of its rows, and a query the function that its
--               text describes. `Record` is the idempotent write path and the velocity look-back,
--               `Paging` the listing by keyset pages, `RuleSets` the append-only versions.
--   Cache       app/cache.py: the active rule set from the process's copy, Redis or the database. A `Call` of
--               `get_active` has what it meets at each of its waits, since other tasks and processes go on.
--   Events      app/events.py: the event and `parse_transaction_event`, over the interface `EventCodec`, whose
--               calls fail by errors that the code catches and by others.
--   Processing  app/processing.py: `score_transaction` and `process`.
--   Errors      app/errors.py: the error hierarchy and `classify_failure`.
--   Worker      app/worker.py: `Handle` is `_handle`, one message to completion, over the outcomes of
--               its attempts; `Partition` is the step relation of one assigned partition, its queue,
--               task, pause and stored offset; `Assignment` is the dictionary of partitions with the
--               rebalance callbacks, and `Run` the poll loop, with the errors that end it, and the probe of
--               app/healthcheck.py.
--   DeadLetters app/dlq.py: the headers and `publish`, over what becomes of the message; `Replay` is the
--               loop of scripts/replay_dlq.py.
--   RateLimit   app/rate_limit.py: the window counter of each caller, over the interface `Counters` of
--               Redis, whose laws are those of INCR and EXPIRE.
--   Security    app/security.py: the scopes, the principal and `require_scope`; `Keys` is the cache of the
--               provider's key set. PyJWT's check of a token is a parameter.
--   Api         app/api.py: `Responses` maps every failure to a response, `RuleSets` and `Transactions`
--               are the routes.
--   Configuration  app/settings.py and app/kafka_config.py: the variables and secret files, the checks of
--               the repository's own, and the security of the connections to Kafka.
--   Observability  app/observability.py: correlation ids, redaction and route templates.
--   Batch       app/batch_worker.py: the schedule of the daily summary.
--
-- The worker's partitions take messages from the consumer, hand each to the processor, whose errors
-- `Errors` classifies, and store the offset after it. The processor takes the active rule set from
-- the cache, which loads it from the rows of `Database.RuleSets` by `Rules.RuleSet`, and writes its
-- decision by `Database.Record`. A dead letter of `Worker.Handle` is what `DeadLetters` publishes. The
-- routes of `Api` use the same tables and the same cache; every one of them stands behind
-- `Security.require_scope`, which asks `RateLimit` last.
--
-- Evaluation and validation are recursive on the condition, so no fuel is used. The loop of `_handle`
-- has no bound in the source; it runs here over the list of its passes, and the theorems say for which
-- lists it ends. The poll loop, the replay and the daily schedule run over the list of what the outside
-- gives them, turn by turn. A float holds powers of two up to 2 ^ 1023. Instants, ids and offsets are
-- numbers, and amounts count cents; the instants of the limiter are ticks, of which a second has
-- `tick_rate`.
--
-- Not modelled: the constraints of single fields, which pydantic checks, FastAPI's reading of a request,
-- readiness, the start of each process, the wait for a stopping task, a client's
-- `pause`, `resume` or `close` that fails, metrics, tracing and the layout of log lines, migrations, and
-- the scripts that publish or measure.
pub mod Prelude
pub mod Rules
pub mod Database
pub mod Cache
pub mod Errors
pub mod Events
pub mod Processing
pub mod Worker
pub mod RateLimit
pub mod Api
pub mod DeadLetters
pub mod Observability
pub mod Batch
pub mod Security
pub mod Configuration
