-- ===== src/Configuration.antt =====
-- app/settings.py and app/kafka_config.py: the settings that are read and checked by code of their own, and
-- the connection security that Kafka's clients are given. The types and bounds of single fields are
-- pydantic's. `upper` and white space of texts are Python's.
pub mod Connections
pub mod Examples
use Prim.Native.Char.{Char, code}
use Prim.Native.String.{◌++◌ as append}
use fraud_detection.Prelude.{
  ℕ, String, Bool, true, false, Option, none, some, List, [], ◌∷◌, ◌++◌, ltb, ◌==◌, ◌||◌,
  if◌then◌else◌, str_eq,
}
use fraud_detection.Prelude.Text.{named, to_first}
use fraud_detection.Prelude.Result.{Result, ok, err, ◌>>=◌}

pub data ConfigError : Type 0 where
  unreadable_secret_file missing_variables : List String → ConfigError
  no_algorithm unsupported_algorithm bad_log_level bad_backoff : ConfigError
  unsupported_protocol : ConfigError
  oauth_incomplete : List String → ConfigError

-- the environment's variables, and the texts of the files that can be read
pub record Environment : Type 0 where
  pub variables : List (String × String)
  pub files : List (String × String)

abbrev pub includes : String → List String → Bool
includes name [] = false
includes name (other ∷ names) = str_eq other name || includes name names

-- `_ALLOWED_JWT_ALGORITHMS`
abbrev pub allowed_jwt_algorithms : List String
allowed_jwt_algorithms =
    "RS256" ∷ "RS384" ∷ "RS512" ∷ "PS256" ∷ "PS384" ∷ "PS512" ∷ "ES256" ∷ "ES384" ∷ "ES512" ∷ []

abbrev pub all_allowed : List String → Bool
all_allowed [] = true
all_allowed (name ∷ names) =
    if includes name allowed_jwt_algorithms then all_allowed names else false

-- `_require_asymmetric_algorithms`
unfoldable pub require_asymmetric_algorithms : List String → Result ConfigError (List String)
require_asymmetric_algorithms [] = err no_algorithm
require_asymmetric_algorithms (name ∷ names) =
    if all_allowed (name ∷ names) then ok (name ∷ names) else err unsupported_algorithm

-- a variable that is set and not empty
abbrev pub filled : Option String → Option String
filled none = none
filled (some value) = if str_eq value "" then none else some value

module _ (strip : String → String) where
  abbrev pub read_file :
      String → List (String × String) → Option String → Result ConfigError (Option String)
  read_file name files none = ok none
  read_file name files (some path) = elim (named path files) [
    | none ↦ err (unreadable_secret_file (name ∷ []))
    | some text ↦ ok (some (strip text))
  ]

  -- `_read_env`
  unfoldable pub read_env : String → Environment → Result ConfigError (Option String)
  unfolding named
  read_env name environment = elim (filled (named name environment.variables)) [
    | some value ↦ ok (some value)
    | none ↦
        read_file name environment.files
          (filled (named (append name "_FILE") environment.variables))
  ]

  abbrev pub kept_part : String → List String → List String
  kept_part part parts = if str_eq part "" then parts else part ∷ parts

  unfoldable pub split_commas : String → List String
  split_commas String.[] = "" ∷ []
  split_commas (String.◌∷◌ c rest) =
      let parts = split_commas rest in if code c == b',' then "" ∷ parts else to_first c parts

  abbrev pub stripped_parts : List String → List String
  stripped_parts [] = []
  stripped_parts (part ∷ parts) = kept_part (strip part) (stripped_parts parts)

  -- `_split_csv`, of a text or nothing
  unfoldable pub split_csv : Option String → List String
  unfolding split_commas
  split_csv none = []
  split_csv (some text) = stripped_parts (split_commas text)

  -- the loop of `from_env` over the fields' variables, each with whether it is required: the values, and
  -- the required variables that are missing
  abbrev pub with_value :
      String
      → Bool
      → Option String
      → List (String × String) × List String
      → List (String × String) × List String
  with_value name required (some value) (values, missing) = ((name, value) ∷ values, missing)
  with_value name required none (values, missing) =
      (values, if required then name ∷ missing else missing)

  unfoldable pub read_fields :
      List (String × Bool) → Environment → Result ConfigError (List (String × String) × List String)
  unfolding read_env
  read_fields [] environment = ok ([], [])
  read_fields ((name, required) ∷ fields) environment = do
    value ← read_env name environment
    rest ← read_fields fields environment
    ok (with_value name required value rest)

  abbrev pub none_missing :
      List (String × String) × List String → Result ConfigError (List (String × String))
  none_missing (values, []) = ok values
  none_missing (values, name ∷ missing) = err (missing_variables (name ∷ missing))

  -- `from_env`, up to the validation of the values
  unfoldable pub from_env :
      List (String × Bool) → Environment → Result ConfigError (List (String × String))
  unfolding read_fields
  from_env fields environment = read_fields fields environment >>= none_missing

-- `_validate_log_level`, of a level in upper case
unfoldable pub validate_log_level : String → Result ConfigError String
validate_log_level normalized =
    if includes normalized ("DEBUG" ∷ "INFO" ∷ "WARNING" ∷ "ERROR" ∷ "CRITICAL" ∷ [])
    then ok normalized
    else err bad_log_level

-- `_derive_defaults`: the dead-letter topic, if the two delays of a retry agree
unfoldable pub derive_defaults : String → String → ℕ → ℕ → Result ConfigError String
derive_defaults topic_name dlq_topic_name initial_backoff max_backoff =
    if ltb max_backoff initial_backoff
    then err bad_backoff
    else ok (if str_eq dlq_topic_name "" then append topic_name ".dlq" else dlq_topic_name)

-- the settings that `_security_config` reads
pub record KafkaSettings : Type 0 where
  pub bootstrap_servers : String
  pub consumer_group_id : String
  pub security_protocol : String
  pub ssl_ca_location : String
  pub ssl_certificate_location : String
  pub ssl_key_location : String
  pub ssl_key_password : String
  pub oauth_token_url : String
  pub oauth_client_id : String
  pub oauth_client_secret : String
  pub oauth_scope : String

abbrev pub Config : Type 0
Config = List (String × String)

-- `{name: value for ... if value}`, and the names of those that have none
abbrev pub with_values : Config → Config
with_values [] = []
with_values ((name, value) ∷ rest) =
    if str_eq value "" then with_values rest else (name, value) ∷ with_values rest

abbrev pub without_value : Config → List String
without_value [] = []
without_value ((name, value) ∷ rest) =
    if str_eq value "" then name ∷ without_value rest else without_value rest

abbrev pub tls_settings : KafkaSettings → Config
tls_settings settings =
    ("ssl.ca.location", settings.ssl_ca_location)
    ∷ ("ssl.certificate.location", settings.ssl_certificate_location)
    ∷ ("ssl.key.location", settings.ssl_key_location)
    ∷ ("ssl.key.password", settings.ssl_key_password)
    ∷ []

abbrev pub oauth_required : KafkaSettings → Config
oauth_required settings =
    ("KAFKA_OAUTH_TOKEN_URL", settings.oauth_token_url)
    ∷ ("KAFKA_OAUTH_CLIENT_ID", settings.oauth_client_id)
    ∷ ("KAFKA_OAUTH_CLIENT_SECRET", settings.oauth_client_secret)
    ∷ []

abbrev pub oauth_config : KafkaSettings → Config
oauth_config settings =
    ("sasl.mechanisms", "OAUTHBEARER")
    ∷ ("sasl.oauthbearer.method", "oidc")
    ∷ ("sasl.oauthbearer.token.endpoint.url", settings.oauth_token_url)
    ∷ ("sasl.oauthbearer.client.id", settings.oauth_client_id)
    ∷ ("sasl.oauthbearer.client.secret", settings.oauth_client_secret)
    ∷ with_values (("sasl.oauthbearer.scope", settings.oauth_scope) ∷ [])

-- the part for SASL, after the names that lack a value
abbrev pub sasl_config : KafkaSettings → List String → Result ConfigError Config
sasl_config settings [] = ok (oauth_config settings)
sasl_config settings (name ∷ missing) = err (oauth_incomplete (name ∷ missing))

-- `_security_config`, of a protocol in upper case
unfoldable pub security_of : String → KafkaSettings → Result ConfigError Config
security_of protocol settings =
    if str_eq protocol "PLAINTEXT"
    then ok (("security.protocol", protocol) ∷ [])
    else if str_eq protocol "SSL"
    then ok (("security.protocol", protocol) ∷ with_values (tls_settings settings))
    else if str_eq protocol "SASL_SSL"
    then (do
      sasl ← sasl_config settings (without_value (oauth_required settings))
      ok (("security.protocol", protocol) ∷ (with_values (tls_settings settings) ++ sasl)))
    else err unsupported_protocol

-- the entries of the two dictionaries before those of the security
abbrev pub consumer_entries : KafkaSettings → Config
consumer_entries settings =
    ("bootstrap.servers", settings.bootstrap_servers)
    ∷ ("group.id", settings.consumer_group_id)
    ∷ ("client.id", "fraud-worker")
    ∷ ("enable.auto.commit", "True")
    ∷ ("enable.auto.offset.store", "False")
    ∷ ("auto.commit.interval.ms", "1000")
    ∷ ("auto.offset.reset", "earliest")
    ∷ ("partition.assignment.strategy", "cooperative-sticky")
    ∷ ("session.timeout.ms", "45000")
    ∷ ("max.poll.interval.ms", "300000")
    ∷ []

abbrev pub producer_entries : KafkaSettings → Config
producer_entries settings =
    ("bootstrap.servers", settings.bootstrap_servers)
    ∷ ("client.id", "fraud-worker-dlq")
    ∷ ("acks", "all")
    ∷ ("enable.idempotence", "True")
    ∷ ("linger.ms", "5")
    ∷ ("delivery.timeout.ms", "30000")
    ∷ []

module _ (upper : String → String) where
  -- `_security_config`
  unfoldable pub security_config : KafkaSettings → Result ConfigError Config
  unfolding security_of
  security_config settings = security_of (upper settings.security_protocol) settings

  -- `build_consumer_config`
  unfoldable pub build_consumer_config : KafkaSettings → Result ConfigError Config
  unfolding security_config
  build_consumer_config settings = do
    security ← security_config settings
    ok (consumer_entries settings ++ security)

  -- `build_producer_config`
  unfoldable pub build_producer_config : KafkaSettings → Result ConfigError Config
  unfolding security_config
  build_producer_config settings = do
    security ← security_config settings
    ok (producer_entries settings ++ security)
