-- ===== src/Configuration/Examples.antt =====
-- Tests of the settings and of the client configurations.
use fraud_detection.Prelude.{◌≡◌, refl, String, true, false, [], ◌∷◌}
use fraud_detection.Prelude.Result.{ok, err}
use fraud_detection.Prelude.Text.{named}
use fraud_detection.Configuration.{
  Environment, KafkaSettings, missing_variables, unsupported_algorithm, from_env,
  require_asymmetric_algorithms, build_consumer_config, build_producer_config,
}
use fraud_detection.Configuration.Connections.{
  IsConfidentialOrRefused, HasOffsetsStored, build_consumer_config-IsConfidential,
}

abbrev same : String → String
same text = text

abbrev environment : Environment
environment = record {
  variables =
      ("REDIS_URL", "redis://r") ∷ ("DATABASE_URL_FILE", "/run/db") ∷ ("JWT_ISSUER", "") ∷ [];
  files = ("/run/db", "postgresql://db") ∷ [];
}

fields-from_env :
    from_env same
      (("DATABASE_URL", true) ∷ ("REDIS_URL", true) ∷ ("RULE_SET_KEY", false) ∷ [])
      environment
    ≡ ok (("DATABASE_URL", "postgresql://db") ∷ ("REDIS_URL", "redis://r") ∷ [])
unfolding from_env named
fields-from_env = refl

missing-from_env :
    from_env same (("JWT_ISSUER", true) ∷ ("JWT_AUDIENCE", true) ∷ []) environment
    ≡ err (missing_variables ("JWT_ISSUER" ∷ "JWT_AUDIENCE" ∷ []))
unfolding from_env named
missing-from_env = refl

symmetric_refused :
    require_asymmetric_algorithms ("RS256" ∷ "HS256" ∷ []) ≡ err unsupported_algorithm
unfolding require_asymmetric_algorithms
symmetric_refused = refl

abbrev kafka : KafkaSettings
kafka = record {
  bootstrap_servers = "kafka:9093";
  consumer_group_id = "fraud";
  security_protocol = "SASL_SSL";
  ssl_ca_location = "/ca.pem";
  ssl_certificate_location = "";
  ssl_key_location = "";
  ssl_key_password = "";
  oauth_token_url = "https://id/token";
  oauth_client_id = "worker";
  oauth_client_secret = "s3cret";
  oauth_scope = "";
}

build_consumer_config-IsConfidential_example :
    IsConfidentialOrRefused kafka (build_consumer_config same kafka)
    × HasOffsetsStored (build_consumer_config same kafka)
    × IsConfidentialOrRefused kafka (build_producer_config same kafka)
build_consumer_config-IsConfidential_example = build_consumer_config-IsConfidential same kafka
