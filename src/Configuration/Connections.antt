-- ===== src/Configuration/Connections.antt =====
-- What the client configurations of app/kafka_config.py give away, and to whom.
use fraud_detection.Prelude.{
  ◌≡◌, ◌⊎◌, inl, inr, refl, sym, ap, ◌∙◌, subst, String, false, none, some, List, [], ◌∷◌, ◌++◌,
  if-both, if-true, if-false, Bool-cases, str_eq, str_eq_iff,
}
use fraud_detection.Prelude.Text.{named}
use fraud_detection.Prelude.Result.{Result, ok, err, ◌>>=◌}
use fraud_detection.Configuration.{
  ConfigError, unsupported_protocol, consumer_entries, producer_entries, KafkaSettings, Config,
  with_values, without_value, tls_settings, oauth_required, sasl_config, security_of,
  security_config, build_consumer_config, build_producer_config,
}

-- no entry has the name
abbrev pub IsAbsent : String → Config → Type 0
IsAbsent name [] = Unit
IsAbsent name ((key, value) ∷ rest) = (str_eq key name ≡ false) × IsAbsent name rest

named-with_values :
    (name : String) (entries : Config)
    → IsAbsent name entries
    → named name (with_values entries) ≡ none
unfolding named
named-with_values name [] h = refl
named-with_values name ((key, value) ∷ rest) (h, hs) =
    if-both (λ (c : Config). named name c ≡ none) (str_eq value "") (named-with_values name rest hs)
      (if-false (some value) (named name (with_values rest)) h ∙ named-with_values name rest hs)

abbrev pub secret : String
secret = "sasl.oauthbearer.client.secret"

-- The client secret is used over TLS only, and then no part of the credentials is missing.
abbrev pub IsConfidential : KafkaSettings → Config → Type 0
IsConfidential settings config =
    (named secret config ≡ none)
    ⊎ ((named "security.protocol" config ≡ some "SASL_SSL")
        × (without_value (oauth_required settings) ≡ []))

abbrev pub IsConfidentialOrRefused : KafkaSettings → Result ConfigError Config → Type 0
IsConfidentialOrRefused settings (ok config) = IsConfidential settings config
IsConfidentialOrRefused settings (err e) = Unit

sasl-IsConfidential :
    (protocol : String) (settings : KafkaSettings) (missing : List String) (entries : Config)
    → protocol ≡ "SASL_SSL"
    → without_value (oauth_required settings) ≡ missing
    → IsConfidentialOrRefused settings (
        sasl_config settings missing >>= λ sasl.
        ok (("security.protocol", protocol) ∷ (entries ++ sasl)))
unfolding named
sasl-IsConfidential protocol settings [] entries p e = inr (ap some p, e)
sasl-IsConfidential protocol settings (name ∷ missing) entries p e = tt

security_of-IsConfidential :
    (protocol : String) (settings : KafkaSettings)
    → IsConfidentialOrRefused settings (security_of protocol settings)
unfolding security_of named
security_of-IsConfidential protocol settings =
    if-both (IsConfidentialOrRefused settings) (str_eq protocol "PLAINTEXT") (inl refl) (
      if-both (IsConfidentialOrRefused settings) (str_eq protocol "SSL")
        (inl (named-with_values secret (tls_settings settings) (refl, (refl, (refl, (refl, tt))))))
        (elim (Bool-cases (str_eq protocol "SASL_SSL")) [
          | inl same ↦
              subst (IsConfidentialOrRefused settings) (sym (if-true with_sasl unsupported same)) (
                sasl-IsConfidential protocol settings (without_value (oauth_required settings))
                  (with_values (tls_settings settings)) ((str_eq_iff protocol "SASL_SSL").0 same)
                  refl)
          | inr other ↦
              subst (IsConfidentialOrRefused settings) (sym (if-false with_sasl unsupported other))
                tt
        ]))
  where
    with_sasl : Result ConfigError Config
    with_sasl = sasl_config settings (without_value (oauth_required settings)) >>= λ sasl.
        ok (("security.protocol", protocol) ∷ (with_values (tls_settings settings) ++ sasl))

    unsupported : Result ConfigError Config
    unsupported = err unsupported_protocol

-- what holds of an accepted configuration
abbrev pub HasOffsetsStored : Result ConfigError Config → Type 0
HasOffsetsStored (ok config) = named "enable.auto.offset.store" config ≡ some "False"
HasOffsetsStored (err e) = Unit

module _ (upper : String → String) (settings : KafkaSettings) where
  consumer-IsConfidential :
      (security : Result ConfigError Config)
      → IsConfidentialOrRefused settings security
      → IsConfidentialOrRefused settings (security >>= λ s. ok (consumer_entries settings ++ s))
        × HasOffsetsStored (security >>= λ s. ok (consumer_entries settings ++ s))
  unfolding named
  consumer-IsConfidential (ok config) h = (h, refl)
  consumer-IsConfidential (err e) h = (tt, tt)

  producer-IsConfidential :
      (security : Result ConfigError Config)
      → IsConfidentialOrRefused settings security
      → IsConfidentialOrRefused settings (security >>= λ s. ok (producer_entries settings ++ s))
  unfolding named
  producer-IsConfidential (ok config) h = h
  producer-IsConfidential (err e) h = tt

  -- Credentials never travel in the clear: when a configuration for the consumer or the producer is built
  -- at all, the OAuth client secret is in it only with SASL over TLS, and then no part of the credentials
  -- is missing. The consumer stores no offset by itself.
  pub build_consumer_config-IsConfidential :
      IsConfidentialOrRefused settings (build_consumer_config upper settings)
      × HasOffsetsStored (build_consumer_config upper settings)
      × IsConfidentialOrRefused settings (build_producer_config upper settings)
  unfolding build_consumer_config build_producer_config security_config
  build_consumer_config-IsConfidential =
      let secured = security_of-IsConfidential (upper settings.security_protocol) settings in
      let consumer =
        consumer-IsConfidential (security_of (upper settings.security_protocol) settings) secured in
      (
        consumer.0,
        consumer.1,
        producer-IsConfidential (security_of (upper settings.security_protocol) settings) secured,
      )
