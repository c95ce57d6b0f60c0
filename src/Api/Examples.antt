-- ===== src/Api/Examples.antt =====
-- Tests of the routes, with a codec that writes every definition as one text.
use fraud_detection.Prelude.{
  ◌+◌, ◌≡◌, ◌↔◌, refl, sym, ◌∙◌, none, some, [], ◌∷◌, inl, inr, arith, true, false,
}
use fraud_detection.Prelude.Result.{ok}
use fraud_detection.Errors.{service, corrupt_rule_set_error}
use fraud_detection.Rules.Json.{object, end}
use fraud_detection.Rules.Examples.{whole, plain_codec, rules, parsed_rules, dumped_rules}
use fraud_detection.Rules.Evaluate.{evaluate, normalise_literal}
use fraud_detection.Rules.Validate.{validate_expression}
use fraud_detection.Rules.Context.{as_variables}
use fraud_detection.Database.RuleSets.{
  RuleSet, insert_version, version_rows, load_all, rule_set_from_record, current_version,
  get_latest_rule_set,
}
use fraud_detection.Database.Paging.{page_size_ok}
use fraud_detection.Cache.{Stores, Call, get_active}
use fraud_detection.Cache.Examples.{ttl, stores}
use fraud_detection.Processing.{process}
use fraud_detection.Events.Examples.{bought, one_event, bought_parsed}
use fraud_detection.Processing.Examples.{formats, delivered, nothing, active}
use fraud_detection.Api.Responses.{
  raised, respond, IsRetryResponse, IsRetryable, respond-IsRetryResponse,
}
use fraud_detection.Api.RuleSets.{CreateRuleSetVersionRequest, create_version, get_active_version}
use fraud_detection.Api.RuleSets.Listed.{HasVersions}
use fraud_detection.Api.RuleSets.Listing.{walk_versions, walk_versions-load_all}
use fraud_detection.Api.RuleSets.Publishing.{DumpsBack, Follows, create_version-get_active}
use fraud_detection.Api.Transactions.{evaluate_request}
use fraud_detection.Api.Transactions.DryRun.{request_of, IsForetold, evaluate_request-process}

respond-IsRetryResponse_example :
    IsRetryResponse (respond (raised (service corrupt_rule_set_error)))
    ↔ IsRetryable (service corrupt_rule_set_error)
respond-IsRetryResponse_example = respond-IsRetryResponse (service corrupt_rule_set_error)

abbrev new_body : CreateRuleSetVersionRequest whole
new_body = record {
  description = "second";
  definition = object end;
  expected_current_version = some 1;
}

abbrev second_version : RuleSet whole
second_version = record {
  key = "default";
  version = 2;
  definition = rules;
  content_hash = "rules";
  description = "second";
  created_by = "analyst";
  created_at = 500;
}

abbrev published_stores : Stores whole
published_stores = (create_version plain_codec ttl 500 "default" new_body "analyst" stores).1

published :
    create_version plain_codec ttl 500 "default" new_body "analyst" stores
    ≡ (ok second_version, published_stores)
unfolding create_version evaluate normalise_literal as_variables validate_expression insert_version
    rule_set_from_record
published = refl

dumps_back : DumpsBack plain_codec (object end)
dumps_back definition e = (dumped_rules ∙ sym parsed_rules ∙ e, refl)

-- a worker's call that Redis does not answer, although it took the entry
abbrev next_call : Call whole
next_call = record {
  started = 501;
  read_at = 502;
  at_read = record {
    rows = published_stores.rows;
    database_up = true;
    entry = published_stores.entry;
    redis_up = false;
  };
  at_query = published_stores;
  written_at = 503;
  at_write = published_stores;
  finished = 504;
  left = none;
}

next_call-Follows : Follows plain_codec stores published_stores next_call
unfolding create_version evaluate normalise_literal as_variables validate_expression insert_version
    rule_set_from_record
next_call-Follows = record {
  same_entry = refl;
  same_rows = refl;
  database_up = refl;
  reached = inl refl;
}

create_version-get_active_example :
    (get_active_version plain_codec "default" published_stores ≡ ok second_version)
    × ((get_active plain_codec ttl "default" none next_call).0 ≡ ok second_version)
    × (2 ≡ current_version "default" stores.rows + 1)
    × (second_version.created_by ≡ "analyst")
create_version-get_active_example =
    create_version-get_active plain_codec ttl 500 "default" new_body dumps_back "analyst" stores
      none next_call refl second_version published_stores published next_call-Follows

latest_active : get_latest_rule_set plain_codec "default" stores.rows ≡ ok active
unfolding get_latest_rule_set evaluate normalise_literal as_variables validate_expression
    rule_set_from_record
latest_active = refl

evaluate_request-process_example :
    IsForetold formats bought active 900 delivered nothing
      (evaluate_request plain_codec formats 700 "default"
        (request_of formats bought active)
        stores
        nothing)
      (process one_event formats 900 (some "event") delivered nothing (ok active))
evaluate_request-process_example =
    evaluate_request-process formats bought active 900 delivered nothing plain_codec one_event 700
      "default" (some "event") stores latest_active refl bought_parsed

published_table : HasVersions "default" published_stores.rows
unfolding create_version version_rows insert_version evaluate normalise_literal as_variables
    validate_expression rule_set_from_record
published_table = (inr (omega arith, (λ e. absurd (omega arith), tt)), (inr (omega arith, tt), tt))

both_versions :
    load_all plain_codec (version_rows "default" none published_stores.rows)
    ≡ ok (second_version ∷ active ∷ [])
unfolding load_all version_rows create_version evaluate normalise_literal as_variables
    validate_expression insert_version rule_set_from_record
both_versions = refl

walk_versions-load_all_example :
    walk_versions plain_codec 3 "default" 1 none published_stores
    ≡ ok (second_version ∷ active ∷ [])
unfolding create_version validate_expression evaluate normalise_literal as_variables insert_version
    rule_set_from_record page_size_ok
walk_versions-load_all_example =
    walk_versions-load_all plain_codec "default" published_stores 0 (second_version ∷ active ∷ [])
      published_table refl refl both_versions (λ e. absurd (cc))
