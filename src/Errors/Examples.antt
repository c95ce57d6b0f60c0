-- ===== src/Errors/Examples.antt =====
-- app/errors.py at a concrete error.
use fraud_detection.Prelude.{◌≡◌, ◌↔◌}
use fraud_detection.Errors.{
  validation, permanent, classify_failure, classify_failure-permanent, IsOwnFault,
}

classify_failure-permanent_example :
    (classify_failure validation ≡ permanent) ↔ IsOwnFault validation
classify_failure-permanent_example = classify_failure-permanent validation
