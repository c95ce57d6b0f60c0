-- ===== src/Api/Responses.antt =====
-- The errors of app/api.py: what a route or one of its dependencies raises, and the response that the
-- caller gets. The texts of messages and the lists of details are left out.
use fraud_detection.Prelude.{
  ℕ, ◌≡◌, ◌↔◌, refl, String, Option, none, some, List, [], ◌∷◌, if◌then◌else◌, ◌==◌, arith,
}
use fraud_detection.Errors.{
  Raised, service, validation, library, dbapi, FailureClass, transient, permanent, unexpected,
  ServiceError, transient_error, corrupt_rule_set_error, permanent_error, invalid_event_error,
  unsupported_schema_version_error, conflicting_duplicate_error, invalid_rule_set_error,
  rule_evaluation_error, rule_set_not_found_error, rule_set_version_conflict_error,
  transaction_not_found_error, classify_failure,
}

abbrev pub Headers : Type 0
Headers = List (String × String)

-- What a request may raise: an `HTTPException` with its status and headers, a `RequestValidationError` of
-- FastAPI, or any other exception.
pub data RouteError : Type 0 where
  http_exception : ℕ → Headers → RouteError
  request_validation_error : RouteError
  raised : Raised → RouteError

pub record ErrorResponse : Type 0 where
  pub status : ℕ
  pub code : String
  pub headers : Headers

-- `_ERROR_CODES`
abbrev pub error_codes : List (ℕ × String)
error_codes =
    (400, "bad_request")
    ∷ (401, "unauthorized")
    ∷ (403, "forbidden")
    ∷ (404, "not_found")
    ∷ (405, "method_not_allowed")
    ∷ (409, "conflict")
    ∷ (415, "unsupported_media_type")
    ∷ (422, "validation_error")
    ∷ (429, "rate_limited")
    ∷ (503, "service_unavailable")
    ∷ []

-- `_ERROR_CODES.get(status_code, "error")`
abbrev pub code_in : List (ℕ × String) → ℕ → String
code_in [] status = "error"
code_in ((known, code) ∷ codes) status = if known == status then code else code_in codes status

abbrev pub code_or : Option String → ℕ → String
code_or none status = code_in error_codes status
code_or (some code) status = code

-- `error_response`
unfoldable pub error_response : ℕ → Headers → Option String → ErrorResponse
error_response status headers code = record {
  status = status;
  code = code_or code status;
  headers = headers;
}

-- `UnhandledErrorMiddleware.dispatch`, with the class of the failure
unfoldable pub unhandled : FailureClass → ErrorResponse
unfolding error_response
unhandled transient = error_response 503 (("Retry-After", "5") ∷ []) none
unhandled permanent = error_response 500 [] (some "internal_error")
unhandled unexpected = error_response 500 [] (some "internal_error")

-- the handlers of the service's errors, and the middleware for those that have none
abbrev pub of_service : ServiceError → ErrorResponse
of_service invalid_rule_set_error = error_response 422 [] none
of_service transaction_not_found_error = error_response 404 [] none
of_service rule_set_not_found_error = error_response 404 [] none
of_service rule_set_version_conflict_error = error_response 409 [] none
of_service corrupt_rule_set_error = error_response 500 [] (some "internal_error")
of_service e = unhandled (classify_failure (service e))

abbrev pub of_raised : Raised → ErrorResponse
of_raised (service e) = of_service e
of_raised e = unhandled (classify_failure e)

-- `_install_error_handlers`, around the middleware
unfoldable pub respond : RouteError → ErrorResponse
unfolding error_response unhandled classify_failure
respond (http_exception status headers) = error_response status headers none
respond request_validation_error = error_response 422 [] none
respond (raised e) = of_raised e

-- what a failure is to the caller, apart from the worker's view of it
abbrev pub IsRetryable : Raised → Type 0
IsRetryable (service e) = e ≡ transient_error
IsRetryable e = classify_failure e ≡ transient

-- the response asks for a retry
abbrev pub IsRetryResponse : ErrorResponse → Type 0
IsRetryResponse response = (response.status ≡ 503) × (response.headers ≡ ("Retry-After", "5") ∷ [])

unhandled-IsRetryResponse : (c : FailureClass) → IsRetryResponse (unhandled c) ↔ (c ≡ transient)
unfolding unhandled
unhandled-IsRetryResponse transient = (λ _. refl, λ _. (refl, refl))
unhandled-IsRetryResponse permanent = (λ h. absurd (omega (arith, h.0)), λ h. absurd (cc))
unhandled-IsRetryResponse unexpected = (λ h. absurd (omega (arith, h.0)), λ h. absurd (cc))

retry_iff :
    (e : Raised)
    → IsRetryResponse (unhandled (classify_failure e)) ↔ (classify_failure e ≡ transient)
retry_iff e = unhandled-IsRetryResponse (classify_failure e)

service-IsRetryResponse :
    (e : ServiceError) → IsRetryResponse (of_service e) ↔ (e ≡ transient_error)
unfolding error_response unhandled classify_failure fraud_detection.Errors.is_transient_error
    fraud_detection.Errors.is_permanent_error
service-IsRetryResponse transient_error = (λ _. refl, λ _. (refl, refl))
service-IsRetryResponse corrupt_rule_set_error =
    (λ h. absurd (omega (arith, h.0)), λ h. absurd (cc))
service-IsRetryResponse permanent_error = (λ h. absurd (omega (arith, h.0)), λ h. absurd (cc))
service-IsRetryResponse invalid_event_error = (λ h. absurd (omega (arith, h.0)), λ h. absurd (cc))
service-IsRetryResponse unsupported_schema_version_error =
    (λ h. absurd (omega (arith, h.0)), λ h. absurd (cc))
service-IsRetryResponse conflicting_duplicate_error =
    (λ h. absurd (omega (arith, h.0)), λ h. absurd (cc))
service-IsRetryResponse invalid_rule_set_error =
    (λ h. absurd (omega (arith, h.0)), λ h. absurd (cc))
service-IsRetryResponse rule_evaluation_error = (λ h. absurd (omega (arith, h.0)), λ h. absurd (cc))
service-IsRetryResponse rule_set_not_found_error =
    (λ h. absurd (omega (arith, h.0)), λ h. absurd (cc))
service-IsRetryResponse rule_set_version_conflict_error =
    (λ h. absurd (omega (arith, h.0)), λ h. absurd (cc))
service-IsRetryResponse transaction_not_found_error =
    (λ h. absurd (omega (arith, h.0)), λ h. absurd (cc))

-- A caller is told to retry exactly when that can help: the response is 503 with Retry-After if and only
-- if the failure is a transient one of a library or of the database, or the service's own transient
-- error. A missing or corrupt rule set, which the worker waits for, is not among them here.
pub respond-IsRetryResponse : (e : Raised) → IsRetryResponse (respond (raised e)) ↔ IsRetryable e
unfolding respond
respond-IsRetryResponse (service e) = service-IsRetryResponse e
respond-IsRetryResponse validation = retry_iff validation
respond-IsRetryResponse (library e) = retry_iff (library e)
respond-IsRetryResponse (dbapi e) = retry_iff (dbapi e)
