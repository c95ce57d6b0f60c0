-- ===== src/Security/Examples.antt =====
-- Tests of the keys and of the dependency of a route.
use Prim.Native.Char.{code}
use fraud_detection.Prelude.{
  ℕ, ◌≡◌, ◌≢◌, refl, String, true, none, some, List, [], ◌∷◌, ◌==◌, str_eq, if◌then◌else◌,
}
use fraud_detection.Prelude.Result.{ok, err}
use fraud_detection.Prelude.Text.{named}
use fraud_detection.RateLimit.Examples.{listed, limiter, no_cells}
use fraud_detection.Security.{
  Claims, scope_text, absent, TokenLibrary, expired_signature, parse_scopes, lstrip, rstrip_space,
  require_scope,
}
use fraud_detection.Security.Keys.{
  Fetched, unavailable, key_set, Verifier, KeyCall, fetch_times, AreSpaced, fetch_times-AreSpaced,
}
use fraud_detection.Security.Access.{IsAuthorised, require_scope-IsAuthorised}

abbrev start : Verifier
start = record { keys = []; last_fetch = none }

abbrev key_call : ℕ → String → Fetched → KeyCall
key_call now kid fetch = record { kid = some kid; now = now; fetch = fetch }

abbrev provider : Fetched
provider = key_set ((some "k1", "key one") ∷ (none, "unnamed") ∷ [])

-- a known key, and unknown ones within the interval and after it
abbrev calls : List KeyCall
calls =
    key_call 10 "k1" provider
    ∷ key_call 11 "x" provider
    ∷ key_call 12 "y" provider
    ∷ key_call 12 "k1" provider
    ∷ key_call 40 "z" provider
    ∷ []

calls-fetch_times : fetch_times 30 calls start ≡ 10 ∷ 40 ∷ []
unfolding fetch_times named
calls-fetch_times = refl

available : provider ≢ unavailable
available e = absurd (cc)

fetch_times-AreSpaced_example : AreSpaced 30 none (fetch_times 30 calls start)
fetch_times-AreSpaced_example =
    fetch_times-AreSpaced 30 calls start
      (available, (available, (available, (available, (available, tt)))))

-- A failed fetch is not counted: while the provider is down every token with an unknown key fetches.
outage-fetch_times :
    fetch_times 30 (key_call 10 "x" unavailable ∷ key_call 11 "x" unavailable ∷ []) start
    ≡ 10 ∷ 11 ∷ []
unfolding fetch_times named
outage-fetch_times = refl

abbrev claims : Claims
claims = record { sub = some " alice "; scope = scope_text "rules:read  rules:write"; scp = absent }

abbrev plain_library : TokenLibrary
plain_library = record {
  is_space = λ c. code c == 32;
  lower = λ text. if str_eq text "Bearer" then "bearer" else text;
  decode = λ token. if str_eq token "good" then ok claims else err expired_signature;
}

claims-parse_scopes : parse_scopes plain_library claims ≡ "rules:read" ∷ "rules:write" ∷ []
unfolding parse_scopes
claims-parse_scopes = refl

require_scope-IsAuthorised_example :
    IsAuthorised plain_library listed (some limiter) "rules:read" 1000 true "good" no_cells (
      require_scope plain_library listed
        (some limiter)
        "rules:read"
        1000
        true
        (some ("Bearer", "good"))
        no_cells)
unfolding lstrip rstrip_space
require_scope-IsAuthorised_example =
    require_scope-IsAuthorised plain_library listed (some limiter) "rules:read" 1000 true
      (some ("Bearer", "good")) no_cells
