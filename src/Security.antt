-- ===== src/Security.antt =====
-- app/security.py: who calls, by a verified token, and what the caller may do. The check of a token's
-- signature and claims is PyJWT's, and a parameter; so is the fetch of the provider's keys.
pub mod Keys
pub mod Access
pub mod Examples
use fraud_detection.Prelude.{
  ℕ, String, Bool, true, false, Option, none, some, List, [], ◌∷◌, ◌++◌, not, ◌||◌, if◌then◌else◌,
  str_eq,
}
use Prim.Native.Char.{Char}
use Prim.Native.String.{◌++◌ as append}
use fraud_detection.Prelude.Result.{Result, ok, err, ◌>>=◌}
use fraud_detection.RateLimit.{
  Counters, Limiter, Request, Enforced, passed, too_many_requests, enforce,
}
use fraud_detection.Errors.{LibraryError, library}
use fraud_detection.Api.Responses.{RouteError, http_exception, raised}

-- A claim with scopes: missing, a text, a list (by the `str` of its items), or another value, which Python
-- takes for true or not.
pub data ScopeClaim : Type 0 where
  absent : ScopeClaim
  scope_text : String → ScopeClaim
  scope_list : List String → ScopeClaim
  other_value : Bool → ScopeClaim

-- the claims that the code reads; `sub` by its `str`
pub record Claims : Type 0 where
  pub sub : Option String
  pub scope : ScopeClaim
  pub scp : ScopeClaim

-- `AuthenticatedPrincipal`
pub record AuthenticatedPrincipal : Type 0 where
  pub subject : String
  pub scopes : List String
  pub claims : Claims

-- How `decode` of the verifier fails. Not every error is an `InvalidTokenError`: PyJWT's `PyJWKSetError`, for a
-- key set without a usable key, is none, and neither `_signing_key` nor its caller catches it.
pub data TokenError : Type 0 where
  expired_signature invalid_token : TokenError
  uncaught : LibraryError → TokenError

-- What the code has from Python and PyJWT: white space, `lower`, and `jwt.decode` of a token with the
-- signing key that the verifier gives.
pub record TokenLibrary : Type 0 where
  pub is_space : Char → Bool
  pub lower : String → String
  pub decode : String → Result TokenError Claims

-- `left or right`
abbrev pub is_truthy : ScopeClaim → Bool
is_truthy absent = false
is_truthy (scope_text text) = not (str_eq text "")
is_truthy (scope_list []) = false
is_truthy (scope_list (part ∷ parts)) = true
is_truthy (other_value truthy) = truthy

abbrev pub holds : String → List String → Bool
holds name [] = false
holds name (other ∷ names) = str_eq other name || holds name names

abbrev pub non_empty : List String → List String
non_empty [] = []
non_empty (part ∷ parts) = if str_eq part "" then non_empty parts else part ∷ non_empty parts

-- 401 with a challenge
abbrev pub unauthorized : String → RouteError
unauthorized challenge = http_exception 401 (("WWW-Authenticate", challenge) ∷ [])

abbrev pub plain_challenge : String
plain_challenge = "Bearer realm=\"fraud-detection\""

abbrev pub invalid_challenge : String
invalid_challenge = "Bearer realm=\"fraud-detection\", error=\"invalid_token\""

abbrev pub scope_challenge : String → String
scope_challenge required =
    append "Bearer error=\"insufficient_scope\", scope=\"" (append required "\"")

abbrev pub text_or_empty : Option String → String
text_or_empty none = ""
text_or_empty (some text) = text

module _ (tokens : TokenLibrary) where
  -- a character before the words of the rest: the end of a word, or more of the first
  abbrev pub joined_to : Bool → Char → List String → List String
  joined_to true c words = "" ∷ words
  joined_to false c [] = String.◌∷◌ c "" ∷ []
  joined_to false c (word ∷ words) = String.◌∷◌ c word ∷ words

  unfoldable pub pieces : String → List String
  pieces String.[] = "" ∷ []
  pieces (String.◌∷◌ c rest) = joined_to (tokens.is_space c) c (pieces rest)

  -- `text.split()`: the words between white space
  unfoldable pub words : String → List String
  unfolding pieces
  words text = non_empty (pieces text)

  unfoldable pub lstrip : String → String
  lstrip String.[] = ""
  lstrip (String.◌∷◌ c rest) = if tokens.is_space c then lstrip rest else String.◌∷◌ c rest

  unfoldable pub rstrip_space : String → String
  rstrip_space String.[] = ""
  rstrip_space (String.◌∷◌ c rest) =
      let stripped = rstrip_space rest in
      if str_eq stripped ""
      then (if tokens.is_space c then "" else String.◌∷◌ c "")
      else String.◌∷◌ c stripped

  -- `text.strip()`
  abbrev pub strip : String → String
  strip text = lstrip (rstrip_space text)

  -- the scopes in the claim that `or` picks
  abbrev pub scopes_in : ScopeClaim → List String
  scopes_in absent = []
  scopes_in (scope_text text) = non_empty (words text)
  scopes_in (scope_list parts) = non_empty parts
  scopes_in (other_value truthy) = []

  -- `_parse_scopes`
  unfoldable pub parse_scopes : Claims → List String
  unfolding words
  parse_scopes claims = scopes_in (if is_truthy claims.scope then claims.scope else claims.scp)

  abbrev pub principal_of : Claims → String → Result RouteError AuthenticatedPrincipal
  principal_of claims subject =
      if str_eq subject ""
      then err (unauthorized invalid_challenge)
      else ok (record { subject = subject; scopes = parse_scopes claims; claims = claims })

  abbrev pub verified : Result TokenError Claims → Result RouteError AuthenticatedPrincipal
  verified (err (uncaught e)) = err (raised (library e))
  verified (err _) = err (unauthorized invalid_challenge)
  verified (ok claims) = principal_of claims (strip (text_or_empty claims.sub))

  -- `get_current_principal`, with the scheme and the text of the Authorization header
  unfoldable pub get_current_principal :
      Option (String × String) → Result RouteError AuthenticatedPrincipal
  unfolding parse_scopes lstrip rstrip_space
  get_current_principal none = err (unauthorized plain_challenge)
  get_current_principal (some (scheme, credentials)) =
      if not (str_eq (tokens.lower scheme) "bearer") || str_eq (strip credentials) ""
      then err (unauthorized plain_challenge)
      else verified (tokens.decode (strip credentials))

  module _ (redis : Counters) where
    abbrev pub allowed :
        Limiter
        → AuthenticatedPrincipal
        → Enforced × redis.State
        → Result RouteError AuthenticatedPrincipal × redis.State
    allowed limiter principal (passed, state) = (ok principal, state)
    allowed limiter principal (too_many_requests seconds, state) =
        (err (http_exception 429 (("Retry-After", limiter.show seconds) ∷ [])), state)

    -- the limiter, if the application has one
    abbrev pub limited :
        Option Limiter
        → AuthenticatedPrincipal
        → Request
        → redis.State
        → Result RouteError AuthenticatedPrincipal × redis.State
    limited none principal request state = (ok principal, state)
    limited (some limiter) principal request state =
        allowed limiter principal (enforce limiter redis request state)

    abbrev pub scoped :
        Option Limiter
        → String
        → ℕ
        → Bool
        → redis.State
        → Result RouteError AuthenticatedPrincipal
        → Result RouteError AuthenticatedPrincipal × redis.State
    scoped limiter required now redis_up state (err e) = (err e, state)
    scoped limiter required now redis_up state (ok principal) =
        if holds required principal.scopes
        then limited limiter principal
            (record { subject = principal.subject; at = now; redis_up = redis_up }) state
        else (err (http_exception 403 (("WWW-Authenticate", scope_challenge required) ∷ [])), state)

    -- `require_scope(...)`, the dependency that it builds, for the scope `required`
    unfoldable pub require_scope :
        Option Limiter
        → String
        → ℕ
        → Bool
        → Option (String × String)
        → redis.State
        → Result RouteError AuthenticatedPrincipal × redis.State
    unfolding get_current_principal enforce
    require_scope limiter required now redis_up authorization state =
        scoped limiter required now redis_up state (get_current_principal authorization)
