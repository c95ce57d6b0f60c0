-- ===== src/Security/Access.antt =====
-- Who gets through the dependency of app/security.py.
use fraud_detection.Prelude.{
  ℕ, ◌≡◌, ◌⊎◌, inl, inr, refl, sym, String, Bool, true, false, Option, none, some, [], ◌∷◌, subst,
  not, ◌||◌, if◌then◌else◌, if-both, Bool-cases, str_eq, if-true, if-false,
}
use fraud_detection.Prelude.Result.{Result, ok, err}
use fraud_detection.RateLimit.{
  Counters, Limiter, Request, Enforced, passed, too_many_requests, enforce,
}
use fraud_detection.Errors.{Raised, LibraryError, library}
use fraud_detection.Api.Responses.{RouteError, http_exception, raised, request_validation_error}
use fraud_detection.Security.{
  Claims, AuthenticatedPrincipal, TokenError, expired_signature, invalid_token, uncaught,
  TokenLibrary, holds, unauthorized, invalid_challenge, scope_challenge, strip, parse_scopes,
  text_or_empty, principal_of, verified, get_current_principal, allowed, limited, scoped,
  require_scope,
}

module _ (tokens : TokenLibrary) where
  -- A principal was made from the claims of the token in the header.
  pub record IsVerified (token : String) (principal : AuthenticatedPrincipal) : Type 0 where
    pub by_token : tokens.decode token ≡ ok principal.claims
    pub has_subject : str_eq principal.subject "" ≡ false
    pub has_scopes : principal.scopes ≡ parse_scopes tokens principal.claims

  abbrev pub credentials_of : Option (String × String) → String
  credentials_of none = ""
  credentials_of (some (scheme, credentials)) = strip tokens credentials

  -- An error of the token's check that no handler catches.
  abbrev pub IsUncaught : String → Raised → Type 0
  IsUncaught token e =
      (cause : LibraryError) × (e ≡ library cause) × (tokens.decode token ≡ err (uncaught cause))

  abbrev IsVerifiedOr401 : String → Result RouteError AuthenticatedPrincipal → Type 0
  IsVerifiedOr401 token (ok principal) = IsVerified token principal
  IsVerifiedOr401 token (err (http_exception status headers)) = status ≡ 401
  IsVerifiedOr401 token (err request_validation_error) = ⊥
  IsVerifiedOr401 token (err (raised e)) = IsUncaught token e

  principal_of-IsVerified :
      (token : String) (claims : Claims) (subject : String)
      → tokens.decode token ≡ ok claims
      → IsVerifiedOr401 token (principal_of tokens claims subject)
  principal_of-IsVerified token claims subject e = by_subject (str_eq subject "") refl
    where
      by_subject :
          (b : Bool)
          → str_eq subject "" ≡ b
          → IsVerifiedOr401 token (
              if b
              then err (unauthorized invalid_challenge)
              else ok (record {
                subject = subject;
                scopes = parse_scopes tokens claims;
                claims = claims;
              }))
      by_subject true k = refl
      by_subject false k = record { by_token = e; has_subject = k; has_scopes = refl }

  verified-IsVerified :
      (token : String) (result : Result TokenError Claims)
      → tokens.decode token ≡ result
      → IsVerifiedOr401 token (verified tokens result)
  verified-IsVerified token (err expired_signature) k = refl
  verified-IsVerified token (err invalid_token) k = refl
  verified-IsVerified token (err (uncaught e)) k = (e, refl, k)
  verified-IsVerified token (ok claims) k =
      principal_of-IsVerified token claims (strip tokens (text_or_empty claims.sub)) k

  get_current_principal-IsVerified :
      (authorization : Option (String × String))
      → IsVerifiedOr401 (credentials_of authorization) (get_current_principal tokens authorization)
  unfolding get_current_principal
  get_current_principal-IsVerified none = refl
  get_current_principal-IsVerified (some (scheme, credentials)) =
      if-both (IsVerifiedOr401 (strip tokens credentials))
        (not (str_eq (tokens.lower scheme) "bearer") || str_eq (strip tokens credentials) "") refl
        (verified-IsVerified (strip tokens credentials) (tokens.decode (strip tokens credentials))
          refl)

  module _ (redis : Counters) (limiter : Option Limiter) (required : String) (now : ℕ)
      (redis_up : Bool) where
    -- What comes out of the dependency: a verified caller with the scope, a refusal, or an error of the token's
    -- check; only a refusal by the limiter, with 429, follows a count.
    abbrev pub IsAuthorised :
        String → redis.State → Result RouteError AuthenticatedPrincipal × redis.State → Type 0
    IsAuthorised token state (ok principal, after) =
        IsVerified token principal × (holds required principal.scopes ≡ true)
    IsAuthorised token state (err (http_exception status headers), after) =
        (status ≡ 429) ⊎ (((status ≡ 401) ⊎ (status ≡ 403)) × (after ≡ state))
    IsAuthorised token state (err request_validation_error, after) = ⊥
    IsAuthorised token state (err (raised e), after) = IsUncaught token e × (after ≡ state)

    limited-IsAuthorised :
        (token : String) (state : redis.State) (principal : AuthenticatedPrincipal)
        (limit : Option Limiter) (request : Request)
        → IsVerified token principal
        → holds required principal.scopes ≡ true
        → IsAuthorised token state (limited tokens redis limit principal request state)
    limited-IsAuthorised token state principal none request v h = (v, h)
    limited-IsAuthorised token state principal (some limit) request v h =
        by_outcome (enforce limit redis request state)
      where
        by_outcome :
            (outcome : Enforced × redis.State)
            → IsAuthorised token state (allowed tokens redis limit principal outcome)
        by_outcome (passed, after) = (v, h)
        by_outcome (too_many_requests seconds, after) = inl refl

    scoped-IsAuthorised :
        (token : String) (state : redis.State) (result : Result RouteError AuthenticatedPrincipal)
        → IsVerifiedOr401 token result
        → IsAuthorised token state (scoped tokens redis limiter required now redis_up state result)
    scoped-IsAuthorised token state (err (http_exception status headers)) v = inr (inl v, refl)
    scoped-IsAuthorised token state (err request_validation_error) v = absurd v
    scoped-IsAuthorised token state (err (raised e)) v = (v, refl)
    scoped-IsAuthorised token state (ok principal) v =
        elim (Bool-cases (holds required principal.scopes)) [
          | inl h ↦
              subst (IsAuthorised token state) (sym (if-true within refused h))
                (limited-IsAuthorised token state principal limiter request v h)
          | inr h ↦
              subst (IsAuthorised token state) (sym (if-false within refused h))
                (inr (inr refl, refl))
        ]
      where
        request : Request
        request = record { subject = principal.subject; at = now; redis_up = redis_up }

        within : Result RouteError AuthenticatedPrincipal × redis.State
        within = limited tokens redis limiter principal request state

        refused : Result RouteError AuthenticatedPrincipal × redis.State
        refused =
            (err (http_exception 403 (("WWW-Authenticate", scope_challenge required) ∷ [])), state)

    -- Nobody gets through a route without a token that PyJWT verified, a subject in it, and the route's scope
    -- among the scopes that it grants. Everyone else is refused with 401, 403 or 429, unless the check
    -- of the token raises an error that is none of an invalid token; and a refusal for the token or the scope,
    -- or such an error, leaves the counters of the limiter alone.
    pub require_scope-IsAuthorised :
        (authorization : Option (String × String)) (state : redis.State)
        → IsAuthorised
            (credentials_of authorization)
            state
            (require_scope tokens redis limiter required now redis_up authorization state)
    unfolding require_scope
    require_scope-IsAuthorised authorization state =
        scoped-IsAuthorised (credentials_of authorization) state
          (get_current_principal tokens authorization)
          (get_current_principal-IsVerified authorization)
