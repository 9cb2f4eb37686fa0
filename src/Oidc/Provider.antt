-- ===== src/Oidc/Provider.antt =====
-- packages/face-auth/src/facetech_auth/oidc.py: the calls of `Provider` that sessions are made of.
-- The token set that the token endpoint answers with is an argument, an error where the call raises.
-- The readings of the clock in one call are taken to be one, `now`.
use factech.Base.{
  ℕ, ◌+◌, pos, negsuc, Bool, true, false, not, ◌&&◌, ◌||◌, Option, none, some, String, length, leb,
  ltb, ◌==◌, string_eq, lookup,
}
use factech.Contracts.{Result, ok, err, denied, refuse}
use factech.Database.Tx.{Tx, pure, deny_if, ◌>>=◌, ◌>>◌}
use factech.Oidc.{Jose, Config, Keys, Jwks, lift, signed_claims}
use factech.Oidc.Checks.{
  Claim, text, int, list, logout_event, other, Claims, has, is_text, is_text_or_absent, text_claim,
  text_claim_token, timestamp, audience_matches,
}

-- What the introspection endpoint answers: its status, and its object, `none` where it is too large
-- or no object.
pub record Introspection : Type 0 where
  pub active : Bool
  pub claims : Claims

-- The test on the answer, less the expiry
abbrev pub is_same_token : Config → String → String → Introspection → Bool
is_same_token config sub sid answer =
    answer.active
    && is_text config.issuer (lookup "iss" answer.claims)
    && is_text sub (lookup "sub" answer.claims)
    && is_text sid (lookup "sid" answer.claims)
    && is_text config.client_id (lookup "client_id" answer.claims)
    && audience_matches (lookup "aud" answer.claims) config.audience

-- claims["aud"] is a list of several
abbrev pub has_several : Option Claim → Bool
has_several (some (list vs)) = ltb 1 (length vs)
has_several _ = false

-- claims["at_hash"] != expected, where there is one
abbrev pub is_other_hash : String → Claims → Bool
is_other_hash expected claims =
    has "at_hash" claims && not (is_text expected (lookup "at_hash" claims))

-- claims.get(name), as a truth value
abbrev pub is_truthy : Option Claim → Bool
is_truthy none = false
is_truthy (some (text s)) = not (s == "")
is_truthy (some (int n)) = elim n [ pos ℕ.zero ↦ false | pos (ℕ.suc _) ↦ true | negsuc _ ↦ true ]
is_truthy (some (list vs)) = ltb 0 (length vs)
is_truthy (some logout_event) = true
is_truthy (some (other b)) = b

abbrev pub is_logout_event : Option Claim → Bool
is_logout_event (some logout_event) = true
is_logout_event _ = false

-- A claim that may be left out
abbrev pub text_if_any : Claims → String → Result (Option String)
text_if_any claims name = elim (lookup name claims) [
  | none ↦ ok none
  | some _ ↦ elim (text_claim claims name) [ ok s ↦ ok (some s) | err d ↦ err d ]
]

module _ {K : Type 0} (jose : Jose K) (config : Config) where
  -- `jwks` is the response to a refresh in the call, should there be one
  unfoldable pub active_token :
      Jwks → Result Introspection → ℕ → String → Tx (Keys K) (Claims × String × String)
  active_token jwks introspected now token = do
    claims ← signed_claims jose config config.audience false jwks now token
    sub ← lift (text_claim claims "sub")
    sid ← lift (text_claim claims "sid")
    deny_if (not (is_text config.client_id (lookup "azp" claims))) denied
    answer ← lift introspected
    deny_if (not (is_same_token config sub sid answer)) denied
    expiry ← lift (timestamp answer.claims "exp")
    deny_if (leb expiry now) denied
    pure (claims, sub, sid)

  -- What is checked of the identity token in `exchange`
  abbrev pub check_identity : String → String → ℕ → Claims → Tx (Keys K) (Unit {0})
  check_identity nonce access now claims = do
    deny_if
        (not (
          is_text nonce (lookup "nonce" claims)
          && is_text_or_absent config.client_id (lookup "azp" claims)))
        denied
    deny_if
        (has_several (lookup "aud" claims) && not (is_text config.client_id (lookup "azp" claims)))
        denied
    auth_time ← lift (timestamp claims "auth_time")
    deny_if (ltb now auth_time || leb (auth_time + 300) now) (refuse "RECENT_LOGIN_REQUIRED" 403)
    deny_if (is_other_hash (jose.at_hash access) claims) denied

  -- What `exchange` does past the identity token
  unfoldable pub confirm :
      Jwks → Result Introspection → ℕ → String → Claims → Claims → Tx (Keys K) (Claims × Claims)
  confirm jwks introspected now access token claims = do
    active ← active_token jwks introspected now access
    sub ← lift (text_claim claims "sub")
    sid ← lift (text_claim claims "sid")
    deny_if (not (sub == active.1 && sid == active.2)) denied
    _ ← lift (text_claim_token token "refresh_token")
    pure (token, claims)

  -- The endpoint answers with whether the type is a bearer's, and with the token set.
  unfoldable pub exchange :
      Jwks
      → Jwks
      → Result Introspection
      → String
      → ℕ
      → Result (Bool × Claims)
      → Tx (Keys K) (Claims × Claims)
  exchange jwks jwks' introspected nonce now answered = do
    answer ← lift answered
    deny_if (not answer.0) denied
    access ← lift (text_claim_token answer.1 "access_token")
    identity ← lift (text_claim_token answer.1 "id_token")
    claims ← signed_claims jose config config.client_id false jwks now identity
    check_identity nonce access now claims
    confirm jwks' introspected now access answer.1 claims

  unfoldable pub refresh : Claims → Result (Bool × Claims) → Tx (Keys K) Claims
  refresh token answered = do
    _ ← lift (text_claim_token token "refresh_token")
    answer ← lift answered
    deny_if (not answer.0) denied
    _ ← lift (text_claim_token answer.1 "access_token")
    _ ← lift (text_claim_token answer.1 "refresh_token")
    pure answer.1

  unfoldable pub logout_claims :
      Jwks → ℕ → String → Tx (Keys K) (Claims × Option String × Option String)
  logout_claims jwks now token = do
    claims ← signed_claims jose config config.client_id true jwks now token
    deny_if (not (is_logout_event (lookup "events" claims)) || has "nonce" claims) denied
    issued ← lift (timestamp claims "iat")
    deny_if (leb (issued + 300) now) denied
    deny_if (not (is_truthy (lookup "sub" claims) || is_truthy (lookup "sid" claims))) denied
    _ ← lift (text_claim claims "jti")
    sub ← lift (text_if_any claims "sub")
    sid ← lift (text_if_any claims "sid")
    pure (claims, sub, sid)
