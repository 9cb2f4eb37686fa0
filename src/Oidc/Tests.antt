-- ===== src/Oidc/Tests.antt =====
-- A provider with one key, and a login whose tokens it signs.
use factech.Base.{ℕ, lookup, pos, true, false, some, none, [], ◌∷◌, ◌==◌, string_eq, ◌≡◌, refl}
use factech.Contracts.{ok}
use factech.Oidc.{Jose, Config, Keys, Jwks, signed_claims, renew, refresh_keys, add_keys}
use factech.Oidc.Checks.{Claim, Claims, kid_of, dots, checked_text, audience_matches, check_claims}
use factech.Oidc.Provider.{Introspection, exchange, active_token, confirm}
use factech.Oidc.Sound.{IsSigned, signed_claims_sound}
use factech.Oidc.Bound.{IsBound, exchange_sound}

abbrev token_header : Claims
token_header = ("alg", Claim.text "RS256") ∷ ("kid", Claim.text "k1") ∷ []

abbrev identity_claims : Claims
identity_claims =
    ("iss", Claim.text "idp")
    ∷ ("aud", Claim.text "gateway")
    ∷ ("iat", Claim.int (pos 990))
    ∷ ("exp", Claim.int (pos 1300))
    ∷ ("nonce", Claim.text "n1")
    ∷ ("auth_time", Claim.int (pos 980))
    ∷ ("sub", Claim.text "u1")
    ∷ ("sid", Claim.text "s1")
    ∷ []

abbrev access_claims : Claims
access_claims =
    ("iss", Claim.text "idp")
    ∷ ("aud", Claim.text "api")
    ∷ ("azp", Claim.text "gateway")
    ∷ ("iat", Claim.int (pos 990))
    ∷ ("exp", Claim.int (pos 1300))
    ∷ ("sub", Claim.text "u1")
    ∷ ("sid", Claim.text "s1")
    ∷ []

abbrev jose_one : Jose ℕ
jose_one = record {
  header = λ _. some token_header;
  import_key = λ _. some 7;
  decode = λ encoded _. elim (encoded == "i..") [
    | true ↦ some identity_claims
    | false ↦ some access_claims
  ];
  at_hash = λ access. access;
}

abbrev config_one : Config
config_one = record { issuer = "idp"; audience = "api"; client_id = "gateway" }

abbrev no_keys : Keys ℕ
no_keys = record { keys = []; keys_at = none; unknown_at = none }

abbrev one_key : Keys ℕ
one_key = record { keys = ("k1", 7) ∷ []; keys_at = some 1000; unknown_at = none }

abbrev jwks_one : Jwks
jwks_one = ok (some (some (("kty", Claim.text "RSA") ∷ ("kid", Claim.text "k1") ∷ []) ∷ []))

abbrev answer_one : Introspection
answer_one = record {
  active = true;
  claims =
      ("iss", Claim.text "idp")
      ∷ ("sub", Claim.text "u1")
      ∷ ("sid", Claim.text "s1")
      ∷ ("client_id", Claim.text "gateway")
      ∷ ("aud", Claim.text "api")
      ∷ ("exp", Claim.int (pos 1300))
      ∷ [];
}

abbrev token_one : Claims
token_one =
    ("access_token", Claim.text "a..")
    ∷ ("id_token", Claim.text "i..")
    ∷ ("refresh_token", Claim.text "r")
    ∷ []

signed_one :
    signed_claims jose_one config_one "api" false jwks_one 1000 "a.." no_keys
    ≡ (ok access_claims, one_key)
unfolding signed_claims kid_of dots checked_text audience_matches check_claims renew refresh_keys
    add_keys lookup
signed_one = refl

exchange_one :
    exchange jose_one config_one jwks_one jwks_one
      (ok answer_one)
      "n1"
      1000
      (ok (true, token_one))
      no_keys
    ≡ (ok (token_one, identity_claims), one_key)
unfolding exchange active_token confirm signed_claims kid_of dots checked_text audience_matches
    check_claims renew refresh_keys add_keys lookup
exchange_one = refl

signed_claims_sound_example :
    IsSigned jose_one config_one "api" false 1000 "a.." one_key access_claims
signed_claims_sound_example =
    signed_claims_sound jose_one config_one "api" false jwks_one 1000 "a.." no_keys one_key
      access_claims signed_one

exchange_sound_example :
    IsBound jose_one config_one (ok answer_one) "n1" 1000 token_one identity_claims one_key
exchange_sound_example =
    exchange_sound jose_one config_one jwks_one jwks_one (ok answer_one) "n1" 1000
      (ok (true, token_one)) no_keys one_key token_one identity_claims exchange_one
