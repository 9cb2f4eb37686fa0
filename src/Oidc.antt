-- ===== src/Oidc.antt =====
-- packages/face-auth/src/facetech_auth/oidc.py: `Provider`, with its cache of keys as the state that
-- goes from call to call. A response of the provider is an argument, an error where its call raises;
-- base64, JSON and the signature are an interface. A block under the lock is one step.
pub mod Checks
pub mod Provider
pub mod Sound
mod Steps
mod Bound
mod Tests
use factech.Base.{
  ℕ, ◌+◌, Bool, true, false, not, ◌&&◌, ◌||◌, Option, none, some, List, [], ◌∷◌, ◌++◌, String,
  length, leb, ltb, ◌==◌, string_eq, Dict, lookup, if◌then◌else◌,
}
use factech.Contracts.{Denied, Result, ok, err, denied, unavailable, refuse}
use factech.Database.Tx.{Tx, pure, raise, deny_if, ◌>>=◌, ◌>>◌}
use Checks.{
  Claim, list, text, Claims, has, is_text, is_text_or_absent, text_claim, text_claim_token,
  timestamp, audience_matches, kid_of, check_claims,
}

-- base64 and json; jwk.import_key and jwt.decode, `none` where they raise; and sha256 for at_hash
pub record Jose (K : Type 0) : Type 0 where
  pub header : String → Option Claims
  pub import_key : Claims → Option K
  pub decode : String → K → Option Claims
  pub at_hash : String → String

-- The fields of `Config` that the checks read.
pub record Config : Type 0 where
  pub issuer : String
  pub audience : String
  pub client_id : String

pub record Keys (K : Type 0) : Type 0 where
  pub keys : Dict String K
  pub keys_at : Option ℕ
  pub unknown_at : Option ℕ

-- A call whose exception goes on to the caller.
abbrev pub lift : {S A : Type 0} → Result A → Tx S A
lift r s = (r, s)

-- `_get`, and the "keys" of its object: `none` where they are no list, and a key where it is no object
abbrev pub Jwks : Type 0
Jwks = Result (Option (List (Option Claims)))

-- now - at >= age, or never
abbrev pub aged : Option ℕ → ℕ → ℕ → Bool
aged none age now = true
aged (some at) age now = leb (at + age) now

-- An RSA key for RS256 signatures
abbrev pub is_signing : Claims → Bool
is_signing key =
    is_text "RSA" (lookup "kty" key)
    && is_text_or_absent "sig" (lookup "use" key)
    && is_text_or_absent "RS256" (lookup "alg" key)

abbrev pub or_denied : {A : Type 0} → Option A → Result A
or_denied none = err denied
or_denied (some a) = ok a

module _ {K : Type 0} where
  abbrev pub store_key : String → Option K → Dict String K → Result (Dict String K)
  store_key kid none keys = err unavailable
  store_key kid (some k) keys = ok (keys ++ (kid, k) ∷ [])

  abbrev pub holds : String → Dict String K → Bool
  holds kid keys = elim (lookup kid keys) [ none ↦ false | some _ ↦ true ]

  abbrev pub some_key : Result (Dict String K) → Result (Dict String K)
  some_key (ok []) = err unavailable
  some_key r = r

  -- self._keys, self._keys_at = keys, now
  abbrev pub keep_keys : ℕ → Dict String K → Tx (Keys K) (Unit {0})
  keep_keys now keys s = (ok tt, record s { keys = keys; keys_at = some now })

  abbrev pub key_of : String → Tx (Keys K) K
  key_of kid s = (or_denied (lookup kid s.keys), s)

module _ {K : Type 0} (jose : Jose K) where
  abbrev pub named_key : Result String → Claims → Dict String K → Result (Dict String K)
  named_key (err _) key keys = err unavailable
  named_key (ok kid) key keys =
      if holds kid keys || has "d" key
      then err unavailable
      else store_key kid (jose.import_key key) keys

  abbrev pub add_key : Option Claims → Dict String K → Result (Dict String K)
  add_key none keys = err unavailable
  add_key (some key) keys =
      if is_signing key then named_key (text_claim key "kid") key keys else ok keys

  -- The loop of _refresh_keys
  unfoldable pub add_keys : List (Option Claims) → Dict String K → Result (Dict String K)
  add_keys [] keys = ok keys
  add_keys (key ∷ rest) keys = elim (add_key key keys) [
    | ok more ↦ add_keys rest more
    | err d ↦ err d
  ]

  abbrev pub imported : Jwks → Result (Dict String K)
  imported (err d) = err d
  imported (ok none) = err unavailable
  imported (ok (some keys)) =
      if ltb 16 (length keys) then err unavailable else some_key (add_keys keys [])

  unfoldable pub refresh_keys : Jwks → ℕ → Tx (Keys K) (Unit {0})
  refresh_keys jwks now = do keys ← lift (imported jwks); keep_keys now keys

  -- The block under the lock
  unfoldable pub renew : Jwks → ℕ → String → Tx (Keys K) (Unit {0})
  renew jwks now kid s =
      if aged s.keys_at 300 now
      then refresh_keys jwks now s
      else if not (holds kid s.keys) && aged s.unknown_at 30 now
      then refresh_keys jwks now (record s { unknown_at = some now })
      else (ok tt, s)

  unfoldable pub signed_claims : Config → String → Bool → Jwks → ℕ → String → Tx (Keys K) Claims
  signed_claims config audience logout jwks now encoded = do
    kid ← lift (kid_of jose.header encoded)
    renew jwks now kid
    key ← key_of kid
    claims ← lift (or_denied (jose.decode encoded key))
    lift (check_claims config.issuer audience logout now claims)
