-- ===== src/Oidc/Checks.antt =====
-- packages/face-auth/src/facetech_auth/oidc.py: what is checked of the claims of a token. The JSON
-- values that the code tells apart are constructors; `clock` is in whole seconds.
use factech.Base.{
  ℕ, suc, ◌+◌, ℤ, pos, Bool, true, false, not, ◌&&◌, ◌||◌, Option, none, some, List, String, size,
  leb, ltb, nat_beq, ◌==◌, string_eq, Dict, lookup, any, all, if◌then◌else◌,
}
use factech.Contracts.{Result, ok, err, denied, ◌>>=◌, ◌>>◌}
use Prim.Native.Char.{code}

-- A JSON value. An entry of a list is `none` where it is no text; `other` has its truth value, and
-- `logout_event` is the object {LOGOUT_EVENT: {}}.
pub data Claim : Type 0 where
  text : String → Claim
  int : ℤ → Claim
  list : List (Option String) → Claim
  logout_event : Claim
  other : Bool → Claim

abbrev pub Claims : Type 0
Claims = Dict String Claim

-- if not test: raise Denied()
abbrev pub require : Bool → Result (Unit {0})
require test = if test then ok tt else err denied

abbrev pub has : String → Claims → Bool
has name claims = elim (lookup name claims) [ none ↦ false | some _ ↦ true ]

-- claims.get(name) == s
abbrev pub is_text : String → Option Claim → Bool
is_text s (some (text t)) = t == s
is_text s _ = false

-- claims.get(name, s) == s
abbrev pub is_text_or_absent : String → Option Claim → Bool
is_text_or_absent s none = true
is_text_or_absent s (some c) = is_text s (some c)

-- text_claim, with the bound on the length
unfoldable pub checked_text : ℕ → Option Claim → Result String
checked_text most (some (text s)) = if s == "" || ltb most (size s) then err denied else ok s
checked_text most _ = err denied

abbrev pub text_claim : Claims → String → Result String
text_claim claims name = checked_text 1024 (lookup name claims)

abbrev pub text_claim_token : Claims → String → Result String
text_claim_token token name = checked_text 16384 (lookup name token)

abbrev pub checked_time : Option Claim → Result ℕ
checked_time (some (int (pos n))) = ok n
checked_time _ = err denied

abbrev pub timestamp : Claims → String → Result ℕ
timestamp claims name = checked_time (lookup name claims)

-- isinstance(v, str) and v
abbrev pub is_named : Option String → Bool
is_named none = false
is_named (some s) = not (s == "")

abbrev pub is_entry : String → Option String → Bool
is_entry s none = false
is_entry s (some t) = t == s

unfoldable pub audience_matches : Option Claim → String → Bool
audience_matches (some (text s)) expected = s == expected
audience_matches (some (list vs)) expected = all is_named vs && any (is_entry expected) vs
audience_matches _ expected = false

-- encoded.split("."), less its first part
unfoldable pub dots : String → ℕ
dots String.[] = 0
dots (String.◌∷◌ c s) = let rest = dots s in if nat_beq (code c) 46 then suc rest else rest

-- header.get("typ", "JWT")
abbrev pub is_typ : Option Claim → Bool
is_typ none = true
is_typ (some c) =
    is_text "JWT" (some c) || is_text "at+jwt" (some c) || is_text "logout+jwt" (some c)

-- A member of {"alg", "kid", "typ"}
abbrev pub is_header_name : String × Claim → Bool
is_header_name (name, _) = name == "alg" || name == "kid" || name == "typ"

abbrev pub checked_header : Option Claims → Result String
checked_header none = err denied
checked_header (some header) = do
  require (
      is_text "RS256" (lookup "alg" header)
      && all is_header_name header
      && is_typ (lookup "typ" header))
  text_claim header "kid"

-- The key's name in a token; `header` opens what is before its first dot.
unfoldable pub kid_of : (String → Option Claims) → String → Result String
kid_of header encoded = do
  require (leb 1 (size encoded) && leb (size encoded) 16384)
  require (nat_beq (dots encoded) 2)
  checked_header (header encoded)

-- if "nbf" in claims and timestamp(claims, "nbf") > now + 30
abbrev pub check_not_before : Claims → ℕ → Result (Unit {0})
check_not_before claims now =
    if has "nbf" claims
    then (timestamp claims "nbf" >>= λ start. require (leb start (now + 30)))
    else ok tt

abbrev pub check_expiry : Claims → ℕ → ℕ → Result (Unit {0})
check_expiry claims issued now = do
  expiry ← timestamp claims "exp"
  require (ltb now expiry && ltb issued expiry)

-- signed_claims, once the signature is verified
unfoldable pub check_claims : String → String → Bool → ℕ → Claims → Result Claims
check_claims issuer audience logout now claims = do
  require (is_text issuer (lookup "iss" claims) && audience_matches (lookup "aud" claims) audience)
  issued ← timestamp claims "iat"
  require (leb issued (now + 30))
  check_not_before claims now
  if not logout || has "exp" claims then check_expiry claims issued now else ok tt
  ok claims
