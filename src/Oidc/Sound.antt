-- ===== src/Oidc/Sound.antt =====
-- What a token is whose claims packages/face-auth/src/facetech_auth/oidc.py accepts.
use factech.Base.{
  ℕ, ◌+◌, ◌≤◌, ◌<◌, pos, negsuc, Bool, true, false, not, ◌&&◌, ◌||◌, Option, none, some, String,
  leb, ltb, leb→le, ltb→lt, string_eq, lookup, &&_iff, ◌≡◌, refl, ap, ◌∙◌, subst, if◌then◌else◌,
}
use factech.Contracts.{Result, ok, err, ok-injective, then-ok, ◌>>=◌}
use factech.Database.Tx.{bind-ok}
use factech.Oidc.{Jose, Config, Keys, Jwks, lift, renew, key_of, or_denied, signed_claims}
use factech.Oidc.Checks.{
  Claim, int, Claims, require, has, is_text, audience_matches, timestamp, checked_time, kid_of,
  check_not_before, check_expiry, check_claims,
}

-- A time that the claims name.
abbrev pub IsTime : String → ℕ → Claims → Type 0
IsTime name n claims = lookup name claims ≡ some (int (pos n))

-- The claims name a time under `name` of which P holds.
abbrev pub HasTime : String → (ℕ → Type 0) → Claims → Type 0
HasTime name P claims = (n : ℕ) × IsTime name n claims × P n

-- Claims for an audience, at a time: of the issuer, not of the future, and not expired.
pub record IsCurrent (issuer audience : String) (logout : Bool) (now : ℕ) (claims : Claims)
    : Type 0 where
  pub of_issuer : is_text issuer (lookup "iss" claims) ≡ true
  pub for_audience : audience_matches (lookup "aud" claims) audience ≡ true
  pub issued : HasTime "iat" (λ n. n ≤ now + 30) claims
  pub not_before : has "nbf" claims ≡ true → HasTime "nbf" (λ n. n ≤ now + 30) claims
  pub expires :
      (not logout || has "exp" claims) ≡ true
      → HasTime "exp" (λ n. (now < n) × (issued.0 < n)) claims

require-ok : (b : Bool) → require b ≡ ok tt → b ≡ true
require-ok true h = refl
require-ok false h = absurd (cc)

pub checked_time-ok : (c : Option Claim) (n : ℕ) → checked_time c ≡ ok n → c ≡ some (int (pos n))
checked_time-ok none n h = absurd (cc)
checked_time-ok (some (Claim.int (pos m))) n h = cc
checked_time-ok (some (Claim.int (negsuc m))) n h = absurd (cc)
checked_time-ok (some (Claim.text s)) n h = absurd (cc)
checked_time-ok (some (Claim.list vs)) n h = absurd (cc)
checked_time-ok (some Claim.logout_event) n h = absurd (cc)
checked_time-ok (some (Claim.other b)) n h = absurd (cc)

then_require :
    (r : Result ℕ) (p : ℕ → Bool)
    → (r >>= λ n. require (p n)) ≡ ok tt
    → (n : ℕ) × (r ≡ ok n) × (p n ≡ true)
then_require (ok n) p h = (n, refl, require-ok (p n) h)
then_require (err d) p h = absurd (cc)

check_not_before-ok :
    (claims : Claims) (now : ℕ)
    → check_not_before claims now ≡ ok tt
    → has "nbf" claims ≡ true
    → HasTime "nbf" (λ n. n ≤ now + 30) claims
check_not_before-ok claims now h k =
    let (n, e, t) =
      then_require (timestamp claims "nbf") (λ start. leb start (now + 30)) (rw k at h) in
    (n, checked_time-ok (lookup "nbf" claims) n e, leb→le n (now + 30) t)

check_expiry-ok :
    (claims : Claims) (issued now : ℕ)
    → check_expiry claims issued now ≡ ok tt
    → HasTime "exp" (λ n. (now < n) × (issued < n)) claims
check_expiry-ok claims issued now h =
    let (n, e, t) =
      then_require (timestamp claims "exp") (λ expiry. ltb now expiry && ltb issued expiry) h in
    let (a, b) = (&&_iff (ltb now n) (ltb issued n)).0 t in
    (n, checked_time-ok (lookup "exp" claims) n e, (ltb→lt now n a, ltb→lt issued n b))

check_claims-ok :
    (issuer audience : String) (logout : Bool) (now : ℕ) (claims given : Claims)
    → check_claims issuer audience logout now given ≡ ok claims
    → (given ≡ claims) × IsCurrent issuer audience logout now claims
unfolding check_claims
check_claims-ok issuer audience logout now claims given h =
    let (_, e1, h1) =
      then-ok
        (require
          (is_text issuer (lookup "iss" given) && audience_matches (lookup "aud" given) audience))
        _ claims h in
    let (issued, e2, h2) = then-ok (timestamp given "iat") _ claims h1 in
    let (_, e3, h3) = then-ok (require (leb issued (now + 30))) _ claims h2 in
    let (_, e4, h4) = then-ok (check_not_before given now) _ claims h3 in
    let (_, e5, h5) =
      then-ok (if not logout || has "exp" given then check_expiry given issued now else ok tt) _
        claims h4 in
    let parts =
      (&&_iff (is_text issuer (lookup "iss" given))
          (audience_matches (lookup "aud" given) audience)).0
        (require-ok _ e1) in
    let same = ok-injective given claims h5 in
    (
      same,
      subst (IsCurrent issuer audience logout now) same (record {
        of_issuer = parts.0;
        for_audience = parts.1;
        issued = (
          issued,
          checked_time-ok (lookup "iat" given) issued e2,
          leb→le issued (now + 30) (require-ok _ e3),
        );
        not_before = check_not_before-ok given now e4;
        expires = λ k. check_expiry-ok given issued now (rw k at e5);
      }),
    )

-- Claims that are accepted, of a token that a key in the cache verifies.
pub record IsSigned {K : Type 0} (jose : Jose K) (config : Config) (audience : String)
    (logout : Bool) (now : ℕ) (encoded : String) (s : Keys K) (claims : Claims) : Type 0 where
  pub kid : String
  pub key : K
  pub named : kid_of jose.header encoded ≡ ok kid
  pub cached : lookup kid s.keys ≡ some key
  pub verified : jose.decode encoded key ≡ some claims
  pub current : IsCurrent config.issuer audience logout now claims

or_denied-ok : {A : Type 0} (o : Option A) (a : A) → or_denied o ≡ ok a → o ≡ some a
or_denied-ok none a h = absurd (cc)
or_denied-ok (some b) a h = ap some (ok-injective b a h)

module _ {K : Type 0} (jose : Jose K) (config : Config) where
  -- Whatever the provider answers to a refresh of its keys: where `signed_claims` accepts a token,
  -- the key that its header names is in the cache and verifies it to these claims, which are of
  -- the configured issuer, for the audience, issued and valid at most thirty seconds ahead, and not
  -- expired; a logout token may leave the expiry out.
  pub signed_claims_sound :
      (audience : String) (logout : Bool) (jwks : Jwks) (now : ℕ) (encoded : String) (s t : Keys K)
      (claims : Claims)
      → signed_claims jose config audience logout jwks now encoded s ≡ (ok claims, t)
      → IsSigned jose config audience logout now encoded t claims
  unfolding signed_claims
  signed_claims_sound audience logout jwks now encoded s t claims h =
      let (kid, s1, e1, h1) = bind-ok (lift (kid_of jose.header encoded)) _ s claims t h in
      let (_, s2, _, h2) = bind-ok (renew jose jwks now kid) _ s1 claims t h1 in
      let (key, s3, e3, h3) = bind-ok (key_of kid) _ s2 claims t h2 in
      let (given, s4, e4, h4) =
        bind-ok (lift (or_denied (jose.decode encoded key))) _ s3 claims t h3 in
      let (same, current) =
        check_claims-ok config.issuer audience logout now claims given (ap (λ r. r.0) h4) in
      let cached = or_denied-ok (lookup kid s2.keys) key (ap (λ r. r.0) e3) in
      record {
        kid = kid;
        key = key;
        named = ap (λ r. r.0) e1;
        cached =
            subst (λ (u : Keys K). lookup kid u.keys ≡ some key)
              (ap (λ r. r.1) e3 ∙ ap (λ r. r.1) e4 ∙ ap (λ r. r.1) h4) cached;
        verified = or_denied-ok (jose.decode encoded key) given (ap (λ r. r.0) e4) ∙ ap some same;
        current = current;
      }
