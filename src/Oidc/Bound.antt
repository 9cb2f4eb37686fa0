-- ===== src/Oidc/Bound.antt =====
-- What a login is that `exchange` of packages/face-auth/src/facetech_auth/oidc.py lets in.
use factech.Base.{
  ℕ, ◌+◌, ◌≤◌, ◌<◌, Bool, true, false, not, ◌&&◌, ◌||◌, String, leb, ltb, ◌==◌, string_eq, lookup,
  &&_iff, ◌≡◌, ap, ◌∙◌, subst, arith,
}
use factech.Contracts.{Result, ok, ok-injective, denied, refuse}
use factech.Database.Tx.{bind-ok, deny-ok}
use factech.Oidc.{Jose, Config, Keys, Jwks, signed_claims}
use factech.Oidc.Checks.{
  Claims, is_text, is_text_or_absent, text_claim, text_claim_token, timestamp,
}
use factech.Oidc.Provider.{
  Introspection, is_same_token, has_several, is_other_hash, active_token, check_identity, confirm,
  exchange,
}
use factech.Oidc.Steps.{lift-ok, refused-ok, demanded-ok, neither}
use factech.Oidc.Sound.{HasTime, IsSigned, signed_claims_sound, checked_time-ok}

equal : (a b : String) → (a == b) ≡ true → a ≡ b
equal a b h = (string_eq.beq_iff a b).0 h

module _ {K : Type 0} (jose : Jose K) (config : Config) where
  -- An access token that is signed for the gateway, and that the provider says is active for the
  -- same subject and session.
  pub record IsActive (introspected : Result Introspection) (now : ℕ) (token : String) (t : Keys K)
      (sub sid : String) : Type 0 where
    pub claims : Claims
    pub answer : Introspection
    pub signed : IsSigned jose config config.audience false now token t claims
    pub has_sub : text_claim claims "sub" ≡ ok sub
    pub has_sid : text_claim claims "sid" ≡ ok sid
    pub for_client : is_text config.client_id (lookup "azp" claims) ≡ true
    pub introspects : introspected ≡ ok answer
    pub same : is_same_token config sub sid answer ≡ true
    pub unexpired : HasTime "exp" (λ n. now < n) answer.claims

  -- A login: an identity token for the gateway with the nonce of the attempt, of an authentication
  -- less than five minutes ago, and an active access token of the same subject and session.
  pub record IsBound (introspected : Result Introspection) (nonce : String) (now : ℕ)
      (token claims : Claims) (t : Keys K) : Type 0 where
    pub access : String
    pub identity : String
    pub sub : String
    pub sid : String
    pub before : Keys K
    pub has_access : text_claim_token token "access_token" ≡ ok access
    pub has_identity : text_claim_token token "id_token" ≡ ok identity
    pub signed : IsSigned jose config config.client_id false now identity before claims
    pub same_nonce : is_text nonce (lookup "nonce" claims) ≡ true
    pub recent : HasTime "auth_time" (λ n. (n ≤ now) × (now < n + 300)) claims
    pub has_sub : text_claim claims "sub" ≡ ok sub
    pub has_sid : text_claim claims "sid" ≡ ok sid
    pub active : IsActive introspected now access t sub sid

  active_token-IsActive :
      (jwks : Jwks) (introspected : Result Introspection) (now : ℕ) (token : String) (s t : Keys K)
      (found : Claims × String × String)
      → active_token jose config jwks introspected now token s ≡ (ok found, t)
      → IsActive introspected now token t found.1 found.2
  unfolding active_token
  active_token-IsActive jwks introspected now token s t found h =
      let (claims, u, e, h1) =
        bind-ok (signed_claims jose config config.audience false jwks now token) _ s found t h in
      let (sub, e2, h2) = lift-ok (text_claim claims "sub") _ u t found h1 in
      let (sid, e3, h3) = lift-ok (text_claim claims "sid") _ u t found h2 in
      let (for_client, h4) =
        demanded-ok (is_text config.client_id (lookup "azp" claims)) denied _ u t found h3 in
      let (answer, e5, h5) = lift-ok introspected _ u t found h4 in
      let (same, h6) = demanded-ok (is_same_token config sub sid answer) denied _ u t found h5 in
      let (expiry, e7, h7) = lift-ok (timestamp answer.claims "exp") _ u t found h6 in
      let (unexpired, h8) = refused-ok (leb expiry now) denied _ u t found h7 in
      let cache = ap (λ r. r.1) h8 in
      subst (λ (f : Claims × String × String). IsActive introspected now token t f.1 f.2)
        (ok-injective (claims, sub, sid) found (ap (λ r. r.0) h8))
        (record {
          claims = claims;
          answer = answer;
          signed =
              subst (λ v. IsSigned jose config config.audience false now token v claims) cache
                (signed_claims_sound jose config config.audience false jwks now token s u claims e);
          has_sub = e2;
          has_sid = e3;
          for_client = for_client;
          introspects = e5;
          same = same;
          unexpired = (
            expiry,
            checked_time-ok (lookup "exp" answer.claims) expiry e7,
            ground (arith, unexpired),
          );
        })

  -- What `check_identity` has checked, where it returned.
  abbrev IsRecent : String → ℕ → Claims → Type 0
  IsRecent nonce now claims =
      (is_text nonce (lookup "nonce" claims) ≡ true)
      × HasTime "auth_time" (λ n. (n ≤ now) × (now < n + 300)) claims

  check_identity-IsRecent :
      (nonce access : String) (now : ℕ) (claims : Claims) (s t : Keys K)
      → check_identity jose config nonce access now claims s ≡ (ok tt, t)
      → IsRecent nonce now claims × (s ≡ t)
  check_identity-IsRecent nonce access now claims s t h =
      let (a, h1) =
        demanded-ok
          (is_text nonce (lookup "nonce" claims)
            && is_text_or_absent config.client_id (lookup "azp" claims))
          denied _ s t tt h in
      let same =
        (&&_iff (is_text nonce (lookup "nonce" claims))
            (is_text_or_absent config.client_id (lookup "azp" claims))).0
          a in
      let (b, h2) =
        refused-ok
          (has_several (lookup "aud" claims)
            && not (is_text config.client_id (lookup "azp" claims)))
          denied _ s t tt h1 in
      let (n, e, h3) = lift-ok (timestamp claims "auth_time") _ s t tt h2 in
      let (c, h4) =
        refused-ok (ltb now n || leb (n + 300) now) (refuse "RECENT_LOGIN_REQUIRED" 403) _ s t tt
          h3 in
      let (_, cache) = deny-ok (is_other_hash (jose.at_hash access) claims) denied s t h4 in
      let (x, y) = neither (ltb now n) (leb (n + 300) now) c in
      (
        (
          same.0,
          (
            n,
            checked_time-ok (lookup "auth_time" claims) n e,
            (ground (arith, x), ground (arith, y)),
          ),
        ),
        cache,
      )

  -- The identity token names the subject and session of the active access token.
  record IsConfirmed (introspected : Result Introspection) (now : ℕ) (access : String)
      (claims : Claims) (t : Keys K) : Type 0 where
    pub sub : String
    pub sid : String
    pub has_sub : text_claim claims "sub" ≡ ok sub
    pub has_sid : text_claim claims "sid" ≡ ok sid
    pub active : IsActive introspected now access t sub sid

  confirm-IsConfirmed :
      (jwks : Jwks) (introspected : Result Introspection) (now : ℕ) (access : String)
      (token claims : Claims) (s t : Keys K) (both : Claims × Claims)
      → confirm jose config jwks introspected now access token claims s ≡ (ok both, t)
      → IsConfirmed introspected now access claims t × ((token, claims) ≡ both)
  unfolding confirm
  confirm-IsConfirmed jwks introspected now access token claims s t both h =
      let (active, w, e1, h1) =
        bind-ok (active_token jose config jwks introspected now access) _ s both t h in
      let (sub, e2, h2) = lift-ok (text_claim claims "sub") _ w t both h1 in
      let (sid, e3, h3) = lift-ok (text_claim claims "sid") _ w t both h2 in
      let (same, h4) = demanded-ok (sub == active.1 && sid == active.2) denied _ w t both h3 in
      let (_, _, h5) = lift-ok (text_claim_token token "refresh_token") _ w t both h4 in
      let (x, y) = (&&_iff (sub == active.1) (sid == active.2)).0 same in
      let found = active_token-IsActive jwks introspected now access s w active e1 in
      (
        record {
          sub = active.1;
          sid = active.2;
          has_sub = e2 ∙ ap ok (equal sub active.1 x);
          has_sid = e3 ∙ ap ok (equal sid active.2 y);
          active =
              subst (λ u. IsActive introspected now access u active.1 active.2) (ap (λ r. r.1) h5)
                found;
        },
        ok-injective (token, claims) both (ap (λ r. r.0) h5),
      )

  -- Whatever the provider answers: where `exchange` lets a login in, the identity token is signed for
  -- the gateway, carries the nonce of the attempt and an authentication less than five minutes old,
  -- and the access token is signed, unexpired and, by introspection, active for the same subject
  -- and the same provider session.
  pub exchange_sound :
      (jwks jwks' : Jwks) (introspected : Result Introspection) (nonce : String) (now : ℕ)
      (answered : Result (Bool × Claims)) (s t : Keys K) (token claims : Claims)
      → exchange jose config jwks jwks' introspected nonce now answered s ≡ (ok (token, claims), t)
      → IsBound introspected nonce now token claims t
  unfolding exchange
  exchange_sound jwks jwks' introspected nonce now answered s t token claims h =
      let both : Claims × Claims = (token, claims) in
      let (answer, _, h1) = lift-ok answered _ s t both h in
      let (_, h2) = demanded-ok answer.0 denied _ s t both h1 in
      let (access, e3, h3) = lift-ok (text_claim_token answer.1 "access_token") _ s t both h2 in
      let (identity, e4, h4) = lift-ok (text_claim_token answer.1 "id_token") _ s t both h3 in
      let (given, u, e5, h5) =
        bind-ok (signed_claims jose config config.client_id false jwks now identity) _ s both t
          h4 in
      let (_, v, e6, h6) =
        bind-ok (check_identity jose config nonce access now given) _ u both t h5 in
      let (confirmed, same) =
        confirm-IsConfirmed jwks' introspected now access answer.1 given v t both h6 in
      let (recent, _) = check_identity-IsRecent nonce access now given u v e6 in
      subst (λ (p : Claims × Claims). IsBound introspected nonce now p.0 p.1 t) same
        (record {
          access = access;
          identity = identity;
          sub = confirmed.sub;
          sid = confirmed.sid;
          before = u;
          has_access = e3;
          has_identity = e4;
          signed =
              signed_claims_sound jose config config.client_id false jwks now identity s u given e5;
          same_nonce = recent.0;
          recent = recent.1;
          has_sub = confirmed.has_sub;
          has_sid = confirmed.has_sid;
          active = confirmed.active;
        })
