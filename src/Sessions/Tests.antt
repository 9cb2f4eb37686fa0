-- ===== src/Sessions/Tests.antt =====
-- A provider that knows one token, and the sample database.
use factech.Base.{
  ℕ, true, false, none, some, [], ◌∷◌, String, ◌==◌, string_eq, if◌then◌else◌, ◌≡◌, refl,
}
use factech.Contracts.{ok, err, denied, unavailable}
use factech.Database.{Db, first, update_where}
use factech.Database.Tx.{run}
use factech.Database.Sample.{sample, session_one, actor_one}
use factech.Accounts.{session, session_by_cookie, actor_of, actor_lock, touch, is_live}
use factech.Sessions.{
  Outside, Claims, Answer, Authenticated, is_valid, is_current, principal_of, reload, authenticate,
  csrf, logout,
}
use factech.Sessions.Sound.{IsAuthenticated, authenticate_sound}
use factech.Sessions.Logout.{IsEnded, logout_ends}

abbrev claims_one : Claims
claims_one = record { iss = "idp"; sub = "s1"; sid = "v1"; auth_time = 1900 }

-- A text stands for its hash, and the hashes of the sample are those of the texts here.
abbrev digest_one : String → String
digest_one s =
    if s == "cookie" then "w1" else if s == "token" then "h1" else if s == "csrf" then "x1" else s

abbrev outside_one : Outside
outside_one = record {
  issuer = "idp";
  digest = digest_one;
  open_tokens = λ s. ok (record { access_token = "token"; others = [] });
  seal = λ sid t. t.access_token;
  authorization_url = λ state nonce verifier register. ok state;
  exchange =
      λ code attempt. Answer.granted (record { access_token = "token"; others = [] }, claims_one);
  active_token =
      λ token. if token == "stale" then Answer.refused denied else Answer.granted claims_one;
  refresh = λ t. Answer.granted (record { access_token = "token"; others = [] });
  remote_logout = λ t. err unavailable;
  logout_claims = λ token. err denied;
}

abbrev let_through : Authenticated
let_through = record {
  principal = principal_of actor_one (record session_one { touched_at = 2002 });
  session = record session_one { touched_at = 2002 };
  token = "token";
}

abbrev touched_sample : Db ℕ
touched_sample = record sample { sessions = record session_one { touched_at = 2002 } ∷ [] }

authenticated :
    authenticate outside_one
      (λ n db. db)
      (some "cookie")
      none
      none
      true
      (2000, 2000, 2001, 2002)
      sample
    ≡ (ok let_through, touched_sample)
unfolding authenticate reload is_valid is_current run touch session session_by_cookie actor_lock
    first update_where is_live
authenticated = refl

-- A logout while the provider is asked.
raced :
    (authenticate outside_one
      (λ n db. record db { sessions = record session_one { active = false } ∷ [] })
      (some "cookie")
      none
      none
      true
      (2000, 2000, 2001, 2002)
      sample).0
    ≡ err denied
unfolding authenticate reload is_valid is_current run touch session session_by_cookie actor_lock
    first update_where is_live
raced = refl

authenticate_sound_example : IsAuthenticated outside_one 2001 let_through touched_sample
authenticate_sound_example =
    authenticate_sound outside_one (λ n db. db) (some "cookie") none none true 2000 2000 2001 2002
      sample touched_sample let_through authenticated

cookie_found : session_by_cookie "w1" sample ≡ some session_one
unfolding session_by_cookie first
cookie_found = refl

id_found : session "k1" sample ≡ some session_one
unfolding session first
id_found = refl

account_found : actor_of "u1" sample ≡ some actor_one
unfolding first
account_found = refl

csrf_passes : csrf outside_one session_one (some "csrf") ≡ ok tt
unfolding csrf
csrf_passes = refl

logout_ends_example :
    IsEnded "k1" (logout outside_one (some "cookie") (some "csrf") 2000 "q1" sample)
logout_ends_example =
    logout_ends outside_one (some "cookie") (some "csrf") 2000 "q1" sample session_one actor_one
      cookie_found id_found account_found csrf_passes
