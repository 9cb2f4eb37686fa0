-- ===== src/Accounts/Logins.antt =====
-- What a provider's return to the gateway finds: `consume_login` of postgres.py.
use factech.Base.{
  ℕ, ◌<◌, ◌≤◌, true, Option, none, some, String, string_eq, eq_iff, Member, ◌≡◌, arith, ap,
}
use factech.Contracts.{ok}
use factech.Database.{Db, Login, first-eq_some, first-delete_where}
use factech.Accounts.{is_attempt, consume_login}

-- What is said of an attempt when it is found.
abbrev pub IsReturned : String → String → ℕ → Login → Type 0
IsReturned state_hash browser_hash now l =
    (l.state_hash ≡ state_hash) × (l.browser_hash ≡ browser_hash) × (now < l.expires_at)

attempt-parts :
    (state_hash browser_hash : String) (now : ℕ) (l : Login)
    → is_attempt state_hash browser_hash now l ≡ true
    → IsReturned state_hash browser_hash now l
attempt-parts state_hash browser_hash now l h = (
  ground (arith, h, eq_iff l.state_hash state_hash),
  ground (arith, h, eq_iff l.browser_hash browser_hash),
  ground (arith, h),
)

attempt_earlier :
    (state_hash browser_hash : String) (now later : ℕ) (l : Login)
    → now ≤ later
    → is_attempt state_hash browser_hash later l ≡ true
    → is_attempt state_hash browser_hash now l ≡ true
attempt_earlier state_hash browser_hash now later l le h = ground (arith, le, h)

module _ {F : Type 0} where
  -- A login attempt that is found was begun with this state in this browser and has not expired, it
  -- is a row of the table; in the table that this leaves, no attempt of the state and the browser is found
  -- at any later time.
  pub consume_login_once :
      (state_hash browser_hash : String) (now later : ℕ) (db : Db F) (l : Login)
      → now ≤ later
      → (consume_login state_hash browser_hash now db).0 ≡ ok (some l)
      → IsReturned state_hash browser_hash now l
        × Member l db.logins
        × ((consume_login state_hash browser_hash later
              (consume_login state_hash browser_hash now db).1).0
            ≡ ok none)
  unfolding consume_login
  consume_login_once state_hash browser_hash now later db l le h =
      let (m, q) =
        first-eq_some (is_attempt state_hash browser_hash now) db.logins l (some_row h) in
      (
        attempt-parts state_hash browser_hash now l q,
        m,
        ap ok (
            first-delete_where (is_attempt state_hash browser_hash later)
              (is_attempt state_hash browser_hash now) db.logins
              (λ k. attempt_earlier state_hash browser_hash now later k le)),
      )
    where
      some_row : {x y : Option Login} → ok x ≡ ok y → x ≡ y
      some_row e = cc
