-- ===== src/Sessions/Sound.antt =====
-- What an authenticated request is: `authenticate` of sessions.py down to the rows that it read.
use factech.Base.{
  ℕ, ◌+◌, ◌<◌, max, Bool, true, false, not, ◌||◌, Option, some, String, ◌==◌, string_eq, eq_iff,
  nat_beq, length, filter, Bool-cases, Option-cases, inl, inr, ◌≡◌, refl, sym, subst, ap, ◌∙◌,
  arith, if◌then◌else◌,
}
use factech.Contracts.{Result, ok, denied, ok-injective}
use factech.Policy.{Principal, given}
use factech.Database.{Db, Actor, Session, first, update_where, first-update_where, first-eq_some}
use factech.Database.Tx.{pure, deny_if, run, run-ok, bind-ok, deny-ok}
use factech.Accounts.{has_id, is_live, actor_of, actor_lock, session, touch, or_empty}
use factech.Sessions.{
  Outside, Claims, Authenticated, is_valid, valid, is_current, principal_of, touched, reload, lift,
  named, opened_token, checked_token, authenticate,
}

-- What the database says of a request that has been let through.
pub record IsAuthenticated {F : Type 0} (o : Outside) (again : ℕ) (auth : Authenticated) (db : Db F)
    : Type 0 where
  pub row : Session
  pub actor : Actor
  pub stored : session auth.session.id db ≡ some row
  pub live : row.active ≡ true
  pub unexpired : again < row.expires_at
  pub recent : again < row.created_at + 28800
  pub account : actor_of row.actor_id db ≡ some actor
  pub active : actor.active ≡ true
  pub epoch : actor.epoch ≡ row.epoch
  pub token : o.digest auth.token ≡ row.token_hash
  pub who :
      (auth.principal.actor_id ≡ actor.id)
      × (auth.principal.tenant_id ≡ actor.tenant)
      × (auth.principal.roles ≡ actor.roles)

-- The row of a session that has been checked, or that row touched.
abbrev pub IsSeen : ℕ → Session → Session → Type 0
IsSeen again row seen =
    (seen.active ≡ true)
    × (again < seen.expires_at)
    × (again < seen.created_at + 28800)
    × (seen.actor_id ≡ row.actor_id)
    × (seen.epoch ≡ row.epoch)
    × (seen.token_hash ≡ row.token_hash)

valid-IsSeen : (again : ℕ) (row : Session) → is_valid again row ≡ true → IsSeen again row row
unfolding is_valid
valid-IsSeen again row g =
    (ground (arith, g), ground (arith, g), ground (arith, g), refl, refl, refl)

abbrev touched_row : ℕ → Session → Session
touched_row later row =
    if is_live later row.id row then record row { touched_at = max row.touched_at later } else row

touched-IsSeen :
    (later again : ℕ) (row : Session)
    → is_valid again row ≡ true
    → IsSeen again row (touched_row later row)
touched-IsSeen later again row g = elim (Bool-cases (is_live later row.id row)) [
  | inl e ↦ rw e (valid-IsSeen again row g)
  | inr e ↦ rw e (valid-IsSeen again row g)
]

is_current-parts :
    (o : Outside) (token : String) (claims : Claims) (row : Session) (actor : Actor)
    → is_current o token claims row actor ≡ true
    → (actor.active ≡ true) × (actor.epoch ≡ row.epoch) × (o.digest token ≡ row.token_hash)
unfolding is_current
is_current-parts o token claims row actor h = (
  ground (arith, h),
  ground (arith, h),
  ground (arith, h, eq_iff (o.digest token) row.token_hash),
)

module _ {F : Type 0} where
  pair-ok :
      {A : Type 0} (a b : A) (s t : Db F)
      → Path (Result A × Db F) (ok a, s) (ok b, t)
      → Path (A × Db F) (a, s) (b, t)
  pair-ok a b s t h = rw (ok-injective a b (ap (λ r. r.0) h), ap (λ r. r.1) h) refl

  -- The update of `touch`.
  abbrev touch_rows : String → ℕ → Db F → Db F
  touch_rows session_id now db = record db {
    sessions =
        update_where (is_live now session_id) (λ s. record s { touched_at = max s.touched_at now })
          db.sessions;
  }

  touch-ok :
      (session_id : String) (now : ℕ) (db next : Db F)
      → touch session_id now db ≡ (ok tt, next)
      → touch_rows session_id now db ≡ next
  unfolding touch session actor_lock
  touch-ok session_id now db next h = elim (Option-cases (first (has_id session_id) db.sessions)) [
    | inl e ↦ let h' = rw e at h in absurd (cc)
    | inr (s, e) ↦ elim (Option-cases (actor_of s.actor_id db)) [
      | inl f ↦ let h' = rw (e, f) at h in absurd (cc)
      | inr (a, f) ↦
          let (_, u, g, k) =
            bind-ok (deny_if (not a.active || not (nat_beq a.epoch s.epoch)) denied) _ db tt next
              (rw (e, f) at h) in
          let same = (deny-ok (not a.active || not (nat_beq a.epoch s.epoch)) denied db u g).1 in
          ap (touch_rows session_id now) same
          ∙ (deny-ok (not (nat_beq (length (filter (is_live now session_id) u.sessions)) 1)) denied
              _ next k).1
    ]
  ]

  -- What the second half of `authenticate` has seen before it touches the session.
  abbrev IsReloaded : Outside → String × Claims → ℕ → Session → Actor → Db F → Type 0
  IsReloaded o answer again row actor db =
      (is_valid again row ≡ true)
      × (actor_of row.actor_id db ≡ some actor)
      × (is_current o answer.0 answer.1 row actor ≡ true)

  -- What `authenticate` makes of the last session.
  returned :
      (o : Outside) (touches : Bool) (row : Session) (later : ℕ) (db next : Db F)
      (auth : Authenticated) (token : String) (actor : Actor) (final : Session) (u : Db F)
      → touched touches row later db ≡ (ok final, u)
      → Path
          (Result Authenticated × Db F)
          (ok (record { principal = principal_of actor final; session = final; token = token }), u)
          (ok auth, next)
      → (touched touches row later db ≡ (ok auth.session, next))
        × (auth.token ≡ token)
        × (auth.principal ≡ principal_of actor auth.session)
  returned o touches row later db next auth token actor final u m n =
      let same : Path Authenticated
          (record { principal = principal_of actor final; session = final; token = token }) auth =
        ok-injective _ auth (ap (λ r. r.0) n) in
      (
        subst (λ d. touched touches row later db ≡ (ok auth.session, d)) (ap (λ r. r.1) n)
            (subst (λ x. touched touches row later db ≡ (ok x, u))
              (ap (λ (a : Authenticated). a.session) same) m),
        sym (ap (λ (a : Authenticated). a.token) same),
        sym (ap (λ (a : Authenticated). a.principal) same)
            ∙ ap (principal_of actor) (ap (λ (a : Authenticated). a.session) same),
      )

  reload-ok :
      (o : Outside) (touches : Bool) (s : Session) (token : String) (claims : Claims)
      (again later : ℕ) (db next : Db F) (auth : Authenticated)
      → reload o touches s (token, claims) again later db ≡ (ok auth, next)
      → (row : Session) × (actor : Actor) × (session s.id db ≡ some row)
        × IsReloaded o (token, claims) again row actor db
        × ((touched touches row later db ≡ (ok auth.session, next))
            × (auth.token ≡ token)
            × (auth.principal ≡ principal_of actor auth.session))
  unfolding reload
  reload-ok o touches s token claims again later db next auth h =
      elim (Option-cases (session s.id db)) [
        | inl e ↦ let h' = rw e at h in absurd (cc)
        | inr (row, e) ↦ elim (Bool-cases (is_valid again row)) [
          | inr g ↦ let h' = rw (e, g) at h in absurd (cc)
          | inl g ↦ elim (Option-cases (actor_of row.actor_id db)) [
            | inl f ↦ let h' = rw (e, g, f) at h in absurd (cc)
            | inr (actor, f) ↦ elim (Bool-cases (is_current o token claims row actor)) [
              | inr k ↦ let h' = rw (e, g, f, k) at h in absurd (cc)
              | inl k ↦
                  let (final, u, m, n) =
                    bind-ok (touched touches row later) _ db auth next (rw (e, g, f, k) at h) in
                  (
                    row,
                    actor,
                    e,
                    (g, f, k),
                    returned o touches row later db next auth token actor final u m n,
                  )
            ]
          ]
        ]
      ]

  -- The row of the session as it is read after `touched`.
  touched-rows :
      (touches : Bool) (again later : ℕ) (row final : Session) (db next : Db F)
      → touched touches row later db ≡ (ok final, next)
      → session row.id db ≡ some row
      → is_valid again row ≡ true
      → (seen : Session) × (session final.id next ≡ some seen)
        × IsSeen again row seen
        × (next.actors ≡ db.actors)
  unfolding session
  touched-rows false again later row final db next h e g =
      subst
        (λ (r : Session × Db F).
          (seen : Session) × (session r.0.id r.1 ≡ some seen)
          × IsSeen again row seen
          × (r.1.actors ≡ db.actors))
        (pair-ok row final db next h) (row, e, valid-IsSeen again row g, refl)
  touched-rows true again later row final db next h e g =
      let (_, u, m, n) = bind-ok (run (touch row.id later)) _ db final next h in
      let same = touch-ok row.id later db u (run-ok (touch row.id later) db tt u m) in
      subst
        (λ (r : Session × Db F).
          (seen : Session) × (session r.0.id r.1 ≡ some seen)
          × IsSeen again row seen
          × (r.1.actors ≡ db.actors))
        (pair-ok (record row { touched_at = later }) final u next n)
        (subst
          (λ (d : Db F).
            (seen : Session) × (session row.id d ≡ some seen)
            × IsSeen again row seen
            × (d.actors ≡ db.actors))
          same (touched_row later row, seen_row, touched-IsSeen later again row g, refl))
    where
      seen_row :
          first (has_id row.id) (touch_rows row.id later db).sessions ≡ some (touched_row later row)
      seen_row =
          rw
            (
              first-update_where (has_id row.id) (is_live later row.id)
                  (λ s. record s { touched_at = max s.touched_at later }) db.sessions (λ s. refl),
              e,
            )
            refl

  -- A call that returns has come to its second half.
  authenticate-ok :
      (o : Outside) (races : ℕ → Db F → Db F) (cookie session_id access_token : Option String)
      (touches : Bool) (at refreshed again later : ℕ) (db next : Db F) (auth : Authenticated)
      → authenticate o races cookie session_id access_token touches (at, refreshed, again, later) db
        ≡ (ok auth, next)
      → (s : Session) × (answer : String × Claims) × (mid : Db F) × (reload o touches s answer again
            later mid
          ≡ (ok auth, next))
  unfolding authenticate
  authenticate-ok o races cookie session_id access_token touches at refreshed again later db next
        auth h =
      let (row, d1, e1, h1) = bind-ok (named o cookie session_id access_token) _ db auth next h in
      let (s, d2, e2, h2) = bind-ok (lift (valid at row)) _ d1 auth next h1 in
      let (token, d3, e3, h3) =
        bind-ok
          (if given access_token
            then pure (or_empty access_token)
            else opened_token o s (o.open_tokens s))
          _ d2 auth next h2 in
      let (u, d4, e4, h4) =
        bind-ok (deny_if (not (o.digest token == s.token_hash)) denied) _ d3 auth next h3 in
      let (answer, d5, e5, h5) =
        bind-ok (checked_token o races (o.active_token token) access_token token s refreshed) _ d4
          auth next h4 in
      (s, answer, races 1 d5, h5)

  own_id :
      (session_id : String) (db : Db F) (row : Session)
      → session session_id db ≡ some row
      → session row.id db ≡ some row
  unfolding session
  own_id session_id db row h =
      subst (λ i. first (has_id i) db.sessions ≡ some row)
        (sym ((eq_iff row.id session_id).0 (first-eq_some (has_id session_id) db.sessions row h).1))
        h

  same_account :
      (i j : String) (db next : Db F) (actor : Actor)
      → i ≡ j
      → next.actors ≡ db.actors
      → actor_of j db ≡ some actor
      → actor_of i next ≡ some actor
  same_account i j db next actor e actors h = rw (e, actors) h

  -- When `authenticate` lets a request through, whatever was committed while it waited for the
  -- provider: in the database it leaves, the session that it returns is active and has not expired at
  -- its second reading of the clock, the session's account is active and of the session's epoch, the
  -- token it returns is the session's, and the principal is that account.
  pub authenticate_sound :
      (o : Outside) (races : ℕ → Db F → Db F) (cookie session_id access_token : Option String)
      (touches : Bool) (at refreshed again later : ℕ) (db next : Db F) (auth : Authenticated)
      → authenticate o races cookie session_id access_token touches (at, refreshed, again, later) db
        ≡ (ok auth, next)
      → IsAuthenticated o again auth next
  unfolding principal_of
  authenticate_sound o races cookie session_id access_token touches at refreshed again later db next
        auth h =
      let (s, answer, mid, k) =
        authenticate-ok o races cookie session_id access_token touches at refreshed again later db
          next auth h in
      let (row, actor, stored, (live, account, current), (final, same_token, principal)) =
        reload-ok o touches s answer.0 answer.1 again later mid next auth k in
      let (seen, stored', (active, unexpired, recent, same_actor, same_epoch, same_hash), actors) =
        touched-rows touches again later row auth.session mid next final
          (own_id s.id mid row stored) live in
      let (a, b, c) = is_current-parts o answer.0 answer.1 row actor current in
      record {
        row = seen;
        actor = actor;
        stored = stored';
        live = active;
        unexpired = unexpired;
        recent = recent;
        account = same_account seen.actor_id row.actor_id mid next actor same_actor actors account;
        active = a;
        epoch = b ∙ sym same_epoch;
        token = ap o.digest same_token ∙ c ∙ sym same_hash;
        who = (
          ap (λ (p : Principal). p.actor_id) principal,
          ap (λ (p : Principal). p.tenant_id) principal,
          ap (λ (p : Principal). p.roles) principal,
        );
      }
