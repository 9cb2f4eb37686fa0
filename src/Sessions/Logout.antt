-- ===== src/Sessions/Logout.antt =====
-- What `logout` of sessions.py comes to, with the provider there or not.
use factech.Base.{
  ℕ, Bool, true, false, Option, some, [], ◌∷◌, ◌++◌, String, ◌==◌, string_eq, eq_iff, any,
  Bool-cases, inl, inr, ◌⊎◌, ◌≡◌, refl, ap,
}
use factech.Contracts.{Denied, Result, ok, err}
use factech.Database.{Db, Actor, Session, first-eq_some, first-update_where, any-insert_new}
use factech.Database.Tx.{run}
use factech.Accounts.{
  has_id, of_session, actor_of, actor_lock, session, session_by_cookie, end_session, enqueue, event,
  revoke_and_enqueue, logout_delivered, or_empty,
}
use factech.Accounts.Status.{ended, of_row, status, status_in}
use factech.Sessions.{Outside, csrf, deliver_logout, delivered, logout}

Result-cases : {A : Type 0} (r : Result A) → ((d : Denied) × (r ≡ err d)) ⊎ ((a : A) × (r ≡ ok a))
Result-cases (err d) = inl (d, refl)
Result-cases (ok a) = inr (a, refl)

module _ {F : Type 0} where
  -- The database after the revocation.
  gone : String → Option String → ℕ → String → Db F → Db F
  gone session_id actor_id now request_id db =
      record (enqueue session_id (end_session session_id db)) {
        audit = db.audit ++ event request_id actor_id "session.revoke" (some session_id) now ∷ [];
      }

  revoke_and_enqueue-gone :
      (session_id : String) (now : ℕ) (request_id : String) (db : Db F) (s : Session) (a : Actor)
      → session session_id db ≡ some s
      → actor_of s.actor_id db ≡ some a
      → run (revoke_and_enqueue session_id now request_id) db
        ≡ (ok tt, gone session_id (some s.actor_id) now request_id db)
  unfolding run revoke_and_enqueue actor_lock gone
  revoke_and_enqueue-gone session_id now request_id db s a h k = rw (h, k) refl

  -- The session has ended, and the outbox holds it.
  IsQueued : String → Db F → Type 0
  IsQueued session_id db =
      (status session_id db ≡ ended) × (any (of_session session_id) db.outbox ≡ true)

  gone-session :
      (session_id : String) (actor_id : Option String) (now : ℕ) (request_id : String) (db : Db F)
      (s : Session)
      → session session_id db ≡ some s
      → session session_id (gone session_id actor_id now request_id db)
        ≡ some (record s { active = false })
  unfolding session gone
  gone-session session_id actor_id now request_id db s h =
      rw
        (
          first-update_where (has_id session_id) (has_id session_id)
              (λ t. record t { active = false }) db.sessions (λ t. refl),
          h,
          (first-eq_some (has_id session_id) db.sessions s h).1,
        )
        refl

  gone-IsQueued :
      (session_id : String) (actor_id : Option String) (now : ℕ) (request_id : String) (db : Db F)
      (s : Session)
      → session session_id db ≡ some s
      → IsQueued session_id (gone session_id actor_id now request_id db)
  unfolding IsQueued session gone status_in
  gone-IsQueued session_id actor_id now request_id db s h = (
    ap of_row (gone-session session_id actor_id now request_id db s h),
    any-insert_new (of_session session_id) _ db.outbox ((eq_iff session_id session_id).1 refl),
  )

  -- How a delivery ends.
  abbrev pub IsEnded : String → Result Bool × Db F → Type 0
  IsEnded session_id r =
      (status session_id r.1 ≡ ended)
      × ((r.0 ≡ ok true) ⊎ (any (of_session session_id) r.1.outbox ≡ true))

  -- `except Unavailable`, after a delivery that failed.
  failed-IsEnded :
      (session_id : String) (d : Denied) (db : Db F)
      → IsQueued session_id db
      → IsEnded session_id (delivered (err d, db))
  unfolding IsQueued
  failed-IsEnded session_id d db (e, q) = elim (Bool-cases (d.code == "DEPENDENCY_UNAVAILABLE")) [
    | inl f ↦ rw f (e, inr q)
    | inr f ↦ rw f (e, inr q)
  ]

  heard :
      (session_id other : String) (db : Db F)
      → IsQueued session_id db
      → IsEnded session_id (ok true, logout_delivered other db)
  unfolding IsQueued logout_delivered
  heard session_id other db (e, q) = (e, inl refl)

  deliver_logout-IsEnded :
      (o : Outside) (s t : Session) (db : Db F)
      → session s.id db ≡ some (record t { active = false })
      → IsQueued s.id db
      → IsEnded s.id (delivered (deliver_logout o s db))
  unfolding deliver_logout
  deliver_logout-IsEnded o s t db h queued =
      elim (Result-cases (o.open_tokens (record t { active = false }))) [
        | inl (d, e) ↦ rw (h, e) (failed-IsEnded s.id d db queued)
        | inr (document, e) ↦ elim (Result-cases (o.remote_logout document)) [
          | inl (d, f) ↦ rw (h, e, f) (failed-IsEnded s.id d db queued)
          | inr (_, f) ↦ rw (h, e, f) (heard s.id t.id db queued)
        ]
      ]

  -- A logout ends the session, whether the provider can be reached or not; and either the provider
  -- has heard of it, or the outbox holds it for a later delivery.
  pub logout_ends :
      (o : Outside) (cookie csrf_token : Option String) (now : ℕ) (request_id : String) (db : Db F)
      (s : Session) (a : Actor)
      → session_by_cookie (o.digest (or_empty cookie)) db ≡ some s
      → session s.id db ≡ some s
      → actor_of s.actor_id db ≡ some a
      → csrf o s csrf_token ≡ ok tt
      → IsEnded s.id (logout o cookie csrf_token now request_id db)
  unfolding logout
  logout_ends o cookie csrf_token now request_id db s a by_cookie by_id account allowed =
      let mid = gone s.id (some s.actor_id) now request_id db in
      rw (by_cookie, allowed, revoke_and_enqueue-gone s.id now request_id db s a by_id account)
        (deliver_logout-IsEnded o s s mid
          (gone-session s.id (some s.actor_id) now request_id db s by_id)
          (gone-IsQueued s.id (some s.actor_id) now request_id db s by_id))
