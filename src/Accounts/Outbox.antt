-- ===== src/Accounts/Outbox.antt =====
-- The outbox of logouts that the provider is to hear of: leases, retries and what a worker is given.
use factech.Base.{
  ℕ, ◌+◌, ◌≤◌, ◌<◌, ◌^◌, min, Bool, true, false, not, ◌&&◌, List, String, ◌==◌, string_eq, eq_iff,
  any, filter, length, take, leb, Member, Member-filter, filter-Member, Member-take, Member-of_any,
  any-Member, take-eq_of_length, length-filter-le, All, All-Member, Bool-cases, inl, inr, ◌≡◌, sym,
  subst, arith, if◌then◌else◌,
}
use factech.Database.{
  Db, Session, Logout, update_where, All-updated, Member-update_where, length-update_where,
}
use factech.Accounts.{has_id, of_session, is_due, is_one, claim_logouts, retry_logout_later}

-- No due row of the sessions that were claimed.
abbrev IsHeld : List Logout → ℕ → Logout → Type 0
IsHeld rows later l = is_one rows l.session_id ≡ true → is_due later l ≡ false

held :
    (rows : List Logout) (now later : ℕ) (table : List Logout)
    → later < now + 30
    → All (IsHeld rows later) (
        update_where
          (λ l. is_one rows l.session_id)
          (λ l. record l { lease_until = now + 30; attempts = l.attempts + 1 })
          table)
held rows now later table lt =
    All-updated (IsHeld rows later) (λ l. is_one rows l.session_id)
      (λ l. record l { lease_until = now + 30; attempts = l.attempts + 1 }) table
      (λ l q e. ground (arith, lt)) (λ l q e. absurd (cc))

-- Rows that are due and held are of other sessions.
clash : {b : Bool} → b ≡ false → b ≡ true → ⊥
clash e d = cc

none_held :
    (rows table : List Logout) (order : List Logout → List Logout) (n later : ℕ)
    (session_id : String)
    → ((xs : List Logout) (x : Logout) → Member x (order xs) → Member x xs)
    → All (IsHeld rows later) table
    → is_one rows session_id ≡ true
    → is_one (take n (order (filter (is_due later) table))) session_id ≡ false
none_held rows table order n later session_id sorts h one =
    elim (Bool-cases (is_one (take n (order (filter (is_due later) table))) session_id)) [
      | inl e ↦
          let (l, m, q) = Member-of_any (of_session session_id) _ e in
          let (k, due) = Member-filter (is_due later) table (sorts _ l (Member-take n _ m)) in
          absurd (
            clash
              (All-Member (IsHeld rows later) h k (
                subst (λ i. is_one rows i ≡ true) (sym ((eq_iff l.session_id session_id).0 q)) one))
              due)
      | inr e ↦ e
    ]

no_session :
    (rows : List Logout) (session_id : String) (table : List Session)
    → is_one rows session_id ≡ false
    → any (has_id session_id) (filter (λ (s : Session). is_one rows s.id && not s.active) table)
      ≡ false
no_session rows session_id table absent =
    elim (Bool-cases (
      any (has_id session_id) (filter (λ (s : Session). is_one rows s.id && not s.active) table))) [
        | inl e ↦
            let (s, m, q) = Member-of_any (has_id session_id) _ e in
            let (k, t) =
              Member-filter (λ (s : Session). is_one rows s.id && not s.active) table m in
            absurd (
              clash (subst (λ i. is_one rows i ≡ false) (sym ((eq_iff s.id session_id).0 q)) absent)
                (ground arith))
        | inr e ↦ e
      ]

-- What a failed delivery leaves of a row.
abbrev postponed : ℕ → Logout → Logout
postponed now l = record l { lease_until = 0; next_attempt = now + min 300 (2 ^ min l.attempts 8) }

postponed-is_due :
    (now later : ℕ) (l : Logout) → now + 300 ≤ later → is_due later (postponed now l) ≡ true
postponed-is_due now later l h = bound now later (2 ^ min l.attempts 8) h
  where
    bound :
        (now later n : ℕ) → now + 300 ≤ later → (leb (now + min 300 n) later && leb 0 later) ≡ true
    bound now later n h = ground (arith, h)

-- A due row is among the rows of a claim that takes them all.
due_claimed :
    (order : List Logout → List Logout) (n later : ℕ) (session_id : String) (table : List Logout)
    (l : Logout)
    → ((xs : List Logout) (x : Logout) → Member x xs → Member x (order xs))
    → ((xs : List Logout) → length (order xs) ≡ length xs)
    → length table ≤ n
    → Member l table
    → is_due later l ≡ true
    → (l.session_id == session_id) ≡ true
    → is_one (take n (order (filter (is_due later) table))) session_id ≡ true
due_claimed order n later session_id table l sorts size le m due same =
    let short : length (order (filter (is_due later) table)) ≤ n =
      omega
        (arith, size (filter (is_due later) table), length-filter-le (is_due later) table, le) in
    rw (take-eq_of_length n (order (filter (is_due later) table)) short)
      (any-Member (of_session session_id) (sorts _ l (filter-Member (is_due later) m due)) same)

moved :
    (session_id : String) (now : ℕ) {l : Logout} {table : List Logout}
    → Member l table
    → (l.session_id == session_id) ≡ true
    → Member (postponed now l) (update_where (of_session session_id) (postponed now) table)
moved session_id now {l} {table} m e =
    subst
      (λ b.
        Member (if b then postponed now l else l)
          (update_where (of_session session_id) (postponed now) table))
      e (Member-update_where (of_session session_id) (postponed now) m)

both : {a b : Bool} → a ≡ true → b ≡ false → (a && not b) ≡ true
both h k = ground arith

module _ {F : Type 0} where
  -- A worker is given sessions that have ended only, and none of them is given to a worker again
  -- before 30 seconds have passed.
  pub claim_logouts_exclusive :
      (order : List Logout → List Logout) (limit limit' now later : ℕ) (db : Db F) (s : Session)
      → ((xs : List Logout) (x : Logout) → Member x (order xs) → Member x xs)
      → later < now + 30
      → Member s (claim_logouts order limit now db).0
      → Member s db.sessions
        × (s.active ≡ false)
        × (any
              (has_id s.id)
              (claim_logouts order limit' later (claim_logouts order limit now db).1).0
            ≡ false)
  unfolding claim_logouts
  claim_logouts_exclusive order limit limit' now later db s sorts lt m =
      let rows = take (min limit 100) (order (filter (is_due now) db.outbox)) in
      let (k, q) =
        Member-filter (λ (s : Session). is_one rows s.id && not s.active) db.sessions m in
      (
        k,
        ground arith,
        no_session _ s.id db.sessions (
            none_held rows _ order (min limit' 100) later s.id sorts
              (held rows now later db.outbox lt) (ground arith)),
      )

  -- A logout that could not be delivered is given to a worker again, whatever came before: at any
  -- time after 300 seconds, where the worker takes as many rows as there are.
  pub retry_comes_back :
      (order : List Logout → List Logout) (limit now later : ℕ) (db : Db F) (s : Session)
      (l : Logout)
      → ((xs : List Logout) (x : Logout) → Member x xs → Member x (order xs))
      → ((xs : List Logout) → length (order xs) ≡ length xs)
      → Member s db.sessions
      → s.active ≡ false
      → Member l db.outbox
      → l.session_id ≡ s.id
      → length db.outbox ≤ min limit 100
      → now + 300 ≤ later
      → Member s (claim_logouts order limit later (retry_logout_later s.id now db)).0
  unfolding claim_logouts retry_logout_later
  retry_comes_back order limit now later db s l sorts size m e k same le lt =
      let claimed =
        due_claimed order (min limit 100) later s.id (retry_logout_later s.id now db).outbox
          (postponed now l) sorts size
          (omega (arith, length-update_where (of_session s.id) (postponed now) db.outbox, le))
          (moved s.id now k ((eq_iff l.session_id s.id).1 same)) (postponed-is_due now later l lt)
          ((eq_iff l.session_id s.id).1 same) in
      filter-Member
        (λ (t : Session).
          is_one
            (take (min limit 100)
              (order (filter (is_due later) (retry_logout_later s.id now db).outbox)))
            t.id
          && not t.active)
        m (both claimed e)
