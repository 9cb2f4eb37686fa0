-- ===== src/Accounts/Status.antt =====
-- The life of a session, abstractly: it is made, it may end, and it never starts again. Every
-- transaction over accounts is a step of this.
use factech.Base.{
  Bool, true, false, Option, none, some, List, [], ◌∷◌, ◌++◌, String, string_eq, ◌≡◌, refl, sym,
  subst, arith, Bool-cases, inl, inr, if◌then◌else◌,
}
use factech.Database.{Db, Session, first, update_where, first-update_where, first-append}
use factech.Database.Keeps.{IsPreorder}
use factech.Accounts.{has_id}

pub data Status : Type 0 where
  absent : Status
  live : Status
  ended : Status

-- The steps of the specification.
abbrev pub may : Status → Status → Bool
may absent _ = true
may live absent = false
may live _ = true
may ended ended = true
may ended _ = false

pub may_refl : (x : Status) → may x x ≡ true
may_refl absent = refl
may_refl live = refl
may_refl ended = refl

pub may_trans : (x y z : Status) → may x y ≡ true → may y z ≡ true → may x z ≡ true
may_trans absent y z h k = refl
may_trans live absent z h k = absurd (cc)
may_trans live live z h k = k
may_trans live ended absent h k = absurd (cc)
may_trans live ended live h k = refl
may_trans live ended ended h k = refl
may_trans ended absent z h k = absurd (cc)
may_trans ended live z h k = absurd (cc)
may_trans ended ended z h k = k

-- The view of a session that the specification has.
abbrev pub of_row : Option Session → Status
of_row none = absent
of_row (some s) = if s.active then live else ended

unfoldable pub status_in : String → List Session → Status
status_in session_id table = of_row (first (has_id session_id) table)

abbrev pub status : {F : Type 0} → String → Db F → Status
status session_id db = status_in session_id db.sessions

-- Two tables, where the second lies later.
pub data Follows (xs ys : List Session) : Type 0 where
  follows :
      ((session_id : String) → may (status_in session_id xs) (status_in session_id ys) ≡ true)
      → Follows xs ys

-- Where the row is the same or later.
later :
    (p : Session → Bool) (f : Session → Session) (row : Option Session)
    → ((s : Session) → (f s).active ≡ true → s.active ≡ true)
    → may (of_row row) (of_row (elim row [ some s ↦ some (if p s then f s else s) | none ↦ none ]))
      ≡ true
later p f none down = refl
later p f (some s) down = elim (Bool-cases (p s)) [
  | inl e ↦ rw e (states s.active (f s).active (down s))
  | inr e ↦ rw e (may_refl (of_row (some s)))
]
  where
    states :
        (a b : Bool)
        → (b ≡ true → a ≡ true)
        → may (if a then live else ended) (if b then live else ended) ≡ true
    states a b h = ground arith

Follows-update :
    (p : Session → Bool) (f : Session → Session) (xs : List Session)
    → ((s : Session) → (f s).id ≡ s.id)
    → ((s : Session) → (f s).active ≡ true → s.active ≡ true)
    → Follows xs (update_where p f xs)
unfolding status_in
Follows-update p f xs keep down = follows (λ i.
    rw (first-update_where (has_id i) p f xs (λ s. rw (keep s) refl))
      (later p f (first (has_id i) xs) down))

Follows-append : (xs : List Session) (s : Session) → Follows xs (xs ++ s ∷ [])
unfolding status_in
Follows-append xs s =
    follows (λ i. rw (first-append (has_id i) xs s) (longer i (first (has_id i) xs)))
  where
    longer :
        (i : String) (row : Option Session)
        → may
            (of_row row)
            (of_row (elim row [ some t ↦ some t | none ↦ if has_id i s then some s else none ]))
          ≡ true
    longer i none = refl
    longer i (some t) = may_refl (of_row (some t))

follows-of :
    (i : String) (xs ys : List Session)
    → Follows xs ys
    → may (status_in i xs) (status_in i ys) ≡ true
follows-of i xs ys (follows h) = h i

-- The order on states.
unfoldable pub Later : {F : Type 0} → Db F → Db F → Type 0
Later db next = Follows db.sessions next.sessions

pub Later-IsPreorder : {F : Type 0} → IsPreorder (Later {F = F})
unfolding Later
Later-IsPreorder = record {
  same = λ db. follows (λ i. may_refl (status_in i db.sessions));
  chain = λ s t u h k. follows (λ i.
      may_trans (status_in i s.sessions) (status_in i t.sessions) (status_in i u.sessions)
        (follows-of i s.sessions t.sessions h) (follows-of i t.sessions u.sessions k));
}

pub Later-of_same : {F : Type 0} (db next : Db F) → db.sessions ≡ next.sessions → Later db next
unfolding Later
Later-of_same db next h =
    subst (Follows db.sessions) h (follows (λ i. may_refl (status_in i db.sessions)))

pub Later-of_update :
    {F : Type 0} (db next : Db F) (p : Session → Bool) (f : Session → Session)
    → next.sessions ≡ update_where p f db.sessions
    → ((s : Session) → (f s).id ≡ s.id)
    → ((s : Session) → (f s).active ≡ true → s.active ≡ true)
    → Later db next
unfolding Later
Later-of_update db next p f h keep down =
    subst (Follows db.sessions) (sym h) (Follows-update p f db.sessions keep down)

pub Later-of_append :
    {F : Type 0} (db next : Db F) (s : Session)
    → next.sessions ≡ db.sessions ++ s ∷ []
    → Later db next
unfolding Later
Later-of_append db next s h = subst (Follows db.sessions) (sym h) (Follows-append db.sessions s)

pub may-of_later :
    {F : Type 0} (i : String) (db next : Db F)
    → Later db next
    → may (status i db) (status i next) ≡ true
unfolding Later
may-of_later i db next h = follows-of i db.sessions next.sessions h
