-- ===== src/Operations/Nonces.antt =====
-- Nonces over sequences of claims: whoever asks, and in whatever order, each is spent once.
use factech.Base.{
  ℕ, ◌+◌, ◌≤◌, Bool, true, false, ◌&&◌, some, List, [], ◌∷◌, length, filter, String, Member, All,
  All-Member, any-Member, ◌==◌, string_eq, ◌≡◌, refl, subst, arith, Bool-cases, inl, inr,
  if◌then◌else◌,
}
use factech.Numbers.{Floats}
use factech.Contracts.{Result, ok, err}
use factech.Database.{
  Db, Challenge, update_where, All-update_where, All-update_from, count-update_where, All-of_unique,
}
use factech.Database.Tx.{Tx, run}
use factech.Guard.{Target}
use factech.Operations.{Env, Request, Claimed, claimed, replay, spendable}
use factech.Operations.Scan.{claim}
use factech.Operations.Claims.{claim_sound, replay_sound}

-- A claim that is tried: at what time, by whom, under what new identity.
pub record Attempt (F : Type 0) : Type 0 where
  pub env : Env
  pub rq : Request F
  pub operation_id : String

module _ {F : Type 0} (fl : Floats F) where
  abbrev try_claim : Attempt F → Tx (Db F) (Claimed F)
  try_claim a = run (claim fl a.env a.rq a.operation_id)

  abbrev is_claimed : Result (Claimed F) → Bool
  is_claimed (ok (claimed c)) = true
  is_claimed _ = false

  -- How many of the attempts, each in its transaction, go to analysis with the nonce.
  unfoldable pub wins : String → List (Attempt F) → Db F → ℕ
  wins digest [] db = 0
  wins digest (a ∷ attempts) db =
      let rest = wins digest attempts (try_claim a db).1 in
      if a.rq.nonce_digest == digest && is_claimed (try_claim a db).0 then rest + 1 else rest

  abbrev of_digest : String → Challenge F → Bool
  of_digest digest ch = ch.digest == digest

  -- The digest is the table's primary key.
  abbrev pub IsKey : String → Db F → Type 0
  IsKey digest db = length (filter (of_digest digest) db.challenges) ≤ 1

  abbrev IsUsed : String → Db F → Type 0
  IsUsed digest db =
      All (λ (ch : Challenge F). of_digest digest ch ≡ true → ch.consumed ≡ true) db.challenges

  abbrev mark : String → Challenge F → Challenge F
  mark operation_id ch = record ch { consumed = true; operation_id = some operation_id }

  -- What an attempt does to the nonces, by how it ends.
  abbrev Effect : Attempt F → Db F → Result (Claimed F) → Db F → Type 0
  Effect a db (ok (claimed c)) db' =
      (target : Target) × Member c.challenge db.challenges
      × (spendable a.rq target (a.env.clock 2) c.challenge ≡ true)
      × (db'.challenges
          ≡ update_where (spendable a.rq target (a.env.clock 2)) (mark a.operation_id)
              db.challenges)
  Effect a db (ok (replay o)) db' = db'.challenges ≡ db.challenges
  Effect a db (err d) db' = db'.challenges ≡ db.challenges

  settled :
      (a : Attempt F) (db : Db F) (r : Result (Claimed F) × Db F)
      → claim fl a.env a.rq a.operation_id db ≡ r
      → Effect a db
          (run (claim fl a.env a.rq a.operation_id) db).0
          (run (claim fl a.env a.rq a.operation_id) db).1
  unfolding run spendable
  settled a db (err d, s) h = rw h refl
  settled a db (ok (replay o), s) h =
      let (m, p, q, w, e, l, os, cs, ts) = replay_sound fl a.env a.rq a.operation_id db s o h in
      rw h cs
  settled a db (ok (claimed c), s) h =
      let d = claim_sound fl a.env a.rq a.operation_id c db s h in
      rw h (d.target, d.read, d.fits, d.marked)

  effect : (a : Attempt F) (db : Db F) → Effect a db (try_claim a db).0 (try_claim a db).1
  effect a db = settled a db (claim fl a.env a.rq a.operation_id db) refl

  IsUsed-Effect :
      (digest : String) (a : Attempt F) (db db' : Db F) (r : Result (Claimed F))
      → Effect a db r db'
      → IsUsed digest db
      → IsUsed digest db'
  IsUsed-Effect digest a db db' (err d) h used = rw h used
  IsUsed-Effect digest a db db' (ok (replay o)) h used = rw h used
  IsUsed-Effect digest a db db' (ok (claimed c)) (target, m, sp, cs) used = rw cs (
      All-update_where (λ (ch : Challenge F). of_digest digest ch ≡ true → ch.consumed ≡ true)
        (spendable a.rq target (a.env.clock 2)) (mark a.operation_id) db.challenges
        (λ ch q g e. refl) used)

  IsKey-Effect :
      (digest : String) (a : Attempt F) (db db' : Db F) (r : Result (Claimed F))
      → Effect a db r db'
      → IsKey digest db
      → IsKey digest db'
  IsKey-Effect digest a db db' (err d) h key = rw h key
  IsKey-Effect digest a db db' (ok (replay o)) h key = rw h key
  IsKey-Effect digest a db db' (ok (claimed c)) (target, m, sp, cs) key =
      rw
        (
          cs,
          count-update_where (of_digest digest) (spendable a.rq target (a.env.clock 2))
              (mark a.operation_id) db.challenges (λ ch. refl),
        )
        key

  spendable-of_digest :
      (rq : Request F) (target : Target) (now : ℕ) (ch : Challenge F)
      → spendable rq target now ch ≡ true
      → (of_digest rq.nonce_digest ch ≡ true) × (ch.consumed ≡ false)
  unfolding spendable
  spendable-of_digest rq target now ch h = ground arith

  used-not_claimed :
      (a : Attempt F) (db db' : Db F) (r : Result (Claimed F))
      → Effect a db r db'
      → IsUsed a.rq.nonce_digest db
      → is_claimed r ≡ false
  used-not_claimed a db db' (err d) h used = refl
  used-not_claimed a db db' (ok (replay o)) h used = refl
  used-not_claimed a db db' (ok (claimed c)) (target, m, sp, cs) used =
      let (q, free) = spendable-of_digest a.rq target (a.env.clock 2) c.challenge sp in
      let spent =
        All-Member
          (λ (ch : Challenge F). of_digest a.rq.nonce_digest ch ≡ true → ch.consumed ≡ true) used m
          q in
      absurd (cc)

  claimed-IsUsed :
      (a : Attempt F) (db db' : Db F) (r : Result (Claimed F))
      → Effect a db r db'
      → is_claimed r ≡ true
      → IsKey a.rq.nonce_digest db
      → IsUsed a.rq.nonce_digest db'
  claimed-IsUsed a db db' (err d) h won key = absurd (cc)
  claimed-IsUsed a db db' (ok (replay o)) h won key = absurd (cc)
  claimed-IsUsed a db db' (ok (claimed c)) (target, m, sp, cs) won key = rw cs (
      All-update_from
        (λ (ch : Challenge F).
          of_digest a.rq.nonce_digest ch ≡ true → spendable a.rq target (a.env.clock 2) ch ≡ true)
        (λ (ch : Challenge F). of_digest a.rq.nonce_digest ch ≡ true → ch.consumed ≡ true)
        (spendable a.rq target (a.env.clock 2)) (mark a.operation_id) db.challenges
        (λ ch g q e. refl) (λ ch g q e. let z = g e in absurd (cc))
        (All-of_unique (of_digest a.rq.nonce_digest) (spendable a.rq target (a.env.clock 2))
          db.challenges (λ ch q. (spendable-of_digest a.rq target (a.env.clock 2) ch q).0) key
          (any-Member (spendable a.rq target (a.env.clock 2)) m sp)))

  used-wins :
      (digest : String) (attempts : List (Attempt F)) (db : Db F)
      → IsUsed digest db
      → wins digest attempts db ≡ 0
  unfolding wins
  used-wins digest [] db used = refl
  used-wins digest (a ∷ attempts) db used =
      let rest =
        used-wins digest attempts (try_claim a db).1
          (IsUsed-Effect digest a db (try_claim a db).1 (try_claim a db).0 (effect a db) used) in
      elim (Bool-cases (a.rq.nonce_digest == digest)) [
        | inr e ↦ rw e rest
        | inl e ↦
            let same = (string_eq.beq_iff a.rq.nonce_digest digest).0 e in
            rw
              (
                e,
                used-not_claimed a db (try_claim a db).1 (try_claim a db).0 (effect a db)
                    (rw same used),
              )
              rest
      ]

  -- In every sequence of claims, by any people with any sessions and clocks, over a table whose key is
  -- the nonce's digest, at most one claim goes to analysis with a given nonce.
  pub nonce_claimed_once :
      (digest : String) (attempts : List (Attempt F)) (db : Db F)
      → IsKey digest db
      → wins digest attempts db ≤ 1
  unfolding wins
  nonce_claimed_once digest [] db key = omega arith
  nonce_claimed_once digest (a ∷ attempts) db key =
      elim (Bool-cases (a.rq.nonce_digest == digest && is_claimed (try_claim a db).0)) [
        | inr e ↦ rw e (
            nonce_claimed_once digest attempts (try_claim a db).1
              (IsKey-Effect digest a db (try_claim a db).1 (try_claim a db).0 (effect a db) key))
        | inl e ↦
            let same = (string_eq.beq_iff a.rq.nonce_digest digest).0 (ground arith) in
            let used =
              claimed-IsUsed a db (try_claim a db).1 (try_claim a db).0 (effect a db) (ground arith)
                (rw same key) in
            let rest =
              used-wins digest attempts (try_claim a db).1
                (subst (λ d. IsUsed d (try_claim a db).1) same used) in
            rw (e, rest) (omega arith)
      ]
