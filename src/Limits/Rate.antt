-- ===== src/Limits/Rate.antt =====
-- A window lets no more than its limit through in any stretch of its length.
use factech.Base.{
  ℕ, ◌*◌, ◌≤◌, ◌<◌, true, false, ◌&&◌, List, [], ◌∷◌, ◌++◌, String, Dict, lookup, erase,
  lookup-erase, lookup-append, length, leb, ◌==◌, nat_beq, string_eq, eq_iff, ◌≡◌, refl, sym, ◌∙◌,
  subst, arith, All, All-append, Bool-cases, inl, inr, if◌then◌else◌,
}
use mathlib.Core.Path.{subst₂}
use factech.Limits.{
  Window, second, hits_of, prune, touch, evict, wait_for, oldest_or, retry_after, window,
}
use factech.Limits.Pace.{count_if, count_if-append, live, within, Paced, Paced-within}
use factech.Limits.Prune.{
  Ordered, Ordered-prune, Ordered-append, length-prune, count-prune, All-prune,
}

abbrev pub Calls : Type 0
Calls = List (String × ℕ)

-- The clock does not run backwards.
abbrev pub InOrder : ℕ → Calls → Type 0
InOrder now [] = Unit
InOrder now ((key, t) ∷ calls) = (now ≤ t) × InOrder t calls

-- No call finds the table full, so that no key is dropped for another.
abbrev pub HasRoom : Window → Calls → Type 0
HasRoom w [] = Unit
HasRoom w ((key, t) ∷ calls) =
    (length (touch key [] w.hits) ≤ w.keys) × HasRoom (retry_after key t w).1 calls

-- The times of the calls for `key` that were allowed, newest first, above those in `past`.
unfoldable pub admitted : String → Window → Calls → List ℕ → List ℕ
admitted key w [] past = past
admitted key w ((j, t) ∷ calls) past =
    let (wait, w') = retry_after j t w in
    admitted key w' calls (if j == key && nat_beq wait 0 then t ∷ past else past)

pub hits_of-touch :
    (k j : String) (l : List ℕ) (d : Dict String (List ℕ))
    → hits_of j (touch k l d) ≡ (if k == j then l else hits_of j d)
unfolding hits_of touch
hits_of-touch k j l d = ground (arith, lookup-append k j l (erase k d), lookup-erase k j d)

pub length-touch :
    (k : String) (l m : List ℕ) (d : Dict String (List ℕ))
    → length (touch k l d) ≡ length (touch k m d)
unfolding touch
length-touch k l m d = go (erase k d)
  where
    go : (e : Dict String (List ℕ)) → length (e ++ (k, l) ∷ []) ≡ length (e ++ (k, m) ∷ [])
    go [] = refl
    go (x ∷ e) = omega (arith, go e)

evict-eq_of_le : (keys : ℕ) (d : Dict String (List ℕ)) → length d ≤ keys → evict keys d ≡ d
unfolding evict
evict-eq_of_le keys [] h = refl
evict-eq_of_le keys (e ∷ d) h = ground (arith, evict-eq_of_le keys d)

pub wait-pos : (span now oldest : ℕ) → 1 ≤ wait_for span now oldest
unfolding wait_for
wait-pos span now oldest = omega arith

module _ (limit span : ℕ) where
  -- The deque of `hits` counts what the admissions in `past` count.
  record Tracks (past hits : List ℕ) (now : ℕ) : Type 0 where
    ordered : Ordered hits
    hits_old : All (λ h. h ≤ now) hits
    past_old : All (λ h. h ≤ now) past
    same : (t : ℕ) → now ≤ t → count_if (live span t) past ≡ count_if (live span t) hits
    paced : Paced limit span past

  All-le : (a b : ℕ) (l : List ℕ) → a ≤ b → All (λ h. h ≤ a) l → All (λ h. h ≤ b) l
  All-le a b [] le h = tt
  All-le a b (x ∷ l) le h = (omega arith, All-le a b l le h.1)

  Tracks-later :
      {past hits : List ℕ} {now t : ℕ} → now ≤ t → Tracks past hits now → Tracks past hits t
  Tracks-later {past} {hits} {now} {t} le h = record {
    ordered = h.ordered;
    hits_old = All-le now t hits le h.hits_old;
    past_old = All-le now t past le h.past_old;
    same = λ u g. h.same u (omega arith);
    paced = h.paced;
  }

  Tracks-prune :
      {past hits : List ℕ} {now : ℕ} → Tracks past hits now → Tracks past (prune span now hits) now
  Tracks-prune {past} {hits} {now} h = record {
    ordered = Ordered-prune span now hits h.ordered;
    hits_old = All-prune (λ t. t ≤ now) span now hits h.hits_old;
    past_old = h.past_old;
    same = λ t le. ground (arith, h.same t le, count-prune span now t hits le);
    paced = h.paced;
  }

  Tracks-admit :
      {past hits : List ℕ} {now : ℕ}
      → length (prune span now hits) < limit
      → Tracks past hits now
      → Tracks (now ∷ past) (prune span now hits ++ now ∷ []) now
  Tracks-admit {past} {hits} {now} few h =
      let p = Tracks-prune h in
      record {
        ordered = Ordered-append now (prune span now hits) p.ordered p.hits_old;
        hits_old =
            All-append (λ t. t ≤ now) (prune span now hits) (now ∷ []) p.hits_old (omega arith, tt);
        past_old = (omega arith, h.past_old);
        same = λ t le.
            ground
              (arith, p.same t le, count_if-append (live span t) (prune span now hits) (now ∷ []));
        paced =
            (h.past_old, omega (arith, h.same now, length-prune span now hits h.ordered), h.paced);
      }

module _ (key j : String) (t : ℕ) (w : Window) where
  abbrev pub span_of : ℕ
  span_of = w.seconds * second

  abbrev pub live_of : List ℕ
  live_of = prune span_of t (hits_of j w.hits)

  pub refused :
      leb w.limit (length live_of) ≡ true
      → retry_after j t w
        ≡ (wait_for span_of t (oldest_or t live_of), record w { hits = touch j live_of w.hits })
  unfolding retry_after
  refused e = rw e

  pub allowed :
      leb w.limit (length live_of) ≡ false
      → length (touch j [] w.hits) ≤ w.keys
      → retry_after j t w ≡ (0, record w { hits = touch j (live_of ++ t ∷ []) w.hits })
  unfolding retry_after
  allowed e room = rw (
    e,
    evict-eq_of_le w.keys (touch j (live_of ++ t ∷ []) w.hits)
        (omega (arith, length-touch j (live_of ++ t ∷ []) [] w.hits)),
  )

  Tracks-refused :
      {past : List ℕ}
      → Tracks w.limit span_of past (hits_of key w.hits) t
      → Tracks w.limit span_of past (hits_of key (touch j live_of w.hits)) t
  Tracks-refused h = elim (Bool-cases (j == key)) [
    | inl e ↦
        let same = (eq_iff j key).0 e in
        rw (hits_of-touch j key live_of w.hits, e) (rw same (Tracks-prune w.limit span_of h))
    | inr e ↦ rw (hits_of-touch j key live_of w.hits, e) h
  ]

  Tracks-allowed :
      {past : List ℕ}
      → length live_of < w.limit
      → Tracks w.limit span_of past (hits_of key w.hits) t
      → Tracks w.limit span_of
          (if j == key && true then t ∷ past else past)
          (hits_of key (touch j (live_of ++ t ∷ []) w.hits))
          t
  Tracks-allowed {past} few h = elim (Bool-cases (j == key)) [
    | inl e ↦
        let same = (eq_iff j key).0 e in
        rw (hits_of-touch j key (live_of ++ t ∷ []) w.hits, e)
          (Tracks-admit w.limit span_of few
            (subst (λ x. Tracks w.limit span_of past (hits_of x w.hits) t) (sym same) h))
    | inr e ↦ rw (hits_of-touch j key (live_of ++ t ∷ []) w.hits, e) h
  ]

  wait_not_zero : (o : ℕ) → nat_beq (wait_for span_of t o) 0 ≡ false
  wait_not_zero o = ground (arith, wait-pos span_of t o)

  Tracks-step :
      {past : List ℕ}
      → length (touch j [] w.hits) ≤ w.keys
      → Tracks w.limit span_of past (hits_of key w.hits) t
      → let r = retry_after j t w in
        Tracks w.limit span_of
          (if j == key && nat_beq r.0 0 then t ∷ past else past)
          (hits_of key r.1.hits)
          t
  Tracks-step {past} room h = elim (Bool-cases (leb w.limit (length live_of))) [
    | inl e ↦ rw (refused e, wait_not_zero (oldest_or t live_of), and_false) (Tracks-refused h)
    | inr e ↦ rw (allowed e room) (Tracks-allowed (ground arith) h)
  ]
    where
      and_false : (j == key && false) ≡ false
      and_false = ground arith

pub retry_after-config :
    (j : String) (t : ℕ) (w : Window)
    → ((retry_after j t w).1.limit ≡ w.limit)
      × ((retry_after j t w).1.seconds ≡ w.seconds)
      × ((retry_after j t w).1.keys ≡ w.keys)
unfolding retry_after
retry_after-config j t w = ground arith

Paced-admitted :
    (key : String) (limit seconds now : ℕ) (w : Window) (calls : Calls) (past : List ℕ)
    → w.limit ≡ limit
    → w.seconds ≡ seconds
    → InOrder now calls
    → HasRoom w calls
    → Tracks limit (seconds * second) past (hits_of key w.hits) now
    → Paced limit (seconds * second) (admitted key w calls past)
unfolding admitted
Paced-admitted key limit seconds now w [] past el es o room h = h.paced
Paced-admitted key limit seconds now w ((j, t) ∷ calls) past el es o room h =
    let r = retry_after j t w in
    let (cl, cs, _) = retry_after-config j t w in
    Paced-admitted key limit seconds t r.1 calls
      (if j == key && nat_beq r.0 0 then t ∷ past else past) (cl ∙ el) (cs ∙ es) o.1 room.1
      (subst₂
        (λ l s.
          Tracks l (s * second) (if j == key && nat_beq r.0 0 then t ∷ past else past)
            (hits_of key r.1.hits) t)
        el es
        (Tracks-step key j t w room.0 (
          subst₂ (λ l s. Tracks l (s * second) past (hits_of key w.hits) t) (sym el) (sym es)
            (Tracks-later limit (seconds * second) o.0 h))))

-- A new window that is called at any times in order, for any keys while its table has room, lets
-- at most `limit` calls of one key through in every stretch of `seconds` seconds.
pub admitted-le-limit :
    (limit seconds keys : ℕ) (calls : Calls) (key : String) (start : ℕ)
    → InOrder 0 calls
    → HasRoom (window limit seconds keys) calls
    → count_if (within (seconds * second) start) (admitted key (window limit seconds keys) calls [])
      ≤ limit
admitted-le-limit limit seconds keys calls key start o room =
    Paced-within limit (seconds * second) start (admitted key (window limit seconds keys) calls [])
      (Paced-admitted key limit seconds 0 (window limit seconds keys) calls [] refl refl o room (
        unfold hits_of lookup in
        record { ordered = tt; hits_old = tt; past_old = tt; same = λ t le. refl; paced = tt }))
