-- ===== src/Limits/Table.antt =====
-- The memory of a window: one deque for a key, each within the limit, and the table within `keys`.
use factech.Base.{
  ℕ, suc, ◌+◌, ◌*◌, ◌≤◌, ◌<◌, none, some, List, [], ◌∷◌, ◌++◌, String, Dict, lookup, erase,
  lookup-erase, lookup-append, length, length-append, leb, ltb, ◌==◌, string_eq, eq_iff, ◌≡◌, ◌≢◌,
  refl, ap, ◌∙◌, subst, arith, Bool-cases, inl, inr, UniqueKeys, UniqueKeys-erase,
  UniqueKeys-append, lookup-erase_self, erase-eq_of_none, length-erase-lt, All, if◌then◌else◌,
}
use native.Mathlib.Nat.{zero-add}
use factech.Limits.{Window, second, hits_of, prune, touch, evict, retry_after, window}
use factech.Limits.Prune.{length-prune-le}
use factech.Limits.Rate.{Calls, retry_after-config}

-- Every deque of the table is within the limit, and no key has two.
pub record IsTable (w : Window) : Type 0 where
  pub unique : UniqueKeys w.hits
  pub short : All (λ (e : String × List ℕ). length e.1 ≤ w.limit) w.hits

-- The table itself is within `keys`.
abbrev pub InBounds : Window → Type 0
InBounds w = length w.hits ≤ w.keys

module _ (limit : ℕ) where
  abbrev Short : String × List ℕ → Type 0
  Short e = length e.1 ≤ limit

  Short-erase : (k : String) (d : Dict String (List ℕ)) → All Short d → All Short (erase k d)
  unfolding erase
  Short-erase k [] a = tt
  Short-erase k ((j, l) ∷ d) a = elim (Bool-cases (j == k)) [
    | inl e ↦ rw e (Short-erase k d a.1)
    | inr e ↦ rw e (a.0, Short-erase k d a.1)
  ]

  Short-append :
      (k : String) (l : List ℕ) (d : Dict String (List ℕ))
      → length l ≤ limit
      → All Short d
      → All Short (d ++ (k, l) ∷ [])
  Short-append k l [] h a = (h, tt)
  Short-append k l (e ∷ d) h a = (a.0, Short-append k l d h a.1)

  Short-evict : (keys : ℕ) (d : Dict String (List ℕ)) → All Short d → All Short (evict keys d)
  unfolding evict
  Short-evict keys [] a = tt
  Short-evict keys (e ∷ d) a = elim (Bool-cases (ltb keys (suc (length d)))) [
    | inl q ↦ rw q (Short-evict keys d a.1)
    | inr q ↦ rw q a
  ]

  Short-hits_of :
      (k : String) (d : Dict String (List ℕ)) → All Short d → length (hits_of k d) ≤ limit
  unfolding hits_of lookup
  Short-hits_of k [] a = omega arith
  Short-hits_of k ((j, l) ∷ d) a = ground (arith, Short-hits_of k d a.1)

UniqueKeys-evict : (keys : ℕ) (d : Dict String (List ℕ)) → UniqueKeys d → UniqueKeys (evict keys d)
unfolding evict
UniqueKeys-evict keys [] u = tt
UniqueKeys-evict keys (e ∷ d) u = elim (Bool-cases (ltb keys (suc (length d)))) [
  | inl q ↦ rw q (UniqueKeys-evict keys d u.1)
  | inr q ↦ rw q u
]

pub UniqueKeys-touch :
    (k : String) (l : List ℕ) (d : Dict String (List ℕ)) → UniqueKeys d → UniqueKeys (touch k l d)
unfolding touch
UniqueKeys-touch k l d u =
    UniqueKeys-append k l (erase k d) (lookup-erase_self k d) (UniqueKeys-erase k d u)

length-evict-le : (keys : ℕ) (d : Dict String (List ℕ)) → length (evict keys d) ≤ keys
unfolding evict
length-evict-le keys [] = omega arith
length-evict-le keys (e ∷ d) = ground (arith, length-evict-le keys d)

pub Fits-of_IsTable :
    (key : String) (w : Window) → IsTable w → length (hits_of key w.hits) ≤ w.limit
Fits-of_IsTable key w h = Short-hits_of w.limit key w.hits h.short

hits_of-none :
    (k : String) (d : Dict String (List ℕ)) → lookup k d ≡ none → length (hits_of k d) ≡ 0
unfolding hits_of
hits_of-none k d z = ground arith

module _ (key : String) (t : ℕ) (w : Window) where
  abbrev live_now : List ℕ
  live_now = prune (w.seconds * second) t (hits_of key w.hits)

  IsTable-refused : IsTable w → IsTable (record w { hits = touch key live_now w.hits })
  unfolding touch
  IsTable-refused h = record {
    unique = unfold touch in UniqueKeys-touch key live_now w.hits h.unique;
    short =
        Short-append w.limit key live_now (erase key w.hits)
          (omega (
            arith,
            length-prune-le (w.seconds * second) t (hits_of key w.hits),
            Fits-of_IsTable key w h,
          ))
          (Short-erase w.limit key w.hits h.short);
  }

  IsTable-allowed :
      length live_now < w.limit
      → IsTable w
      → IsTable (record w { hits = evict w.keys (touch key (live_now ++ t ∷ []) w.hits) })
  unfolding touch
  IsTable-allowed few h = record {
    unique =
        UniqueKeys-evict w.keys (touch key (live_now ++ t ∷ []) w.hits)
          (UniqueKeys-touch key (live_now ++ t ∷ []) w.hits h.unique);
    short = Short-evict w.limit w.keys (touch key (live_now ++ t ∷ []) w.hits) (
        Short-append w.limit key (live_now ++ t ∷ []) (erase key w.hits)
          (omega (arith, length-append live_now (t ∷ [])))
          (Short-erase w.limit key w.hits h.short));
  }

  -- Every call, allowed or refused, keeps one deque for a key, each within the limit.
  pub retry_after-IsTable : IsTable w → IsTable (retry_after key t w).1
  unfolding retry_after
  retry_after-IsTable h = elim (Bool-cases (leb w.limit (length live_now))) [
    | inl e ↦ rw e (IsTable-refused h)
    | inr e ↦ rw e (IsTable-allowed (ground arith) h)
  ]

  touch_refused :
      0 < w.limit → w.limit ≤ length live_now → length (touch key live_now w.hits) ≤ length w.hits
  unfolding touch
  touch_refused pos full = omega (
    arith,
    length-append (erase key w.hits) ((key, live_now) ∷ []),
    length-erase-lt key w.hits present,
  )
    where
      present : lookup key w.hits ≢ none
      present z = ground (
        arith,
        length-prune-le (w.seconds * second) t (hits_of key w.hits),
        hits_of-none key w.hits z,
      )

  -- Under a limit of at least one hit, the table never grows past `keys`.
  pub retry_after-InBounds : 0 < w.limit → InBounds w → InBounds (retry_after key t w).1
  unfolding retry_after
  retry_after-InBounds pos h = elim (Bool-cases (leb w.limit (length live_now))) [
    | inl e ↦ rw e (omega (arith, touch_refused pos (ground arith)))
    | inr e ↦ rw e (length-evict-le w.keys (touch key (live_now ++ t ∷ []) w.hits))
  ]

-- The window after some calls.
unfoldable pub after : Window → Calls → Window
after w [] = w
after w ((key, t) ∷ calls) = after (retry_after key t w).1 calls

zero_limit_step :
    (key : String) (t : ℕ) (w : Window)
    → w.limit ≡ 0
    → retry_after key t w
      ≡ ((retry_after key t w).0, record w { hits = touch key (live_now key t w) w.hits })
unfolding retry_after
zero_limit_step key t w z = ground arith

pub lookup-touch :
    (k j : String) (l : List ℕ) (d : Dict String (List ℕ))
    → lookup j (touch k l d) ≡ (if k == j then some l else lookup j d)
unfolding touch
lookup-touch k j l d = ground (arith, lookup-append k j l (erase k d), lookup-erase k j d)

length-touch_new :
    (k : String) (l : List ℕ) (d : Dict String (List ℕ))
    → lookup k d ≡ none
    → length (touch k l d) ≡ suc (length d)
unfolding touch
length-touch_new k l d h =
    rw (erase-eq_of_none k d h) (omega (arith, length-append d ((k, l) ∷ [])))

grows :
    (w : Window) (calls : Calls)
    → w.limit ≡ 0
    → UniqueKeys calls
    → ((j : String) → lookup j calls ≢ none → lookup j w.hits ≡ none)
    → length (after w calls).hits ≡ length w.hits + length calls
unfolding after
grows w [] z u new = omega arith
grows w ((key, t) ∷ calls) z u new = omega (arith, grows w' calls (config.0 ∙ z) u.1 new', size)
  where
    w' : Window
    w' = (retry_after key t w).1

    config : (w'.limit ≡ w.limit) × (w'.seconds ≡ w.seconds) × (w'.keys ≡ w.keys)
    config = retry_after-config key t w

    shape : w'.hits ≡ touch key (live_now key t w) w.hits
    shape = ap (λ (r : ℕ × Window). r.1.hits) (zero_limit_step key t w z)

    fresh : lookup key w.hits ≡ none
    fresh = new key (unfold lookup in ground (arith, eq_iff key key))

    size : length w'.hits ≡ suc (length w.hits)
    size = rw shape (length-touch_new key (live_now key t w) w.hits fresh)

    new' : (j : String) → lookup j calls ≢ none → lookup j w'.hits ≡ none
    new' j h = elim (Bool-cases (key == j)) [
      | inl e ↦ absurd (h (subst (λ x. lookup x calls ≡ none) ((eq_iff key j).0 e) u.0))
      | inr e ↦
          rw (shape, lookup-touch key j (live_now key t w) w.hits, e)
            (new j (unfold lookup in rw e h))
    ]

-- Under a limit of zero the bound on the table does not hold: every call by a new key is refused
-- and still adds a deque, so that any number of distinct keys, also more than `keys`, leaves a table
-- of that size.
pub zero_limit_grows :
    (seconds keys : ℕ) (calls : Calls)
    → UniqueKeys calls
    → length (after (window 0 seconds keys) calls).hits ≡ length calls
zero_limit_grows seconds keys calls u =
    grows (window 0 seconds keys) calls refl u (λ j h. unfold lookup in refl)
    ∙ zero-add (length calls)
