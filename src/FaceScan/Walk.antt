-- ===== src/FaceScan/Walk.antt =====
-- The loop of `jpeg_dimensions` in engine/app/facescan.py ends.
use factech.Base.{
  ℕ, zero, suc, ◌+◌, ◌≤◌, ◌<◌, Bool, true, false, ◌||◌, Option, none, some, List, [], ◌∷◌, length,
  ltb, nat_beq, Bool-cases, inl, inr, ◌≡◌, refl, ◌∙◌, arith, if◌then◌else◌,
}
use factech.FaceScan.{
  is_sof, is_standalone, word, skip_fill, drop, Next, returns, resumes, frame_header, measured,
  segment, onward, at_marker, walk, or_none, jpeg_dimensions,
}

length-skip_fill-le : (bs : List ℕ) → length (skip_fill bs) ≤ length bs
unfolding skip_fill
length-skip_fill-le [] = omega arith
length-skip_fill-le (b ∷ bs) = ground (arith, length-skip_fill-le bs)

length-drop-le : (n : ℕ) (bs : List ℕ) → length (drop n bs) ≤ length bs
unfolding drop
length-drop-le zero [] = omega arith
length-drop-le (suc n) [] = omega arith
length-drop-le zero (b ∷ bs) = omega arith
length-drop-le (suc n) (b ∷ bs) = omega (arith, length-drop-le n bs)

-- The loop goes on from an index that is not before.
data IsOnward (n : ℕ) : Next → Type 0 where
  ends : (dims : Option (ℕ × ℕ)) → IsOnward n (returns dims)
  moves : (rest : List ℕ) → length rest ≤ n → IsOnward n (resumes rest)

measured-IsOnward :
    (marker len : ℕ) (rest : List ℕ) → IsOnward (length rest) (measured marker len rest)
measured-IsOnward marker len rest = elim (Bool-cases (is_sof marker)) [
  | inl e ↦ rw e (ends (frame_header len rest))
  | inr e ↦ elim (Bool-cases (nat_beq marker 218 || ltb len 2)) [
    | inl f ↦ rw (e, f) (ends none)
    | inr f ↦ rw (e, f) (moves (drop len rest) (length-drop-le len rest))
  ]
]

gate-IsOnward :
    (b : Bool) (next : Next) (rest : List ℕ)
    → IsOnward (length rest) next
    → IsOnward (length rest) (if b then resumes rest else next)
gate-IsOnward true next rest h = moves rest (omega arith)
gate-IsOnward false next rest h = h

segment-IsOnward : (marker : ℕ) (rest : List ℕ) → IsOnward (length rest) (segment marker rest)
unfolding segment
segment-IsOnward marker [] =
    gate-IsOnward (is_standalone marker || nat_beq marker 0) (returns none) [] (ends none)
segment-IsOnward marker (a ∷ []) =
    gate-IsOnward (is_standalone marker || nat_beq marker 0) (returns none) (a ∷ []) (ends none)
segment-IsOnward marker (a ∷ b ∷ rest) =
    gate-IsOnward (is_standalone marker || nat_beq marker 0)
      (measured marker (word a b) (a ∷ b ∷ rest)) (a ∷ b ∷ rest)
      (measured-IsOnward marker (word a b) (a ∷ b ∷ rest))

onward-same :
    (n : ℕ) (next : Next) (w v : List ℕ → Option (Option (ℕ × ℕ)))
    → IsOnward n next
    → ((rest : List ℕ) → length rest ≤ n → w rest ≡ v rest)
    → onward w next ≡ onward v next
onward-same n next w v (ends dims) h = refl
onward-same n next w v (moves rest le) h = h rest le

at_marker-same :
    (n : ℕ) (bs : List ℕ) (w v : List ℕ → Option (Option (ℕ × ℕ)))
    → length bs ≤ n
    → ((rest : List ℕ) → length rest < n → w rest ≡ v rest)
    → at_marker w bs ≡ at_marker v bs
at_marker-same n [] w v le h = refl
at_marker-same n (marker ∷ rest) w v le h =
    onward-same (length rest) (segment marker rest) w v (segment-IsOnward marker rest)
      (λ r l. h r (omega (arith, l, le)))

-- Two amounts of fuel, both enough.
walk-same :
    (f g : ℕ) (rest : List ℕ) → length rest < f → length rest < g → walk f rest ≡ walk g rest
unfolding walk
walk-same zero g rest h k = absurd (omega (arith, h))
walk-same (suc f) zero rest h k = absurd (omega (arith, k))
walk-same (suc f) (suc g) [] h k = refl
walk-same (suc f) (suc g) (b ∷ bs) h k = elim (Bool-cases (nat_beq b 255)) [
  | inl e ↦
      rw (walk, e)
        (at_marker-same (length bs) (skip_fill bs) (walk f) (walk g) (length-skip_fill-le bs)
          (λ r l. walk-same f g r (omega (arith, l, h)) (omega (arith, l, k))))
  | inr e ↦ rw (walk, e) (walk-same f g bs (omega (arith, h)) (omega (arith, k)))
]

-- What is reached in time.
IsReached : Option (Option (ℕ × ℕ)) → Type 0
IsReached r = (dims : Option (ℕ × ℕ)) × (r ≡ some dims)

onward-IsReached :
    (n : ℕ) (next : Next) (w : List ℕ → Option (Option (ℕ × ℕ)))
    → IsOnward n next
    → ((rest : List ℕ) → length rest ≤ n → IsReached (w rest))
    → IsReached (onward w next)
unfolding IsReached
onward-IsReached n next w (ends dims) h = (dims, refl)
onward-IsReached n next w (moves rest le) h = h rest le

at_marker-IsReached :
    (n : ℕ) (bs : List ℕ) (w : List ℕ → Option (Option (ℕ × ℕ)))
    → length bs ≤ n
    → ((rest : List ℕ) → length rest < n → IsReached (w rest))
    → IsReached (at_marker w bs)
unfolding IsReached
at_marker-IsReached n [] w le h = (none, refl)
at_marker-IsReached n (marker ∷ rest) w le h =
    onward-IsReached (length rest) (segment marker rest) w (segment-IsOnward marker rest)
      (λ r l. h r (omega (arith, l, le)))

walk-IsReached : (fuel : ℕ) (rest : List ℕ) → length rest < fuel → IsReached (walk fuel rest)
unfolding walk IsReached
walk-IsReached zero rest h = absurd (omega (arith, h))
walk-IsReached (suc fuel) [] h = (none, refl)
walk-IsReached (suc fuel) (b ∷ bs) h = elim (Bool-cases (nat_beq b 255)) [
  | inl e ↦
      rw (walk, e)
        (at_marker-IsReached (length bs) (skip_fill bs) (walk fuel) (length-skip_fill-le bs)
          (λ r l. walk-IsReached fuel r (omega (arith, l, h))))
  | inr e ↦ rw (walk, e) (walk-IsReached fuel bs (omega (arith, h)))
]

or_none-some : (r : Option (Option (ℕ × ℕ))) → IsReached r → r ≡ some (or_none r)
unfolding IsReached
or_none-some r (dims, e) = rw e refl

-- The loop over the bytes of a frame returns, and with any fuel above the length the result is that
-- of `jpeg_dimensions`.
pub walk_enough :
    (fuel : ℕ) (jpeg : List ℕ)
    → length jpeg < fuel
    → walk fuel (drop 2 jpeg) ≡ some (jpeg_dimensions jpeg)
unfolding jpeg_dimensions
walk_enough fuel jpeg h =
    let le = length-drop-le 2 jpeg in
    walk-same fuel (length jpeg + 1) (drop 2 jpeg) (omega (arith, le, h)) (omega (arith, le))
    ∙ or_none-some (walk (length jpeg + 1) (drop 2 jpeg))
        (walk-IsReached (length jpeg + 1) (drop 2 jpeg) (omega (arith, le)))
