-- ===== src/FaceScan/Header.antt =====
-- Where a JPEG holds its size, and that `jpeg_dimensions` of engine/app/facescan.py reads it there.
use factech.Base.{
  ℕ, zero, suc, ◌+◌, ◌/◌, ◌%◌, ◌≤◌, ◌<◌, Bool, true, false, not, ◌&&◌, ◌||◌, some, List, [], ◌∷◌,
  ◌++◌, length, length-append, ltb, nat_beq, All, ◌≡◌, refl, sym, ap, ◌∙◌, arith,
}
use mathlib.Core.Option.{some-injective}
use factech.FaceScan.{
  is_sof, is_standalone, word, skip_fill, drop, resumes, returns, segment, onward, walk,
  jpeg_dimensions,
}
use factech.FaceScan.Walk.{walk_enough}

-- A segment before the frame header.
pub record Segment : Type 0 where
  pub marker : ℕ
  pub payload : List ℕ

-- A marker with a length that is neither a frame header nor the start of the image's data.
abbrev pub is_plain : ℕ → Bool
is_plain m =
    not (is_sof m)
    && not (is_standalone m || nat_beq m 0)
    && not (nat_beq m 218)
    && not (nat_beq m 255)

abbrev pub IsSegment : Segment → Type 0
IsSegment s = (is_plain s.marker ≡ true) × (length s.payload ≤ 65533)

-- The bytes of a 16-bit number.
abbrev pub high : ℕ → ℕ
high n = n / 256

abbrev pub low : ℕ → ℕ
low n = n % 256

-- Segments, then what follows them.
unfoldable pub write_segments : List Segment → List ℕ → List ℕ
write_segments [] tail = tail
write_segments (s ∷ ss) tail =
    255
    ∷ s.marker
    ∷ high (length s.payload + 2)
    ∷ low (length s.payload + 2)
    ∷ (s.payload ++ write_segments ss tail)

unfoldable pub write_header : ℕ → ℕ → ℕ → ℕ → ℕ → List ℕ → List ℕ
write_header sof len precision width height tail =
    255
    ∷ sof
    ∷ high len
    ∷ low len
    ∷ precision
    ∷ high height
    ∷ low height
    ∷ high width
    ∷ low width
    ∷ tail

word-high : (n : ℕ) → word (high n) (low n) ≡ n
word-high n = omega arith

drop-append : (n : ℕ) (xs ys : List ℕ) → length xs ≡ n → drop n (xs ++ ys) ≡ ys
unfolding drop
drop-append zero [] [] h = refl
drop-append zero [] (y ∷ ys) h = refl
drop-append (suc n) [] ys h = absurd (omega (arith, h))
drop-append zero (x ∷ xs) ys h = absurd (omega (arith, h))
drop-append (suc n) (x ∷ xs) ys h = drop-append n xs ys (omega (arith, h))

-- What the tests of a marker say.
plain-parts :
    (m : ℕ)
    → is_plain m ≡ true
    → (is_sof m ≡ false)
      × ((is_standalone m || nat_beq m 0) ≡ false)
      × (nat_beq m 218 ≡ false)
      × (nat_beq m 255 ≡ false)
plain-parts m h = (ground (arith, h), ground (arith, h), ground (arith, h), ground (arith, h))

sof-parts :
    (m : ℕ) → is_sof m ≡ true → ((is_standalone m || nat_beq m 0) ≡ false) × (nat_beq m 255 ≡ false)
unfolding is_sof is_standalone
sof-parts m h = (ground (arith, h), ground (arith, h))

not_short : (n : ℕ) → ltb (n + 2) 2 ≡ false
not_short n = ground arith

long_enough : (n : ℕ) → 7 ≤ n → ltb n 7 ≡ false
long_enough n h = ground (arith, h)

segment-plain :
    (s : Segment) (rest : List ℕ)
    → is_plain s.marker ≡ true
    → segment s.marker
        (high (length s.payload + 2) ∷ low (length s.payload + 2) ∷ (s.payload ++ rest))
      ≡ resumes rest
unfolding segment
segment-plain s rest h =
    let (sof, alone, scan, fill) = plain-parts s.marker h in
    rw (alone, sof, scan, word-high (length s.payload + 2), not_short (length s.payload))
      (ap resumes (
        drop-append (length s.payload + 2)
          (high (length s.payload + 2) ∷ low (length s.payload + 2) ∷ s.payload) rest
          (omega arith)))

segment-sof :
    (sof len precision width height : ℕ) (tail : List ℕ)
    → is_sof sof ≡ true
    → 7 ≤ len
    → segment sof
        (high len ∷ low len ∷ precision ∷ high height ∷ low height ∷ high width ∷ low width ∷ tail)
      ≡ returns (some (width, height))
unfolding segment
segment-sof sof len precision width height tail h le =
    rw
      ((sof-parts sof h).0, h, word-high len, long_enough len le, word-high width, word-high height)
      refl

-- Past the fill byte of a marker.
walk-segment :
    (f marker : ℕ) (rest : List ℕ)
    → nat_beq marker 255 ≡ false
    → walk (suc f) (255 ∷ marker ∷ rest) ≡ onward (walk f) (segment marker rest)
unfolding walk skip_fill
walk-segment f marker rest h = rw h refl

walk-header :
    (f : ℕ) (ss : List Segment) (sof len precision width height : ℕ) (tail : List ℕ)
    → All IsSegment ss
    → is_sof sof ≡ true
    → 7 ≤ len
    → length (write_segments ss (write_header sof len precision width height tail)) < f
    → walk f (write_segments ss (write_header sof len precision width height tail))
      ≡ some (some (width, height))
unfolding write_segments write_header
walk-header zero ss sof len precision width height tail plain h le lt = absurd (omega (arith, lt))
walk-header (suc f) [] sof len precision width height tail plain h le lt =
    rw
      (
        walk-segment f sof
            (high len
              ∷ low len
              ∷ precision
              ∷ high height
              ∷ low height
              ∷ high width
              ∷ low width
              ∷ tail)
            (sof-parts sof h).1,
        segment-sof sof len precision width height tail h le,
      )
      refl
walk-header (suc f) (s ∷ ss) sof len precision width height tail plain h le lt =
    let rest = write_segments ss (write_header sof len precision width height tail) in
    rw
      (
        walk-segment f s.marker
            (high (length s.payload + 2) ∷ low (length s.payload + 2) ∷ (s.payload ++ rest))
            (plain-parts s.marker plain.0.0).3,
        segment-plain s rest plain.0.0,
      )
      (walk-header f ss sof len precision width height tail plain.1 h le
        (omega (arith, lt, length-append s.payload rest)))

-- In the bytes of a JPEG, however many segments stand before its frame header and whatever follows
-- that, the size that is read is the one that was written.
pub jpeg_dimensions-write :
    (ss : List Segment) (sof len precision width height : ℕ) (tail : List ℕ)
    → All IsSegment ss
    → is_sof sof ≡ true
    → 7 ≤ len
    → jpeg_dimensions
        (255 ∷ 216 ∷ write_segments ss (write_header sof len precision width height tail))
      ≡ some (width, height)
jpeg_dimensions-write ss sof len precision width height tail plain h le =
    let jpeg = 255 ∷ 216 ∷ write_segments ss (write_header sof len precision width height tail) in
    some-injective (jpeg_dimensions jpeg) (some (width, height)) (
      sym (walk_enough (length jpeg + 1) jpeg (omega arith))
      ∙ ap (walk (length jpeg + 1)) (
          drop-append 2 (255 ∷ 216 ∷ [])
            (write_segments ss (write_header sof len precision width height tail)) refl)
      ∙ walk-header (length jpeg + 1) ss sof len precision width height tail plain h le
          (omega arith))
