-- ===== src/FaceScan/Tests.antt =====
-- A small JPEG, and a scan of twelve of them.
use factech.Base.{
  ℕ, zero, suc, ◌+◌, ◌≤◌, pos, true, some, Option, List, [], ◌∷◌, length, size, String, ◌≡◌, refl,
  arith,
}
use factech.Contracts.{ok, err}
use factech.FaceScan.{
  Value, Values, no_more, item, end_fields, field, Frame, get, is_sof, is_standalone, skip_fill,
  drop, segment, walk, jpeg_dimensions, within_limits, malformed, checked_frames, validate,
  parse_facescan_bytes, parse_facescan,
}
use factech.FaceScan.Walk.{walk_enough}
use factech.FaceScan.Header.{
  Segment, IsSegment, write_segments, write_header, jpeg_dimensions-write,
}
use factech.FaceScan.Checked.{IsScan, parse_facescan_sound}

-- SOI, a comment of two bytes, a frame header of 16 by 32 pixels.
abbrev jpeg_one : List ℕ
jpeg_one =
    255 ∷ 216 ∷ 255 ∷ 254 ∷ 0 ∷ 4 ∷ 7 ∷ 9 ∷ 255 ∷ 255 ∷ 192 ∷ 0 ∷ 17 ∷ 8 ∷ 0 ∷ 32 ∷ 0 ∷ 16 ∷ 3 ∷ []

sized : jpeg_dimensions jpeg_one ≡ some (16, 32)
unfolding jpeg_dimensions walk skip_fill segment is_sof is_standalone drop
sized = refl

walk_enough_example : walk 20 (drop 2 jpeg_one) ≡ some (jpeg_dimensions jpeg_one)
walk_enough_example = walk_enough 20 jpeg_one (omega arith)

abbrev comment : Segment
comment = record { marker = 254; payload = 7 ∷ 9 ∷ [] }

comment-IsSegment : IsSegment comment
unfolding is_sof is_standalone
comment-IsSegment = (refl, omega arith)

sof_zero : is_sof 192 ≡ true
unfolding is_sof
sof_zero = refl

jpeg_dimensions-write_example :
    jpeg_dimensions
      (255 ∷ 216 ∷ write_segments (comment ∷ []) (write_header 192 17 8 640 480 (3 ∷ [])))
    ≡ some (640, 480)
jpeg_dimensions-write_example =
    jpeg_dimensions-write (comment ∷ []) 192 17 8 640 480 (3 ∷ []) (comment-IsSegment, tt) sof_zero
      (omega arith)

abbrev frames_from : ℕ → ℕ → Values
frames_from zero ts = no_more
frames_from (suc n) ts =
    item
      (Value.table
        (field "jpeg_bytes" (Value.bytes jpeg_one) (field "ts_ms" (Value.int (pos ts)) end_fields)))
      (frames_from n (ts + 100))

abbrev scan_of : ℕ → Value
scan_of n = Value.table (
    field "version" (Value.int (pos 1)) (
      field "device" (Value.table end_fields) (
        field "challenge" (Value.table end_fields)
          (field "frames" (Value.array (frames_from n 0)) end_fields))))

abbrev listed : ℕ → ℕ → List Frame
listed zero ts = []
listed (suc n) ts = record { jpeg = jpeg_one; ts = pos ts } ∷ listed n (ts + 100)

-- Eleven frames are too few.
too_few : validate (scan_of 11) ≡ err malformed
unfolding validate get
too_few = refl

abbrev decode_one : String → Option (List ℕ)
decode_one s = some jpeg_one

abbrev unpack_one : List ℕ → Option Value
unpack_one raw = some (scan_of 12)

accepted : parse_facescan decode_one unpack_one "AA==" ≡ ok (listed 12 0)
unfolding parse_facescan parse_facescan_bytes validate get checked_frames jpeg_dimensions walk
    skip_fill segment is_sof is_standalone drop within_limits
accepted = refl

parse_facescan_sound_example :
    (size "AA==" ≤ 477868)
    × ((raw : List ℕ) × (decode_one "AA==" ≡ some raw)
        × (length raw ≤ 358400)
        × IsScan (listed 12 0))
parse_facescan_sound_example =
    parse_facescan_sound decode_one unpack_one "AA==" (listed 12 0) accepted
