-- ===== src/FaceScan.antt =====
-- engine/app/facescan.py: a scan as it is received, its JPEG headers and what is checked of it.
-- Base64 and msgpack are arguments; `rest` is what is left of the bytes at an index.
pub mod Walk
pub mod Header
pub mod Checked
mod Tests
use factech.Base.{
  ℕ, zero, suc, ◌+◌, ◌*◌, ◌/◌, min, max, ℤ, pos, negsuc, Bool, true, false, not, ◌&&◌, ◌||◌, Option,
  none, some, List, [], ◌∷◌, String, length, size, leb, ltb, nat_beq, ◌==◌, string_eq,
  if◌then◌else◌,
}
use factech.Contracts.{Denied, Result, ok, err, refuse, ◌>>=◌, ◌>>◌}

abbrev pub max_bytes : ℕ
max_bytes = 350 * 1024

abbrev pub max_b64_chars : ℕ
max_b64_chars = 4 * ((max_bytes + 2) / 3)

-- _bad
abbrev pub malformed : Denied
malformed = refuse "MALFORMED_SCAN" 422

abbrev pub too_large : Denied
too_large = refuse "PAYLOAD_TOO_LARGE" 413

-- _SOF_MARKERS
unfoldable pub is_sof : ℕ → Bool
is_sof m =
    leb 192 m && leb m 207 && not (nat_beq m 196) && not (nat_beq m 200) && not (nat_beq m 204)

-- _STANDALONE_MARKERS
unfoldable pub is_standalone : ℕ → Bool
is_standalone m = nat_beq m 1 || (leb 208 m && leb m 217)

-- (b << 8) | c, for bytes
abbrev pub word : ℕ → ℕ → ℕ
word b c = b * 256 + c

-- while jpeg[i] == 0xFF: i += 1
unfoldable pub skip_fill : List ℕ → List ℕ
skip_fill [] = []
skip_fill (b ∷ bs) = if nat_beq b 255 then skip_fill bs else b ∷ bs

unfoldable pub drop : ℕ → List ℕ → List ℕ
drop n [] = []
drop zero (b ∷ bs) = b ∷ bs
drop (suc n) (b ∷ bs) = drop n bs

-- Where the loop goes from a marker: it returns, or it goes on from an index.
pub data Next : Type 0 where
  returns : Option (ℕ × ℕ) → Next
  resumes : List ℕ → Next

-- The frame header, at its length.
abbrev pub frame_header : ℕ → List ℕ → Option (ℕ × ℕ)
frame_header len (a ∷ b ∷ precision ∷ h ∷ h' ∷ w ∷ w' ∷ rest) =
    if ltb len 7 then none else some (word w w', word h h')
frame_header len _ = none

abbrev pub measured : ℕ → ℕ → List ℕ → Next
measured marker len rest =
    if is_sof marker
    then returns (frame_header len rest)
    else if nat_beq marker 218 || ltb len 2
    then returns none
    else resumes (drop len rest)

-- The body of the loop past `marker`.
unfoldable pub segment : ℕ → List ℕ → Next
segment marker [] = if is_standalone marker || nat_beq marker 0 then resumes [] else returns none
segment marker (a ∷ []) =
    if is_standalone marker || nat_beq marker 0 then resumes (a ∷ []) else returns none
segment marker (a ∷ b ∷ rest) =
    if is_standalone marker || nat_beq marker 0
    then resumes (a ∷ b ∷ rest)
    else measured marker (word a b) (a ∷ b ∷ rest)

abbrev pub onward : (List ℕ → Option (Option (ℕ × ℕ))) → Next → Option (Option (ℕ × ℕ))
onward walk (returns dims) = some dims
onward walk (resumes rest) = walk rest

abbrev pub at_marker : (List ℕ → Option (Option (ℕ × ℕ))) → List ℕ → Option (Option (ℕ × ℕ))
at_marker walk [] = some none
at_marker walk (marker ∷ rest) = onward walk (segment marker rest)

-- The loop; `none` is out of fuel.
unfoldable pub walk : ℕ → List ℕ → Option (Option (ℕ × ℕ))
walk zero rest = none
walk (suc fuel) [] = some none
walk (suc fuel) (b ∷ bs) = elim (nat_beq b 255) [
  | true ↦ at_marker (walk fuel) (skip_fill bs)
  | false ↦ walk fuel bs
]

abbrev pub or_none : Option (Option (ℕ × ℕ)) → Option (ℕ × ℕ)
or_none none = none
or_none (some dims) = dims

unfoldable pub jpeg_dimensions : List ℕ → Option (ℕ × ℕ)
jpeg_dimensions jpeg = or_none (walk (length jpeg + 1) (drop 2 jpeg))

-- _check_dimensions
unfoldable pub within_limits : ℕ × ℕ → Bool
within_limits (width, height) =
    leb (max width height) 1280
    && leb (width * height) 1000000
    && not (nat_beq (min width height) 0)
    && leb (max width height) (3 * min width height)

abbrev pub check_dimensions : Option (ℕ × ℕ) → Result (Unit {0})
check_dimensions none = ok tt
check_dimensions (some dims) = if within_limits dims then ok tt else err malformed

-- What msgpack unpacks to; texts are the bytes that `surrogateescape` gives back.
mutual
  pub data Value : Type 0 where
    nil : Value
    boolean : Bool → Value
    int : ℤ → Value
    other : Value
    text : List ℕ → Value
    bytes : List ℕ → Value
    array : Values → Value
    table : Fields → Value

  pub data Values : Type 0 where
    no_more : Values
    item : Value → Values → Values

  pub data Fields : Type 0 where
    end_fields : Fields
    field : String → Value → Fields → Fields

-- d.get(key)
unfoldable pub get : String → Fields → Value
get key end_fields = nil
get key (field k v rest) = if k == key then v else get key rest

abbrev pub is_table : Value → Bool
is_table (table _) = true
is_table _ = false

-- Missing, null or a map.
abbrev pub is_pose : Value → Bool
is_pose nil = true
is_pose v = is_table v

-- type(version) is int and version == 1
abbrev pub is_version : Value → Bool
is_version (int (pos n)) = nat_beq n 1
is_version _ = false

-- _frame_bytes
abbrev pub frame_bytes : Value → Option (List ℕ)
frame_bytes (bytes b) = some b
frame_bytes (text b) = some b
frame_bytes _ = none

-- jpeg.startswith(JPEG_SOI)
abbrev pub starts_jpeg : List ℕ → Bool
starts_jpeg (a ∷ b ∷ _) = nat_beq a 255 && nat_beq b 216
starts_jpeg _ = false

abbrev pub checked_jpeg : Option (List ℕ) → Result (List ℕ)
checked_jpeg none = err malformed
checked_jpeg (some jpeg) = if starts_jpeg jpeg then ok jpeg else err malformed

-- ts > prev_ts
abbrev pub int_ltb : ℤ → ℤ → Bool
int_ltb (pos a) (pos b) = ltb a b
int_ltb (pos a) (negsuc b) = false
int_ltb (negsuc a) (pos b) = true
int_ltb (negsuc a) (negsuc b) = ltb b a

abbrev pub follows : Option ℤ → ℤ → Bool
follows none ts = true
follows (some prev) ts = int_ltb prev ts

abbrev pub checked_ts : Option ℤ → Value → Result ℤ
checked_ts prev (int ts) = if follows prev ts then ok ts else err malformed
checked_ts prev _ = err malformed

-- A frame past the checks.
pub record Frame : Type 0 where
  pub jpeg : List ℕ
  pub ts : ℤ

abbrev pub checked_frame : Option ℤ → Value → Result Frame
checked_frame prev (table frame) = do
  jpeg ← checked_jpeg (frame_bytes (get "jpeg_bytes" frame))
  check_dimensions (jpeg_dimensions jpeg)
  ts ← checked_ts prev (get "ts_ms" frame)
  if is_pose (get "pose" frame) then ok (record { jpeg = jpeg; ts = ts }) else err malformed
checked_frame prev _ = err malformed

-- The loop over the frames, with prev_ts.
unfoldable pub checked_frames : Option ℤ → Values → Result (List Frame)
checked_frames prev no_more = ok []
checked_frames prev (item v rest) = do
  frame ← checked_frame prev v
  frames ← checked_frames (some frame.ts) rest
  ok (frame ∷ frames)

abbrev pub count : Values → ℕ
count no_more = 0
count (item _ rest) = suc (count rest)

abbrev pub checked_array : Value → Result (List Frame)
checked_array (array vs) = if nat_beq (count vs) 12 then checked_frames none vs else err malformed
checked_array _ = err malformed

-- _validate
unfoldable pub validate : Value → Result (List Frame)
validate (table scan) =
    if is_version (get "version" scan)
      && is_table (get "device" scan)
      && is_table (get "challenge" scan)
    then checked_array (get "frames" scan)
    else err malformed
validate _ = err malformed

abbrev pub validate_unpacked : Option Value → Result (List Frame)
validate_unpacked none = err malformed
validate_unpacked (some scan) = validate scan

-- parse_facescan_bytes
unfoldable pub parse_facescan_bytes : (List ℕ → Option Value) → List ℕ → Result (List Frame)
parse_facescan_bytes unpack raw =
    if ltb max_bytes (length raw) then err too_large else validate_unpacked (unpack raw)

abbrev pub parse_decoded : (List ℕ → Option Value) → Option (List ℕ) → Result (List Frame)
parse_decoded unpack none = err malformed
parse_decoded unpack (some raw) = parse_facescan_bytes unpack raw

-- parse_facescan; `decode` is base64.b64decode, `none` where it raises
unfoldable pub parse_facescan :
    (String → Option (List ℕ)) → (List ℕ → Option Value) → String → Result (List Frame)
parse_facescan decode unpack facescan_b64 =
    if ltb max_b64_chars (size facescan_b64)
    then err too_large
    else parse_decoded unpack (decode facescan_b64)
